-- ===== src/Replay/Plan.antt =====
-- The replay planner: internal/cdc/replay_plan.go, buildReplayPlanForGenerationVersion and what it
-- calls. The fingerprint cache is left out: a fingerprint is computed where it is read. `sha` is
-- SHA-256, an argument.
pub mod Work
pub mod Admission
pub mod Schedules
pub mod Loop
pub mod Order
pub mod Covers
pub mod Totals
use pgmigrate.Base.{
  ℕ, zero, suc, ◌+◌, Bool, true, false, not, ◌&&◌, ◌||◌, List, [], ◌∷◌, ◌++◌, Option, none, some,
  ltb, leb, ◌==◌, if◌then◌else◌,
}
use pgmigrate.Base.Lists.{length}
use pgmigrate.Base.Results.{Result, ok, err, ◌>>=◌, ◌>>◌, fail_if}
use pgmigrate.Cdc.Model.{Lsn, Relation, Change, TransactionSpill, Transaction, change_count}
use pgmigrate.Cdc.Codec.Decode.{same_bytes}
use pgmigrate.Replay.Hash.{
  Digest, Hasher, new_replay_claim_hasher, write_replay_hash_bytes, write_replay_hash_int,
}
use pgmigrate.Replay.Relations.{TargetRelation, target_relation_replay_fingerprint_version}
use pgmigrate.Replay.Claim.{
  PlanError, unsupported_plan_version, invalid_plan_input, missing_relation, uncovered_changes,
  uncovered_transactions, index_out_of_range, ReplayClaim, ReplayClaimWork,
  replay_claim_plan_version, replay_claim_minimum_plan_version, replay_claim_id,
  replay_fence_generation,
}
use pgmigrate.Replay.Lanes.{
  RelationBatchedChange, PlanTransaction, PlanLane, replay_transaction_component_lanes,
}
use pgmigrate.Replay.Keys.Version.{replay_change_key_for_version}
use pgmigrate.Replay.Plan.Admission.{check_relations, plan_transaction, note_definitions}
use pgmigrate.Replay.Plan.Work.{
  Resolved, resolve, parallel_replay_work, serial_replay_work, replay_plan_digest,
  replay_plan_work_changes, replay_plan_work_transactions,
}

-- A lane with its work.
pub record StepLane : Type 0 where
  pub assigned : PlanLane
  pub work : ReplayClaimWork

pub record PlanStep : Type 0 where
  pub index : ℕ
  pub lanes : List StepLane
  pub serial_transaction : Option ℕ

pub record ReplayPlan : Type 0 where
  pub claim : ReplayClaim
  pub works : List ReplayClaimWork
  pub steps : List PlanStep
  pub has_parallel : Bool

-- The variables of the loop over transactions.
pub record Planning : Type 0 where
  pub works : List ReplayClaimWork
  pub steps : List PlanStep
  pub has_parallel : Bool
  pub current_epoch : List PlanTransaction
  pub last_definitions : List (ℕ × Digest)
  pub catalog_hasher : Hasher

unfoldable pub replay_plan_has_serial_work : List PlanStep → Bool
replay_plan_has_serial_work [] = false
replay_plan_has_serial_work (step ∷ steps) =
    let later = replay_plan_has_serial_work steps in
    elim step.serial_transaction [ some index ↦ true | none ↦ later ]

unfoldable pub replay_plan_work : List ReplayClaimWork → ℕ → ℕ → Option ReplayClaimWork
replay_plan_work [] step work = none
replay_plan_work (candidate ∷ rest) step work =
    let later = replay_plan_work rest step work in
    if candidate.step == step && candidate.work == work then some candidate else later

-- One lane of a step: its work is appended to the plan's.
unfoldable pub add_work :
    StepLane → List StepLane × List ReplayClaimWork → List StepLane × List ReplayClaimWork
add_work lane (lanes, works) = (lane ∷ lanes, lane.work ∷ works)

unfoldable pub flushed : Planning → List StepLane × List ReplayClaimWork → Planning
flushed p (lanes, works) = record p {
  works = p.works ++ works;
  steps =
      p.steps ++ record { index = length p.steps; lanes = lanes; serial_transaction = none } ∷ [];
  has_parallel = p.has_parallel || ltb 1 (length lanes);
  current_epoch = [];
}

unfoldable pub planning : Planning
planning = record {
  works = [];
  steps = [];
  has_parallel = false;
  current_epoch = [];
  last_definitions = [];
  catalog_hasher = new_replay_claim_hasher "pgmigrate-replay-catalog-v1";
}

unfoldable pub serial_step : ℕ → Planning → ReplayClaimWork → Planning
serial_step index p work = record p {
  works = p.works ++ work ∷ [];
  steps =
      p.steps
      ++ record { index = length p.steps; lanes = []; serial_transaction = some index } ∷ [];
}

module _ (sha : List ℕ → Digest) (plan_version lane_count : ℕ) (transactions : List Transaction)
    (relations : List Resolved) where
  -- The lanes with transactions get their work, in order.
  unfoldable pub work_lanes :
      ℕ → List PlanLane → Result PlanError (List StepLane × List ReplayClaimWork)
  unfolding add_work
  work_lanes step [] = ok ([], [])
  work_lanes step (lane ∷ lanes) =
      let later = work_lanes step lanes in
      if length lane.transaction_indexes == 0
      then later
      else (parallel_replay_work sha plan_version transactions relations step lane.lane
            lane.transaction_indexes
          >>= λ work.
              later >>= λ rest. ok (add_work (record { assigned = lane; work = work }) rest))

  unfoldable pub flush_parallel : Planning → Result PlanError Planning
  unfolding flushed
  flush_parallel p =
      if length p.current_epoch == 0
      then ok p
      else (replay_transaction_component_lanes sha p.current_epoch lane_count >>= λ lanes.
          work_lanes (length p.steps) lanes >>= λ worked. ok (flushed p worked))

  -- A safe transaction joins the epoch; any other ends it and has a step of its own.
  unfoldable pub place_transaction :
      ℕ → Transaction → Planning → Option PlanTransaction → Result PlanError Planning
  unfolding serial_step
  place_transaction index tx p (some planned) =
      ok (record p { current_epoch = p.current_epoch ++ planned ∷ [] })
  place_transaction index tx p none = flush_parallel p >>= λ f.
      serial_replay_work sha (length f.steps) index tx >>= λ work. ok (serial_step index f work)

  -- One round of the loop.
  unfoldable pub add_transaction : ℕ → Resolved → Planning → Transaction → Result PlanError Planning
  add_transaction index resolved p tx =
      check_relations sha plan_version index 0 resolved p.last_definitions p.catalog_hasher
        tx.relations
      >>= λ (hasher, changed).
          plan_transaction sha plan_version index resolved changed tx >>= λ planned.
          place_transaction index tx (record p { catalog_hasher = hasher }) planned >>= λ placed.
          ok (record placed {
            last_definitions =
                note_definitions sha plan_version resolved tx.relations placed.last_definitions;
          })

  unfoldable pub plan_all :
      ℕ → Planning → List Transaction → List Resolved → Result PlanError Planning
  plan_all index p [] rest = ok p
  plan_all index p (tx ∷ txs) [] = err index_out_of_range
  plan_all index p (tx ∷ txs) (resolved ∷ rest) =
      add_transaction index resolved p tx >>= λ q. plan_all (suc index) q txs rest

  -- The loop and the last flush.
  unfoldable pub plan_steps : Result PlanError Planning
  unfolding planning
  plan_steps = plan_all 0 planning transactions relations >>= flush_parallel

unfoldable pub total_changes : List Transaction → ℕ
total_changes [] = 0
total_changes (tx ∷ txs) = change_count tx + total_changes txs

last_end_lsn : Lsn → List Transaction → Lsn
last_end_lsn lsn [] = lsn
last_end_lsn lsn (tx ∷ txs) = last_end_lsn tx.end_lsn txs

-- The claim before its digest is known.
unfoldable pub unnamed_claim :
    (List ℕ → Digest)
    → List ℕ
    → List ℕ
    → List ℕ
    → Lsn
    → ℕ
    → List Transaction
    → ℕ
    → Planning
    → ReplayClaim
unfolding last_end_lsn
unnamed_claim sha stream_id generation start_generation start_lsn lane_count transactions
      plan_version p =
    record {
      id = [];
      stream_id = stream_id;
      generation = generation;
      start_generation = start_generation;
      fence_generation = [];
      start_lsn = start_lsn;
      end_lsn = last_end_lsn 0 transactions;
      digest = [];
      catalog_digest = sha p.catalog_hasher;
      plan_version = plan_version;
      lane_count = lane_count;
      transactions = length transactions;
      changes = total_changes transactions;
      expected_work = length p.works;
    }

unfoldable pub named_plan : ReplayClaim → Planning → Digest → ReplayPlan
named_plan claim p digest =
    let id = replay_claim_id digest in
    record {
      claim = record claim {
        digest = digest;
        id = id;
        fence_generation = replay_fence_generation claim.generation id;
      };
      works = p.works;
      steps = p.steps;
      has_parallel = p.has_parallel;
    }

-- The totals are checked, and the claim gets its digest.
unfoldable pub finish_plan :
    (List ℕ → Digest) → List Transaction → ReplayClaim → Planning → Result PlanError ReplayPlan
finish_plan sha transactions claim p = do
  fail_if (not (total_changes transactions == replay_plan_work_changes p.works)) uncovered_changes
  fail_if (not (length transactions == replay_plan_work_transactions p.works))
      uncovered_transactions
  digest ← replay_plan_digest sha claim transactions p.works
  ok (named_plan claim p digest)

unfoldable pub invalid_input :
    List ℕ → List ℕ → List ℕ → ℕ → List Transaction → List Resolved → Bool
invalid_input stream_id generation start_generation lane_count transactions relations =
    length stream_id == 0
    || length generation == 0
    || length start_generation == 0
    || ltb lane_count 1
    || length transactions == 0
    || not (length relations == length transactions)

unfoldable pub build_replay_plan_for_generation_version :
    (List ℕ → Digest)
    → List ℕ
    → List ℕ
    → List ℕ
    → Lsn
    → ℕ
    → List Transaction
    → List Resolved
    → ℕ
    → Result PlanError ReplayPlan
build_replay_plan_for_generation_version sha stream_id generation start_generation start_lsn
      lane_count transactions relations plan_version =
    do
      fail_if
          (ltb plan_version replay_claim_minimum_plan_version
            || ltb replay_claim_plan_version plan_version)
          unsupported_plan_version
      fail_if
          (invalid_input stream_id generation start_generation lane_count transactions relations)
          invalid_plan_input
      p ← plan_steps sha plan_version lane_count transactions relations
      finish_plan sha transactions
          (unnamed_claim sha stream_id generation start_generation start_lsn lane_count transactions
            plan_version p)
          p

unfoldable pub build_replay_plan_for_generation :
    (List ℕ → Digest)
    → List ℕ
    → List ℕ
    → List ℕ
    → Lsn
    → ℕ
    → List Transaction
    → List Resolved
    → Result PlanError ReplayPlan
build_replay_plan_for_generation sha stream_id generation start_generation start_lsn lane_count
      transactions relations =
    build_replay_plan_for_generation_version sha stream_id generation start_generation start_lsn
      lane_count transactions relations replay_claim_plan_version

unfoldable pub build_replay_plan :
    (List ℕ → Digest)
    → List ℕ
    → List ℕ
    → Lsn
    → ℕ
    → List Transaction
    → List Resolved
    → Result PlanError ReplayPlan
build_replay_plan sha stream_id generation start_lsn lane_count transactions relations =
    build_replay_plan_for_generation sha stream_id generation generation start_lsn lane_count
      transactions relations
