-- ===== src/Replay/Plan/Schedules.antt =====
-- The order of a plan's steps, internal/cdc/replay_plan.go, buildReplayPlanForGenerationVersion.
use pgmigrate.Base.{
  ℕ, suc, ◌≤◌, ◌≡◌, inl, inr, refl, sym, ap, Bool, true, false, List, [], ◌∷◌, ◌++◌, map, Option,
  none, some, arith, ◌==◌, if◌then◌else◌,
}
use pgmigrate.Base.Lists.{length, All, All-append, get_elem?}
use pgmigrate.Base.Results.{Result, ok, ok_ok, >>=-eq-ok, if-eq}
use pgmigrate.Cdc.Model.{TransactionSpill, Transaction}
use pgmigrate.Replay.Claim.{PlanError, ReplayClaimWork}
use pgmigrate.Replay.Hash.{Digest}
use pgmigrate.Replay.Lanes.{PlanTransaction, PlanLane, RelationBatchedChange}
use pgmigrate.Replay.Lanes.Shares.{Assigns}
use pgmigrate.Replay.Plan.Work.{Resolved, parallel_replay_work}
use pgmigrate.Replay.Plan.{StepLane, PlanStep, add_work, work_lanes}
use pgmigrate.Replay.Plan.Admission.{plan_changes, plan_resident, plan_transaction, keyed, with_key}

-- The lanes that have transactions.
unfoldable pub used : List PlanLane → List PlanLane
used [] = []
used (lane ∷ lanes) =
    let rest = used lanes in if length lane.transaction_indexes == 0 then rest else lane ∷ rest

abbrev pub assigned_of : StepLane → PlanLane
assigned_of lane = lane.assigned

-- What a planned transaction is.
abbrev pub IsKeyed : ℕ → Bool → PlanTransaction → Type 0
IsKeyed index changed t = (1 ≤ length t.keys) × (t.index ≡ index) × (changed ≡ false)

keyed-IsKeyed :
    (sha : List ℕ → Digest) (v lsn index : ℕ)
    (found : Option (List Digest × List RelationBatchedChange)) (t : PlanTransaction)
    → ◌≡◌ {A = Result PlanError (Option PlanTransaction)}
        (ok (keyed sha v lsn index found))
        (ok (some t))
    → IsKeyed index false t
unfolding keyed with_key
keyed-IsKeyed sha v lsn index none t h = cc
keyed-IsKeyed sha v lsn index (some ([], items)) t h =
    let made : with_key sha v lsn index ([], items) ≡ t = cc in
    rw (sym made) (omega arith, refl, refl)
keyed-IsKeyed sha v lsn index (some (key ∷ keys, items)) t h =
    let made : with_key sha v lsn index (key ∷ keys, items) ≡ t = cc in
    rw (sym made) (omega arith, refl, refl)

plan_resident-IsKeyed :
    (sha : List ℕ → Digest) (plan_version index : ℕ) (resolved : Resolved) (changed : Bool)
    (tx : Transaction) (spill : Option TransactionSpill) (t : PlanTransaction)
    → plan_resident sha plan_version index resolved changed tx spill ≡ ok (some t)
    → IsKeyed index changed t
unfolding plan_resident
plan_resident-IsKeyed sha v index resolved changed tx (some spill) t h = cc
plan_resident-IsKeyed sha v index resolved true tx none t h = cc
plan_resident-IsKeyed sha v index resolved false tx none t h =
    let (found, planned, made) = >>=-eq-ok (plan_changes sha v index 0 resolved tx.changes) _ h in
    keyed-IsKeyed sha v tx.end_lsn index found t made

pub plan_transaction-IsKeyed :
    (sha : List ℕ → Digest) (plan_version index : ℕ) (resolved : Resolved) (changed : Bool)
    (tx : Transaction) (t : PlanTransaction)
    → plan_transaction sha plan_version index resolved changed tx ≡ ok (some t)
    → IsKeyed index changed t
unfolding plan_transaction
plan_transaction-IsKeyed sha v index resolved changed tx t h =
    plan_resident-IsKeyed sha v index resolved changed tx tx.spill t h

module _ (sha : List ℕ → Digest) (plan_version lane_count : ℕ) (transactions : List Transaction)
    (relations : List Resolved) where
  -- Transaction `index` is resident, and all of its changes have keys.
  pub record Planned (index : ℕ) (t : PlanTransaction) : Type 0 where
    pub tx : Transaction
    pub resolved : Resolved
    pub tx_at : get_elem? transactions index ≡ some tx
    pub resolved_at : get_elem? relations index ≡ some resolved
    pub planned : plan_transaction sha plan_version index resolved false tx ≡ ok (some t)

  -- Consecutive planned transactions, from the first index up to the last.
  pub data Epoch : ℕ → List PlanTransaction → ℕ → Type 0 where
    empty : (a : ℕ) → Epoch a [] a
    more :
        (a m : ℕ) (ts : List PlanTransaction) (t : PlanTransaction)
        → Epoch a ts m
        → Planned m t
        → Epoch a (ts ++ t ∷ []) (suc m)

  -- Steps that hold the first transactions, each once, in order: a step has one transaction, or the
  -- lanes of an epoch.
  pub data Schedules : List PlanStep → ℕ → Type 0 where
    start : Schedules [] 0
    serial :
        (steps : List PlanStep) (a : ℕ)
        → Schedules steps a
        → Schedules
            (steps ++ record { index = length steps; lanes = []; serial_transaction = some a } ∷ [])
            (suc a)
    parallel :
        (steps : List PlanStep) (a m : ℕ) (epoch : List PlanTransaction) (lanes : List PlanLane)
        (step_lanes : List StepLane)
        → Schedules steps a
        → 1 ≤ length epoch
        → Epoch a epoch m
        → Assigns epoch lane_count lanes
        → map assigned_of step_lanes ≡ used lanes
        → Schedules
            (steps
              ++ record { index = length steps; lanes = step_lanes; serial_transaction = none }
                ∷ [])
            m

  pub Epoch-keyed :
      (a m : ℕ) (ts : List PlanTransaction) → Epoch a ts m → All (λ t. 1 ≤ length t.keys) ts
  Epoch-keyed a m ts (empty _) = tt
  Epoch-keyed a m ts (more _ k us t before planned) =
      All-append _ us (t ∷ []) (Epoch-keyed a k us before) (
        (plan_transaction-IsKeyed sha plan_version k planned.resolved false planned.tx t
            planned.planned).0,
        tt,
      )

  pub work_lanes-used :
      (step : ℕ) (lanes : List PlanLane) (out : List StepLane × List ReplayClaimWork)
      → work_lanes sha plan_version lane_count transactions relations step lanes ≡ ok out
      → map assigned_of out.0 ≡ used lanes
  unfolding work_lanes used add_work
  work_lanes-used step [] out h = let made : ([], []) ≡ out = ok_ok h in rw (sym made) refl
  work_lanes-used step (lane ∷ lanes) out h =
      elim (if-eq (length lane.transaction_indexes == 0) _ _ h) [
        | inl (idle, later) ↦ rw idle (work_lanes-used step lanes out later)
        | inr (busy, later) ↦
            let (work, worked, next) =
              >>=-eq-ok
                (parallel_replay_work sha plan_version transactions relations step lane.lane
                  lane.transaction_indexes)
                _ later in
            let (rest, others, made) =
              >>=-eq-ok (work_lanes sha plan_version lane_count transactions relations step lanes) _
                next in
            let out_is = ok_ok made in
            rw (busy, sym out_is) (ap (λ ls. lane ∷ ls) (work_lanes-used step lanes rest others))
      ]
