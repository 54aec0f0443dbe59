-- ===== src/Replay/Plan/Work.antt =====
-- The works of a plan and its digest: internal/cdc/replay_plan.go, parallelReplayWork,
-- serialReplayWork and replayPlanDigest. Counts are int64 sums of uint32 counts.
use pgmigrate.Base.{
  ℕ, ◌+◌, Bool, false, List, [], ◌∷◌, ◌++◌, Option, none, some, leb, ◌==◌, if◌then◌else◌,
}
use pgmigrate.Base.Int.{pos, negsuc, u64_of_int}
use pgmigrate.Base.Lists.{length, get_elem?}
use pgmigrate.Base.Results.{Result, ok, err, ◌>>=◌}
use pgmigrate.Cdc.Model.{Relation, Transaction, change_count}
use pgmigrate.Cdc.Codec.Size.{CodecError, transaction_payload_size}
use pgmigrate.Cdc.Codec.Write.{write_transaction}
use pgmigrate.Replay.Hash.{
  Digest, Hasher, new_replay_claim_hasher, write_replay_hash_bytes, write_replay_hash_int,
}
use pgmigrate.Replay.Relations.{TargetRelation, target_relation_replay_fingerprint_version}
use pgmigrate.Replay.Claim.{
  PlanError, invalid_transaction_order, missing_fingerprint, codec_failed, ReplayClaim,
  ReplayClaimWork, parallel_lane, serial_transaction, kind_text,
}

-- A map[uint32]*targetRelation.
abbrev pub Resolved : Type 0
Resolved = List (ℕ × TargetRelation)

unfoldable pub resolve : Resolved → ℕ → Option TargetRelation
resolve [] oid = none
resolve ((known, target) ∷ rest) oid =
    let later = resolve rest oid in if known == oid then some target else later

abbrev pub coded : {A : Type 0} → Result CodecError A → Result PlanError A
coded (ok a) = ok a
coded (err e) = err (codec_failed e)

-- A hasher as an io.Writer, which never fails.
hash_write : Hasher → List ℕ → Result CodecError Hasher
hash_write hasher value = ok (hasher ++ value)

unfoldable pub hash_transaction : Hasher → Transaction → Result PlanError Hasher
unfolding hash_write
hash_transaction hasher tx = coded (transaction_payload_size (some tx)) >>= λ size.
    coded (write_transaction hash_write (write_replay_hash_int hasher size) (some tx))
    >>= λ (out, written). ok out

unfoldable pub replay_plan_work_changes : List ReplayClaimWork → ℕ
replay_plan_work_changes [] = 0
replay_plan_work_changes (work ∷ works) = work.expected_changes + replay_plan_work_changes works

unfoldable pub replay_plan_work_transactions : List ReplayClaimWork → ℕ
replay_plan_work_transactions [] = 0
replay_plan_work_transactions (work ∷ works) =
    work.expected_transactions + replay_plan_work_transactions works

-- `transactionIndex <= previous`, where nothing precedes the first.
abbrev pub not_after : Option ℕ → ℕ → Bool
not_after none index = false
not_after (some previous) index = leb index previous

-- A transaction and its relations, at an index in range.
unfoldable pub located :
    Option Transaction → Option Resolved → Result PlanError (Transaction × Resolved)
located (some tx) (some resolved) = ok (tx, resolved)
located (some tx) none = err invalid_transaction_order
located none resolved = err invalid_transaction_order

module _ (sha : List ℕ → Digest) where
  hash_fingerprints : ℕ → Resolved → Hasher → List Relation → Result PlanError Hasher
  hash_fingerprints plan_version resolved hasher [] = ok hasher
  hash_fingerprints plan_version resolved hasher (source ∷ sources) =
      elim (resolve resolved source.oid) [
        | none ↦ err missing_fingerprint
        | some target ↦
            hash_fingerprints plan_version resolved
              (write_replay_hash_bytes hasher
                (target_relation_replay_fingerprint_version sha (some target) plan_version))
              sources
      ]

  unfoldable pub hash_planned : ℕ → ℕ → Hasher → Transaction → Resolved → Result PlanError Hasher
  unfolding hash_fingerprints
  hash_planned plan_version index hasher tx resolved =
      hash_fingerprints plan_version resolved
        (write_replay_hash_int (write_replay_hash_int hasher index) tx.end_lsn) tx.relations
      >>= λ h. hash_transaction h tx

  -- The loop of parallelReplayWork: what was hashed, and the changes.
  unfoldable pub hash_lane :
      ℕ
      → List Transaction
      → List Resolved
      → Option ℕ
      → Hasher
      → List ℕ
      → Result PlanError (Hasher × ℕ)
  hash_lane plan_version transactions relations previous hasher [] = ok (hasher, 0)
  hash_lane plan_version transactions relations previous hasher (index ∷ indexes) =
      if not_after previous index
      then err invalid_transaction_order
      else (located (get_elem? transactions index) (get_elem? relations index) >>= λ (tx, resolved).
          hash_planned plan_version index hasher tx resolved >>= λ h.
          hash_lane plan_version transactions relations (some index) h indexes >>= λ (out, changes).
          ok (out, change_count tx + changes))

  unfoldable pub parallel_replay_work :
      ℕ → List Transaction → List Resolved → ℕ → ℕ → List ℕ → Result PlanError ReplayClaimWork
  parallel_replay_work plan_version transactions relations step lane indexes =
      let hasher = new_replay_claim_hasher "pgmigrate-replay-parallel-work-v1" in
      hash_lane plan_version transactions relations none
        (write_replay_hash_int (write_replay_hash_int hasher step) lane) indexes
      >>= λ (out, changes). ok record {
        step = step;
        work = lane;
        kind = parallel_lane;
        lane = pos lane;
        digest = sha out;
        expected_transactions = length indexes;
        expected_changes = changes;
      }

  unfoldable pub serial_replay_work : ℕ → ℕ → Transaction → Result PlanError ReplayClaimWork
  serial_replay_work step index tx =
      let hasher = new_replay_claim_hasher "pgmigrate-replay-serial-work-v1" in
      hash_transaction (write_replay_hash_int (write_replay_hash_int hasher step) index) tx
      >>= λ out. ok record {
        step = step;
        work = 0;
        kind = serial_transaction;
        lane = negsuc 0;
        digest = sha out;
        expected_transactions = 1;
        expected_changes = change_count tx;
      }

  unfoldable pub hash_transactions : Hasher → List Transaction → Result PlanError Hasher
  hash_transactions hasher [] = ok hasher
  hash_transactions hasher (tx ∷ txs) = hash_transaction hasher tx >>= λ h. hash_transactions h txs

  unfoldable pub hash_work : Hasher → ReplayClaimWork → Hasher
  hash_work hasher work =
      let h = write_replay_hash_int hasher work.step in
      let h = write_replay_hash_int h work.work in
      let h = write_replay_hash_bytes h (kind_text work.kind) in
      let h = write_replay_hash_int h (u64_of_int work.lane) in
      let h = write_replay_hash_bytes h work.digest in
      let h = write_replay_hash_int h work.expected_transactions in
      write_replay_hash_int h work.expected_changes

  unfoldable pub hash_works : Hasher → List ReplayClaimWork → Hasher
  hash_works hasher [] = hasher
  hash_works hasher (work ∷ works) = hash_works (hash_work hasher work) works

  hash_claim : ReplayClaim → Hasher
  hash_claim claim =
      let h = new_replay_claim_hasher "pgmigrate-replay-claim-v1" in
      let h = write_replay_hash_bytes h claim.stream_id in
      let h = write_replay_hash_bytes h claim.generation in
      let h = write_replay_hash_bytes h claim.start_generation in
      let h = write_replay_hash_int h claim.start_lsn in
      let h = write_replay_hash_int h claim.end_lsn in
      let h = write_replay_hash_int h claim.plan_version in
      let h = write_replay_hash_int h claim.lane_count in
      let h = write_replay_hash_int h claim.transactions in
      let h = write_replay_hash_int h claim.changes in
      write_replay_hash_bytes h claim.catalog_digest

  unfoldable pub replay_plan_digest :
      ReplayClaim → List Transaction → List ReplayClaimWork → Result PlanError Digest
  unfolding hash_claim
  replay_plan_digest claim transactions works =
      hash_transactions (hash_claim claim) transactions >>= λ h. ok (sha (hash_works h works))
