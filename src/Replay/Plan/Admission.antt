-- ===== src/Replay/Plan/Admission.antt =====
-- Which transactions may run in parallel, and by which keys: the first part of the loop in
-- buildReplayPlanForGenerationVersion, internal/cdc/replay_plan.go.
use pgmigrate.Base.{
  ℕ, suc, Bool, true, false, not, ◌||◌, List, [], ◌∷◌, ◌++◌, Option, none, some, ◌==◌,
  if◌then◌else◌,
}
use pgmigrate.Base.Results.{Result, ok, err, ◌>>=◌}
use pgmigrate.Cdc.Model.{Lsn, Relation, Change, TransactionSpill, Transaction}
use pgmigrate.Cdc.Codec.Decode.{same_bytes}
use pgmigrate.Replay.Hash.{
  Digest, Hasher, new_replay_claim_hasher, write_replay_hash_bytes, write_replay_hash_int,
}
use pgmigrate.Replay.Relations.{target_relation_replay_fingerprint_version}
use pgmigrate.Replay.Claim.{PlanError, missing_relation}
use pgmigrate.Replay.Lanes.{RelationBatchedChange, PlanTransaction}
use pgmigrate.Replay.Keys.Version.{replay_change_key_for_version}
use pgmigrate.Replay.Plan.Work.{Resolved, resolve}

-- The definition that was last seen differs.
unfoldable pub definition_differs : List (ℕ × Digest) → ℕ → Digest → Bool
definition_differs [] oid fingerprint = false
definition_differs ((known, previous) ∷ rest) oid fingerprint =
    let later = definition_differs rest oid fingerprint in
    if known == oid then not (same_bytes previous fingerprint) else later

module _ (sha : List ℕ → Digest) (plan_version : ℕ) where
  -- The loop over a transaction's relations; the Boolean is definitionChanged.
  unfoldable pub check_relations :
      ℕ
      → ℕ
      → Resolved
      → List (ℕ × Digest)
      → Hasher
      → List Relation
      → Result PlanError (Hasher × Bool)
  check_relations index at resolved known hasher [] = ok (hasher, false)
  check_relations index at resolved known hasher (source ∷ sources) =
      elim (resolve resolved source.oid) [
        | none ↦ err missing_relation
        | some target ↦
            let fingerprint =
              target_relation_replay_fingerprint_version sha (some target) plan_version in
            let h = write_replay_hash_int hasher index in
            let h = write_replay_hash_int h at in
            let h = write_replay_hash_bytes h fingerprint in
            check_relations index (suc at) resolved known h sources >>= λ (out, changed).
            ok (out, definition_differs known source.oid fingerprint || changed)
      ]

  change_key : Resolved → Change → Result PlanError (Option Digest)
  change_key resolved change =
      let target = resolve resolved change.relation_oid in
      replay_change_key_for_version sha plan_version target
        (target_relation_replay_fingerprint_version sha target plan_version) change

  batched : ℕ → ℕ → Resolved → Change → List RelationBatchedChange
  batched index at resolved change = elim (resolve resolved change.relation_oid) [
    | none ↦ []
    | some target ↦
        record { transaction_index = index; change_index = at; change = change; relation = target }
        ∷ []
  ]

  add_change :
      List RelationBatchedChange
      → Digest
      → Option (List Digest × List RelationBatchedChange)
      → Option (List Digest × List RelationBatchedChange)
  add_change item key none = none
  add_change item key (some (keys, items)) = some (key ∷ keys, item ++ items)

  -- The keys and items of a transaction; `none` at its first unsafe change.
  unfoldable pub plan_changes :
      ℕ
      → ℕ
      → Resolved
      → List Change
      → Result PlanError (Option (List Digest × List RelationBatchedChange))
  unfolding change_key batched add_change
  plan_changes index at resolved [] = ok (some ([], []))
  plan_changes index at resolved (change ∷ changes) =
      let later = plan_changes index (suc at) resolved changes in
      elim (change_key resolved change) [
        | err e ↦ err e
        | ok none ↦ ok none
        | ok (some key) ↦
            (later >>= λ rest. ok (add_change (batched index at resolved change) key rest))
      ]

  -- A transaction without changes has a key of its own.
  unfoldable pub with_key : Lsn → ℕ → List Digest × List RelationBatchedChange → PlanTransaction
  with_key end_lsn index ([], items) = record {
    index = index;
    keys =
        sha (
          write_replay_hash_int (new_replay_claim_hasher "pgmigrate-replay-empty-transaction-v1")
            end_lsn)
        ∷ [];
    items = items;
  }
  with_key end_lsn index (key ∷ keys, items) = record {
    index = index;
    keys = key ∷ keys;
    items = items;
  }

  unfoldable pub keyed :
      Lsn → ℕ → Option (List Digest × List RelationBatchedChange) → Option PlanTransaction
  keyed end_lsn index none = none
  keyed end_lsn index (some found) = some (with_key end_lsn index found)

  unfoldable pub plan_resident :
      ℕ
      → Resolved
      → Bool
      → Transaction
      → Option TransactionSpill
      → Result PlanError (Option PlanTransaction)
  unfolding keyed with_key
  plan_resident index resolved definition_changed tx (some spill) = ok none
  plan_resident index resolved true tx none = ok none
  plan_resident index resolved false tx none =
      plan_changes index 0 resolved tx.changes >>= λ found. ok (keyed tx.end_lsn index found)

  -- `none` for a transaction that is not safe to run in parallel.
  unfoldable pub plan_transaction :
      ℕ → Resolved → Bool → Transaction → Result PlanError (Option PlanTransaction)
  unfolding plan_resident
  plan_transaction index resolved definition_changed tx =
      plan_resident index resolved definition_changed tx tx.spill

  unfoldable pub note_definitions : Resolved → List Relation → List (ℕ × Digest) → List (ℕ × Digest)
  note_definitions resolved [] known = known
  note_definitions resolved (source ∷ sources) known = note_definitions resolved sources (
      (
        source.oid,
        target_relation_replay_fingerprint_version sha (resolve resolved source.oid) plan_version,
      )
      ∷ known)
