-- ===== src/Replay/Keys/Version.antt =====
-- The key of a change under each plan version: internal/cdc/replay_plan.go,
-- replayChangeKeyForVersion, replayChangeKey, its frozen versions and replayChangeKeyWithOrderedLane,
-- and internal/cdc/applier.go, canPrimaryKeyUpsertForPlan.
pub mod Rows
use pgmigrate.Base.{
  ℕ, Bool, true, false, not, ◌&&◌, ◌||◌, List, [], ◌∷◌, Option, none, some, ◌==◌, if◌then◌else◌,
}
use pgmigrate.Base.Lists.{length, get_elem?}
use pgmigrate.Base.Results.{Result, ok, err, ◌>>=◌, ◌>>◌}
use pgmigrate.Cdc.Model.{
  TupleDatum, Tuple, Change, datum_unchanged_toast, change_insert, change_update, change_delete,
}
use pgmigrate.Cdc.Codec.Size.{slice}
use pgmigrate.Replay.Claim.{PlanError, index_out_of_range}
use pgmigrate.Replay.Hash.{
  Digest, Hasher, new_replay_claim_hasher, write_replay_hash_bytes, write_replay_hash_int,
}
use pgmigrate.Replay.Relations.{TargetColumn, TargetRelation, primary_key_columns}
use pgmigrate.Replay.Keys.{
  validate_tuple, datum_param_for_column, replay_key_datum_safe, replay_lane_payload_safe,
  tuple_datum_equal, has_value, same_as_deleted, can_shard_update_by_primary_key,
}

unfoldable pub write_key_datum : Hasher → TupleDatum → Hasher
write_key_datum hasher datum =
    write_replay_hash_bytes (write_replay_hash_int hasher datum.kind) (slice datum.bytes)

-- One column's datum, checked; `none` where it is unsafe.
unfoldable pub key_datum :
    TargetRelation → TargetColumn → Option TupleDatum → Result PlanError (Option TupleDatum)
key_datum relation column none = ok none
key_datum relation column (some datum) =
    if not (has_value datum) || not (replay_key_datum_safe column.oid datum.kind)
    then ok none
    else (datum_param_for_column relation column datum >> ok (some datum))

abbrev pub on_some :
    {A B : Type 0} → Option A → (A → Result PlanError (Option B)) → Result PlanError (Option B)
on_some none next = ok none
on_some (some a) next = next a

-- The loop over the primary key; `none` where a datum is unsafe.
unfoldable pub write_key_columns :
    TargetRelation → Tuple → Hasher → List TargetColumn → Result PlanError (Option Hasher)
write_key_columns relation tuple hasher [] = ok (some hasher)
write_key_columns relation tuple hasher (column ∷ rest) =
    key_datum relation column (get_elem? tuple column.source_index) >>= λ found.
    on_some found (λ datum. write_key_columns relation tuple (write_key_datum hasher datum) rest)

unfoldable pub all_replay_key_safe : List TargetColumn → Bool
all_replay_key_safe [] = true
all_replay_key_safe (column ∷ rest) = column.replay_key_safe && all_replay_key_safe rest

-- A key that is safe only with a primary key whose columns are.
abbrev pub has_safe_primary : TargetRelation → Bool
has_safe_primary relation =
    not (length (primary_key_columns relation) == 0)
    && all_replay_key_safe (primary_key_columns relation)

unfoldable pub finish_key : (List ℕ → Digest) → Option Hasher → Option Digest
finish_key sha none = none
finish_key sha (some hasher) = some (sha hasher)

unfoldable pub require : TargetRelation → Option Tuple → Result PlanError (Option Tuple)
require relation tuple = validate_tuple relation tuple >> ok tuple

-- The tuple that identifies the row, checked; `none` for a change of no known kind.
unfoldable pub identifying_tuple : TargetRelation → Change → Result PlanError (Option Tuple)
unfolding require
identifying_tuple relation change =
    if change.kind == change_insert || change.kind == change_update
    then require relation change.new
    else if change.kind == change_delete
    then require relation change.old
    else ok none

-- Whether a change of a safe relation keeps its row's key to itself.
unfoldable pub keeps_row : TargetRelation → Change → Result PlanError Bool
keeps_row relation change =
    if change.kind == change_update
    then can_shard_update_by_primary_key relation change.old change.new
    else if change.kind == change_delete
    then ok (same_as_deleted relation)
    else ok true

no_toast_columns : Tuple → List TargetColumn → Result PlanError Bool
no_toast_columns new [] = ok true
no_toast_columns new (column ∷ rest) =
    let later = no_toast_columns new rest in
    elim (get_elem? new column.source_index) [
      | none ↦ err index_out_of_range
      | some datum ↦ if datum.kind == datum_unchanged_toast then ok false else later
    ]

same_key_columns : Tuple → Tuple → List TargetColumn → Result PlanError Bool
same_key_columns old new [] = ok true
same_key_columns old new (column ∷ rest) =
    let later = same_key_columns old new rest in
    elim (get_elem? old column.source_index) [
      | none ↦ err index_out_of_range
      | some o ↦ elim (get_elem? new column.source_index) [
        | none ↦ err index_out_of_range
        | some n ↦
            if o.kind == datum_unchanged_toast || not (tuple_datum_equal o n)
            then ok false
            else later
      ]
    ]

upsert_keeps_key : TargetRelation → Tuple → Option Tuple → Result PlanError Bool
unfolding same_key_columns
upsert_keeps_key relation new none = ok true
upsert_keeps_key relation new (some old) =
    if length old == length relation.source.columns
    then same_key_columns old new (primary_key_columns relation)
    else ok true

unfoldable pub can_primary_key_upsert_for_plan :
    TargetRelation → Option Tuple → Option Tuple → Bool → Result PlanError Bool
unfolding no_toast_columns upsert_keeps_key
can_primary_key_upsert_for_plan relation old none require_immediate_arbiter = ok false
can_primary_key_upsert_for_plan relation old (some new) require_immediate_arbiter =
    if not (length new == length relation.source.columns)
      || length relation.columns == 0
      || not relation.capabilities.keyed_set_dml
      || (require_immediate_arbiter && not relation.capabilities.primary_key_arbiter)
      || length (primary_key_columns relation) == 0
    then ok false
    else (no_toast_columns new relation.columns >>= λ toastless.
        if toastless then upsert_keeps_key relation new old else ok false)

-- The tuple by which plan version 2 identifies the row.
identifying_tuple_v2 : TargetRelation → Change → Result PlanError (Option Tuple)
unfolding require
identifying_tuple_v2 relation change =
    if change.kind == change_insert
    then require relation change.new
    else if change.kind == change_update
    then (can_primary_key_upsert_for_plan relation change.old change.new false >>= λ upsert.
        if upsert then ok change.new else ok none)
    else if change.kind == change_delete
    then (if same_as_deleted relation then require relation change.old else ok none)
    else ok none

module _ (sha : List ℕ → Digest) where
  unfoldable pub replay_relation_lane_key : Digest → Digest
  replay_relation_lane_key fingerprint = sha (
      write_replay_hash_bytes (new_replay_claim_hasher "pgmigrate-replay-relation-lane-v1")
        fingerprint)

  unfoldable pub row_key : TargetRelation → Digest → Tuple → Result PlanError (Option Digest)
  unfolding finish_key
  row_key relation fingerprint tuple =
      let hasher =
        write_replay_hash_bytes (new_replay_claim_hasher "pgmigrate-replay-lane-v1") fingerprint in
      write_key_columns relation tuple hasher (primary_key_columns relation) >>= λ written.
      ok (finish_key sha written)

  -- Behind the checks: the table's key, or the row's.
  unfoldable pub table_or_row_key :
      TargetRelation → Digest → Change → Tuple → Result PlanError (Option Digest)
  table_or_row_key relation fingerprint change tuple =
      if not relation.capabilities.relation_lane || relation.capabilities.cross_key_conflicts
      then ok (some (replay_relation_lane_key fingerprint))
      else if not (has_safe_primary relation)
      then ok none
      else (keeps_row relation change >>= λ kept.
          if kept
          then row_key relation fingerprint tuple
          else ok (some (replay_relation_lane_key fingerprint)))

  unfoldable pub identified_key :
      TargetRelation → Digest → Change → Option Tuple → Result PlanError (Option Digest)
  identified_key relation fingerprint change none = ok none
  identified_key relation fingerprint change (some tuple) =
      table_or_row_key relation fingerprint change tuple

  unfoldable pub replay_change_key_with_ordered_lane :
      TargetRelation → Digest → Change → Bool → Result PlanError (Option Digest)
  unfolding identified_key
  replay_change_key_with_ordered_lane relation fingerprint change ordered_lane =
      if not ordered_lane || not (replay_lane_payload_safe relation change)
      then ok none
      else (identifying_tuple relation change >>= identified_key relation fingerprint change)

  row_key_v2 : TargetRelation → Digest → Option Tuple → Result PlanError (Option Digest)
  row_key_v2 relation fingerprint none = ok none
  row_key_v2 relation fingerprint (some tuple) = row_key relation fingerprint tuple

  unfoldable pub replay_change_key_v2 :
      TargetRelation → Digest → Change → Result PlanError (Option Digest)
  unfolding row_key_v2 identifying_tuple_v2
  replay_change_key_v2 relation fingerprint change =
      if not relation.capabilities.relation_lane
        || relation.capabilities.cross_key_conflicts
        || not (replay_lane_payload_safe relation change)
        || not (has_safe_primary relation)
      then ok none
      else (identifying_tuple_v2 relation change >>= row_key_v2 relation fingerprint)

  -- The ordered lane that the version admits, from version 3 on.
  abbrev pub ordered_lane_of : ℕ → TargetRelation → Bool
  ordered_lane_of plan_version relation =
      if plan_version == 3
      then relation.capabilities.relation_ordered_lane_v3
      else if plan_version == 4
      then relation.capabilities.relation_ordered_lane_v4
      else relation.capabilities.relation_ordered_lane

  unfoldable pub replay_change_key_for_version :
      ℕ → Option TargetRelation → Digest → Change → Result PlanError (Option Digest)
  replay_change_key_for_version plan_version none fingerprint change = ok none
  replay_change_key_for_version plan_version (some relation) fingerprint change =
      if plan_version == 2
      then replay_change_key_v2 relation fingerprint change
      else replay_change_key_with_ordered_lane relation fingerprint change
          (ordered_lane_of plan_version relation)
