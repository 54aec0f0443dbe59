-- ===== src/Replay/Keys.antt =====
-- Lane keys of changes: internal/cdc/replay_plan.go, replayChangeKeyForVersion and what it calls,
-- with the tuple checks of internal/cdc/applier.go. A key is `some digest`, an unsafe change `none`.
-- An index out of range, which panics in Go, is the error index_out_of_range. OIDs are pgx's.
pub mod Version
use pgmigrate.Base.{
  ℕ, zero, suc, Bool, true, false, not, ◌&&◌, ◌||◌, List, [], ◌∷◌, Option, none, some, ltb, leb,
  ◌==◌, if◌then◌else◌,
}
use pgmigrate.Base.Lists.{length, get_elem?}
use pgmigrate.Base.Results.{Result, ok, err, ◌>>=◌, ◌>>◌, fail_if}
use pgmigrate.Cdc.Model.{
  TupleDatum, Tuple, Change, datum_null, datum_text, datum_binary, datum_unchanged_toast,
  change_insert, change_update, change_delete,
}
use pgmigrate.Cdc.Codec.Size.{slice}
use pgmigrate.Cdc.Codec.Decode.{same_bytes}
use pgmigrate.Replay.Claim.{
  PlanError, absent_tuple, wrong_width, wrong_binary_type, toast_parameter, wrong_datum_kind,
  index_out_of_range,
}
use pgmigrate.Replay.Hash.{
  Digest, Hasher, new_replay_claim_hasher, write_replay_hash_bytes, write_replay_hash_int,
}
use pgmigrate.Replay.Relations.{
  TargetColumn, TargetRelation, primary_key_columns, primary_key_delete_columns,
  same_target_columns,
}

pub data KeySafety : Type 0 where
  always_safe binary_safe never_safe : KeySafety

-- Built-in types whose binary form is canonical, and those whose text form is too.
unfoldable pub replay_key_safety : ℕ → KeySafety
replay_key_safety oid =
    if oid == 16 || oid == 21 || oid == 23 || oid == 20 || oid == 25 || oid == 1043 || oid == 2950
    then always_safe
    else if oid == 17 || oid == 1082 || oid == 1083 || oid == 1114 || oid == 1184
    then binary_safe
    else never_safe

unfoldable pub replay_key_datum_safe : ℕ → ℕ → Bool
replay_key_datum_safe oid kind = elim (replay_key_safety oid) [
  | always_safe ↦ kind == datum_binary || kind == datum_text
  | binary_safe ↦ kind == datum_binary
  | never_safe ↦ false
]

unfoldable pub validate_tuple : TargetRelation → Option Tuple → Result PlanError (Unit {0})
validate_tuple relation none = err absent_tuple
validate_tuple relation (some tuple) =
    fail_if (not (length tuple == length relation.source.columns)) wrong_width

-- The error alone: planning drops the parameter.
unfoldable pub datum_param_for_column :
    TargetRelation → TargetColumn → TupleDatum → Result PlanError (Unit {0})
datum_param_for_column relation column datum =
    if datum.kind == datum_null || datum.kind == datum_text
    then ok tt
    else if datum.kind == datum_binary
    then elim (get_elem? relation.source.columns column.source_index) [
      | some source ↦ fail_if (not (source.type == column.oid)) wrong_binary_type
      | none ↦ err index_out_of_range
    ]
    else if datum.kind == datum_unchanged_toast
    then err toast_parameter
    else err wrong_datum_kind

-- One column of replayLanePayloadSafe.
payload_column_safe : ℕ → Tuple → TargetColumn → Bool
payload_column_safe kind tuple column = elim (get_elem? tuple column.source_index) [
  | none ↦ not column.lane_payload_text_only
  | some datum ↦
      not column.lane_payload_text_only
      || datum.kind == datum_text
      || datum.kind == datum_null
      || (datum.kind == datum_unchanged_toast && kind == change_update)
]

unfoldable pub payload_columns_safe : ℕ → Tuple → List TargetColumn → Bool
unfolding payload_column_safe
payload_columns_safe kind tuple [] = true
payload_columns_safe kind tuple (column ∷ rest) =
    payload_column_safe kind tuple column && payload_columns_safe kind tuple rest

payload_safe_of : TargetRelation → ℕ → Option Tuple → Bool
payload_safe_of relation kind none = false
payload_safe_of relation kind (some tuple) = payload_columns_safe kind tuple relation.columns

unfoldable pub replay_lane_payload_safe : TargetRelation → Change → Bool
unfolding payload_safe_of
replay_lane_payload_safe relation change =
    change.kind == change_delete || payload_safe_of relation change.kind change.new

unfoldable pub tuple_datum_equal : TupleDatum → TupleDatum → Bool
tuple_datum_equal left right =
    left.kind == right.kind && same_bytes (slice left.bytes) (slice right.bytes)

-- Neither NULL nor an unchanged TOAST value.
abbrev pub has_value : TupleDatum → Bool
has_value datum = not (datum.kind == datum_null || datum.kind == datum_unchanged_toast)

unfoldable pub all_present : Tuple → List TargetColumn → Bool
all_present tuple [] = true
all_present tuple (column ∷ rest) =
    let later = all_present tuple rest in
    elim (get_elem? tuple column.source_index) [
      | some datum ↦ has_value datum && later
      | none ↦ false
    ]

-- The old key is present and the new one is the same.
unfoldable pub all_stable : Tuple → Tuple → List TargetColumn → Result PlanError Bool
all_stable old new [] = ok true
all_stable old new (column ∷ rest) =
    let later = all_stable old new rest in
    elim (get_elem? old column.source_index) [
      | none ↦ err index_out_of_range
      | some o ↦ elim (get_elem? new column.source_index) [
        | none ↦ err index_out_of_range
        | some n ↦ if has_value o && tuple_datum_equal o n then later else ok false
      ]
    ]

unfoldable pub same_as_deleted : TargetRelation → Bool
same_as_deleted relation = elim (primary_key_delete_columns relation) [
  | some identified ↦ same_target_columns (primary_key_columns relation) identified
  | none ↦ false
]

shard_update : TargetRelation → Tuple → Option Tuple → Result PlanError Bool
unfolding same_as_deleted
shard_update relation new none = ok (same_as_deleted relation)
shard_update relation new (some old) =
    if length old == length relation.source.columns
    then all_stable old new (primary_key_columns relation)
    else ok false

unfoldable pub can_shard_update_by_primary_key :
    TargetRelation → Option Tuple → Option Tuple → Result PlanError Bool
unfolding shard_update
can_shard_update_by_primary_key relation old none = ok false
can_shard_update_by_primary_key relation old (some new) =
    let primary = primary_key_columns relation in
    if not (length new == length relation.source.columns)
    then ok false
    else if length primary == 0
    then ok false
    else if all_present new primary
    then shard_update relation new old
    else ok false
