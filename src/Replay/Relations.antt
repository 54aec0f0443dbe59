-- ===== src/Replay/Relations.antt =====
-- Target relations as replay planning reads them: internal/cdc/applier.go, targetRelation,
-- targetColumn and their accessors, with the fingerprints of internal/cdc/replay_plan.go. Heap
-- statistics and quoted names have no part in planning. `sourceIndex` and `primaryPos` are never
-- negative: the catalog query coalesces a missing position to 0.
use pgmigrate.Base.{
  ℕ, Bool, true, false, not, ◌&&◌, List, [], ◌∷◌, Option, none, some, leb, ◌==◌, if◌then◌else◌,
}
use pgmigrate.Base.Lists.{length}
use pgmigrate.Cdc.Model.{Column, Relation}
use pgmigrate.Cdc.Codec.Decode.{same_bytes}
use pgmigrate.Replay.Hash.{
  Digest, Hasher, write_replay_hash_bytes, write_replay_hash_int, write_replay_hash_bool,
  new_replay_claim_hasher,
}
use pgmigrate.Base.Bytes.{text_bytes}

pub record TargetRelationCapabilities : Type 0 where
  pub relation_lane : Bool
  pub relation_ordered_lane : Bool
  pub relation_ordered_lane_v4 : Bool
  pub relation_ordered_lane_v3 : Bool
  pub primary_key_arbiter : Bool
  pub keyed_set_dml : Bool
  pub binary_copy : Bool
  pub text_copy_stage : Bool
  pub selective_updates : Bool
  pub cross_key_conflicts : Bool

pub record TargetColumn : Type 0 where
  pub name : List ℕ
  pub oid : ℕ
  pub array_oid : ℕ
  pub key : Bool
  pub primary : Bool
  pub primary_pos : ℕ
  pub replay_key_safe : Bool
  pub lane_payload_text_only : Bool
  pub identity : List ℕ
  pub source_index : ℕ
  pub generated : Bool
  pub not_null : Bool
  pub conflicting : Bool

pub record TargetRelation : Type 0 where
  pub source : Relation
  pub columns : List TargetColumn
  pub generated_columns : List TargetColumn
  pub override_identity : Bool
  pub capabilities : TargetRelationCapabilities

-- slices.SortFunc by `primaryPos`, which no two primary key columns of a relation share.
insert_column : TargetColumn → List TargetColumn → List TargetColumn
insert_column column [] = column ∷ []
insert_column column (next ∷ rest) =
    if leb column.primary_pos next.primary_pos
    then column ∷ next ∷ rest
    else next ∷ insert_column column rest

unfoldable pub primary_columns : List TargetColumn → List TargetColumn
unfolding insert_column
primary_columns [] = []
primary_columns (column ∷ rest) =
    let sorted = primary_columns rest in
    if column.primary then insert_column column sorted else sorted

unfoldable pub primary_key_columns : TargetRelation → List TargetColumn
primary_key_columns relation = primary_columns relation.columns

unfoldable pub all_keys : List TargetColumn → Bool
all_keys [] = true
all_keys (column ∷ rest) = column.key && all_keys rest

-- `none` where the columns are not safe to delete by.
unfoldable pub primary_key_delete_columns : TargetRelation → Option (List TargetColumn)
primary_key_delete_columns relation =
    let primary = primary_key_columns relation in
    if not relation.capabilities.keyed_set_dml
    then none
    else if length primary == 0
    then none
    else if all_keys primary
    then some primary
    else none

unfoldable pub same_target_columns : List TargetColumn → List TargetColumn → Bool
same_target_columns [] [] = true
same_target_columns [] (right ∷ rights) = false
same_target_columns (left ∷ lefts) [] = false
same_target_columns (left ∷ lefts) (right ∷ rights) =
    same_bytes left.name right.name
    && left.source_index == right.source_index
    && same_target_columns lefts rights

unfoldable pub write_target_column_fingerprint : Hasher → TargetColumn → Hasher
write_target_column_fingerprint hasher column =
    let h = write_replay_hash_bytes hasher column.name in
    let h = write_replay_hash_int h column.oid in
    let h = write_replay_hash_int h column.array_oid in
    let h = write_replay_hash_bool h column.key in
    let h = write_replay_hash_bool h column.primary in
    let h = write_replay_hash_int h column.primary_pos in
    let h = write_replay_hash_bool h column.replay_key_safe in
    let h = write_replay_hash_bool h column.lane_payload_text_only in
    let h = write_replay_hash_bytes h column.identity in
    let h = write_replay_hash_int h column.source_index in
    let h = write_replay_hash_bool h column.generated in
    let h = write_replay_hash_bool h column.not_null in write_replay_hash_bool h column.conflicting

unfoldable pub write_target_columns : Hasher → List TargetColumn → Hasher
write_target_columns hasher [] = hasher
write_target_columns hasher (column ∷ rest) =
    write_target_columns (write_target_column_fingerprint hasher column) rest

unfoldable pub write_source_columns : Hasher → List Column → Hasher
write_source_columns hasher [] = hasher
write_source_columns hasher (column ∷ rest) =
    let h = write_replay_hash_bytes hasher column.name in
    let h = write_replay_hash_int h column.type in
    let h = write_replay_hash_int h column.flags in write_source_columns h rest

-- The ordered lane as the plan's version admits it, from version 3 on.
unfoldable pub write_lane_capabilities : ℕ → Hasher → TargetRelationCapabilities → Hasher
write_lane_capabilities plan_version hasher capabilities =
    let ordered =
      if plan_version == 3
      then capabilities.relation_ordered_lane_v3
      else if plan_version == 4
      then capabilities.relation_ordered_lane_v4
      else capabilities.relation_ordered_lane in
    if leb 3 plan_version
    then write_replay_hash_bool (write_replay_hash_bool hasher ordered)
        capabilities.primary_key_arbiter
    else hasher

unfoldable pub target_relation_replay_fingerprint_version :
    (List ℕ → Digest) → Option TargetRelation → ℕ → Digest
target_relation_replay_fingerprint_version sha none plan_version =
    sha (new_replay_claim_hasher "pgmigrate-target-relation-v1")
target_relation_replay_fingerprint_version sha (some relation) plan_version =
    let capabilities = relation.capabilities in
    let h = new_replay_claim_hasher "pgmigrate-target-relation-v1" in
    let h = write_replay_hash_int h relation.source.oid in
    let h = write_replay_hash_bytes h relation.source.namespace in
    let h = write_replay_hash_bytes h relation.source.name in
    let h = write_replay_hash_int h relation.source.replica_identity in
    let h = write_source_columns h relation.source.columns in
    let h = write_replay_hash_bool h relation.override_identity in
    let h = write_replay_hash_bool h capabilities.relation_lane in
    let h = write_lane_capabilities plan_version h capabilities in
    let h = write_replay_hash_bool h capabilities.keyed_set_dml in
    let h = write_replay_hash_bool h capabilities.binary_copy in
    let h = write_replay_hash_bool h capabilities.text_copy_stage in
    let h = write_replay_hash_bool h capabilities.selective_updates in
    let h = write_replay_hash_bool h capabilities.cross_key_conflicts in
    let h = write_target_columns h relation.columns in
    let h = write_replay_hash_bytes h (text_bytes "generated") in
    sha (write_target_columns h relation.generated_columns)
