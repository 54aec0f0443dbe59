-- ===== src/Replay/Tests/Keys.antt =====
-- The keys of an insert, an update that stays in its row and one that moves it.
use pgmigrate.Base.{ℕ, ◌≡◌, ◌≢◌, refl, true, List, [], none, some, Option}
use pgmigrate.Base.Results.{Result, ok, err}
use pgmigrate.Base.Bytes.{le_bytes, le_value, be_bytes, be_value}
use pgmigrate.Replay.Hash.{
  write_replay_hash_bytes, write_replay_hash_int, write_replay_hash_bool, new_replay_claim_hasher,
}
use pgmigrate.Replay.Relations.{
  primary_columns, primary_key_columns, all_keys, primary_key_delete_columns, same_target_columns,
  write_target_column_fingerprint, write_target_columns, write_source_columns,
  write_lane_capabilities, target_relation_replay_fingerprint_version,
}
use pgmigrate.Replay.Keys.{
  replay_key_safety, replay_key_datum_safe, validate_tuple, datum_param_for_column,
  payload_columns_safe, replay_lane_payload_safe, tuple_datum_equal, all_present, all_stable,
  same_as_deleted, can_shard_update_by_primary_key,
}
use pgmigrate.Replay.Keys.Version.{
  write_key_datum, key_datum, write_key_columns, all_replay_key_safe, finish_key, require,
  identifying_tuple, keeps_row, can_primary_key_upsert_for_plan, replay_relation_lane_key, row_key,
  table_or_row_key, identified_key, replay_change_key_with_ordered_lane, replay_change_key_v2,
  replay_change_key_for_version,
}
use pgmigrate.Cdc.Codec.Decode.{same_bytes}
use pgmigrate.Replay.Claim.{PlanError}
use pgmigrate.Replay.Keys.Version.Rows.{same_row_lane_key, moved_row-table_key}
use pgmigrate.Replay.Tests.{sha, target, row, inserts, moves}

abbrev key_of : Result PlanError (Option (List ℕ)) → List ℕ
key_of (ok (some key)) = key
key_of (ok none) = []
key_of (err e) = []

abbrev inserted_key : List ℕ
inserted_key = key_of (replay_change_key_with_ordered_lane sha target [] (inserts 48) true)

abbrev updated_key : List ℕ
updated_key = key_of (replay_change_key_with_ordered_lane sha target [] (moves 48 48) true)

abbrev moved_key : List ℕ
moved_key = key_of (replay_change_key_with_ordered_lane sha target [] (moves 48 49) true)

same_row_lane_key_example : inserted_key ≡ updated_key
unfolding le_bytes le_value be_bytes be_value same_bytes write_replay_hash_bytes
    write_replay_hash_int write_replay_hash_bool new_replay_claim_hasher primary_columns
    primary_key_columns all_keys primary_key_delete_columns same_target_columns
    write_target_column_fingerprint write_target_columns write_source_columns
    write_lane_capabilities target_relation_replay_fingerprint_version replay_key_safety
    replay_key_datum_safe validate_tuple datum_param_for_column payload_columns_safe
    replay_lane_payload_safe tuple_datum_equal all_present all_stable same_as_deleted
    can_shard_update_by_primary_key write_key_datum key_datum write_key_columns all_replay_key_safe
    finish_key require identifying_tuple keeps_row can_primary_key_upsert_for_plan
    replay_relation_lane_key row_key table_or_row_key identified_key
    replay_change_key_with_ordered_lane replay_change_key_v2 replay_change_key_for_version
same_row_lane_key_example =
    same_row_lane_key sha target [] (inserts 48) (moves 48 48) true (row 48) (row 48) inserted_key
      updated_key refl refl refl (refl, tt) refl refl refl refl

moved_row-table_key_example :
    (table key : List ℕ) × (moved_key ≡ sha table) × (inserted_key ≡ sha key) × (table ≢ key)
unfolding le_bytes le_value be_bytes be_value same_bytes write_replay_hash_bytes
    write_replay_hash_int write_replay_hash_bool new_replay_claim_hasher primary_columns
    primary_key_columns all_keys primary_key_delete_columns same_target_columns
    write_target_column_fingerprint write_target_columns write_source_columns
    write_lane_capabilities target_relation_replay_fingerprint_version replay_key_safety
    replay_key_datum_safe validate_tuple datum_param_for_column payload_columns_safe
    replay_lane_payload_safe tuple_datum_equal all_present all_stable same_as_deleted
    can_shard_update_by_primary_key write_key_datum key_datum write_key_columns all_replay_key_safe
    finish_key require identifying_tuple keeps_row can_primary_key_upsert_for_plan
    replay_relation_lane_key row_key table_or_row_key identified_key
    replay_change_key_with_ordered_lane replay_change_key_v2 replay_change_key_for_version
moved_row-table_key_example =
    moved_row-table_key sha target [] (moves 48 49) (inserts 48) true moved_key inserted_key refl
      refl refl refl refl
