-- ===== src/Replay/Tests/Plans.antt =====
-- A plan of three transactions on one table, and the keys of its changes.
use pgmigrate.Base.{ℕ, ◌≡◌, refl, false, List, [], ◌∷◌, none, arith}
use pgmigrate.Base.Int.{pos}
use pgmigrate.Base.Results.{Result, ok, err, ◌>>=◌}
use pgmigrate.Cdc.Model.{Change, Transaction}
use pgmigrate.Replay.Claim.{PlanError, ReplayClaim}
use pgmigrate.Replay.Plan.Work.{Resolved, replay_plan_digest}
use pgmigrate.Replay.Plan.{
  Planning, ReplayPlan, plan_steps, named_plan, finish_plan, unnamed_claim,
  build_replay_plan_for_generation_version,
}
use pgmigrate.Replay.Plan.Schedules.{Schedules}
use pgmigrate.Replay.Plan.Order.{build_replay_plan-Schedules}
use pgmigrate.Replay.Plan.Totals.{finish_plan-covered}
use pgmigrate.Base.Bytes.{le_bytes, le_value, be_bytes, be_value}
use pgmigrate.Base.Int.{u64_of_int, int_of_u64}
use pgmigrate.Base.Results.{fold_result}
use pgmigrate.Base.Lists.{concat_map}
use pgmigrate.Cdc.Model.{change_count}
use pgmigrate.Cdc.Codec.Size.{
  add_column_size, encoded_relation_size, add_datum_size, encoded_tuple_size, encoded_change_size,
  add_relation_size, add_change_size, transaction_payload_size,
}
use pgmigrate.Cdc.Codec.Encode.{
  append_bytes, append_column, append_relation, append_datum, append_tuple, append_change,
  append_transaction_prefix, append_transaction, marshal_transaction,
}
use pgmigrate.Cdc.Codec.Decode.{
  take_bytes, read_u8, read_u32, read_u64, read_count, read_bytes, read_many, read_column,
  read_relation, read_datum, read_tuple, read_options, read_change, same_bytes, read_magic,
  read_transaction, unmarshal_transaction,
}
use pgmigrate.Cdc.Codec.Write.{
  spill_contents, write_bytes, write_datum_to, write_tuple_to, write_options_to, write_change_to,
  write_change, write_body, write_transaction,
}
use pgmigrate.Replay.UnionFind.{find, link, union}
use pgmigrate.Replay.Hash.{
  write_replay_hash_bytes, write_replay_hash_int, write_replay_hash_bool, new_replay_claim_hasher,
}
use pgmigrate.Replay.Relations.{
  primary_columns, primary_key_columns, all_keys, primary_key_delete_columns, same_target_columns,
  write_target_column_fingerprint, write_target_columns, write_source_columns,
  write_lane_capabilities, target_relation_replay_fingerprint_version,
}
use pgmigrate.Replay.Claim.{replay_fence_generation, replay_claim_id}
use pgmigrate.Replay.Lanes.{
  first_of, range, zeros, initial_components, place_key, add_key, add_keys, add_transactions,
  append_keys, component_keys, sort_keys, write_distinct_keys, component_lane, component_lanes,
  lane_at, empty_lanes, add_to_lane, append_to, assign, key_count,
  replay_transaction_component_lanes,
}
use pgmigrate.Replay.Keys.{
  replay_key_safety, replay_key_datum_safe, validate_tuple, datum_param_for_column,
  payload_columns_safe, replay_lane_payload_safe, tuple_datum_equal, all_present, all_stable,
  same_as_deleted, can_shard_update_by_primary_key,
}
use pgmigrate.Replay.Keys.Version.{
  write_key_datum, key_datum, write_key_columns, all_replay_key_safe, finish_key, require,
  identifying_tuple, keeps_row, can_primary_key_upsert_for_plan, replay_relation_lane_key, row_key,
  table_or_row_key, identified_key, replay_change_key_with_ordered_lane, replay_change_key_v2,
  replay_change_key_for_version,
}
use pgmigrate.Replay.Plan.{
  add_work, flushed, planning, serial_step, work_lanes, flush_parallel, place_transaction,
  add_transaction, plan_all, total_changes, invalid_input,
}
use pgmigrate.Replay.Plan.Work.{
  resolve, hash_transaction, replay_plan_work_changes, replay_plan_work_transactions, located,
  hash_planned, hash_lane, parallel_replay_work, serial_replay_work, hash_transactions, hash_work,
  hash_works,
}
use pgmigrate.Replay.Plan.Admission.{
  definition_differs, check_relations, plan_changes, with_key, keyed, plan_resident,
  plan_transaction, note_definitions,
}
use pgmigrate.Replay.Tests.{sha, items, target, inserts}

abbrev truncates : Change
truncates = record (inserts 0) { kind = 4; new = none }

abbrev commits : ℕ → List Change → Transaction
commits lsn changes = record {
  commit_lsn = lsn;
  end_lsn = lsn;
  commit_time = record { seconds = pos 5; nanos = 6 };
  relations = items ∷ [];
  changes = changes;
  spill = none;
}

abbrev stream : List Transaction
stream =
    commits 10 (inserts 48 ∷ []) ∷ commits 20 (inserts 49 ∷ []) ∷ commits 30 (truncates ∷ []) ∷ []

abbrev resolved : List Resolved
resolved = ((7, target) ∷ []) ∷ ((7, target) ∷ []) ∷ ((7, target) ∷ []) ∷ []

abbrev build : Result PlanError ReplayPlan
build =
    build_replay_plan_for_generation_version sha (115 ∷ []) (103 ∷ []) (103 ∷ []) 5 4 stream
      resolved 5

abbrev or_else : {A : Type 0} → Result PlanError A → A → A
or_else (ok a) default = a
or_else (err e) default = default

abbrev start : Planning
start = record {
  works = [];
  steps = [];
  has_parallel = false;
  current_epoch = [];
  last_definitions = [];
  catalog_hasher = [];
}

abbrev planned : Planning
planned = or_else (plan_steps sha 5 4 stream resolved) start

abbrev claim : ReplayClaim
claim = unnamed_claim sha (115 ∷ []) (103 ∷ []) (103 ∷ []) 5 4 stream 5 planned

abbrev plan : ReplayPlan
plan = or_else build (named_plan claim start [])

plan_steps_runs : plan_steps sha 5 4 stream resolved ≡ ok planned
unfolding le_bytes le_value be_bytes be_value u64_of_int int_of_u64 fold_result concat_map
    change_count add_column_size encoded_relation_size add_datum_size encoded_tuple_size
    encoded_change_size add_relation_size add_change_size transaction_payload_size append_bytes
    append_column append_relation append_datum append_tuple append_change append_transaction_prefix
    append_transaction marshal_transaction take_bytes read_u8 read_u32 read_u64 read_count
    read_bytes read_many read_column read_relation read_datum read_tuple read_options read_change
    same_bytes read_magic read_transaction unmarshal_transaction spill_contents write_bytes
    write_datum_to write_tuple_to write_options_to write_change_to write_change write_body
    write_transaction find link union write_replay_hash_bytes write_replay_hash_int
    write_replay_hash_bool new_replay_claim_hasher primary_columns primary_key_columns all_keys
    primary_key_delete_columns same_target_columns write_target_column_fingerprint
    write_target_columns write_source_columns write_lane_capabilities
    target_relation_replay_fingerprint_version replay_fence_generation replay_claim_id first_of
    range zeros initial_components place_key add_key add_keys add_transactions append_keys
    component_keys sort_keys write_distinct_keys component_lane component_lanes lane_at empty_lanes
    add_to_lane append_to assign key_count replay_transaction_component_lanes replay_key_safety
    replay_key_datum_safe validate_tuple datum_param_for_column payload_columns_safe
    replay_lane_payload_safe tuple_datum_equal all_present all_stable same_as_deleted
    can_shard_update_by_primary_key write_key_datum key_datum write_key_columns all_replay_key_safe
    finish_key require identifying_tuple keeps_row can_primary_key_upsert_for_plan
    replay_relation_lane_key row_key table_or_row_key identified_key
    replay_change_key_with_ordered_lane replay_change_key_v2 replay_change_key_for_version add_work
    flushed planning serial_step work_lanes flush_parallel place_transaction add_transaction
    plan_all plan_steps total_changes unnamed_claim named_plan finish_plan invalid_input
    build_replay_plan_for_generation_version resolve hash_transaction replay_plan_work_changes
    replay_plan_work_transactions located hash_planned hash_lane parallel_replay_work
    serial_replay_work hash_transactions hash_work hash_works replay_plan_digest definition_differs
    check_relations plan_changes with_key keyed plan_resident plan_transaction note_definitions
plan_steps_runs = refl

build_runs : build ≡ ok plan
unfolding le_bytes le_value be_bytes be_value u64_of_int int_of_u64 fold_result concat_map
    change_count add_column_size encoded_relation_size add_datum_size encoded_tuple_size
    encoded_change_size add_relation_size add_change_size transaction_payload_size append_bytes
    append_column append_relation append_datum append_tuple append_change append_transaction_prefix
    append_transaction marshal_transaction take_bytes read_u8 read_u32 read_u64 read_count
    read_bytes read_many read_column read_relation read_datum read_tuple read_options read_change
    same_bytes read_magic read_transaction unmarshal_transaction spill_contents write_bytes
    write_datum_to write_tuple_to write_options_to write_change_to write_change write_body
    write_transaction find link union write_replay_hash_bytes write_replay_hash_int
    write_replay_hash_bool new_replay_claim_hasher primary_columns primary_key_columns all_keys
    primary_key_delete_columns same_target_columns write_target_column_fingerprint
    write_target_columns write_source_columns write_lane_capabilities
    target_relation_replay_fingerprint_version replay_fence_generation replay_claim_id first_of
    range zeros initial_components place_key add_key add_keys add_transactions append_keys
    component_keys sort_keys write_distinct_keys component_lane component_lanes lane_at empty_lanes
    add_to_lane append_to assign key_count replay_transaction_component_lanes replay_key_safety
    replay_key_datum_safe validate_tuple datum_param_for_column payload_columns_safe
    replay_lane_payload_safe tuple_datum_equal all_present all_stable same_as_deleted
    can_shard_update_by_primary_key write_key_datum key_datum write_key_columns all_replay_key_safe
    finish_key require identifying_tuple keeps_row can_primary_key_upsert_for_plan
    replay_relation_lane_key row_key table_or_row_key identified_key
    replay_change_key_with_ordered_lane replay_change_key_v2 replay_change_key_for_version add_work
    flushed planning serial_step work_lanes flush_parallel place_transaction add_transaction
    plan_all plan_steps total_changes unnamed_claim named_plan finish_plan invalid_input
    build_replay_plan_for_generation_version resolve hash_transaction replay_plan_work_changes
    replay_plan_work_transactions located hash_planned hash_lane parallel_replay_work
    serial_replay_work hash_transactions hash_work hash_works replay_plan_digest definition_differs
    check_relations plan_changes with_key keyed plan_resident plan_transaction note_definitions
build_runs = refl

build_replay_plan-Schedules_example : Schedules sha 5 4 stream resolved plan.steps 3
build_replay_plan-Schedules_example =
    build_replay_plan-Schedules sha (115 ∷ []) (103 ∷ []) (103 ∷ []) 5 4 stream resolved 5 plan
      build_runs

finish_plan-covered_example : finish_plan sha stream claim planned ≡ (
    replay_plan_digest sha claim stream planned.works >>= λ digest.
    ok (named_plan claim planned digest))
finish_plan-covered_example =
    finish_plan-covered sha 5 4 stream resolved claim planned (omega arith) plan_steps_runs
