-- ===== src/Replay/Tests.antt =====
-- Lanes, keys and plans of small epochs.
mod Lanes
mod Plans
mod Keys
use pgmigrate.Base.{ℕ, true, false, List, [], ◌∷◌, none, some}
use pgmigrate.Cdc.Model.{Relation, Tuple, Change}
use pgmigrate.Replay.Relations.{TargetColumn, TargetRelation}
use pgmigrate.Base.Bytes.{be_bytes, be_value}

-- Not SHA-256, but a digest of its size: the last 32 bytes.
abbrev sha : List ℕ → List ℕ
sha message = be_bytes 32 (be_value 0 message)

abbrev items : Relation
items = record {
  oid = 7;
  namespace = 112 ∷ [];
  name = 117 ∷ [];
  replica_identity = 100;
  columns = record { name = 105 ∷ []; type = 23; flags = 1 } ∷ [];
}

abbrev id_column : TargetColumn
id_column = record {
  name = 105 ∷ [];
  oid = 23;
  array_oid = 1007;
  key = true;
  primary = true;
  primary_pos = 1;
  replay_key_safe = true;
  lane_payload_text_only = false;
  identity = [];
  source_index = 0;
  generated = false;
  not_null = true;
  conflicting = false;
}

abbrev target : TargetRelation
target = record {
  source = items;
  columns = id_column ∷ [];
  generated_columns = [];
  override_identity = false;
  capabilities = record {
    relation_lane = true;
    relation_ordered_lane = true;
    relation_ordered_lane_v4 = true;
    relation_ordered_lane_v3 = true;
    primary_key_arbiter = true;
    keyed_set_dml = true;
    binary_copy = true;
    text_copy_stage = true;
    selective_updates = true;
    cross_key_conflicts = false;
  };
}

abbrev row : ℕ → Tuple
row id = record { kind = 1; bytes = some (id ∷ []) } ∷ []

abbrev inserts : ℕ → Change
inserts id = record {
  relation_oid = 7;
  kind = 1;
  old = none;
  new = some (row id);
  truncate_cascade = false;
  truncate_restart_identity = false;
}

abbrev moves : ℕ → ℕ → Change
moves before after = record (inserts after) { kind = 2; old = some (row before) }
