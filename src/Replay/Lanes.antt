-- ===== src/Replay/Lanes.antt =====
-- Lane assignment: internal/cdc/replay_plan.go, replayTransactionComponentLanes. Maps are association
-- lists. A find has fuel for as many edges as there are keys, since each key joins two trees at
-- most once. `sha` is SHA-256.
pub mod Joined
pub mod Assigned
pub mod Shares
pub mod Weights
pub mod Fuel
use pgmigrate.Base.{
  ℕ, zero, suc, ◌+◌, ◌%◌, Bool, true, false, ◌||◌, List, [], ◌∷◌, ◌++◌, map, Option, none, some,
  ltb, ◌==◌, if◌then◌else◌,
}
use pgmigrate.Base.Lists.{length, take}
use pgmigrate.Base.Bytes.{be_value}
use pgmigrate.Base.Results.{Result, ok, err, ◌>>=◌, ◌>>◌, fail_if}
use pgmigrate.Cdc.Model.{Change}
use pgmigrate.Cdc.Codec.Decode.{same_bytes}
use pgmigrate.Replay.Claim.{PlanError, invalid_component_input, no_dependency_key}
use pgmigrate.Replay.Hash.{Digest, new_replay_claim_hasher, write_replay_hash_bytes}
use pgmigrate.Replay.Relations.{TargetRelation}
use pgmigrate.Replay.UnionFind.{Forest, find, union}

pub record RelationBatchedChange : Type 0 where
  pub transaction_index : ℕ
  pub change_index : ℕ
  pub change : Change
  pub relation : TargetRelation

pub record PlanTransaction : Type 0 where
  pub index : ℕ
  pub keys : List Digest
  pub items : List RelationBatchedChange

-- A lane before its work is computed.
pub record PlanLane : Type 0 where
  pub lane : ℕ
  pub transaction_indexes : List ℕ
  pub items : List RelationBatchedChange

unfoldable pub first_of : Digest → List (Digest × ℕ) → Option ℕ
first_of key [] = none
first_of key ((known, first) ∷ rest) =
    let later = first_of key rest in if same_bytes known key then some first else later

-- The forest and firstByKey.
pub record Components : Type 0 where
  pub forest : Forest
  pub first_by_key : List (Digest × ℕ)

-- `count` consecutive numbers.
unfoldable pub range : ℕ → ℕ → List ℕ
range start zero = []
range start (suc count) = start ∷ range (suc start) count

unfoldable pub zeros : ℕ → List ℕ
zeros zero = []
zeros (suc n) = 0 ∷ zeros n

unfoldable pub initial_components : ℕ → Components
initial_components n = record {
  forest = record { parents = range 0 n; ranks = zeros n };
  first_by_key = [];
}

unfoldable pub place_key : ℕ → ℕ → Components → Digest → Option ℕ → Components
place_key fuel index components key (some first) = record components {
  forest = union fuel components.forest first index;
}
place_key fuel index components key none = record components {
  first_by_key = (key, index) ∷ components.first_by_key;
}

unfoldable pub add_key : ℕ → ℕ → Components → Digest → Components
add_key fuel index components key =
    place_key fuel index components key (first_of key components.first_by_key)

unfoldable pub add_keys : ℕ → ℕ → Components → List Digest → Components
add_keys fuel index components [] = components
add_keys fuel index components (key ∷ keys) =
    add_keys fuel index (add_key fuel index components key) keys

unfoldable pub add_transactions :
    ℕ → ℕ → Components → List PlanTransaction → Result PlanError Components
add_transactions fuel index components [] = ok components
add_transactions fuel index components (t ∷ ts) = do
  fail_if (length t.keys == 0) no_dependency_key
  add_transactions fuel (suc index) (add_keys fuel index components t.keys) ts

unfoldable pub append_keys : ℕ → List Digest → List (ℕ × List Digest) → List (ℕ × List Digest)
append_keys root keys [] = (root, keys) ∷ []
append_keys root keys ((other, known) ∷ rest) =
    let later = append_keys root keys rest in
    if other == root then (other, known ++ keys) ∷ rest else (other, known) ∷ later

-- The parents after the finds, and componentKeys.
unfoldable pub component_keys :
    ℕ → ℕ → List ℕ → List (ℕ × List Digest) → List PlanTransaction → List ℕ × List (ℕ × List Digest)
component_keys fuel index parents found [] = (parents, found)
component_keys fuel index parents found (t ∷ ts) =
    let (root, parents) = find fuel parents index in
    component_keys fuel (suc index) parents (append_keys root t.keys found) ts

-- bytes.Compare(left, right) <= 0.
bytes_leq : List ℕ → List ℕ → Bool
bytes_leq [] right = true
bytes_leq (l ∷ ls) [] = false
bytes_leq (l ∷ ls) (r ∷ rs) = let later = bytes_leq ls rs in if l == r then later else ltb l r

insert_key : Digest → List Digest → List Digest
unfolding bytes_leq
insert_key key [] = key ∷ []
insert_key key (next ∷ rest) =
    let later = insert_key key rest in
    if bytes_leq key next then key ∷ next ∷ rest else next ∷ later

unfoldable pub sort_keys : List Digest → List Digest
unfolding insert_key
sort_keys [] = []
sort_keys (key ∷ keys) = insert_key key (sort_keys keys)

-- A key that equals the one before it is skipped; the first has none before it.
unfoldable pub write_distinct_keys : List ℕ → Option Digest → List Digest → List ℕ
write_distinct_keys hasher previous [] = hasher
write_distinct_keys hasher none (key ∷ keys) =
    write_distinct_keys (write_replay_hash_bytes hasher key) (some key) keys
write_distinct_keys hasher (some previous) (key ∷ keys) =
    let written = write_distinct_keys (write_replay_hash_bytes hasher key) (some key) keys in
    let skipped = write_distinct_keys hasher (some previous) keys in
    if same_bytes key previous then skipped else written

module _ (sha : List ℕ → Digest) where
  unfoldable pub component_lane : ℕ → List Digest → ℕ
  component_lane zero keys = 0
  component_lane (suc less) keys =
      let hasher = new_replay_claim_hasher "pgmigrate-replay-transaction-component-v1" in
      let digest = sha (write_distinct_keys hasher none (sort_keys keys)) in
      be_value 0 (take 8 digest) % suc less

  unfoldable pub component_lanes : ℕ → List (ℕ × List Digest) → List (ℕ × ℕ)
  component_lanes lane_count [] = []
  component_lanes lane_count ((root, keys) ∷ rest) =
      (root, component_lane lane_count keys) ∷ component_lanes lane_count rest

-- A key that a Go map lacks reads as zero.
unfoldable pub lane_at : List (ℕ × ℕ) → ℕ → ℕ
lane_at [] root = 0
lane_at ((known, lane) ∷ rest) root =
    let later = lane_at rest root in if known == root then lane else later

empty_lane : ℕ → PlanLane
empty_lane lane = record { lane = lane; transaction_indexes = []; items = [] }

unfoldable pub empty_lanes : ℕ → ℕ → List PlanLane
unfolding empty_lane
empty_lanes start zero = []
empty_lanes start (suc count) = empty_lane start ∷ empty_lanes (suc start) count

unfoldable pub add_to_lane : PlanTransaction → PlanLane → PlanLane
add_to_lane t lane = record lane {
  transaction_indexes = lane.transaction_indexes ++ t.index ∷ [];
  items = lane.items ++ t.items;
}

unfoldable pub append_to : PlanTransaction → ℕ → List PlanLane → List PlanLane
unfolding add_to_lane
append_to t lane [] = []
append_to t zero (l ∷ ls) = add_to_lane t l ∷ ls
append_to t (suc lane) (l ∷ ls) = l ∷ append_to t lane ls

unfoldable pub assign :
    ℕ → List (ℕ × ℕ) → ℕ → List ℕ → List PlanLane → List PlanTransaction → List PlanLane
assign fuel lane_of index parents lanes [] = lanes
assign fuel lane_of index parents lanes (t ∷ ts) =
    let (root, parents) = find fuel parents index in
    assign fuel lane_of (suc index) parents (append_to t (lane_at lane_of root) lanes) ts

unfoldable pub key_count : List PlanTransaction → ℕ
key_count [] = 0
key_count (t ∷ ts) = length t.keys + key_count ts

unfoldable pub replay_transaction_component_lanes :
    (List ℕ → Digest) → List PlanTransaction → ℕ → Result PlanError (List PlanLane)
replay_transaction_component_lanes sha epoch lane_count = do
  fail_if (length epoch == 0 || ltb lane_count 1) invalid_component_input
  let fuel = key_count epoch
  components ← add_transactions fuel 0 (initial_components (length epoch)) epoch
  let (parents, keys) = component_keys fuel 0 components.forest.parents [] epoch
  ok (assign fuel (component_lanes sha lane_count keys) 0 parents (empty_lanes 0 lane_count) epoch)
