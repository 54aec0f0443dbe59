-- ===== src/Replay/Lanes/Shares.antt =====
-- What replayTransactionComponentLanes, internal/cdc/replay_plan.go, promises.
use pgmigrate.Base.{
  ℕ, zero, suc, ◌≤◌, ◌<◌, ◌≡◌, refl, sym, ap, List, [], ◌∷◌, some, arith, positive-==, le→ltb,
}
use mathlib.Core.List.{Memᴰ}
use pgmigrate.Base.Lists.{length, All, get_elem?}
use pgmigrate.Base.Results.{ok}
use pgmigrate.Replay.Hash.{Digest}
use pgmigrate.Replay.UnionFind.Roots.{Climbs-unique}
use pgmigrate.Replay.UnionFind.Finds.{Keeps-refl}
use pgmigrate.Replay.UnionFind.Unions.{Together}
use pgmigrate.Replay.Lanes.{
  PlanTransaction, PlanLane, Components, lane_at, component_lane, component_lanes, component_keys,
  empty_lanes, key_count, initial_components, replay_transaction_component_lanes,
}
use pgmigrate.Replay.Lanes.Joined.{Owned, add_transactions-Advances, initial-Sound}
use pgmigrate.Replay.Lanes.Assigned.{
  filled, root_of, component_keys-Keeps, assign-filled, root_of-Together,
}

-- Each transaction has one lane, in range; transactions that share a key have the same; a lane holds
-- its transactions in their order.
pub record Assigns (epoch : List PlanTransaction) (lane_count : ℕ) (lanes : List PlanLane)
    : Type 0 where
  pub lane_of : ℕ → ℕ
  pub bounded : (i : ℕ) → lane_of i < lane_count
  pub shared :
      (i j : ℕ) (t u : PlanTransaction) (key : Digest)
      → get_elem? epoch i ≡ some t
      → get_elem? epoch j ≡ some u
      → Memᴰ key t.keys
      → Memᴰ key u.keys
      → lane_of i ≡ lane_of j
  pub lanes_filled : lanes ≡ filled lane_of 0 epoch 0 (empty_lanes 0 lane_count)

component_lane-lt :
    (sha : List ℕ → Digest) (n : ℕ) (keys : List Digest) → 1 ≤ n → component_lane sha n keys < n
unfolding component_lane
component_lane-lt sha zero keys h = elim h [ ]
component_lane-lt sha (suc n) keys h = omega arith

lane_at-lt :
    (sha : List ℕ → Digest) (n : ℕ)
    → 1 ≤ n
    → (keys : List (ℕ × List Digest)) (root : ℕ) → lane_at (component_lanes sha n keys) root < n
unfolding lane_at component_lanes
lane_at-lt sha n h [] root = h
lane_at-lt sha n h ((known, keys) ∷ rest) root =
    let here = component_lane-lt sha n keys h in
    let later = lane_at-lt sha n h rest root in ground arith

-- What holds of every key holds of one of them.
All-Memᴰ :
    (P : Digest → Type 0) (key : Digest) (keys : List Digest) → All P keys → Memᴰ key keys → P key
All-Memᴰ P key [] h m = elim m [ ]
All-Memᴰ P key (x ∷ xs) h (Memᴰ.head e) = rw e h.0
All-Memᴰ P key (x ∷ xs) h (Memᴰ.tail m) = All-Memᴰ P key xs h.1 m

-- What two transactions own under one key is one tree.
Owned-Together :
    (c : Components) (i j : ℕ) (key : Digest)
    → Owned c i key
    → Owned c j key
    → Together c.forest.parents i j
Owned-Together c i j key (f, found, (r, (a, climb), (b, to_i)))
      (g, found', (s, (k, climb'), (l, to_j))) =
    let same : f ≡ g = cc in
    let root : s ≡ r = Climbs-unique c.forest.parents k a g s r climb' (rw (sym same) climb) in
    (r, (b, to_i), (l, rw (sym root) to_j))

get_elem?-lt :
    (epoch : List PlanTransaction) (i : ℕ) (t : PlanTransaction)
    → get_elem? epoch i ≡ some t
    → i < length epoch
get_elem?-lt [] i t h = cc
get_elem?-lt (x ∷ xs) zero t h = omega arith
get_elem?-lt (x ∷ xs) (suc i) t h = let rest = get_elem?-lt xs i t h in omega arith

-- An epoch whose transactions all have keys is assigned to lanes, whatever the hash function: every
-- transaction to one lane that exists, transactions that share a key to the same, and each lane
-- holds its transactions, with their changes, in the order of the epoch.
pub replay_transaction_component_lanes_lem :
    (sha : List ℕ → Digest) (epoch : List PlanTransaction) (lane_count : ℕ)
    → 1 ≤ length epoch
    → 1 ≤ lane_count
    → All (λ t. 1 ≤ length t.keys) epoch
    → (lanes : List PlanLane) × (replay_transaction_component_lanes sha epoch lane_count ≡ ok lanes)
      × Assigns epoch lane_count lanes
unfolding replay_transaction_component_lanes
replay_transaction_component_lanes_lem sha epoch lane_count some_transaction some_lane keyed =
    let n = length epoch in
    let fuel = key_count epoch in
    let (c, joined, advances, owned) =
      add_transactions-Advances n fuel epoch 0 fuel 0 (initial_components n) keyed (omega arith)
        (omega arith) (omega arith) (initial-Sound n) in
    let trees = advances.sound.trees in
    let p = c.forest.parents in
    let keep =
      component_keys-Keeps n fuel fuel p trees (omega arith) epoch 0 p [] (omega arith)
        (Keeps-refl p) in
    let table = component_lanes sha lane_count (component_keys fuel 0 p [] epoch).1 in
    let lane_of : ℕ → ℕ = λ i. lane_at table (root_of n fuel fuel p trees (omega arith) i) in
    (
      _,
      rw (positive-== n some_transaction, le→ltb lane_count 1 some_lane, joined) refl,
      record {
        lane_of = lane_of;
        bounded = λ i. lane_at-lt sha lane_count some_lane _ _;
        shared = λ i j t u key at_i at_j in_t in_u. ap (lane_at table) (
            root_of-Together n fuel fuel p trees (omega arith) i j (get_elem?-lt epoch i t at_i)
              (get_elem?-lt epoch j u at_j)
              (Owned-Together c i j key
                (All-Memᴰ (Owned c i) key t.keys (owned i i t at_i (omega arith)) in_t)
                (All-Memᴰ (Owned c j) key u.keys (owned j j u at_j (omega arith)) in_u)));
        lanes_filled =
            assign-filled n fuel fuel p trees (omega arith) table epoch 0 _ _ (omega arith) keep;
      },
    )
