-- ===== src/Replay/Lanes/Assigned.antt =====
-- The lanes that replayTransactionComponentLanes, internal/cdc/replay_plan.go, returns.
use pgmigrate.Base.{
  ℕ, zero, suc, ◌+◌, ◌≤◌, ◌<◌, ◌≡◌, refl, sym, ◌∙◌, false, List, [], ◌∷◌, ◌++◌, map, arith, ◌==◌,
  lt→==, gt→==, if◌then◌else◌,
}
use mathlib.Core.List.{append_assoc, append-nil}
use pgmigrate.Base.Lists.{length, concat_map}
use pgmigrate.Replay.Hash.{Digest}
use pgmigrate.Replay.UnionFind.{find}
use pgmigrate.Replay.UnionFind.Roots.{Climbs-unique, ≡→==}
use pgmigrate.Replay.UnionFind.Finds.{Keeps, Keeps-trans, find-Finds}
use pgmigrate.Replay.UnionFind.Unions.{Together, WellRooted}
use pgmigrate.Replay.Lanes.{
  PlanTransaction, PlanLane, RelationBatchedChange, component_keys, lane_at, add_to_lane, append_to,
  assign,
}

-- The transactions whose lane is `lane`, in their order.
unfoldable pub chosen : (ℕ → ℕ) → ℕ → List PlanTransaction → ℕ → List PlanTransaction
chosen lane_of index [] lane = []
chosen lane_of index (t ∷ ts) lane =
    let rest = chosen lane_of (suc index) ts lane in
    if lane_of index == lane then t ∷ rest else rest

index_of : PlanTransaction → ℕ
index_of t = t.index

items_of : PlanTransaction → List RelationBatchedChange
items_of t = t.items

extend : PlanLane → List PlanTransaction → PlanLane
unfolding index_of items_of
extend lane ts = record lane {
  transaction_indexes = lane.transaction_indexes ++ map index_of ts;
  items = lane.items ++ concat_map items_of ts;
}

-- Lanes numbered from `start` on, each with the transactions that are its own.
unfoldable pub filled : (ℕ → ℕ) → ℕ → List PlanTransaction → ℕ → List PlanLane → List PlanLane
unfolding extend
filled lane_of index ts start [] = []
filled lane_of index ts start (l ∷ ls) =
    extend l (chosen lane_of index ts start) ∷ filled lane_of index ts (suc start) ls

extend-add_to_lane :
    (l : PlanLane) (t : PlanTransaction) (ts : List PlanTransaction)
    → extend (add_to_lane t l) ts ≡ extend l (t ∷ ts)
unfolding extend add_to_lane concat_map items_of index_of
extend-add_to_lane l t ts =
    rw
      (
        append_assoc l.transaction_indexes (t.index ∷ []) (map index_of ts),
        append_assoc l.items t.items (concat_map items_of ts),
      )
      refl

module _ (lane_of : ℕ → ℕ) (index : ℕ) (t : PlanTransaction) (ts : List PlanTransaction) where
  chosen_here :
      (lane : ℕ)
      → lane_of index ≡ lane
      → chosen lane_of index (t ∷ ts) lane ≡ t ∷ chosen lane_of (suc index) ts lane
  unfolding chosen
  chosen_here lane h = rw (≡→== (lane_of index) lane h) refl

  chosen_elsewhere :
      (lane : ℕ)
      → (lane_of index == lane) ≡ false
      → chosen lane_of index (t ∷ ts) lane ≡ chosen lane_of (suc index) ts lane
  unfolding chosen
  chosen_elsewhere lane h = rw h refl

  filled-past :
      (start : ℕ) (ls : List PlanLane)
      → lane_of index < start
      → filled lane_of (suc index) ts start ls ≡ filled lane_of index (t ∷ ts) start ls
  unfolding filled
  filled-past start [] h = refl
  filled-past start (l ∷ ls) h =
      rw
        (
          chosen_elsewhere start (lt→== (lane_of index) start h),
          filled-past (suc start) ls (omega arith),
        )
        refl

  pub filled-append_to :
      (start lane : ℕ) (ls : List PlanLane)
      → lane_of index ≡ start + lane
      → filled lane_of (suc index) ts start (append_to t lane ls)
        ≡ filled lane_of index (t ∷ ts) start ls
  unfolding filled append_to
  filled-append_to start lane [] h = refl
  filled-append_to start zero (l ∷ ls) h =
      rw
        (
          chosen_here start (omega arith),
          filled-past (suc start) ls (omega arith),
          extend-add_to_lane l t (chosen lane_of (suc index) ts start),
        )
        refl
  filled-append_to start (suc lane) (l ∷ ls) h =
      rw
        (
          chosen_elsewhere start (gt→== (lane_of index) start (omega arith)),
          filled-append_to (suc start) lane ls (omega arith),
        )
        refl

pub filled-empty :
    (lane_of : ℕ → ℕ) (index start : ℕ) (ls : List PlanLane) → filled lane_of index [] start ls ≡ ls
unfolding filled chosen extend concat_map
filled-empty lane_of index start [] = refl
filled-empty lane_of index start (l ∷ ls) =
    rw
      (
        append-nil l.transaction_indexes,
        append-nil l.items,
        filled-empty lane_of index (suc start) ls,
      )
      refl

-- What finds return while they compress paths: the roots of the forest `p`.
module _ (n d fuel : ℕ) (p : List ℕ) (trees : WellRooted n d p) (le : d ≤ fuel) where
  pub root_of : ℕ → ℕ
  root_of v = (find fuel p v).0

  step :
      (q : List ℕ) (v : ℕ)
      → v < n
      → Keeps p q
      → ((find fuel q v).0 ≡ root_of v) × Keeps p (find fuel q v).1
  unfolding root_of
  step q v h keeps =
      let (r, in_r, climb) = trees.rooted v h in
      let (there, keeps') = find-Finds fuel q d v r (keeps.climbs d v r climb) le in
      (there ∙ sym (find-Finds fuel p d v r climb le).0, Keeps-trans keeps keeps')

  pub component_keys-Keeps :
      (ts : List PlanTransaction) (index : ℕ) (q : List ℕ) (found : List (ℕ × List Digest))
      → index + length ts ≤ n
      → Keeps p q
      → Keeps p (component_keys fuel index q found ts).0
  unfolding component_keys
  component_keys-Keeps [] index q found h keeps = keeps
  component_keys-Keeps (t ∷ ts) index q found h keeps =
      component_keys-Keeps ts (suc index) _ _ (omega arith) (step q index (omega arith) keeps).1

  pub assign-filled :
      (table : List (ℕ × ℕ)) (ts : List PlanTransaction) (index : ℕ) (q : List ℕ)
      (lanes : List PlanLane)
      → index + length ts ≤ n
      → Keeps p q
      → assign fuel table index q lanes ts
        ≡ filled (λ i. lane_at table (root_of i)) index ts 0 lanes
  unfolding assign
  assign-filled table [] index q lanes h keeps = sym (filled-empty _ index 0 lanes)
  assign-filled table (t ∷ ts) index q lanes h keeps =
      let (there, keeps') = step q index (omega arith) keeps in
      assign-filled table ts (suc index) _ _ (omega arith) keeps'
      ∙ rw there (
          filled-append_to (λ i. lane_at table (root_of i)) index t ts 0
            (lane_at table (root_of index)) lanes (omega arith))

  -- Transactions in one tree have one root.
  pub root_of-Together : (u v : ℕ) → u < n → v < n → Together p u v → root_of u ≡ root_of v
  unfolding root_of
  root_of-Together u v hu hv (s, (j, a), (k, b)) =
      let (x, in_x, to_x) = trees.rooted u hu in
      let (y, in_y, to_y) = trees.rooted v hv in
      (find-Finds fuel p d u x to_x le).0
      ∙ Climbs-unique p d j u x s to_x a
      ∙ Climbs-unique p k d v s y b to_y
      ∙ sym (find-Finds fuel p d v y to_y le).0
