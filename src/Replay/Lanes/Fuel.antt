-- ===== src/Replay/Lanes/Fuel.antt =====
-- The finds in replayTransactionComponentLanes, internal/cdc/replay_plan.go, end.
use pgmigrate.Base.{ℕ, ◌≤◌, ◌<◌, ◌≡◌, List, arith}
use pgmigrate.Base.Lists.{length, All}
use pgmigrate.Base.Results.{ok}
use pgmigrate.Replay.UnionFind.{parent, find}
use pgmigrate.Replay.UnionFind.Roots.{Climbs-root}
use pgmigrate.Replay.UnionFind.Finds.{find-Finds, find_more}
use pgmigrate.Replay.UnionFind.Unions.{WellRooted}
use pgmigrate.Replay.Lanes.{
  PlanTransaction, Components, add_transactions, key_count, initial_components,
}
use pgmigrate.Replay.Lanes.Joined.{add_transactions-Advances, initial-Sound}

find_root :
    (n d fuel : ℕ) (p : List ℕ) (v : ℕ)
    → WellRooted n d p
    → v < n
    → d ≤ fuel
    → (find fuel p v ≡ find d p v) × (parent p (find fuel p v).0 ≡ (find fuel p v).0)
find_root n d fuel p v trees h le =
    let (r, in_r, climb) = trees.rooted v h in
    let found = (find-Finds fuel p d v r climb le).0 in
    (find_more fuel p d v r climb le, rw found (Climbs-root p d v r climb))

-- An epoch whose transactions all have keys builds a forest in which a find needs no more fuel than
-- the epoch has keys: with that much or more it ends at one and the same root.
pub add_transactions-find :
    (epoch : List PlanTransaction)
    → All (λ t. 1 ≤ length t.keys) epoch
    → (c : Components) × (add_transactions
          (key_count epoch)
          0
          (initial_components (length epoch))
          epoch
        ≡ ok c)
      × ((v fuel : ℕ)
          → v < length epoch
          → key_count epoch ≤ fuel
          → (find fuel c.forest.parents v ≡ find (key_count epoch) c.forest.parents v)
            × (parent c.forest.parents (find fuel c.forest.parents v).0
                ≡ (find fuel c.forest.parents v).0))
add_transactions-find epoch keyed =
    let n = length epoch in
    let fuel = key_count epoch in
    let (c, joined, advances, owned) =
      add_transactions-Advances n fuel epoch 0 fuel 0 (initial_components n) keyed (omega arith)
        (omega arith) (omega arith) (initial-Sound n) in
    (c, joined, λ v more h le. find_root n fuel more c.forest.parents v advances.sound.trees h le)
