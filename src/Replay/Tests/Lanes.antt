-- ===== src/Replay/Tests/Lanes.antt =====
-- The lanes of three transactions, of which the first and the last share a key.
use pgmigrate.Base.{ℕ, ◌≤◌, ◌<◌, ◌≡◌, List, [], ◌∷◌, arith}
use pgmigrate.Base.Lists.{length, All}
use pgmigrate.Base.Results.{ok}
use pgmigrate.Replay.UnionFind.{parent, find}
use pgmigrate.Replay.Lanes.{
  PlanTransaction, PlanLane, Components, add_transactions, key_count, initial_components,
  replay_transaction_component_lanes,
}
use pgmigrate.Replay.Lanes.Shares.{Assigns, replay_transaction_component_lanes_lem}
use pgmigrate.Replay.Lanes.Fuel.{add_transactions-find}
use pgmigrate.Replay.Tests.{sha}

abbrev with_keys : ℕ → List (List ℕ) → PlanTransaction
with_keys index keys = record { index = index; keys = keys; items = [] }

abbrev epoch : List PlanTransaction
epoch =
    with_keys 4 ((1 ∷ []) ∷ [])
    ∷ with_keys 5 ((2 ∷ []) ∷ [])
    ∷ with_keys 6 ((3 ∷ []) ∷ (1 ∷ []) ∷ [])
    ∷ []

epoch-keyed : All (λ t. 1 ≤ length t.keys) epoch
epoch-keyed = (omega arith, (omega arith, (omega arith, tt)))

replay_transaction_component_lanes_example :
    (lanes : List PlanLane) × (replay_transaction_component_lanes sha epoch 8 ≡ ok lanes)
    × Assigns epoch 8 lanes
replay_transaction_component_lanes_example =
    replay_transaction_component_lanes_lem sha epoch 8 (omega arith) (omega arith) epoch-keyed

add_transactions-find_example :
    (c : Components) × (add_transactions
        (key_count epoch)
        0
        (initial_components (length epoch))
        epoch
      ≡ ok c)
    × ((v fuel : ℕ)
        → v < length epoch
        → key_count epoch ≤ fuel
        → (find fuel c.forest.parents v ≡ find (key_count epoch) c.forest.parents v)
          × (parent c.forest.parents (find fuel c.forest.parents v).0
              ≡ (find fuel c.forest.parents v).0))
add_transactions-find_example = add_transactions-find epoch epoch-keyed
