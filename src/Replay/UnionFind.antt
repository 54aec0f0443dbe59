-- ===== src/Replay/UnionFind.antt =====
-- The union-find forest in replayTransactionComponentLanes, internal/cdc/replay_plan.go: `parents`
-- and `ranks`, and the closures find and union. An index outside the list, which Go would refuse,
-- is its own root. `ranks` holds bytes. A find takes fuel, one step for each edge.
pub mod Roots
pub mod Finds
pub mod Unions
use pgmigrate.Base.{ℕ, zero, suc, ◌+◌, ◌%◌, List, [], ◌∷◌, ltb, ◌==◌, if◌then◌else◌}
use pgmigrate.Base.Lists.{get_or, set}

pub record Forest : Type 0 where
  pub parents : List ℕ
  pub ranks : List ℕ

abbrev pub parent : List ℕ → ℕ → ℕ
parent parents value = get_or parents value value

-- The root, and the parents after path compression.
unfoldable pub find : ℕ → List ℕ → ℕ → ℕ × List ℕ
find zero parents value = (value, parents)
find (suc fuel) parents value =
    let climb : ℕ × List ℕ =
      (let (root, compressed) = find fuel parents (parent parents value) in
        (root, set compressed value root)) in
    if parent parents value == value then (value, parents) else climb

-- The root of the higher rank becomes the parent; of equal ranks the left one, whose rank grows.
unfoldable pub link : Forest → ℕ → ℕ → Forest
link f left right =
    if ltb (get_or f.ranks left 0) (get_or f.ranks right 0)
    then record f { parents = set f.parents left right }
    else record {
      parents = set f.parents right left;
      ranks =
          if get_or f.ranks left 0 == get_or f.ranks right 0
          then set f.ranks left ((get_or f.ranks left 0 + 1) % 256)
          else f.ranks;
    }

unfoldable pub union : ℕ → Forest → ℕ → ℕ → Forest
union fuel f left right =
    let (left_root, p) = find fuel f.parents left in
    let (right_root, q) = find fuel p right in
    let found : Forest = record f { parents = q } in
    if left_root == right_root then found else link found left_root right_root
