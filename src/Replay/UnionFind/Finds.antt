-- ===== src/Replay/UnionFind/Finds.antt =====
-- Path compression in find, internal/cdc/replay_plan.go, keeps the forest.
use pgmigrate.Base.{
  ℕ, zero, suc, ◌≤◌, ◌≡◌, inl, inr, refl, sym, ap, ◌∙◌, false, List, arith, ◌==◌, ==→≡, Bool-cases,
}
use pgmigrate.Base.Lists.{length, set, length-set}
use pgmigrate.Replay.UnionFind.{parent, find}
use pgmigrate.Replay.UnionFind.Roots.{
  Climbs, top, up, Climbs-root, Climbs-unique, ≡→==, ==→≢, inside, compress,
}

-- Every climb of `p` is one of `q`, as short.
pub record Keeps (p q : List ℕ) : Type 0 where
  pub size : length q ≡ length p
  pub climbs : (k v r : ℕ) → Climbs p k v r → Climbs q k v r

pub Keeps-refl : (p : List ℕ) → Keeps p p
Keeps-refl p = record { size = refl; climbs = λ k v r c. c }

pub Keeps-trans : {p q s : List ℕ} → Keeps p q → Keeps q s → Keeps p s
Keeps-trans a b = record {
  size = b.size ∙ a.size;
  climbs = λ k v r c. b.climbs k v r (a.climbs k v r c);
}

abbrev pub Finds : List ℕ → ℕ → ℕ × List ℕ → Type 0
Finds p r found = (found.0 ≡ r) × Keeps p found.1

not_root : (p : List ℕ) (k v r : ℕ) → (parent p v == v) ≡ false → Climbs p k v r → v ≡ r → 1 ≤ 0
not_root p k v r h c e = ==→≢ (parent p v) v h (ap (parent p) e ∙ Climbs-root p k v r c ∙ sym e)

hang :
    (p : List ℕ) (k v r : ℕ)
    → (parent p v == v) ≡ false
    → Climbs p k v r
    → (found : ℕ × List ℕ) → Finds p r found
    → Finds p r (let (root, compressed) = found in (root, set compressed v root))
hang p k v r h c (root, q) (same, keeps) = rw same (
  refl,
  record {
    size = length-set q v r ∙ keeps.size;
    climbs = λ j w s d.
        compress q v r (rw keeps.size (inside p v h)) (not_root p k v r h c) k
          (keeps.climbs k v r c) j w s (keeps.climbs j w s d);
  },
)

pub find-Finds :
    (fuel : ℕ) (p : List ℕ) (k v r : ℕ) → Climbs p k v r → k ≤ fuel → Finds p r (find fuel p v)
unfolding find
find-Finds zero p k v r (top _ _ h) le = (refl, Keeps-refl p)
find-Finds zero p k v r (up _ _ _ c) le = elim le [ ]
find-Finds (suc fuel) p k v r (top _ _ h) le = rw (≡→== (parent p v) v h) (refl, Keeps-refl p)
find-Finds (suc fuel) p k v r (up j _ _ c) le = elim (Bool-cases (parent p v == v)) [
  | inl same ↦
      rw same
        (Climbs-unique p _ _ v v r (top 0 v (==→≡ (parent p v) v same)) (up j v r c), Keeps-refl p)
  | inr other ↦
      rw other
        (hang p k v r other (up j v r c) _ (find-Finds fuel p j (parent p v) r c (omega arith)))
]

-- Fuel for the edges above a value is enough for find: more changes nothing.
pub find_more :
    (fuel : ℕ) (p : List ℕ) (k v r : ℕ) → Climbs p k v r → k ≤ fuel → find fuel p v ≡ find k p v
unfolding find
find_more zero p zero v r c le = refl
find_more zero p (suc k) v r c le = elim le [ ]
find_more (suc fuel) p zero v r (top _ _ h) le = rw (≡→== (parent p v) v h) refl
find_more (suc fuel) p (suc k) v r (top _ _ h) le = rw (≡→== (parent p v) v h) refl
find_more (suc fuel) p (suc k) v r (up _ _ _ c) le =
    rw (find_more fuel p k (parent p v) r c (omega arith)) refl
