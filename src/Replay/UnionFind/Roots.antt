-- ===== src/Replay/UnionFind/Roots.antt =====
-- Climbing to a root: what find and union keep.
use pgmigrate.Base.{
  ℕ, zero, suc, ◌≤◌, ◌<◌, ◌≡◌, inl, inr, refl, sym, ap, ◌∙◌, true, false, List, arith, ltb, ltb→lt,
  ltb→ge, ◌==◌, ==→≡, Bool-cases,
}
use pgmigrate.Base.Lists.{length, set, get_or-set_self, get_or-set_other, get_or-out}
use pgmigrate.Replay.UnionFind.{parent}

-- From `v` at most `k` edges lead to the root `r`.
pub data Climbs (p : List ℕ) : ℕ → ℕ → ℕ → Type 0 where
  top : (k v : ℕ) → parent p v ≡ v → Climbs p k v v
  up : (k v r : ℕ) → Climbs p k (parent p v) r → Climbs p (suc k) v r

pub ≡→== : (a b : ℕ) → a ≡ b → (a == b) ≡ true
≡→== a b h = ground arith

pub ==→≢ : (a b : ℕ) → (a == b) ≡ false → a ≡ b → 1 ≤ 0
==→≢ a b h e = cc (≡→== a b e, h)

pub Climbs-root : (p : List ℕ) (k v r : ℕ) → Climbs p k v r → parent p r ≡ r
Climbs-root p k v r (top _ _ h) = h
Climbs-root p k v r (up _ _ _ h) = Climbs-root p _ _ r h

pub Climbs-wider : (p : List ℕ) (k m v r : ℕ) → k ≤ m → Climbs p k v r → Climbs p m v r
Climbs-wider p k m v r le (top _ _ h) = top m v h
Climbs-wider p k zero v r le (up _ _ _ h) = elim le [ ]
Climbs-wider p k (suc m) v r le (up j _ _ h) =
    up m v r (Climbs-wider p j m (parent p v) r (omega arith) h)

-- A root climbs to itself alone.
pub Climbs-at_root : (p : List ℕ) (k v r : ℕ) → parent p v ≡ v → Climbs p k v r → v ≡ r
Climbs-at_root p k v r at (top _ _ h) = refl
Climbs-at_root p k v r at (up j _ _ h) =
    sym at ∙ Climbs-at_root p j (parent p v) r (ap (parent p) at) h

pub Climbs-unique : (p : List ℕ) (j k v r s : ℕ) → Climbs p j v r → Climbs p k v s → r ≡ s
Climbs-unique p j k v r s (top _ _ h) c = Climbs-at_root p k v s h c
Climbs-unique p j k v r s (up _ _ _ h) (top _ _ at) = sym (Climbs-at_root p _ v r at (up _ v r h))
Climbs-unique p j k v r s (up _ _ _ h) (up _ _ _ c) = Climbs-unique p _ _ (parent p v) r s h c

-- Compressing a path: `v` is hung below its root.
pub inside : (p : List ℕ) (v : ℕ) → (parent p v == v) ≡ false → v < length p
inside p v h = elim (Bool-cases (ltb v (length p))) [
  | inl within ↦ ltb→lt v (length p) within
  | inr out ↦ elim (==→≢ (parent p v) v h (get_or-out p v v (ltb→ge v (length p) out))) [ ]
]

pub parent-set_self : (p : List ℕ) (v r : ℕ) → v < length p → parent (set p v r) v ≡ r
parent-set_self p v r h = get_or-set_self p v r v h

pub parent-set_other :
    (p : List ℕ) (v r w : ℕ) → (w ≡ v → 1 ≤ 0) → parent (set p v r) w ≡ parent p w
parent-set_other p v r w h = get_or-set_other p v w r w h

hung :
    (p : List ℕ) (v r : ℕ)
    → v < length p
    → (v ≡ r → 1 ≤ 0)
    → parent p r ≡ r
    → (j : ℕ) → Climbs (set p v r) (suc j) v r
hung p v r inside apart root j = up j v r (
    rw (parent-set_self p v r inside)
      (top j r (parent-set_other p v r r (λ e. apart (sym e)) ∙ root)))

-- Hanging `v` below `r`, where both climb to `s`, keeps every climb.
pub compress :
    (p : List ℕ) (v r : ℕ)
    → v < length p
    → (v ≡ r → 1 ≤ 0)
    → (m : ℕ) → Climbs p m v r
    → (k w s : ℕ) → Climbs p k w s
    → Climbs (set p v r) k w s
compress p v r inside apart m below k w s (top _ _ h) = top k w (elim (Bool-cases (w == v)) [
  | inl same ↦ elim (apart (Climbs-at_root p m v r (rw (==→≡ w v same) at h) below)) [ ]
  | inr other ↦ parent-set_other p v r w (==→≢ w v other) ∙ h
])
compress p v r inside apart m below k w s (up j _ _ h) = elim (Bool-cases (w == v)) [
  | inl same ↦
      let to_v = ==→≡ w v same in
      let to_r : s ≡ r = Climbs-unique p (suc j) m v s r (rw (sym to_v) (up j w s h)) below in
      rw (to_v, to_r) (hung p v r inside apart (Climbs-root p m v r below) j)
  | inr other ↦ up j w s (
      rw (parent-set_other p v r w (==→≢ w v other))
        (compress p v r inside apart m below j (parent p w) s h))
]
