-- ===== src/Replay/UnionFind/Unions.antt =====
-- What union in internal/cdc/replay_plan.go does to the trees of the forest.
use pgmigrate.Base.{
  ℕ, suc, ◌≤◌, ◌<◌, ◌≡◌, inl, inr, refl, sym, ap, ◌∙◌, List, arith, ltb, ◌==◌, ==→≡, Bool-cases,
  if◌then◌else◌,
}
use pgmigrate.Base.Lists.{length, get_or, set, length-set}
use pgmigrate.Replay.UnionFind.{Forest, parent, link, union}
use pgmigrate.Replay.UnionFind.Roots.{
  Climbs, top, up, Climbs-root, Climbs-at_root, Climbs-wider, ==→≢, parent-set_self,
  parent-set_other,
}
use pgmigrate.Replay.UnionFind.Finds.{Keeps, Keeps-trans, Finds, find-Finds}

-- Two values below one root.
abbrev pub Together : List ℕ → ℕ → ℕ → Type 0
Together p u v = (r : ℕ) × ((k : ℕ) × Climbs p k u r) × ((k : ℕ) × Climbs p k v r)

-- `n` values, each at most `d` edges below a root.
pub record WellRooted (n d : ℕ) (p : List ℕ) : Type 0 where
  pub size : length p ≡ n
  pub rooted : (v : ℕ) → v < n → (r : ℕ) × (r < n) × Climbs p d v r

pub record Joins (n d : ℕ) (p : List ℕ) (left right : ℕ) (q : List ℕ) : Type 0 where
  pub trees : WellRooted n d q
  pub together : (u v : ℕ) → Together p u v → Together q u v
  pub joined : Together q left right

-- The new root, when `b` was hung below `a`.
moved : ℕ → ℕ → ℕ → ℕ
moved b a r = if r == b then a else r

renamed : {p : List ℕ} {k v r s : ℕ} → r ≡ s → Climbs p k v r → Climbs p k v s
renamed e c = rw (sym e) c

moved_hung : (b a : ℕ) → moved b a b ≡ a
unfolding moved
moved_hung b a = ground arith

moved_top : (b a : ℕ) → (a ≡ b → 1 ≤ 0) → moved b a a ≡ a
unfolding moved
moved_top b a apart = elim (Bool-cases (a == b)) [
  | inl same ↦ elim (apart (==→≡ a b same)) [ ]
  | inr other ↦ rw other refl
]

moved-lt : (b a r n : ℕ) → a < n → r < n → moved b a r < n
unfolding moved
moved-lt b a r n in_a in_r = ground arith

module _ (q : List ℕ) (b a : ℕ) (within : b < length q) (apart : a ≡ b → 1 ≤ 0)
    (b_root : parent q b ≡ b) (a_root : parent q a ≡ a) where
  below : (k : ℕ) → Climbs (set q b a) (suc k) b a
  below k =
      up k b a
        (rw (parent-set_self q b a within) (top k a (parent-set_other q b a a apart ∙ a_root)))

  -- A value that climbed to `r` climbs to the new root of `r`, one edge more at most.
  attach : (k v r : ℕ) → Climbs q k v r → Climbs (set q b a) (suc k) v (moved b a r)
  unfolding moved
  attach k v r (top _ _ h) = elim (Bool-cases (v == b)) [
    | inl same ↦ rw (same, ==→≡ v b same) (below k)
    | inr other ↦ rw other (top (suc k) v (parent-set_other q b a v (==→≢ v b other) ∙ h))
  ]
  attach k v r (up j _ _ c) = elim (Bool-cases (v == b)) [
    | inl same ↦
        let to_b = ==→≡ v b same in
        let to_r : v ≡ r =
          Climbs-at_root q (suc j) v r (ap (parent q) to_b ∙ b_root ∙ sym to_b) (up j v r c) in
        rw (sym to_r, same, to_b) (below (suc j))
    | inr other ↦
        up (suc j) v (moved b a r)
          (rw (parent-set_other q b a v (==→≢ v b other)) (attach j (parent q v) r c))
  ]

  attach_hung : (v k : ℕ) → Climbs q k v b → (j : ℕ) × Climbs (set q b a) j v a
  attach_hung v k c = (suc k, renamed (moved_hung b a) (attach k v b c))

  attach_top : (v k : ℕ) → Climbs q k v a → (j : ℕ) × Climbs (set q b a) j v a
  attach_top v k c = (suc k, renamed (moved_top b a apart) (attach k v a c))

  attach-Together : (u v : ℕ) → Together q u v → Together (set q b a) u v
  attach-Together u v (r, (j, c), (k, d)) =
      (moved b a r, (suc j, attach j u r c), (suc k, attach k v r d))

  attach-WellRooted : (n d : ℕ) → a < n → WellRooted n d q → WellRooted n (suc d) (set q b a)
  attach-WellRooted n d in_a trees = record {
    size = length-set q b a ∙ trees.size;
    rooted = λ v h.
        let (r, in_r, c) = trees.rooted v h in
        (moved b a r, moved-lt b a r n in_a in_r, attach d v r c);
  }

module _ (n d : ℕ) (f : Forest) (left right : ℕ) where
  -- Two distinct roots of a forest that keeps `p` linked by rank.
  link-Joins :
      (p : List ℕ) (a b : ℕ)
      → (a ≡ b → 1 ≤ 0)
      → a < n
      → b < n
      → (j k : ℕ) → Climbs f.parents j left a
      → Climbs f.parents k right b
      → WellRooted n d f.parents
      → ((u v : ℕ) → Together p u v → Together f.parents u v)
      → Joins n (suc d) p left right (link f a b).parents
  unfolding link
  link-Joins p a b apart in_a in_b j k to_a to_b trees keeps =
      let a_root = Climbs-root f.parents j left a to_a in
      let b_root = Climbs-root f.parents k right b to_b in
      let swapped : b ≡ a → 1 ≤ 0 = λ e. apart (sym e) in
      elim (Bool-cases (ltb (get_or f.ranks a 0) (get_or f.ranks b 0))) [
        | inl lower ↦ rw lower (
            let within : a < length f.parents = rw (trees.size) in_a in
            record {
              trees = attach-WellRooted f.parents a b within swapped a_root b_root n d in_b trees;
              together = λ u v t.
                  attach-Together f.parents a b within swapped a_root b_root u v (keeps u v t);
              joined = (
                b,
                attach_hung f.parents a b within swapped a_root b_root left j to_a,
                attach_top f.parents a b within swapped a_root b_root right k to_b,
              );
            })
        | inr higher ↦ rw higher (
            let within : b < length f.parents = rw (trees.size) in_b in
            record {
              trees = attach-WellRooted f.parents b a within apart b_root a_root n d in_a trees;
              together = λ u v t.
                  attach-Together f.parents b a within apart b_root a_root u v (keeps u v t);
              joined = (
                a,
                attach_top f.parents b a within apart b_root a_root left j to_a,
                attach_hung f.parents b a within apart b_root a_root right k to_b,
              );
            })
      ]

pub kept : (p q : List ℕ) → Keeps p q → (u v : ℕ) → Together p u v → Together q u v
kept p q k u v (r, (i, a), (j, b)) = (r, (i, k.climbs i u r a), (j, k.climbs j v r b))

pub kept-WellRooted : (n d : ℕ) (p q : List ℕ) → Keeps p q → WellRooted n d p → WellRooted n d q
kept-WellRooted n d p q k trees = record {
  size = k.size ∙ trees.size;
  rooted = λ v h. let (r, in_r, c) = trees.rooted v h in (r, in_r, k.climbs d v r c);
}

pub deeper : (n d : ℕ) (p : List ℕ) → WellRooted n d p → WellRooted n (suc d) p
deeper n d p trees = record {
  size = trees.size;
  rooted = λ v h.
      let (r, in_r, c) = trees.rooted v h in
      (r, in_r, Climbs-wider p d (suc d) v r (omega arith) c);
}

-- The two finds are done: what is left of union.
found-Joins :
    (n d : ℕ) (f : Forest) (left right a b j k : ℕ) (one two : ℕ × List ℕ)
    → a < n
    → b < n
    → Climbs f.parents j left a
    → Climbs f.parents k right b
    → Finds f.parents a one
    → Finds one.1 b two
    → WellRooted n d f.parents
    → Joins n
        (suc d)
        f.parents
        left
        right
        (if one.0 == two.0
          then record f { parents = two.1 }
          else link (record f { parents = two.1 }) one.0 two.0).parents
found-Joins n d f left right a b j k (x, p) (y, q) in_a in_b to_a to_b (xa, keeps) (yb, keeps')
      trees =
    let all = Keeps-trans keeps keeps' in
    let left_to = all.climbs j left a to_a in
    let right_to = all.climbs k right b to_b in
    let trees' = kept-WellRooted n d f.parents q all trees in
    rw (xa, yb)
      (elim (Bool-cases (a == b)) [
        | inl same ↦ rw same record {
          trees = deeper n d q trees';
          together = kept f.parents q all;
          joined = (a, (j, left_to), (k, renamed (sym (==→≡ a b same)) right_to));
        }
        | inr other ↦ rw other (
            link-Joins n d (record f { parents = q }) left right f.parents a b (==→≢ a b other) in_a
              in_b j k left_to right_to trees' (kept f.parents q all))
      ])

-- Enough fuel for the deepest tree is enough for union.
pub union-Joins :
    (n d fuel : ℕ) (f : Forest) (left right : ℕ)
    → d ≤ fuel
    → left < n
    → right < n
    → WellRooted n d f.parents
    → Joins n (suc d) f.parents left right (union fuel f left right).parents
unfolding union
union-Joins n d fuel f left right le in_left in_right trees =
    let (a, in_a, to_a) = trees.rooted left in_left in
    let (b, in_b, to_b) = trees.rooted right in_right in
    let one = find-Finds fuel f.parents d left a to_a le in
    found-Joins n d f left right a b d d _ _ in_a in_b to_a to_b one
      (find-Finds fuel _ d right b (one.1.climbs d right b to_b) le) trees
