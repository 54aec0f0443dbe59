-- ===== src/Cdc/Segment/Changed.antt =====
-- What replacing and removing entries makes of an ordered catalog: internal/cdc/segment.go,
-- replaceFinalized and removeFinalized.
use mathlib.Core.List.{Memᴰ}
use mathlib.Core.Path.{subst}
use pgmigrate.Base.{
  ℕ, ◌≡◌, ◌↔◌, inl, inr, refl, sym, ap, true, false, List, [], ◌∷◌, ◌++◌, Option, none, some,
  Bool-cases,
}
use pgmigrate.Base.Results.{ok, >>=-eq-ok, ok_ok, if-eq}
use pgmigrate.Cdc.Codec.Decode.{same_bytes}
use pgmigrate.Cdc.Codec.Same.{same_bytes→≡, same_bytes_self}
use pgmigrate.Cdc.Segment.Catalog.{
  SegmentRange, has_path, remove_finalized, replace_after, replace_finalized,
}
use pgmigrate.Cdc.Segment.Ordered.{Ordered, removed-Ordered, replaced-Ordered, replace_head}

-- `out` is `catalog` with one entry, of the replacement's path and start, replaced.
pub record Replaces (replacement : SegmentRange) (catalog out : List SegmentRange) : Type 0 where
  pub before : List SegmentRange
  pub old : SegmentRange
  pub after : List SegmentRange
  pub was : catalog ≡ before ++ (old ∷ after)
  pub is : out ≡ before ++ (replacement ∷ after)
  pub path : old.path ≡ replacement.path
  pub start : old.start_commit ≡ replacement.start_commit

Replaces-behind :
    (s r : SegmentRange) (xs ys : List SegmentRange)
    → Replaces r xs ys
    → Replaces r (s ∷ xs) (s ∷ ys)
Replaces-behind s r xs ys h = record {
  before = s ∷ h.before;
  old = h.old;
  after = h.after;
  was = ap (λ t. s ∷ t) h.was;
  is = ap (λ t. s ∷ t) h.is;
  path = h.path;
  start = h.start;
}

replace_after-Replaces :
    (previous : Option SegmentRange) (xs : List SegmentRange) (r : SegmentRange)
    (out : List SegmentRange)
    → replace_after previous xs r ≡ ok out
    → Replaces r xs out
unfolding replace_after
replace_after-Replaces previous [] r out found = cc
replace_after-Replaces previous (s ∷ rest) r out found =
    elim (if-eq (same_bytes s.path r.path) _ _ found) [
      | inl (here, checked) ↦
          let (start, _, _, same) = replace_head previous s r rest out checked in
          record {
            before = [];
            old = s;
            after = rest;
            was = refl;
            is = same;
            path = same_bytes→≡ s.path r.path here;
            start = sym start;
          }
      | inr (behind, searched) ↦
          let (inner, replaced, joined) =
            >>=-eq-ok (replace_after (some s) rest r) (λ xs. ok (s ∷ xs)) searched in
          rw⁻¹ (ok_ok joined)
            (Replaces-behind s r rest inner (replace_after-Replaces (some s) rest r inner replaced))
    ]

-- A refreshed segment that an ordered catalog takes stands in the place of an entry with its path
-- and its start, the other entries are as they were, and the catalog stays ordered.
pub replace_finalized-Ordered :
    (catalog : List SegmentRange) (replacement : SegmentRange) (out : List SegmentRange)
    → Ordered catalog
    → replace_finalized catalog replacement ≡ ok out
    → Replaces replacement catalog out × Ordered out
unfolding replace_finalized
replace_finalized-Ordered catalog r out h found =
    (replace_after-Replaces none catalog r out found, replaced-Ordered catalog r out h found)

has_path-Mem :
    (paths : List (List ℕ)) (path : List ℕ) → has_path paths path ≡ true → Memᴰ path paths
unfolding has_path
has_path-Mem [] path h = cc
has_path-Mem (p ∷ paths) path h = elim (Bool-cases (same_bytes p path)) [
  | inl here ↦ Memᴰ.head (sym (same_bytes→≡ p path here))
  | inr other ↦ Memᴰ.tail (has_path-Mem paths path (rw other at h))
]

Mem-has_path :
    (paths : List (List ℕ)) (path : List ℕ) → Memᴰ path paths → has_path paths path ≡ true
unfolding has_path
Mem-has_path [] path m = elim m [ ]
Mem-has_path (p ∷ paths) path (Memᴰ.head same) =
    let here : same_bytes p path ≡ true = rw same (same_bytes_self p) in rw here refl
Mem-has_path (p ∷ paths) path (Memᴰ.tail behind) = elim (Bool-cases (same_bytes p path)) [
  | inl here ↦ rw here refl
  | inr other ↦ rw other (Mem-has_path paths path behind)
]

Mem-cons :
    (P : SegmentRange → Type 0) (s t : SegmentRange) (xs ys : List SegmentRange)
    → P t
    → (Memᴰ s ys → Memᴰ s xs × P s)
    → Memᴰ s (t ∷ ys)
    → Memᴰ s (t ∷ xs) × P s
Mem-cons P s t xs ys h rest (Memᴰ.head same) = (Memᴰ.head same, subst P (sym same) h)
Mem-cons P s t xs ys h rest (Memᴰ.tail behind) =
    let (inside, k) = rest behind in (Memᴰ.tail inside, k)

-- The entries that are kept, and those that are not.
Mem-removed :
    (catalog : List SegmentRange) (paths : List (List ℕ)) (s : SegmentRange)
    → Memᴰ s (remove_finalized catalog paths)
    → Memᴰ s catalog × (has_path paths s.path ≡ false)
unfolding remove_finalized
Mem-removed [] paths s = λ m. elim m [ ]
Mem-removed (t ∷ rest) paths s = elim (Bool-cases (has_path paths t.path)) [
  | inl gone ↦
      rw gone (λ m. let (inside, kept) = Mem-removed rest paths s m in (Memᴰ.tail inside, kept))
  | inr kept ↦ rw kept (
      Mem-cons (λ t. has_path paths t.path ≡ false) s t rest (remove_finalized rest paths) kept
        (Mem-removed rest paths s))
]

removed-Mem :
    (catalog : List SegmentRange) (paths : List (List ℕ)) (s : SegmentRange)
    → Memᴰ s catalog
    → has_path paths s.path ≡ false
    → Memᴰ s (remove_finalized catalog paths)
unfolding remove_finalized
removed-Mem [] paths s m h = elim m [ ]
removed-Mem (t ∷ rest) paths s (Memᴰ.head same) h =
    let kept : has_path paths t.path ≡ false = subst (λ t. has_path paths t.path ≡ false) same h in
    rw kept (Memᴰ.head same)
removed-Mem (t ∷ rest) paths s (Memᴰ.tail behind) h = elim (Bool-cases (has_path paths t.path)) [
  | inl gone ↦ rw gone (removed-Mem rest paths s behind h)
  | inr kept ↦ rw kept (Memᴰ.tail (removed-Mem rest paths s behind h))
]

no_path : (paths : List (List ℕ)) (path : List ℕ) → has_path paths path ≡ false → ¬ Memᴰ path paths
no_path paths path h m = let found = Mem-has_path paths path m in cc

has_no_path :
    (paths : List (List ℕ)) (path : List ℕ) → ¬ Memᴰ path paths → has_path paths path ≡ false
has_no_path paths path h = elim (Bool-cases (has_path paths path)) [
  | inl found ↦ absurd (h (has_path-Mem paths path found))
  | inr absent ↦ absent
]

-- Removing segments from an ordered catalog keeps exactly the entries whose paths are not among
-- those of the removed segments, and the catalog stays ordered.
pub remove_finalized-Ordered :
    (catalog : List SegmentRange) (paths : List (List ℕ)) (segment : SegmentRange)
    → Ordered catalog
    → Ordered (remove_finalized catalog paths)
      × (Memᴰ segment (remove_finalized catalog paths)
          ↔ (Memᴰ segment catalog × ¬ Memᴰ segment.path paths))
remove_finalized-Ordered catalog paths s h = (
  removed-Ordered catalog paths h,
  (
    λ m.
        let (inside, absent) = Mem-removed catalog paths s m in
        (inside, no_path paths s.path absent),
    λ (inside, absent). removed-Mem catalog paths s inside (has_no_path paths s.path absent),
  ),
)
