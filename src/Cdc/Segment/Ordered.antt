-- ===== src/Cdc/Segment/Ordered.antt =====
-- The catalog's entries lie strictly one behind the other, whatever is done to it.
use pgmigrate.Base.{
  ℕ, ◌<◌, ◌≡◌, inl, inr, refl, sym, ap, ◌∙◌, Bool, true, false, not, ◌||◌, List, [], ◌∷◌, ◌++◌,
  Option, none, some, arith, leb, ◌==◌, Bool-cases, leb→gt, ||-false, ==→≡,
}
use pgmigrate.Base.Results.{ok, ◌>>◌, fail_if, >>=-eq-ok, ok_ok, if-ok, if-eq, passed, seq-ok}
use pgmigrate.Cdc.Codec.Decode.{same_bytes}
use pgmigrate.Cdc.Segment.Catalog.{
  SegmentRange, misplaced, add_finalized, has_path, remove_finalized, check_previous, check_next,
  replace_after, replace_finalized, does_not_follow, changed_start, no_longer_precedes,
}

not-false : (b : Bool) → not b ≡ false → b ≡ true
not-false true h = refl
not-false false h = cc

pub record Follows (previous segment : SegmentRange) : Type 0 where
  pub start : previous.start_commit < segment.start_commit
  pub commit : previous.last_commit < segment.last_commit
  pub end : previous.last_end < segment.last_end

abbrev pub Chain : SegmentRange → List SegmentRange → Type 0
Chain previous [] = Unit {0}
Chain previous (segment ∷ rest) = Follows previous segment × Chain segment rest

abbrev pub Ordered : List SegmentRange → Type 0
Ordered [] = Unit {0}
Ordered (segment ∷ rest) = Chain segment rest

not_misplaced : (p s : SegmentRange) → misplaced p s ≡ false → Follows p s
unfolding misplaced
not_misplaced p s h =
    let (start, rest) = ||-false _ _ h in
    let (commit, end) = ||-false _ _ rest in
    record { start = leb→gt _ _ start; commit = leb→gt _ _ commit; end = leb→gt _ _ end }

add-Chain :
    (p : SegmentRange) (rest : List SegmentRange) (s : SegmentRange) (out : List SegmentRange)
    → Chain p rest
    → add_finalized (p ∷ rest) s ≡ ok out
    → ((behind : List SegmentRange) × (out ≡ p ∷ behind)
        × (behind ≡ rest ++ (s ∷ []))
        × Chain p behind)
unfolding add_finalized
add-Chain p [] s out h added =
    let (good, same) = if-ok (misplaced p s) does_not_follow (p ∷ s ∷ []) added in
    (s ∷ [], sym same, refl, (not_misplaced p s good, tt))
add-Chain p (n ∷ rest) s out h added =
    let (inner, found, joined) = >>=-eq-ok (add_finalized (n ∷ rest) s) (λ xs. ok (p ∷ xs)) added in
    let (behind, same, appended, chain) = add-Chain n rest s inner h.1 found in
    (
      n ∷ behind,
      sym (ok_ok joined) ∙ ap (λ xs. p ∷ xs) same,
      ap (λ xs. n ∷ xs) appended,
      (h.0, chain),
    )

-- A segment that is added stands behind the others, and an ordered catalog stays ordered.
pub add_finalized-Ordered :
    (catalog : List SegmentRange) (segment : SegmentRange) (out : List SegmentRange)
    → Ordered catalog
    → add_finalized catalog segment ≡ ok out
    → (out ≡ catalog ++ (segment ∷ [])) × Ordered out
unfolding add_finalized
add_finalized-Ordered [] segment out h added = (sym (ok_ok added), rw⁻¹ (ok_ok added) tt)
add_finalized-Ordered (p ∷ rest) segment out h added =
    let (behind, same, appended, chain) = add-Chain p rest segment out h added in
    (same ∙ ap (λ xs. p ∷ xs) appended, rw same chain)

Follows-trans : {a b c : SegmentRange} → Follows a b → Follows b c → Follows a c
Follows-trans {a} {b} {c} h k = record {
  start = omega (arith, h.start, k.start);
  commit = omega (arith, h.commit, k.commit);
  end = omega (arith, h.end, k.end);
}

skip-Chain :
    (p s : SegmentRange) (rest : List SegmentRange) → Follows p s → Chain s rest → Chain p rest
skip-Chain p s [] h k = tt
skip-Chain p s (t ∷ rest) h k = (Follows-trans h k.0, k.1)

remove-Chain :
    (p : SegmentRange) (xs : List SegmentRange) (paths : List (List ℕ))
    → Chain p xs
    → Chain p (remove_finalized xs paths)
unfolding remove_finalized
remove-Chain p [] paths h = tt
remove-Chain p (s ∷ rest) paths h = elim (Bool-cases (has_path paths s.path)) [
  | inl gone ↦ rw gone (remove-Chain p rest paths (skip-Chain p s rest h.0 h.1))
  | inr kept ↦ rw kept (h.0, remove-Chain s rest paths h.1)
]

Chain-Ordered : (s : SegmentRange) (rest : List SegmentRange) → Chain s rest → Ordered rest
Chain-Ordered s [] h = tt
Chain-Ordered s (t ∷ rest) h = h.1

pub removed-Ordered :
    (catalog : List SegmentRange) (paths : List (List ℕ))
    → Ordered catalog
    → Ordered (remove_finalized catalog paths)
unfolding remove_finalized
removed-Ordered [] paths h = tt
removed-Ordered (s ∷ rest) paths h = elim (Bool-cases (has_path paths s.path)) [
  | inl gone ↦ rw gone (removed-Ordered rest paths (Chain-Ordered s rest h))
  | inr kept ↦ rw kept (remove-Chain s rest paths h)
]

-- The replacement fits before the rest.
replaced-Chain :
    (s r : SegmentRange) (rest : List SegmentRange)
    → r.start_commit ≡ s.start_commit
    → check_next rest r ≡ ok tt
    → Chain s rest
    → Chain r rest
unfolding check_next
replaced-Chain s r [] start next h = tt
replaced-Chain s r (t ∷ rest) start next h =
    let fits =
      passed (leb t.last_commit r.last_commit || leb t.last_end r.last_end) no_longer_precedes
        next in
    let (commit, end) = ||-false _ _ fits in
    (
      record {
        start = omega (arith, h.0.start, start);
        commit = leb→gt _ _ commit;
        end = leb→gt _ _ end;
      },
      h.1,
    )

-- What a replacement at the head of a list has passed.
pub replace_head :
    (previous : Option SegmentRange) (s r : SegmentRange) (rest out : List SegmentRange)
    → (fail_if (not (r.start_commit == s.start_commit)) changed_start
        >> check_previous previous r
        >> check_next rest r
        >> ok (r ∷ rest))
      ≡ ok out
    → (r.start_commit ≡ s.start_commit)
      × (check_previous previous r ≡ ok tt)
      × (check_next rest r ≡ ok tt)
      × (out ≡ r ∷ rest)
replace_head previous s r rest out h =
    let (checked, whole) = seq-ok _ (ok (r ∷ rest)) h in
    let (front, next) = seq-ok _ (check_next rest r) checked in
    let (start, previous_fits) = seq-ok _ (check_previous previous r) front in
    (==→≡ _ _ (not-false _ (passed _ _ start)), previous_fits, next, sym (ok_ok whole))

previous_Follows :
    (p s r : SegmentRange)
    → r.start_commit ≡ s.start_commit
    → check_previous (some p) r ≡ ok tt
    → Follows p s
    → Follows p r
unfolding check_previous
previous_Follows p s r start checked h =
    let (commit, end) =
      ||-false (leb r.last_commit p.last_commit) (leb r.last_end p.last_end) (passed _ _ checked) in
    record {
      start = omega (arith, h.start, start);
      commit = leb→gt _ _ commit;
      end = leb→gt _ _ end;
    }

replace-Chain :
    (p : SegmentRange) (xs : List SegmentRange) (r : SegmentRange) (out : List SegmentRange)
    → Chain p xs
    → replace_after (some p) xs r ≡ ok out
    → Chain p out
unfolding replace_after
replace-Chain p [] r out h found = cc
replace-Chain p (s ∷ rest) r out h found = elim (if-eq (same_bytes s.path r.path) _ _ found) [
  | inl (here, checked) ↦
      let (start, previous, next, same) = replace_head (some p) s r rest out checked in
      rw same (previous_Follows p s r start previous h.0, replaced-Chain s r rest start next h.1)
  | inr (behind, searched) ↦
      let (inner, replaced, joined) =
        >>=-eq-ok (replace_after (some s) rest r) (λ xs. ok (s ∷ xs)) searched in
      rw⁻¹ (ok_ok joined) (h.0, replace-Chain s rest r inner h.1 replaced)
]

pub replaced-Ordered :
    (catalog : List SegmentRange) (replacement : SegmentRange) (out : List SegmentRange)
    → Ordered catalog
    → replace_finalized catalog replacement ≡ ok out
    → Ordered out
unfolding replace_finalized replace_after
replaced-Ordered [] r out h found = cc
replaced-Ordered (s ∷ rest) r out h found = elim (if-eq (same_bytes s.path r.path) _ _ found) [
  | inl (here, checked) ↦
      let (start, previous, next, same) = replace_head none s r rest out checked in
      rw same (replaced-Chain s r rest start next h)
  | inr (behind, searched) ↦
      let (inner, replaced, joined) =
        >>=-eq-ok (replace_after (some s) rest r) (λ xs. ok (s ∷ xs)) searched in
      rw⁻¹ (ok_ok joined) (replace-Chain s rest r inner h replaced)
]
