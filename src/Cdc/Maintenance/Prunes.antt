-- ===== src/Cdc/Maintenance/Prunes.antt =====
-- What pruning leaves: internal/cdc/maintenance.go.
use pgmigrate.Base.{
  ℕ, zero, suc, ◌-◌, ◌≤◌, ◌<◌, ◌≡◌, ◌⊎◌, inl, inr, refl, ap, ◌∙◌, Bool, true, false, List, [], ◌∷◌,
  Option, none, some, arith, ltb, leb, ltb→lt, ltb→ge, leb→gt, if◌then◌else◌, Bool-cases,
}
use pgmigrate.Base.Lists.{length, take, All}
use pgmigrate.Base.Results.{Result, ok, err}
use pgmigrate.Cdc.Model.{Lsn}
use pgmigrate.Cdc.Segment.Catalog.{SegmentRange, CatalogError, replace_finalized}
use pgmigrate.Cdc.Segment.Ordered.{Ordered, removed-Ordered, replaced-Ordered}
use pgmigrate.Cdc.Maintenance.{
  Files, PruneError, eligible, find_changed, remove_files, forget, prune_candidates,
  prune_unchanged, put_back, prune_eligible, prune_listed, prune, is_missing,
}

abbrev pub paths : List SegmentRange → List (List ℕ)
paths [] = []
paths (s ∷ rest) = s.path ∷ paths rest

abbrev pub EndsBefore : Lsn → SegmentRange → Type 0
EndsBefore applied s = s.last_end < applied

-- The oldest `count` segments are gone; if any, they and the one behind them end before `applied`.
pub record Keeps (applied : Lsn) (max_remove : ℕ) (catalog : List SegmentRange)
    (removed : List (List ℕ)) : Type 0 where
  pub count : ℕ
  pub oldest : removed ≡ paths (take count catalog)
  pub bounded : count ≤ max_remove
  pub safety :
      (count ≡ 0)
      ⊎ ((suc count ≤ length catalog) × All (EndsBefore applied) (take (suc count) catalog))

within : (b : Bool) (n x : ℕ) → suc n ≤ (if b then x else 0) → (b ≡ true) × (suc n ≤ x)
within true n x h = (refl, h)
within false n x h = elim h [ ]

eligible-All :
    (applied : Lsn) (n : ℕ) (catalog : List SegmentRange)
    → n ≤ eligible applied catalog
    → (n ≤ length catalog) × All (EndsBefore applied) (take n catalog)
unfolding eligible
eligible-All applied zero catalog h = (omega arith, tt)
eligible-All applied (suc n) [] h = elim h [ ]
eligible-All applied (suc n) (s ∷ rest) h =
    let (before, enough) = within (ltb s.last_end applied) n (suc (eligible applied rest)) h in
    let (short, all) = eligible-All applied n rest (omega (arith, enough)) in
    (omega (arith, short), (ltb→lt s.last_end applied before, all))

take-take :
    {A : Type 0} (k m : ℕ) (xs : List A) → k ≤ length (take m xs) → take k (take m xs) ≡ take k xs
take-take zero m xs h = refl
take-take (suc k) zero xs h = elim h [ ]
take-take (suc k) (suc m) [] h = elim h [ ]
take-take (suc k) (suc m) (x ∷ xs) h = ap (λ t. x ∷ t) (take-take k m xs (omega arith))

length-take_le : {A : Type 0} (m : ℕ) (xs : List A) → length (take m xs) ≤ m
length-take_le zero xs = omega arith
length-take_le (suc m) [] = omega arith
length-take_le (suc m) (x ∷ xs) = let rest = length-take_le m xs in omega (arith, rest)

module _ (crc : List ℕ → ℕ) (files : Files) where
  remove_files_lem :
      (candidates : List SegmentRange)
      → ((k : ℕ) × (k ≤ length candidates)
          × ((remove_files crc files candidates).0 ≡ paths (take k candidates)))
  unfolding remove_files
  remove_files_lem [] = (0, omega arith, refl)
  remove_files_lem (s ∷ rest) =
      let (k, short, same) = remove_files_lem rest in
      elim (Bool-cases (files.removes s.path)) [
        | inl gone ↦ (suc k, omega (arith, short), rw gone (ap (λ ps. s.path ∷ ps) same))
        | inr stays ↦ (0, omega arith, rw stays refl)
      ]

  forget_lem :
      (catalog : List SegmentRange) (more : Bool) (gone : List (List ℕ) × List PruneError)
      → Ordered catalog
      → Ordered (forget crc files catalog more gone).catalog
        × ((forget crc files catalog more gone).removed ≡ gone.0)
  unfolding forget
  forget_lem catalog more ([], errors) h = (h, refl)
  forget_lem catalog more (path ∷ rest, errors) h = elim (Bool-cases files.syncs) [
    | inl synced ↦ rw synced (removed-Ordered catalog (path ∷ rest) h, refl)
    | inr failed ↦ rw failed (h, refl)
  ]

  put_back-Ordered :
      (catalog : List SegmentRange) (more : Bool) (refreshed : SegmentRange)
      (result : Result CatalogError (List SegmentRange))
      → replace_finalized catalog refreshed ≡ result
      → Ordered catalog
      → Ordered (put_back crc files catalog more result).catalog
        × ((put_back crc files catalog more result).removed ≡ [])
  unfolding put_back
  put_back-Ordered catalog more refreshed (err e) same h = (h, refl)
  put_back-Ordered catalog more refreshed (ok out) same h =
      (replaced-Ordered catalog refreshed out h same, refl)

  -- The catalog in order and what is removed, once `candidates` are chosen.
  prune_unchanged_lem :
      (catalog candidates : List SegmentRange) (more : Bool)
      (found : Result PruneError (Option SegmentRange))
      → Ordered catalog
      → Ordered (prune_unchanged crc files catalog more candidates found).catalog
        × ((k : ℕ) × (k ≤ length candidates)
            × ((prune_unchanged crc files catalog more candidates found).removed
                ≡ paths (take k candidates)))
  unfolding prune_unchanged
  prune_unchanged_lem catalog candidates more (err e) h = (h, (0, omega arith, refl))
  prune_unchanged_lem catalog candidates more (ok none) h =
      let (k, short, same) = remove_files_lem candidates in
      let (ordered, removed) = forget_lem catalog more (remove_files crc files candidates) h in
      (ordered, (k, short, removed ∙ same))
  prune_unchanged_lem catalog candidates more (ok (some refreshed)) h =
      let (ordered, removed) =
        put_back-Ordered catalog more refreshed (replace_finalized catalog refreshed) refl h in
      (ordered, (0, omega arith, removed))

  prune_candidates_lem :
      (catalog candidates : List SegmentRange) (more : Bool)
      → Ordered catalog
      → Ordered (prune_candidates crc files catalog more candidates).catalog
        × ((k : ℕ) × (k ≤ length candidates)
            × ((prune_candidates crc files catalog more candidates).removed
                ≡ paths (take k candidates)))
  unfolding prune_candidates
  prune_candidates_lem catalog candidates more h =
      prune_unchanged_lem catalog candidates more (find_changed crc files (0, 0) candidates) h

  Keeps-nothing :
      (applied : Lsn) (max_remove : ℕ) (catalog : List SegmentRange)
      → Keeps applied max_remove catalog []
  Keeps-nothing applied max_remove catalog = record {
    count = 0;
    oldest = refl;
    bounded = omega arith;
    safety = inl refl;
  }

  -- A number of the oldest segments, all behind the newest eligible one.
  Keeps-oldest :
      (applied : Lsn) (max_remove k : ℕ) (catalog : List SegmentRange) (removed : List (List ℕ))
      → removed ≡ paths (take k catalog)
      → k ≤ max_remove
      → suc k ≤ eligible applied catalog
      → Keeps applied max_remove catalog removed
  Keeps-oldest applied max_remove k catalog removed oldest bounded h = record {
    count = k;
    oldest = oldest;
    bounded = bounded;
    safety = inr (eligible-All applied (suc k) catalog h);
  }

  prune_eligible_lem :
      (applied : Lsn) (max_remove : ℕ) (catalog : List SegmentRange)
      → Ordered catalog
      → Ordered (prune_eligible crc files applied max_remove catalog).catalog
        × Keeps applied max_remove catalog
            (prune_eligible crc files applied max_remove catalog).removed
  unfolding prune_eligible
  prune_eligible_lem applied max_remove catalog h =
      let count = eligible applied catalog in
      let candidates = take (count - 1) catalog in
      let few = length-take_le (count - 1) catalog in
      elim (Bool-cases (leb count 1)) [
        | inl one ↦ rw one (h, Keeps-nothing applied max_remove catalog)
        | inr several ↦ elim (Bool-cases (ltb max_remove (length candidates))) [
          | inl batch ↦
              let (ordered, (k, short, same)) =
                prune_candidates_lem catalog (take max_remove candidates) true h in
              let limit = length-take_le max_remove candidates in
              let less = ltb→lt _ _ batch in
              let oldest =
                same
                ∙ ap paths (take-take k max_remove candidates short)
                ∙ ap paths (take-take k (count - 1) catalog (omega (arith, short, limit, less))) in
              rw (several, batch)
                (
                  ordered,
                  Keeps-oldest applied max_remove k catalog _ oldest (omega (arith, short, limit))
                      (omega (arith, short, limit, less, few, leb→gt _ _ several)),
                )
          | inr all ↦
              let (ordered, (k, short, same)) = prune_candidates_lem catalog candidates false h in
              let oldest = same ∙ ap paths (take-take k (count - 1) catalog short) in
              rw (several, all)
                (
                  ordered,
                  Keeps-oldest applied max_remove k catalog _ oldest
                      (omega (arith, short, ltb→ge _ _ all))
                      (omega (arith, short, few, leb→gt _ _ several)),
                )
        ]
      ]

  prune_listed_lem :
      (applied : Lsn) (max_remove : ℕ) (catalog : List SegmentRange)
      (listing : Option (List (List ℕ)))
      → Ordered catalog
      → Ordered (prune_listed crc files applied max_remove catalog listing).catalog
        × Keeps applied max_remove catalog
            (prune_listed crc files applied max_remove catalog listing).removed
  unfolding prune_listed
  prune_listed_lem applied max_remove catalog none h = (h, Keeps-nothing applied max_remove catalog)
  prune_listed_lem applied max_remove catalog (some present) h =
      elim (Bool-cases (is_missing present catalog)) [
        | inl lost ↦ rw lost (h, Keeps-nothing applied max_remove catalog)
        | inr all ↦ rw all (prune_eligible_lem applied max_remove catalog h)
      ]

-- Pruning an ordered catalog, whatever the file system answers, leaves the catalog ordered and removes
-- at most `max_remove` segments, the oldest ones of the catalog; if it removes any, then all of these
-- and one more segment behind them end before the applied LSN.
pub prune-Keeps :
    (crc : List ℕ → ℕ) (files : Files) (applied : Lsn) (max_remove : ℕ)
    (catalog : List SegmentRange)
    → Ordered catalog
    → Ordered (prune crc files applied max_remove catalog).catalog
      × Keeps applied max_remove catalog (prune crc files applied max_remove catalog).removed
unfolding prune
prune-Keeps crc files applied max_remove catalog h =
    prune_listed_lem crc files applied max_remove catalog files.listing h
