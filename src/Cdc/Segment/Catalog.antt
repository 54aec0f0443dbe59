-- ===== src/Cdc/Segment/Catalog.antt =====
-- The catalog of finalized segments: internal/cdc/segment.go, SegmentRange and SegmentCatalog. A
-- path is its bytes. The catalog's lock makes every operation atomic.
use pgmigrate.Base.{
  ℕ, Bool, false, not, ◌||◌, List, [], ◌∷◌, Option, none, some, leb, ◌==◌, if◌then◌else◌,
}
use pgmigrate.Base.Results.{Result, ok, err, ◌>>=◌, ◌>>◌, fail_if}
use pgmigrate.Cdc.Model.{Lsn}
use pgmigrate.Cdc.Codec.Decode.{same_bytes}

pub record SegmentRange : Type 0 where
  pub path : List ℕ
  pub start_commit : Lsn
  pub last_commit : Lsn
  pub last_end : Lsn
  pub validated_size : ℕ

pub data CatalogError : Type 0 where
  does_not_follow changed_start no_longer_follows no_longer_precedes absent : CatalogError

-- The segment does not lie strictly behind `previous`.
unfoldable pub misplaced : SegmentRange → SegmentRange → Bool
misplaced previous segment =
    leb segment.start_commit previous.start_commit
    || (leb segment.last_commit previous.last_commit || leb segment.last_end previous.last_end)

-- addFinalized looks at the last entry alone.
unfoldable pub add_finalized :
    List SegmentRange → SegmentRange → Result CatalogError (List SegmentRange)
add_finalized [] segment = ok (segment ∷ [])
add_finalized (previous ∷ []) segment =
    if misplaced previous segment then err does_not_follow else ok (previous ∷ segment ∷ [])
add_finalized (previous ∷ next ∷ rest) segment =
    add_finalized (next ∷ rest) segment >>= λ added. ok (previous ∷ added)

unfoldable pub has_path : List (List ℕ) → List ℕ → Bool
has_path [] path = false
has_path (p ∷ paths) path = same_bytes p path || has_path paths path

unfoldable pub remove_finalized : List SegmentRange → List (List ℕ) → List SegmentRange
remove_finalized [] paths = []
remove_finalized (segment ∷ rest) paths =
    let kept = remove_finalized rest paths in
    if has_path paths segment.path then kept else segment ∷ kept

-- The checks against the neighbours of the entry to replace.
unfoldable pub check_previous : Option SegmentRange → SegmentRange → Result CatalogError (Unit {0})
check_previous none replacement = ok tt
check_previous (some previous) replacement =
    fail_if
      (leb replacement.last_commit previous.last_commit
        || leb replacement.last_end previous.last_end)
      no_longer_follows

unfoldable pub check_next : List SegmentRange → SegmentRange → Result CatalogError (Unit {0})
check_next [] replacement = ok tt
check_next (next ∷ rest) replacement =
    fail_if (leb next.last_commit replacement.last_commit || leb next.last_end replacement.last_end)
      no_longer_precedes

-- The loop of replaceFinalized, with the entry before the rest of the list.
unfoldable pub replace_after :
    Option SegmentRange → List SegmentRange → SegmentRange → Result CatalogError (List SegmentRange)
replace_after previous [] replacement = err absent
replace_after previous (segment ∷ rest) replacement =
    let behind = replace_after (some segment) rest replacement in
    if same_bytes segment.path replacement.path
    then (fail_if (not (replacement.start_commit == segment.start_commit)) changed_start
        >> check_previous previous replacement
        >> check_next rest replacement
        >> ok (replacement ∷ rest))
    else (behind >>= λ replaced. ok (segment ∷ replaced))

unfoldable pub replace_finalized :
    List SegmentRange → SegmentRange → Result CatalogError (List SegmentRange)
unfolding replace_after
replace_finalized catalog replacement = replace_after none catalog replacement
