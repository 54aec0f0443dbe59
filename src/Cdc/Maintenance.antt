-- ===== src/Cdc/Maintenance.antt =====
-- Pruning by the catalog: internal/cdc/maintenance.go, SegmentCatalog.prune and what it calls. A call
-- is one step, during which a writer adds no segment to the catalog: its snapshot is the catalog.
pub mod Prunes
use pgmigrate.Base.{
  ℕ, suc, Bool, true, false, not, ◌||◌, ◌-◌, List, [], ◌∷◌, ◌++◌, Option, none, some, ltb, leb,
  ◌==◌, if◌then◌else◌,
}
use pgmigrate.Base.Lists.{length, take}
use pgmigrate.Base.Results.{Result, ok, err, ◌>>=◌}
use pgmigrate.Cdc.Model.{Lsn}
use pgmigrate.Cdc.Segment.Scan.{FrameError, scan_segment}
use pgmigrate.Cdc.Segment.Catalog.{
  SegmentRange, CatalogError, has_path, remove_finalized, replace_finalized,
}

-- What the file system answers. `listing` holds the paths of the directory's segment files, `stat`
-- whether a file is regular and its size, `contents` the bytes that the scan reads.
pub record Files : Type 0 where
  pub listing : Option (List (List ℕ))
  pub stat : List ℕ → Option (Bool × ℕ)
  pub contents : List ℕ → Option (List ℕ)
  pub removes : List ℕ → Bool
  pub syncs : Bool

pub data PruneError : Type 0 where
  read_directory missing stat_failed open_failed remove_failed sync_directory : PruneError
  changed : FrameError → PruneError
  replacing : CatalogError → PruneError

-- What prune returns, with the catalog behind it; `errors` are joined.
pub record Pruned : Type 0 where
  pub catalog : List SegmentRange
  pub removed : List (List ℕ)
  pub more : Bool
  pub errors : List PruneError

-- A cataloged segment is not in the directory.
unfoldable pub is_missing : List (List ℕ) → List SegmentRange → Bool
is_missing present [] = false
is_missing present (s ∷ rest) = not (has_path present s.path) || is_missing present rest

unfoldable pub eligible : Lsn → List SegmentRange → ℕ
eligible applied [] = 0
eligible applied (s ∷ rest) =
    let others = eligible applied rest in if ltb s.last_end applied then suc others else 0

module _ (crc : List ℕ → ℕ) (files : Files) where
  -- The scan behind the entry before it, if there is one.
  unfoldable pub revalidate_cataloged_segment :
      Lsn × Lsn → SegmentRange → Result PruneError SegmentRange
  revalidate_cataloged_segment (previous_commit, previous_end) segment =
      elim (files.contents segment.path) [
        | none ↦ err open_failed
        | some bytes ↦ elim (scan_segment crc false previous_commit previous_end bytes) [
          | err e ↦ err (changed e)
          | ok (scan, _) ↦ ok (record {
            path = segment.path;
            start_commit = segment.start_commit;
            last_commit = scan.last_commit_lsn;
            last_end = scan.last_end_lsn;
            validated_size = scan.size;
          })
        ]
      ]

  -- The first candidate whose file changed, scanned again; `previous` is the entry before.
  unfoldable pub find_changed :
      Lsn × Lsn → List SegmentRange → Result PruneError (Option SegmentRange)
  find_changed previous [] = ok none
  find_changed previous (s ∷ rest) =
      let others = find_changed (s.last_commit, s.last_end) rest in
      elim (files.stat s.path) [
        | none ↦ err stat_failed
        | some (regular, size) ↦
            if not regular || not (size == s.validated_size)
            then (revalidate_cataloged_segment previous s >>= λ refreshed. ok (some refreshed))
            else others
      ]

  -- Removing the files up to the first failure.
  unfoldable pub remove_files : List SegmentRange → List (List ℕ) × List PruneError
  remove_files [] = ([], [])
  remove_files (s ∷ rest) =
      let others = remove_files rest in
      if files.removes s.path then (s.path ∷ others.0, others.1) else ([], remove_failed ∷ [])

  -- The catalog forgets the removed segments once the directory is synced.
  unfoldable pub forget : List SegmentRange → Bool → List (List ℕ) × List PruneError → Pruned
  forget catalog more ([], errors) = record {
    catalog = catalog;
    removed = [];
    more = more;
    errors = errors;
  }
  forget catalog more (path ∷ paths, errors) =
      if files.syncs
      then record {
        catalog = remove_finalized catalog (path ∷ paths);
        removed = path ∷ paths;
        more = more;
        errors = errors;
      }
      else record {
        catalog = catalog;
        removed = path ∷ paths;
        more = more;
        errors = errors ++ (sync_directory ∷ []);
      }

  abbrev pub nothing_removed : List SegmentRange → Bool → List PruneError → Pruned
  nothing_removed catalog more errors = record {
    catalog = catalog;
    removed = [];
    more = more;
    errors = errors;
  }

  unfoldable pub put_back :
      List SegmentRange → Bool → Result CatalogError (List SegmentRange) → Pruned
  put_back catalog more (err e) = nothing_removed catalog more (replacing e ∷ [])
  put_back catalog more (ok replaced) = nothing_removed replaced true []

  -- A changed segment takes its place in the catalog; otherwise the candidates are removed.
  unfoldable pub prune_unchanged :
      List SegmentRange
      → Bool
      → List SegmentRange
      → Result PruneError (Option SegmentRange)
      → Pruned
  prune_unchanged catalog more candidates (err e) = nothing_removed catalog more (e ∷ [])
  prune_unchanged catalog more candidates (ok none) = forget catalog more (remove_files candidates)
  prune_unchanged catalog more candidates (ok (some refreshed)) =
      put_back catalog more (replace_finalized catalog refreshed)

  unfoldable pub prune_candidates : List SegmentRange → Bool → List SegmentRange → Pruned
  prune_candidates catalog more candidates =
      prune_unchanged catalog more candidates (find_changed (0, 0) candidates)

  -- The newest eligible segment stays.
  unfoldable pub prune_eligible : Lsn → ℕ → List SegmentRange → Pruned
  prune_eligible applied max_remove catalog =
      let count = eligible applied catalog in
      let candidates = take (count - 1) catalog in
      if leb count 1
      then nothing_removed catalog false []
      else if ltb max_remove (length candidates)
      then prune_candidates catalog true (take max_remove candidates)
      else prune_candidates catalog false candidates

  -- Nothing is removed while a cataloged segment is missing.
  unfoldable pub prune_listed : Lsn → ℕ → List SegmentRange → Option (List (List ℕ)) → Pruned
  prune_listed applied max_remove catalog none = nothing_removed catalog false (read_directory ∷ [])
  prune_listed applied max_remove catalog (some present) =
      if is_missing present catalog
      then nothing_removed catalog false (missing ∷ [])
      else prune_eligible applied max_remove catalog

  unfoldable pub prune : Lsn → ℕ → List SegmentRange → Pruned
  prune applied max_remove catalog = prune_listed applied max_remove catalog files.listing
