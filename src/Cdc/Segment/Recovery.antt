-- ===== src/Cdc/Segment/Recovery.antt =====
-- Recovery of a segment directory: internal/cdc/segment.go, parseSegmentName, listSegments,
-- prepareRecoverySegments and recoverDirectoryWithConfig. The directory is a list of regular files,
-- each a name and its bytes, and its files do not change meanwhile. The workers that scan
-- finalized segments share nothing but their result slots, so that the order in which they run is
-- not modelled; progress reports are left out. `parse_uint` is strconv.ParseUint in base 16.
use pgmigrate.Base.{
  ℕ, ◌+◌, ◌-◌, Bool, true, false, not, ◌&&◌, ◌||◌, List, [], ◌∷◌, Option, none, some, ltb, leb,
  ◌==◌, if◌then◌else◌,
}
use pgmigrate.Base.Lists.{length, take, drop}
use pgmigrate.Base.Results.{Result, ok, err, ◌>>=◌, ◌>>◌, fail_if}
use pgmigrate.Cdc.Model.{Lsn}
use pgmigrate.Cdc.Codec.Decode.{same_bytes}
use pgmigrate.Cdc.Segment.Scan.{FrameError, ScanResult, scan_segment}
use pgmigrate.Cdc.Segment.Catalog.{SegmentRange}

pub record SegmentFile : Type 0 where
  pub path : List ℕ
  pub start : Lsn
  pub partial : Bool
  pub contents : List ℕ

pub record Recovery : Type 0 where
  pub last_commit_lsn : Lsn
  pub durable_lsn : Lsn
  pub partial_path : Option (List ℕ)
  pub truncated_bytes : ℕ

pub data RecoveryError : Type 0 where
  workers_out_of_range finalized_follows_partial multiple_partials size_overflow : RecoveryError
  commit_not_after end_not_after : RecoveryError
  scan_failed : FrameError → RecoveryError

-- ".seg" and ".seg.partial".
abbrev pub segment_suffix : List ℕ
segment_suffix = 46 ∷ 115 ∷ 101 ∷ 103 ∷ []

abbrev pub partial_suffix : List ℕ
partial_suffix = 46 ∷ 115 ∷ 101 ∷ 103 ∷ 46 ∷ 112 ∷ 97 ∷ 114 ∷ 116 ∷ 105 ∷ 97 ∷ 108 ∷ []

unfoldable pub has_suffix : List ℕ → List ℕ → Bool
has_suffix name suffix =
    leb (length suffix) (length name) && same_bytes (drop (length name - length suffix) name) suffix

module _ (parse_uint : List ℕ → Option ℕ) where
  -- Sixteen hexadecimal digits before the suffix: the start, and whether the file is partial.
  unfoldable pub parse_segment_name : List ℕ → Option (Lsn × Bool)
  parse_segment_name name =
      let partial = has_suffix name partial_suffix in
      let suffix = (if partial then partial_suffix else segment_suffix) in
      let base = take (length name - length suffix) name in
      if not (has_suffix name suffix) || not (length base == 16)
      then none
      else elim (parse_uint base) [ none ↦ none | some start ↦ some (start, partial) ]

  -- The order of the list: by start, a finalized segment before a partial one.
  unfoldable pub sorts_before : SegmentFile → SegmentFile → Bool
  sorts_before a b = if a.start == b.start then not a.partial && b.partial else ltb a.start b.start

  unfoldable pub insert_segment : SegmentFile → List SegmentFile → List SegmentFile
  insert_segment s [] = s ∷ []
  insert_segment s (t ∷ rest) =
      let behind = insert_segment s rest in if sorts_before t s then t ∷ behind else s ∷ t ∷ rest

  -- The entries of the directory that are segments, in order.
  unfoldable pub list_segments : List (List ℕ × List ℕ) → List SegmentFile
  list_segments [] = []
  list_segments ((name, contents) ∷ rest) =
      let others = list_segments rest in
      elim (parse_segment_name name) [
        | none ↦ others
        | some (start, partial) ↦
            insert_segment
              (record { path = name; start = start; partial = partial; contents = contents }) others
      ]

-- The finalized segments and the partial one, which must be the last.
unfoldable pub split_partial :
    List SegmentFile → Result RecoveryError (List SegmentFile × Option SegmentFile)
split_partial [] = ok ([], none)
split_partial (s ∷ []) = ok (if s.partial then ([], some s) else (s ∷ [], none))
split_partial (s ∷ t ∷ rest) =
    let behind = split_partial (t ∷ rest) in
    if s.partial
    then err (if t.partial then multiple_partials else finalized_follows_partial)
    else (behind >>= λ (finalized, partial). ok (s ∷ finalized, partial))

-- The sum of the sizes, which an int64 must hold.
unfoldable pub prepare_recovery_segments : ℕ → List SegmentFile → Result RecoveryError ℕ
prepare_recovery_segments total [] = ok total
prepare_recovery_segments total (s ∷ rest) =
    fail_if (ltb (9223372036854775807 - total) (length s.contents)) size_overflow
    >> prepare_recovery_segments (total + length s.contents) rest

abbrev pub of_scan : {A : Type 0} → Result FrameError A → Result RecoveryError A
of_scan (ok a) = ok a
of_scan (err e) = err (scan_failed e)

-- The check of one finalized segment against the ones before it; an empty one changes nothing.
unfoldable pub follow_segment : Lsn × Lsn → ScanResult → Result RecoveryError (Lsn × Lsn)
follow_segment (commit, end) scan =
    if scan.frames == 0
    then ok (commit, end)
    else (fail_if (leb scan.first_commit_lsn commit) commit_not_after
        >> fail_if (leb scan.first_end_lsn end) end_not_after
        >> ok (scan.last_commit_lsn, scan.last_end_lsn))

module _ (crc : List ℕ → ℕ) where
  -- The finalized segments in order: the LSNs behind them, and their catalog.
  unfoldable pub recover_finalized :
      Lsn × Lsn → List SegmentFile → Result RecoveryError ((Lsn × Lsn) × List SegmentRange)
  recover_finalized lsns [] = ok (lsns, [])
  recover_finalized lsns (s ∷ rest) = do
    (scan, _) ← of_scan (scan_segment crc false 0 0 s.contents)
    (commit, end) ← follow_segment lsns scan
    (last, ranges) ← recover_finalized (commit, end) rest
    ok (
      last,
      record {
        path = s.path;
        start_commit = s.start;
        last_commit = commit;
        last_end = end;
        validated_size = scan.size;
      }
          ∷ ranges,
    )

  -- The partial tail, repaired behind the finalized segments; its bytes afterwards are returned.
  unfoldable pub recover_partial :
      Lsn × Lsn → Option SegmentFile → Result RecoveryError (Recovery × Option (List ℕ))
  recover_partial (commit, end) none = ok (
    record {
      last_commit_lsn = commit;
      durable_lsn = end;
      partial_path = none;
      truncated_bytes = 0;
    },
    none,
  )
  recover_partial (commit, end) (some s) = do
    (scan, contents) ← of_scan (scan_segment crc true commit end s.contents)
    ok (
      record {
        last_commit_lsn = scan.last_commit_lsn;
        durable_lsn = scan.last_end_lsn;
        partial_path = some s.path;
        truncated_bytes = scan.truncated;
      },
      some contents,
    )

  unfoldable pub recover_directory :
      ℕ → List SegmentFile → Result RecoveryError ((Recovery × Option (List ℕ)) × List SegmentRange)
  recover_directory workers segments = do
    fail_if (ltb workers 1 || ltb 4 workers) workers_out_of_range
    (finalized, partial) ← split_partial segments
    total ← prepare_recovery_segments 0 segments
    (lsns, ranges) ← recover_finalized (0, 0) finalized
    recovered ← recover_partial lsns partial
    ok (recovered, ranges)
