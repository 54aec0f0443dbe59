-- ===== src/Cdc/Tests/Segments.antt =====
-- Segment files and the catalog at small logs.
use mathlib.Core.List.{Memᴰ}
use pgmigrate.Base.{ℕ, ◌↔◌, ◌≤◌, ◌<◌, ◌≡◌, refl, true, false, List, [], ◌∷◌, ◌++◌, arith}
use pgmigrate.Base.Lists.{length, take, drop, concat_map}
use pgmigrate.Base.Results.{ok}
use pgmigrate.Cdc.Model.{Transaction}
use pgmigrate.Cdc.Codec.Layout.{datum_bytes, tuple_bytes, options_bytes}
use pgmigrate.Base.Bytes.{le_bytes}
use pgmigrate.Base.Int.{u64_of_int}
use pgmigrate.Cdc.Segment.Scan.{ScanResult, scan_segment, scan_start}
use pgmigrate.Cdc.Segment.Log.{frame_bytes, log_bytes, scan_log}
use pgmigrate.Cdc.Segment.Torn.{scan_segment-log, scan_segment-torn}
use pgmigrate.Cdc.Segment.Crash.{recovered-Log}
use pgmigrate.Cdc.Segment.Catalog.{
  SegmentRange, misplaced, check_previous, check_next, replace_after, add_finalized,
  remove_finalized, replace_finalized,
}
use pgmigrate.Cdc.Segment.Ordered.{Ordered, add_finalized-Ordered}
use pgmigrate.Cdc.Segment.Changed.{Replaces, remove_finalized-Ordered, replace_finalized-Ordered}
use pgmigrate.Cdc.Codec.Decode.{same_bytes}
use pgmigrate.Cdc.Tests.{
  checksum, checksum-range, two, two-Log, first, second, third, third-canonical,
}

scan_segment-log_example :
    (r : ScanResult) × (scan_segment checksum false 0 0 (log_bytes checksum two)
      ≡ ok (r, log_bytes checksum two))
    × (r.first_commit_lsn ≡ 10)
    × (r.first_end_lsn ≡ 12)
    × (r.last_commit_lsn ≡ 20)
    × (r.last_end_lsn ≡ 25)
    × (r.size ≡ length (log_bytes checksum two))
    × (r.frames ≡ 2)
    × (r.truncated ≡ 0)
scan_segment-log_example = scan_segment-log checksum checksum-range 0 0 two two-Log false

third_torn :
    take 5 (frame_bytes checksum third) ++ drop 5 (frame_bytes checksum third)
    ≡ frame_bytes checksum third
unfolding frame_bytes le_bytes
third_torn = refl

third_lost : 0 < length (drop 5 (frame_bytes checksum third))
unfolding frame_bytes le_bytes concat_map datum_bytes tuple_bytes options_bytes u64_of_int
third_lost = omega arith

scan_segment-torn_example :
    scan_segment checksum true 0 0 (log_bytes checksum two ++ take 5 (frame_bytes checksum third))
    ≡ ok (
      record (scan_log (scan_start 0 0) two) {
        truncated = length (take 5 (frame_bytes checksum third));
      },
      log_bytes checksum two,
    )
scan_segment-torn_example =
    scan_segment-torn checksum checksum-range 0 0 two two-Log third
      (take 5 (frame_bytes checksum third)) (drop 5 (frame_bytes checksum third)) third-canonical
      third_torn third_lost

recovered-Log_example :
    (kept : List Transaction) × (lost : List Transaction) × (truncated : ℕ) × (kept ++ lost
      ≡ second ∷ [])
    × (scan_segment checksum true 0 0
          (log_bytes checksum (first ∷ []) ++ take 9 (log_bytes checksum (second ∷ [])))
        ≡ ok (
          record (scan_log (scan_start 0 0) (first ∷ kept)) { truncated = truncated },
          log_bytes checksum (first ∷ kept),
        ))
    × (12 ≤ (scan_log (scan_start 0 0) (first ∷ kept)).last_end_lsn)
recovered-Log_example =
    recovered-Log checksum checksum-range 0 0 (first ∷ []) (second ∷ []) two-Log 9

abbrev one_range : SegmentRange
one_range = record {
  path = 1 ∷ [];
  start_commit = 10;
  last_commit = 20;
  last_end = 25;
  validated_size = 100;
}

abbrev two_range : SegmentRange
two_range = record {
  path = 2 ∷ [];
  start_commit = 30;
  last_commit = 40;
  last_end = 45;
  validated_size = 90;
}

abbrev longer_one : SegmentRange
longer_one = record one_range { last_commit = 28; last_end = 29; validated_size = 150 }

two-Ordered : Ordered (one_range ∷ two_range ∷ [])
two-Ordered = (record { start = omega arith; commit = omega arith; end = omega arith }, tt)

added : add_finalized (one_range ∷ []) two_range ≡ ok (one_range ∷ two_range ∷ [])
unfolding add_finalized misplaced
added = refl

add_finalized_example :
    ((one_range ∷ two_range ∷ []) ≡ (one_range ∷ []) ++ (two_range ∷ []))
    × Ordered (one_range ∷ two_range ∷ [])
add_finalized_example =
    add_finalized-Ordered (one_range ∷ []) two_range (one_range ∷ two_range ∷ []) tt added

remove_finalized_example :
    Ordered (remove_finalized (one_range ∷ two_range ∷ []) ((1 ∷ []) ∷ []))
    × (Memᴰ two_range (remove_finalized (one_range ∷ two_range ∷ []) ((1 ∷ []) ∷ []))
        ↔ (Memᴰ two_range (one_range ∷ two_range ∷ []) × ¬ Memᴰ two_range.path ((1 ∷ []) ∷ [])))
remove_finalized_example =
    remove_finalized-Ordered (one_range ∷ two_range ∷ []) ((1 ∷ []) ∷ []) two_range two-Ordered

replaced :
    replace_finalized (one_range ∷ two_range ∷ []) longer_one ≡ ok (longer_one ∷ two_range ∷ [])
unfolding replace_finalized replace_after same_bytes check_previous check_next
replaced = refl

replace_finalized_example :
    Replaces longer_one (one_range ∷ two_range ∷ []) (longer_one ∷ two_range ∷ [])
    × Ordered (longer_one ∷ two_range ∷ [])
replace_finalized_example =
    replace_finalized-Ordered (one_range ∷ two_range ∷ []) longer_one (longer_one ∷ two_range ∷ [])
      two-Ordered replaced
