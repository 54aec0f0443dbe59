-- ===== src/Cdc/Tests/Writers.antt =====
-- The segment writer and recovery at small logs.
use pgmigrate.Base.{ℕ, ◌+◌, ◌≤◌, ◌<◌, ◌≡◌, ◌⊎◌, refl, true, false, List, [], ◌∷◌, ◌++◌, some, arith}
use pgmigrate.Base.Lists.{length, take, drop, concat_map}
use pgmigrate.Base.Results.{ok, err}
use pgmigrate.Cdc.Model.{Lsn, Transaction}
use pgmigrate.Cdc.Codec.Layout.{payload_bytes, datum_bytes, tuple_bytes, options_bytes}
use pgmigrate.Base.Bytes.{le_bytes}
use pgmigrate.Cdc.Segment.Open.{WriterConfig, rotation_of, workers_of, open_writer}
use pgmigrate.Cdc.Segment.Reopens.{open_writer_lem}
use pgmigrate.Base.{Option}
use pgmigrate.Base.Int.{pos, u64_of_int}
use pgmigrate.Cdc.Segment.Scan.{scan_segment, scan_start}
use pgmigrate.Cdc.Segment.Log.{Log, last_commit, last_end, frame_bytes, log_bytes, scan_log}
use pgmigrate.Cdc.Segment.Writer.{Io, SegmentWriter, sync_failed, sync, rotate}
use pgmigrate.Cdc.Segment.Append.{append_frame}
use pgmigrate.Cdc.Segment.Tracks.{Tracks, durable_recovered}
use pgmigrate.Cdc.Segment.Syncs.{sync_lem}
use pgmigrate.Cdc.Segment.Rotates.{Seals, sealed_range, rotate_lem}
use pgmigrate.Cdc.Segment.Recovery.{
  SegmentFile, Recovery, prepare_recovery_segments, recover_directory,
}
use pgmigrate.Cdc.Segment.Restart.{Finalized, Cataloged, no_segment, segment, recover_directory_lem}
use pgmigrate.Cdc.Segment.Works.{Writes, append_frame_works}
use pgmigrate.Cdc.Segment.Catalog.{SegmentRange, add_finalized}
use pgmigrate.Cdc.Tests.{
  checksum, checksum-range, two, two-Log, first, second, third, first-canonical, second-canonical,
  third-canonical,
}

abbrev quiet : Io
quiet = record {
  create = true;
  entry_sync = true;
  header_write = true;
  payload_write = true;
  write = λ out bytes. ok (out ++ bytes);
  rollback = true;
  left_behind = [];
  header_seek = true;
  header_rewrite = true;
  end_seek = true;
  file_sync = true;
  close = true;
  rename = true;
  reopen = true;
  directory_sync = true;
}

abbrev busy : SegmentWriter
busy = record {
  rotation_bytes = 1073741824;
  catalog = [];
  file_open = true;
  partial_path = some 10;
  size = length (log_bytes checksum two);
  last_commit_lsn = 20;
  last_end_lsn = 25;
  pending_end_lsn = 25;
  durable_end_lsn = 12;
  closed = false;
  tail = log_bytes checksum two;
  synced = log_bytes checksum (first ∷ []);
  finals = [];
  stranded = [];
}

busy-Tracks : Tracks checksum busy 0 0 (first ∷ []) (second ∷ [])
busy-Tracks = record {
  opened = refl;
  running = refl;
  log = two-Log;
  tail = refl;
  synced = refl;
  size = refl;
  at_commit = refl;
  at_end = refl;
  pending = refl;
  durable = refl;
}

quiet-Writes : Writes quiet
quiet-Writes = record {
  header_write = refl;
  payload_write = refl;
  header_seek = refl;
  header_rewrite = refl;
  end_seek = refl;
  accepts = λ out bytes. refl;
}

third_fits : busy.size + (8 + length (payload_bytes third)) < busy.rotation_bytes
unfolding frame_bytes le_bytes concat_map datum_bytes tuple_bytes options_bytes u64_of_int
third_fits = omega arith

abbrev final : Lsn → List ℕ
final start = start ∷ []

append_frame_works_example :
    (v : SegmentWriter) × (append_frame checksum final quiet busy (some third)
      ≡ (v, ok (8 + length (payload_bytes third))))
    × Tracks checksum v 0 0 (first ∷ []) (second ∷ third ∷ [])
append_frame_works_example =
    append_frame_works checksum checksum-range 0 0 (first ∷ []) (second ∷ []) final quiet busy third
      busy-Tracks third-canonical quiet-Writes (omega arith) (omega arith) (omega arith)
      (omega arith) third_fits

sync_example :
    ((((second ∷ []) ≡ []) ⊎ (quiet.file_sync ≡ true))
      × (v : SegmentWriter) × (sync quiet busy ≡ ((v, ok tt), 25))
      × Tracks checksum v 0 0 two [])
    ⊎ ((¬ ((second ∷ []) ≡ []))
        × (quiet.file_sync ≡ false)
        × (sync quiet busy ≡ ((busy, err sync_failed), 12)))
sync_example = sync_lem checksum 0 0 (first ∷ []) (second ∷ []) quiet busy busy-Tracks

durable_recovered_example :
    (kept : List Transaction) × (truncated : ℕ) × (scan_segment checksum true 0 0
        (busy.synced ++ take 9 (drop (length busy.synced) busy.tail))
      ≡ ok (
        record (scan_log (scan_start 0 0) (first ∷ kept)) { truncated = truncated },
        log_bytes checksum (first ∷ kept),
      ))
    × (12 ≤ (scan_log (scan_start 0 0) (first ∷ kept)).last_end_lsn)
durable_recovered_example =
    durable_recovered checksum checksum-range 0 0 (first ∷ []) (second ∷ []) busy busy-Tracks 9

quiet-Seals : Seals quiet
quiet-Seals = record { file_sync = refl; close = refl; rename = refl; directory_sync = refl }

busy_added :
    add_finalized busy.catalog (sealed_range final busy 10) ≡ ok (sealed_range final busy 10 ∷ [])
unfolding add_finalized
busy_added = refl

rotate_example :
    (v : SegmentWriter) × (rotate final quiet busy ≡ (v, ok tt))
    × (v.finals ≡ log_bytes checksum two ∷ [])
    × (v.durable_end_lsn ≡ 25)
    × (v.catalog ≡ sealed_range final busy 10 ∷ [])
    × (v.file_open ≡ false)
    × (v.tail ≡ [])
rotate_example =
    rotate_lem checksum 0 0 (first ∷ []) (second ∷ []) final quiet busy 10
      (sealed_range final busy 10 ∷ []) busy-Tracks quiet-Seals refl busy_added

abbrev sealed_file : SegmentFile
sealed_file = record {
  path = 1 ∷ [];
  start = 10;
  partial = false;
  contents = log_bytes checksum (first ∷ []);
}

abbrev torn_file : SegmentFile
torn_file = record {
  path = 2 ∷ [];
  start = 20;
  partial = true;
  contents = log_bytes checksum (second ∷ []) ++ take 30 (log_bytes checksum (third ∷ []));
}

sealed-Finalized : Finalized checksum 0 0 (sealed_file ∷ []) (first ∷ [])
sealed-Finalized =
    segment 0 0 sealed_file first [] [] [] refl refl
      (first-canonical, omega arith, omega arith, omega arith, tt) (no_segment 10 12)

tail-Log : Log 10 12 (second ∷ third ∷ [])
tail-Log = (
  second-canonical,
  omega arith,
  omega arith,
  omega arith,
  (third-canonical, omega arith, omega arith, omega arith, tt),
)

abbrev total_size : ℕ
total_size =
    length (log_bytes checksum (first ∷ []))
    + length (log_bytes checksum (second ∷ []) ++ take 30 (log_bytes checksum (third ∷ [])))

sizes : prepare_recovery_segments 0 (sealed_file ∷ torn_file ∷ []) ≡ ok total_size
unfolding prepare_recovery_segments frame_bytes le_bytes concat_map datum_bytes tuple_bytes
    options_bytes u64_of_int
sizes = refl

recover_directory_example :
    (kept : List Transaction) × (lost : List Transaction) × (truncated : ℕ) × (ranges : List
      SegmentRange)
    × (kept ++ lost ≡ third ∷ [])
    × (recover_directory checksum 4 (sealed_file ∷ torn_file ∷ [])
        ≡ ok (
          (
            record {
              last_commit_lsn = last_commit 0 (first ∷ second ∷ kept);
              durable_lsn = last_end 0 (first ∷ second ∷ kept);
              partial_path = some (2 ∷ []);
              truncated_bytes = truncated;
            },
            some (log_bytes checksum (second ∷ kept)),
          ),
          ranges,
        ))
    × Cataloged checksum 0 0 (sealed_file ∷ []) (first ∷ []) ranges
recover_directory_example =
    recover_directory_lem checksum checksum-range 4 total_size 30 (sealed_file ∷ []) torn_file
      (first ∷ []) (second ∷ []) (third ∷ []) (omega arith) (omega arith) sealed-Finalized refl refl
      tail-Log sizes

abbrev config : WriterConfig
config = record { directory = 47 ∷ []; rotation_bytes = pos 0; recovery_workers = pos 2 }

abbrev hexadecimal : List ℕ → Option ℕ
hexadecimal digits = some 20

default_rotation : rotation_of (pos 0) ≡ ok 1073741824
unfolding rotation_of
default_rotation = refl

two_workers : workers_of (pos 2) ≡ ok 2
unfolding workers_of
two_workers = refl

open_writer_example :
    (w : SegmentWriter) × (r : Recovery) × (kept : List Transaction) × (lost : List Transaction)
    × (open_writer hexadecimal checksum config true (sealed_file ∷ torn_file ∷ []) ≡ ok (w, r))
    × (kept ++ lost ≡ third ∷ [])
    × Tracks checksum w 10 12 (second ∷ kept) []
open_writer_example =
    open_writer_lem checksum checksum-range hexadecimal config 1073741824 2 total_size 30
      (sealed_file ∷ []) torn_file (first ∷ []) (second ∷ []) (third ∷ []) refl default_rotation
      two_workers sealed-Finalized refl refl tail-Log sizes
