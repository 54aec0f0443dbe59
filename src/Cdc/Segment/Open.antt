-- ===== src/Cdc/Segment/Open.antt =====
-- Opening a writer on a recovered directory: internal/cdc/segment.go, OpenWriter. The directory
-- exists and can be read; `opens` tells whether the tail can be opened, measured and sought.
use pgmigrate.Base.{
  ℕ, Bool, true, false, not, List, [], ◌∷◌, Option, none, some, ltb, ◌==◌, if◌then◌else◌,
}
use pgmigrate.Base.Int.{ℤ, pos, negsuc}
use pgmigrate.Base.Lists.{length}
use pgmigrate.Base.Results.{Result, ok, err, ◌>>=◌, ◌>>◌, fail_if}
use pgmigrate.Cdc.Segment.Writer.{SegmentWriter}
use pgmigrate.Cdc.Segment.Catalog.{SegmentRange}
use pgmigrate.Cdc.Segment.Recovery.{
  SegmentFile, Recovery, RecoveryError, parse_segment_name, recover_directory,
}

pub data OpenError : Type 0 where
  no_directory negative_rotation workers_range open_failed : OpenError
  recovery_failed : RecoveryError → OpenError

pub record WriterConfig : Type 0 where
  pub directory : List ℕ
  pub rotation_bytes : ℤ
  pub recovery_workers : ℤ

-- Zero stands for the default of 1 GiB.
unfoldable pub rotation_of : ℤ → Result OpenError ℕ
rotation_of (negsuc n) = err negative_rotation
rotation_of (pos n) = ok (if n == 0 then 1073741824 else n)

-- Zero stands for the default of four workers, which is also the maximum.
unfoldable pub workers_of : ℤ → Result OpenError ℕ
workers_of (negsuc n) = err workers_range
workers_of (pos n) = if ltb 4 n then err workers_range else ok (if n == 0 then 4 else n)

abbrev pub of_recovery : {A : Type 0} → Result RecoveryError A → Result OpenError A
of_recovery (ok a) = ok a
of_recovery (err e) = err (recovery_failed e)

unfoldable pub finalized_contents : List SegmentFile → List (List ℕ)
finalized_contents [] = []
finalized_contents (s ∷ rest) =
    let others = finalized_contents rest in if s.partial then others else s.contents ∷ others

-- The writer without a file.
unfoldable pub recovered_writer :
    ℕ → Recovery → List SegmentRange → List SegmentFile → SegmentWriter
recovered_writer rotation r ranges segments = record {
  rotation_bytes = rotation;
  catalog = ranges;
  file_open = false;
  partial_path = none;
  size = 0;
  last_commit_lsn = r.last_commit_lsn;
  last_end_lsn = r.durable_lsn;
  pending_end_lsn = r.durable_lsn;
  durable_end_lsn = r.durable_lsn;
  closed = false;
  tail = [];
  synced = [];
  finals = finalized_contents segments;
  stranded = [];
}

module _ (parse_uint : List ℕ → Option ℕ) where
  -- The start that the tail's name tells; recovery has synced the tail.
  unfoldable pub open_tail :
      Bool → Option (List ℕ) → Option (List ℕ) → SegmentWriter → Result OpenError SegmentWriter
  open_tail opens (some path) (some contents) w =
      if not opens
      then err open_failed
      else ok (record w {
        file_open = true;
        partial_path = some (elim (parse_segment_name parse_uint path) [
          | none ↦ 0
          | some (start, partial) ↦ start
        ]);
        size = length contents;
        tail = contents;
        synced = contents;
      })
  open_tail opens path contents w = ok w

  module _ (crc : List ℕ → ℕ) where
    unfoldable pub open_writer :
        WriterConfig → Bool → List SegmentFile → Result OpenError (SegmentWriter × Recovery)
    open_writer config opens segments = do
      fail_if (length config.directory == 0) no_directory
      rotation ← rotation_of config.rotation_bytes
      workers ← workers_of config.recovery_workers
      ((recovery, contents), ranges) ← of_recovery (recover_directory crc workers segments)
      w ←
          open_tail opens recovery.partial_path contents
            (recovered_writer rotation recovery ranges segments)
      ok (w, recovery)
