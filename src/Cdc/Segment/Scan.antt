-- ===== src/Cdc/Segment/Scan.antt =====
-- Reading a segment file: internal/cdc/segment.go, scanSegmentWithProgress without a visitor (as
-- recovery and pruning call it) and scanTransactionMetadata. A file is its bytes; the runs modelled
-- are those whose file operations succeed and whose file nobody else changes. `crc` is the
-- Castagnoli checksum of a byte string.
use pgmigrate.Base.{
  ℕ, zero, suc, ◌+◌, ◌-◌, Bool, true, false, not, ◌&&◌, ◌||◌, List, [], ◌∷◌, Option, none, some,
  ltb, leb, ◌==◌, if◌then◌else◌,
}
use pgmigrate.Base.Bytes.{le_value}
use pgmigrate.Base.Lists.{length, take, drop}
use pgmigrate.Base.Results.{Result, ok, err, ◌>>=◌, ◌>>◌, fail_if}
use pgmigrate.Cdc.Model.{Lsn}
use pgmigrate.Cdc.Codec.Encode.{payload_magic, payload_version}
use pgmigrate.Cdc.Codec.Decode.{same_bytes}

pub data FrameError : Type 0 where
  short_header short_payload short_metadata checksum_mismatch : FrameError
  bad_magic bad_version commit_order end_order out_of_fuel : FrameError

abbrev pub frame_header_size : ℕ
frame_header_size = 8

abbrev pub metadata_bytes : ℕ
metadata_bytes = 21

pub record ScanResult : Type 0 where
  pub first_commit_lsn : Lsn
  pub first_end_lsn : Lsn
  pub last_commit_lsn : Lsn
  pub last_end_lsn : Lsn
  pub size : ℕ
  pub truncated : ℕ
  pub frames : ℕ

-- The order that a frame's LSNs must keep with those before it.
unfoldable pub check_order : ScanResult → Lsn → Lsn → Result FrameError (Unit {0})
check_order r commit end = do
  fail_if (leb commit r.last_commit_lsn || ltb end commit) commit_order
  fail_if (leb end r.last_end_lsn) end_order

-- The result with one more frame of `size` payload bytes.
unfoldable pub add_frame : ScanResult → ℕ → Lsn → Lsn → ScanResult
add_frame r size commit end = record {
  first_commit_lsn = if r.frames == 0 then commit else r.first_commit_lsn;
  first_end_lsn = if r.frames == 0 then end else r.first_end_lsn;
  last_commit_lsn = commit;
  last_end_lsn = end;
  size = r.size + (frame_header_size + size);
  truncated = r.truncated;
  frames = r.frames + 1;
}

abbrev pub scan_start : Lsn → Lsn → ScanResult
scan_start previous_commit previous_end = record {
  first_commit_lsn = 0;
  first_end_lsn = 0;
  last_commit_lsn = previous_commit;
  last_end_lsn = previous_end;
  size = 0;
  truncated = 0;
  frames = 0;
}

-- A repaired tail is cut behind its last valid frame; a finalized segment may not be corrupt.
unfoldable pub finish_scan :
    Bool → List ℕ → ScanResult × Option FrameError → Result FrameError (ScanResult × List ℕ)
finish_scan repair file (r, none) = ok (r, file)
finish_scan false file (r, some e) = err e
finish_scan true file (r, some e) =
    ok (record r { truncated = length file - r.size }, take r.size file)

module _ (crc : List ℕ → ℕ) where
  -- The commit and end LSN of the payload that stands at the head of `body`.
  unfoldable pub scan_transaction_metadata : List ℕ → ℕ → ℕ → Result FrameError (Lsn × Lsn)
  scan_transaction_metadata body size expected = do
    fail_if (ltb size metadata_bytes) short_metadata
    fail_if (ltb (length body) size) short_payload
    let payload = take size body
    fail_if (not (crc payload == expected)) checksum_mismatch
    fail_if (not (same_bytes (take 4 payload) payload_magic)) bad_magic
    let version = le_value (take 1 (drop 4 payload))
    fail_if (not (version == 1) && not (version == payload_version)) bad_version
    ok (le_value (take 8 (drop 5 payload)), le_value (take 8 (drop 13 payload)))

  -- One round of the loop, on bytes that are not at their end: the result with the next frame.
  unfoldable pub scan_frame : ScanResult → List ℕ → Result FrameError (ScanResult × List ℕ)
  scan_frame r rest = do
    fail_if (ltb (length rest) frame_header_size) short_header
    let size = le_value (take 4 rest)
    let body = drop frame_header_size rest
    (commit, end) ← scan_transaction_metadata body size (le_value (take 4 (drop 4 rest)))
    check_order r commit end
    ok (add_frame r size commit end, drop size body)

  -- The loop: what was read, and the error at which it stopped before the end of the file. Every
  -- frame takes bytes, so that as much fuel as there are bytes, and one more, is enough.
  unfoldable pub scan_frames : ℕ → ScanResult → List ℕ → ScanResult × Option FrameError
  scan_frames zero r rest = (r, some out_of_fuel)
  scan_frames (suc fuel) r [] = (r, none)
  scan_frames (suc fuel) r (b ∷ rest) = elim (scan_frame r (b ∷ rest)) [
    | ok (s, left) ↦ scan_frames fuel s left
    | err e ↦ (r, some e)
  ]

  -- The result of the scan, and the file's bytes after it.
  unfoldable pub scan_segment : Bool → Lsn → Lsn → List ℕ → Result FrameError (ScanResult × List ℕ)
  scan_segment repair previous_commit previous_end file =
      finish_scan repair file
        (scan_frames (suc (length file)) (scan_start previous_commit previous_end) file)
