-- ===== src/Cdc/Segment/Log.antt =====
-- A segment's contents as a log of transactions, and what a scan of it should report.
use pgmigrate.Base.{ℕ, ◌≤◌, ◌<◌, List, [], ◌∷◌, ◌++◌}
use pgmigrate.Base.Bytes.{le_bytes}
use pgmigrate.Base.Lists.{length, concat_map}
use pgmigrate.Cdc.Model.{Lsn, Transaction}
use pgmigrate.Cdc.Codec.Layout.{payload_bytes, CanonicalTransaction}
use pgmigrate.Cdc.Segment.Scan.{ScanResult, add_frame}

-- Transactions that the format carries, in strictly increasing LSN order above the given LSNs.
abbrev pub Log : Lsn → Lsn → List Transaction → Type 0
Log commit end [] = Unit {0}
Log commit end (tx ∷ txs) =
    CanonicalTransaction tx
    × (commit < tx.commit_lsn)
    × (tx.commit_lsn ≤ tx.end_lsn)
    × (end < tx.end_lsn)
    × Log tx.commit_lsn tx.end_lsn txs

-- The LSNs at which a log that follows the given ones ends.
abbrev pub last_commit : Lsn → List Transaction → Lsn
last_commit commit [] = commit
last_commit commit (tx ∷ txs) = last_commit tx.commit_lsn txs

abbrev pub last_end : Lsn → List Transaction → Lsn
last_end end [] = end
last_end end (tx ∷ txs) = last_end tx.end_lsn txs

module _ (crc : List ℕ → ℕ) where
  -- Length, checksum, payload.
  abbrev pub frame : List ℕ → List ℕ
  frame payload = le_bytes 4 (length payload) ++ (le_bytes 4 (crc payload) ++ payload)

  unfoldable pub frame_bytes : Transaction → List ℕ
  frame_bytes tx = frame (payload_bytes tx)

  abbrev pub log_bytes : List Transaction → List ℕ
  log_bytes = concat_map frame_bytes

-- The scan's result behind a log.
unfoldable pub scan_log : ScanResult → List Transaction → ScanResult
scan_log r [] = r
scan_log r (tx ∷ txs) =
    scan_log (add_frame r (length (payload_bytes tx)) tx.commit_lsn tx.end_lsn) txs
