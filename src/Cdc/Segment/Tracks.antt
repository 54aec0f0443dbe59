-- ===== src/Cdc/Segment/Tracks.antt =====
-- An open writer, and the log that its tail holds: AppendFrame.
use mathlib.Core.List.{append_assoc, append-nil}
use pgmigrate.Base.{ℕ, ◌+◌, ◌≤◌, ◌<◌, ◌≡◌, sym, ap, ◌∙◌, true, false, List, [], ◌∷◌, ◌++◌, arith}
use pgmigrate.Base.Bytes.{length-append_bytes}
use pgmigrate.Base.Lists.{length, take, drop, drop-length-append}
use pgmigrate.Base.Results.{ok}
use pgmigrate.Cdc.Model.{Lsn, Transaction}
use pgmigrate.Cdc.Codec.Layout.{payload_bytes, CanonicalTransaction}
use pgmigrate.Cdc.Segment.Scan.{scan_start, scan_segment}
use pgmigrate.Cdc.Segment.Log.{Log, last_commit, last_end, frame_bytes, log_bytes, scan_log}
use pgmigrate.Cdc.Segment.Recovers.{length-frame_bytes}
use pgmigrate.Cdc.Segment.Crash.{
  log_bytes-append, log_bytes-snoc, append-Log, last_end-append, last_commit-append, recovered-Log,
}
use pgmigrate.Cdc.Segment.Writer.{Io, SegmentWriter, Outcome}
use pgmigrate.Cdc.Segment.Append.{open_if_needed, advance}

-- Behind the LSNs `c` and `e` the tail holds the frames of `safe`, which are synced, and of `fresh`.
pub record Tracks (crc : List ℕ → ℕ) (w : SegmentWriter) (c e : Lsn) (safe fresh : List Transaction)
    : Type 0 where
  pub opened : w.file_open ≡ true
  pub running : w.closed ≡ false
  pub log : Log c e (safe ++ fresh)
  pub tail : w.tail ≡ log_bytes crc (safe ++ fresh)
  pub synced : w.synced ≡ log_bytes crc safe
  pub size : w.size ≡ length w.tail
  pub at_commit : w.last_commit_lsn ≡ last_commit c (safe ++ fresh)
  pub at_end : w.last_end_lsn ≡ last_end e (safe ++ fresh)
  pub pending : w.pending_end_lsn ≡ last_end e (safe ++ fresh)
  pub durable : w.durable_end_lsn ≡ last_end e safe

pub already_open :
    (io : Io) (w : SegmentWriter) (start : Lsn)
    → w.file_open ≡ true
    → ◌≡◌ {A = Outcome (Unit {0})} (open_if_needed io w start) (w, ok tt)
unfolding open_if_needed
already_open io w start h = simp h

module _ (crc : List ℕ → ℕ) (crc_range : (p : List ℕ) → crc p < 4294967296) (c e : Lsn)
    (safe fresh : List Transaction) where
  pub Tracks-append :
      (w : SegmentWriter) (tx : Transaction)
      → Tracks crc w c e safe fresh
      → CanonicalTransaction tx
      → w.last_commit_lsn < tx.commit_lsn
      → tx.commit_lsn ≤ tx.end_lsn
      → w.last_end_lsn < tx.end_lsn
      → Tracks crc
          (advance
            (record w { tail = w.tail ++ frame_bytes crc tx })
            tx
            (8 + length (payload_bytes tx)))
          c
          e
          safe
          (fresh ++ (tx ∷ []))
  unfolding advance
  Tracks-append w tx t canonical commits ordered ends =
      let more : (safe ++ fresh) ++ (tx ∷ []) ≡ safe ++ (fresh ++ (tx ∷ [])) =
        append_assoc safe fresh (tx ∷ []) in
      record {
        opened = t.opened;
        running = t.running;
        log = rw (sym more) (
            append-Log c e (safe ++ fresh) (tx ∷ []) t.log
              (canonical, omega (arith, t.at_commit), ordered, omega (arith, t.at_end), tt));
        tail =
            rw (t.tail, sym more)
              (ap (λ b. log_bytes crc (safe ++ fresh) ++ b) (sym (append-nil (frame_bytes crc tx)))
                ∙ sym (log_bytes-snoc crc (safe ++ fresh) tx [])
                ∙ append-nil _);
        synced = t.synced;
        size = omega (
          arith,
          t.size,
          length-append_bytes w.tail (frame_bytes crc tx),
          length-frame_bytes crc crc_range tx,
        );
        at_commit = rw (sym more) (sym (last_commit-append c (safe ++ fresh) (tx ∷ [])));
        at_end = rw (sym more) (sym (last_end-append e (safe ++ fresh) (tx ∷ [])));
        pending = rw (sym more) (sym (last_end-append e (safe ++ fresh) (tx ∷ [])));
        durable = t.durable;
      }

  -- After a crash at any point of the tail's unsynced bytes, recovery of the tail ends at or after
  -- the LSN that the writer has reported as durable.
  pub durable_recovered :
      (w : SegmentWriter)
      → Tracks crc w c e safe fresh
      → (n : ℕ)
      → (kept : List Transaction) × (truncated : ℕ) × (scan_segment crc true c e
            (w.synced ++ take n (drop (length w.synced) w.tail))
          ≡ ok (
            record (scan_log (scan_start c e) (safe ++ kept)) { truncated = truncated },
            log_bytes crc (safe ++ kept),
          ))
        × (w.durable_end_lsn ≤ (scan_log (scan_start c e) (safe ++ kept)).last_end_lsn)
  durable_recovered w t n =
      let (kept, lost, truncated, split, scan, ends) =
        recovered-Log crc crc_range c e safe fresh t.log n in
      let unsynced : drop (length w.synced) w.tail ≡ log_bytes crc fresh =
        rw (t.synced, t.tail, log_bytes-append crc safe fresh)
          (drop-length-append (log_bytes crc safe) (log_bytes crc fresh)) in
      (kept, truncated, rw (unsynced, t.synced) scan, omega (arith, ends, t.durable))
