-- ===== src/Cdc/Segment/Works.antt =====
-- Appending when the file system does what it is asked.
use pgmigrate.Base.{
  ℕ, ◌+◌, ◌≤◌, ◌<◌, ◌≡◌, true, false, ◌||◌, List, [], ◌∷◌, ◌++◌, some, arith, Bool-cases, ltb, ◌==◌,
  ==-self, gt→leb, le→ltb, inl, inr,
}
use pgmigrate.Base.Lists.{length}
use pgmigrate.Base.Results.{ok}
use pgmigrate.Cdc.Model.{Lsn, Transaction}
use pgmigrate.Cdc.Codec.Size.{is_some, max_payload_size, stream_payload_bytes}
use pgmigrate.Cdc.Codec.Layout.{payload_bytes, CanonicalTransaction}
use pgmigrate.Cdc.Codec.RoundTrip.{append_transaction_lem, relations-Fits, changes-Fits}
use pgmigrate.Cdc.Codec.Sizes.{transaction_payload_size_lem}
use pgmigrate.Cdc.Codec.Writes.{write_transaction_lem}
use pgmigrate.Cdc.Segment.Log.{frame_bytes}
use pgmigrate.Cdc.Segment.Writer.{Io, SegmentWriter}
use pgmigrate.Cdc.Segment.Append.{
  empty_header, write_resident, finish_streamed, append_resident_frame_locked,
  append_streamed_frame_locked, write_frame, accept_frame, append_size, append_accepted, advance,
  rotate_if_full, append_frame,
}
use pgmigrate.Cdc.Segment.Frames.{header_of-frame, streamed_front, streamed_back}
use pgmigrate.Cdc.Segment.Tracks.{Tracks, already_open, Tracks-append}

gt→==0 : (n : ℕ) → 0 < n → (n == 0) ≡ false
gt→==0 n h = ground arith

-- Every step of writing a frame succeeds.
pub record Writes (io : Io) : Type 0 where
  pub header_write : io.header_write ≡ true
  pub payload_write : io.payload_write ≡ true
  pub header_seek : io.header_seek ≡ true
  pub header_rewrite : io.header_rewrite ≡ true
  pub end_seek : io.end_seek ≡ true
  pub accepts : (out bytes : List ℕ) → io.write out bytes ≡ ok (out ++ bytes)

module _ (crc : List ℕ → ℕ) (io : Io) (works : Writes io) (w : SegmentWriter) (tx : Transaction)
    (canonical : CanonicalTransaction tx) where
  resident_works :
      append_resident_frame_locked crc io w tx
      ≡ (record w { tail = w.tail ++ frame_bytes crc tx }, ok (8 + length (payload_bytes tx)))
  unfolding append_resident_frame_locked write_resident
  resident_works =
      rw (append_transaction_lem tx canonical [])
        (simp (works.header_write, works.payload_write) (rw (header_of-frame crc tx)))

  module _ (sized : w.size ≡ length w.tail) where
    streamed_works :
        append_streamed_frame_locked crc io w tx (length (payload_bytes tx))
        ≡ (record w { tail = w.tail ++ frame_bytes crc tx }, ok (8 + length (payload_bytes tx)))
    unfolding append_streamed_frame_locked finish_streamed
    streamed_works = simp (works.header_write) (
        rw (write_transaction_lem io.write works.accepts tx canonical (w.tail ++ empty_header)) (
          simp (works.header_seek, works.header_rewrite, works.end_seek)
            (rw (
              ==-self,
              streamed_front w tx sized,
              streamed_back w tx sized,
              header_of-frame crc tx,
            ))))

    write_frame_works :
        write_frame crc io w tx (length (payload_bytes tx))
        ≡ (record w { tail = w.tail ++ frame_bytes crc tx }, ok (8 + length (payload_bytes tx)))
    unfolding write_frame
    write_frame_works =
        elim (Bool-cases
          (is_some tx.spill || ltb stream_payload_bytes (length (payload_bytes tx)))) [
            | inl large ↦ rw large streamed_works
            | inr small ↦ rw small resident_works
          ]

module _ (crc : List ℕ → ℕ) (crc_range : (p : List ℕ) → crc p < 4294967296) (c e : Lsn)
    (safe fresh : List Transaction) where
  accepted :
      (w : SegmentWriter) (tx : Transaction)
      → CanonicalTransaction tx
      → w.closed ≡ false
      → 0 < tx.commit_lsn
      → tx.commit_lsn ≤ tx.end_lsn
      → w.last_commit_lsn < tx.commit_lsn
      → w.last_end_lsn < tx.end_lsn
      → accept_frame w tx ≡ ok (length (payload_bytes tx))
  unfolding accept_frame
  accepted w tx canonical running positive ordered commits ends = rw (
    running,
    gt→==0 tx.commit_lsn positive,
    le→ltb tx.end_lsn tx.commit_lsn ordered,
    gt→leb tx.commit_lsn w.last_commit_lsn commits,
    gt→leb tx.end_lsn w.last_end_lsn ends,
    transaction_payload_size_lem tx canonical (relations-Fits tx canonical)
        (changes-Fits tx canonical),
    le→ltb max_payload_size (length (payload_bytes tx)) canonical.payload_fits,
  )

  -- AppendFrame succeeds on an open writer when the file system does, for a transaction that the
  -- format carries, that follows the log in both LSNs and does not fill the segment up: its frame's
  -- size is returned and the tail holds the log with the transaction behind it.
  pub append_frame_works :
      (final_path : Lsn → List ℕ) (io : Io) (w : SegmentWriter) (tx : Transaction)
      → Tracks crc w c e safe fresh
      → CanonicalTransaction tx
      → Writes io
      → 0 < tx.commit_lsn
      → tx.commit_lsn ≤ tx.end_lsn
      → w.last_commit_lsn < tx.commit_lsn
      → w.last_end_lsn < tx.end_lsn
      → w.size + (8 + length (payload_bytes tx)) < w.rotation_bytes
      → (v : SegmentWriter) × (append_frame crc final_path io w (some tx)
          ≡ (v, ok (8 + length (payload_bytes tx))))
        × Tracks crc v c e safe (fresh ++ (tx ∷ []))
  unfolding append_frame append_size append_accepted rotate_if_full advance
  append_frame_works final_path io w tx t canonical works positive ordered commits ends room = (
    _,
    rw (
      accepted w tx canonical t.running positive ordered commits ends,
      already_open io w tx.commit_lsn t.opened,
      write_frame_works crc io works w tx canonical t.size,
      gt→leb w.rotation_bytes (w.size + (8 + length (payload_bytes tx))) room,
    ),
    Tracks-append crc crc_range c e safe fresh w tx t canonical commits ordered ends,
  )
