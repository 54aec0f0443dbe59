-- ===== src/Cdc/Segment/Append.antt =====
-- Appending to and closing a segment: internal/cdc/segment.go, AppendFrame, its two ways to write a
-- frame, and Close. `crc` is the Castagnoli checksum.
use pgmigrate.Base.{
  ℕ, ◌+◌, true, false, not, ◌||◌, List, [], ◌∷◌, ◌++◌, Option, none, some, ltb, leb, ◌==◌,
  if◌then◌else◌,
}
use pgmigrate.Base.Bytes.{le_bytes}
use pgmigrate.Base.Lists.{length, take, drop}
use pgmigrate.Base.Results.{Result, ok, err, ◌>>=◌, ◌>>◌, fail_if}
use pgmigrate.Cdc.Model.{Lsn, Transaction}
use pgmigrate.Cdc.Codec.Size.{
  CodecError, is_some, max_payload_size, stream_payload_bytes, transaction_payload_size,
}
use pgmigrate.Cdc.Codec.Encode.{append_transaction}
use pgmigrate.Cdc.Codec.Write.{write_transaction}
use pgmigrate.Cdc.Segment.Scan.{frame_header_size}
use pgmigrate.Cdc.Segment.Writer.{
  Io, SegmentWriter, WriterError, codec, writer_closed, no_transaction, invalid_lsns,
  commit_lsn_order, end_lsn_order, payload_limit, write_failed, seek_failed, size_changed,
  close_failed, Outcome, and_then, of_codec, open_segment, sync_locked, rotate_locked,
}

-- The guards of AppendFrame and the payload's size, before anything is written.
unfoldable pub accept_frame : SegmentWriter → Transaction → Result WriterError ℕ
accept_frame w tx = do
  fail_if w.closed writer_closed
  fail_if (tx.commit_lsn == 0 || ltb tx.end_lsn tx.commit_lsn) invalid_lsns
  fail_if (leb tx.commit_lsn w.last_commit_lsn) commit_lsn_order
  fail_if (leb tx.end_lsn w.last_end_lsn) end_lsn_order
  size ← of_codec (transaction_payload_size (some tx))
  fail_if (ltb max_payload_size size) payload_limit
  ok size

abbrev pub empty_header : List ℕ
empty_header = 0 ∷ 0 ∷ 0 ∷ 0 ∷ 0 ∷ 0 ∷ 0 ∷ 0 ∷ []

-- The errors of Truncate and Seek are ignored: the bytes that a failed rollback leaves stand behind
-- the tail, where the next frame follows them.
unfoldable pub rollback_frame_locked : Io → ℕ → SegmentWriter → SegmentWriter
rollback_frame_locked io start w =
    if io.rollback
    then record w { tail = take start w.tail }
    else record w { tail = w.tail ++ io.left_behind }

unfoldable pub open_if_needed : Io → SegmentWriter → Lsn → Outcome (Unit {0})
open_if_needed io w start = if w.file_open then (w, ok tt) else open_segment io start w

-- The counters behind a written frame.
unfoldable pub advance : SegmentWriter → Transaction → ℕ → SegmentWriter
advance w tx frame_bytes = record w {
  size = w.size + frame_bytes;
  last_commit_lsn = tx.commit_lsn;
  last_end_lsn = tx.end_lsn;
  pending_end_lsn = tx.end_lsn;
}

module _ (crc : List ℕ → ℕ) where
  unfoldable pub header_of : List ℕ → ℕ → List ℕ
  header_of payload size = le_bytes 4 size ++ le_bytes 4 (crc payload)

  unfoldable pub write_resident : Io → SegmentWriter → Result CodecError (List ℕ) → Outcome ℕ
  write_resident io w (err e) = (w, err (codec e))
  write_resident io w (ok payload) =
      if not io.header_write || not io.payload_write
      then (rollback_frame_locked io w.size w, err write_failed)
      else (
        record w { tail = w.tail ++ (header_of payload (length payload) ++ payload) },
        ok (frame_header_size + length payload),
      )

  -- The whole payload in memory, then header and payload behind the tail.
  unfoldable pub append_resident_frame_locked : Io → SegmentWriter → Transaction → Outcome ℕ
  append_resident_frame_locked io w tx = write_resident io w (append_transaction [] (some tx))

  -- The file behind a streamed payload: the size is compared, then the header is written again with
  -- the checksum of the bytes that were streamed.
  unfoldable pub finish_streamed :
      Io → SegmentWriter → ℕ → Result CodecError (List ℕ × ℕ) → Outcome ℕ
  finish_streamed io w payload_size (err e) = (rollback_frame_locked io w.size w, err write_failed)
  finish_streamed io w payload_size (ok (streamed, size)) =
      let payload = drop (w.size + frame_header_size) streamed in
      if not (size == payload_size)
      then (rollback_frame_locked io w.size w, err size_changed)
      else if not io.header_seek
      then (rollback_frame_locked io w.size w, err seek_failed)
      else if not io.header_rewrite
      then (rollback_frame_locked io w.size w, err write_failed)
      else if not io.end_seek
      then (rollback_frame_locked io w.size w, err seek_failed)
      else (
        record w { tail = take w.size streamed ++ (header_of payload payload_size ++ payload) },
        ok (frame_header_size + payload_size),
      )

  -- The payload streamed behind an empty header.
  unfoldable pub append_streamed_frame_locked : Io → SegmentWriter → Transaction → ℕ → Outcome ℕ
  append_streamed_frame_locked io w tx payload_size =
      if not io.header_write
      then (rollback_frame_locked io w.size w, err write_failed)
      else finish_streamed io w payload_size
          (write_transaction io.write (w.tail ++ empty_header) (some tx))

  unfoldable pub write_frame : Io → SegmentWriter → Transaction → ℕ → Outcome ℕ
  write_frame io w tx payload_size =
      if is_some tx.spill || ltb stream_payload_bytes payload_size
      then append_streamed_frame_locked io w tx payload_size
      else append_resident_frame_locked io w tx

  module _ (final_path : Lsn → List ℕ) where
    unfoldable pub rotate_if_full : Io → SegmentWriter → ℕ → Outcome ℕ
    rotate_if_full io w frame_bytes =
        if leb w.rotation_bytes w.size
        then and_then (rotate_locked final_path io w) (λ v _. (v, ok frame_bytes))
        else (w, ok frame_bytes)

    unfoldable pub append_accepted : Io → SegmentWriter → Transaction → ℕ → Outcome ℕ
    append_accepted io w tx payload_size = and_then (open_if_needed io w tx.commit_lsn) (λ v _.
        and_then (write_frame io v tx payload_size)
          (λ u frame_bytes. rotate_if_full io (advance u tx frame_bytes) frame_bytes))

    unfoldable pub append_size : Io → SegmentWriter → Transaction → Result WriterError ℕ → Outcome ℕ
    append_size io w tx (err e) = (w, err e)
    append_size io w tx (ok size) = append_accepted io w tx size

    unfoldable pub append_frame : Io → SegmentWriter → Option Transaction → Outcome ℕ
    append_frame io w none = (w, err (if w.closed then writer_closed else no_transaction))
    append_frame io w (some tx) = append_size io w tx (accept_frame w tx)

-- Close syncs and closes the tail without finalizing it; a second Close does nothing. Both errors
-- are reported.
unfoldable pub close : Io → SegmentWriter → SegmentWriter × List WriterError
close io w =
    if w.closed
    then (w, [])
    else (let (s, synced) = sync_locked io (record w { closed = true }) in
        let sync_errors : List WriterError = elim synced [ ok t ↦ [] | err e ↦ e ∷ [] ] in
        if s.file_open
        then (
          record s { file_open = false },
          sync_errors ++ (if io.close then [] else close_failed ∷ []),
        )
        else (s, sync_errors))
