-- ===== src/Cdc/Segment/Frames.antt =====
-- What a frame's writing leaves in the tail.
use mathlib.Core.List.{append_assoc}
use pgmigrate.Base.{ℕ, ◌+◌, ◌≡◌, sym, List, ◌++◌, arith}
use pgmigrate.Base.Bytes.{le_bytes, length-append_bytes}
use pgmigrate.Base.Lists.{length, take, drop, take-append, drop-append}
use pgmigrate.Cdc.Model.{Transaction}
use pgmigrate.Cdc.Codec.Layout.{payload_bytes}
use pgmigrate.Cdc.Segment.Log.{frame_bytes}
use pgmigrate.Cdc.Segment.Writer.{SegmentWriter}
use pgmigrate.Cdc.Segment.Append.{empty_header, header_of}

module _ (w : SegmentWriter) (tx : Transaction) (sized : w.size ≡ length w.tail) where
  -- The file behind the streaming, cut into the tail, the empty header and the payload.
  pub streamed_front : take w.size ((w.tail ++ empty_header) ++ payload_bytes tx) ≡ w.tail
  streamed_front =
      rw (append_assoc w.tail empty_header (payload_bytes tx))
        (take-append w.size w.tail _ (sym sized))

  pub streamed_back :
      drop (w.size + 8) ((w.tail ++ empty_header) ++ payload_bytes tx) ≡ payload_bytes tx
  streamed_back =
      drop-append (w.size + 8) (w.tail ++ empty_header) _
        (omega (arith, length-append_bytes w.tail empty_header, sized))

module _ (crc : List ℕ → ℕ) where
  pub header_of-frame :
      (tx : Transaction)
      → header_of crc (payload_bytes tx) (length (payload_bytes tx)) ++ payload_bytes tx
        ≡ frame_bytes crc tx
  unfolding header_of frame_bytes
  header_of-frame tx =
      append_assoc (le_bytes 4 (length (payload_bytes tx))) (le_bytes 4 (crc (payload_bytes tx)))
        (payload_bytes tx)
