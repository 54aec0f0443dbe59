-- ===== src/Cdc/Segment/Accepts.antt =====
-- The guards of AppendFrame, turned into the order of the log.
use pgmigrate.Base.{
  ◌≤◌, ◌<◌, ◌≡◌, ◌⊎◌, inl, inr, ◌||◌, Bool-cases, ltb, leb, ◌==◌, ltb→ge, leb→gt, ||-false, le→ltb,
}
use pgmigrate.Base.Lists.{length}
use pgmigrate.Base.Results.{ok, err}
use pgmigrate.Cdc.Model.{Transaction}
use pgmigrate.Cdc.Codec.Size.{max_payload_size}
use pgmigrate.Cdc.Codec.Layout.{payload_bytes, CanonicalTransaction}
use pgmigrate.Cdc.Codec.RoundTrip.{relations-Fits, changes-Fits}
use pgmigrate.Cdc.Codec.Sizes.{transaction_payload_size_lem}
use pgmigrate.Cdc.Segment.Writer.{
  SegmentWriter, WriterError, writer_closed, invalid_lsns, commit_lsn_order, end_lsn_order,
}
use pgmigrate.Cdc.Segment.Append.{accept_frame}

-- A transaction that the format carries is refused with an error, or follows everything that was
-- appended and has the payload's exact length.
pub accept_frame-cases :
    (w : SegmentWriter) (tx : Transaction)
    → CanonicalTransaction tx
    → ((accept_frame w tx ≡ ok (length (payload_bytes tx)))
        × (w.last_commit_lsn < tx.commit_lsn)
        × (tx.commit_lsn ≤ tx.end_lsn)
        × (w.last_end_lsn < tx.end_lsn))
      ⊎ ((e : WriterError) × (accept_frame w tx ≡ err e))
unfolding accept_frame
accept_frame-cases w tx h = elim (Bool-cases w.closed) [
  | inl shut ↦ inr (writer_closed, rw shut)
  | inr running ↦ elim (Bool-cases (tx.commit_lsn == 0 || ltb tx.end_lsn tx.commit_lsn)) [
    | inl invalid ↦ inr (invalid_lsns, rw (running, invalid))
    | inr valid ↦ elim (Bool-cases (leb tx.commit_lsn w.last_commit_lsn)) [
      | inl old ↦ inr (commit_lsn_order, rw (running, valid, old))
      | inr new ↦ elim (Bool-cases (leb tx.end_lsn w.last_end_lsn)) [
        | inl behind ↦ inr (end_lsn_order, rw (running, valid, new, behind))
        | inr ahead ↦ inl (
          rw (
            running,
            valid,
            new,
            ahead,
            transaction_payload_size_lem tx h (relations-Fits tx h) (changes-Fits tx h),
            le→ltb max_payload_size (length (payload_bytes tx)) h.payload_fits,
          ),
          leb→gt tx.commit_lsn w.last_commit_lsn new,
          ltb→ge tx.end_lsn tx.commit_lsn
              ((||-false (tx.commit_lsn == 0) (ltb tx.end_lsn tx.commit_lsn) valid).1),
          leb→gt tx.end_lsn w.last_end_lsn ahead,
        )
      ]
    ]
  ]
]
