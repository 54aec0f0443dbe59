-- ===== src/Cdc/Persister/Grows.antt =====
-- Whatever the file system answers, the writer's durable LSN only grows and never passes what was
-- appended.
use pgmigrate.Base.{
  ℕ, ◌++◌, ◌<◌, ◌≤◌, ◌≡◌, inl, inr, refl, false, not, ◌||◌, List, [], some, arith, leb, ltb,
  Bool-cases,
}
use pgmigrate.Base.Results.{Result, ok, err}
use pgmigrate.Cdc.Model.{Lsn, Transaction}
use pgmigrate.Cdc.Segment.Writer.{
  Io, SegmentWriter, WriterError, Outcome, and_then, open_segment, mark_synced, sync_locked,
  catalog_outcome, finalize, unnamed, rotate_locked,
}
use pgmigrate.Cdc.Codec.Size.{CodecError, is_some, stream_payload_bytes}
use pgmigrate.Cdc.Codec.Encode.{append_transaction}
use pgmigrate.Cdc.Codec.Write.{write_transaction}
use pgmigrate.Cdc.Segment.Catalog.{CatalogError, SegmentRange}
use pgmigrate.Cdc.Segment.Append.{
  accept_frame, write_resident, append_resident_frame_locked, finish_streamed,
  rollback_frame_locked, append_streamed_frame_locked, write_frame, open_if_needed, advance,
  rotate_if_full, append_accepted, append_size, append_frame, empty_header,
}

-- The durable LSN has not gone back and is not ahead of what was appended, the last of which ends
-- at `most` or before.
abbrev pub Good : Lsn → Lsn → SegmentWriter → Type 0
Good least most w =
    (least ≤ w.durable_end_lsn)
    × (w.durable_end_lsn ≤ w.pending_end_lsn)
    × (w.pending_end_lsn ≡ w.last_end_lsn)
    × (w.last_end_lsn ≤ most)

abbrev pub GoodOutcome {ℓ} : {A : Type ℓ} → Lsn → Lsn → SegmentWriter × A → Type 0
GoodOutcome least most out = Good least most out.0

and_then-Good :
    {A B : Type 0} (least most : Lsn) (out : Outcome A) (f : SegmentWriter → A → Outcome B)
    → GoodOutcome least most out
    → ((v : SegmentWriter) (a : A) → Good least most v → GoodOutcome least most (f v a))
    → GoodOutcome least most (and_then out f)
and_then-Good least most (v, ok a) f h k = k v a h
and_then-Good least most (v, err e) f h k = h

module _ (least most : Lsn) where
  pub sync_locked-Good :
      (io : Io) (w : SegmentWriter) → Good least most w → GoodOutcome least most (sync_locked io w)
  unfolding sync_locked mark_synced
  sync_locked-Good io w h = ground arith

  open_segment-Good :
      (io : Io) (start : Lsn) (w : SegmentWriter)
      → Good least most w
      → GoodOutcome least most (open_segment io start w)
  unfolding open_segment
  open_segment-Good io start w h = ground arith

  rollback_frame_locked-Good :
      (io : Io) (start : ℕ) (w : SegmentWriter)
      → Good least most w
      → Good least most (rollback_frame_locked io start w)
  unfolding rollback_frame_locked
  rollback_frame_locked-Good io start w h = ground arith

  write_resident-Good :
      (crc : List ℕ → ℕ) (io : Io) (w : SegmentWriter) (r : Result CodecError (List ℕ))
      → Good least most w
      → GoodOutcome least most (write_resident crc io w r)
  unfolding write_resident rollback_frame_locked
  write_resident-Good crc io w (ok p) h = ground arith
  write_resident-Good crc io w (err e) h = h

  finish_streamed-Good :
      (crc : List ℕ → ℕ) (io : Io) (w : SegmentWriter) (n : ℕ) (r : Result CodecError (List ℕ × ℕ))
      → Good least most w
      → GoodOutcome least most (finish_streamed crc io w n r)
  unfolding finish_streamed rollback_frame_locked
  finish_streamed-Good crc io w n (ok (p, m)) h = ground arith
  finish_streamed-Good crc io w n (err e) h = rollback_frame_locked-Good io w.size w h

  write_frame-Good :
      (crc : List ℕ → ℕ) (io : Io) (w : SegmentWriter) (tx : Transaction) (n : ℕ)
      → Good least most w
      → GoodOutcome least most (write_frame crc io w tx n)
  unfolding write_frame append_resident_frame_locked append_streamed_frame_locked
      rollback_frame_locked
  write_frame-Good crc io w tx n h =
      elim (Bool-cases (is_some tx.spill || ltb stream_payload_bytes n)) [
        | inr small ↦ rw small (write_resident-Good crc io w (append_transaction [] (some tx)) h)
        | inl large ↦ rw large (elim (Bool-cases (not io.header_write)) [
          | inl fails ↦ rw fails (rollback_frame_locked-Good io w.size w h)
          | inr works ↦ rw works (
              finish_streamed-Good crc io w n
                (write_transaction io.write (w.tail ++ empty_header) (some tx)) h)
        ])
      ]

  catalog_outcome-Good :
      (w : SegmentWriter) (r : Result CatalogError (List SegmentRange))
      → Good least most w
      → GoodOutcome least most (catalog_outcome w r)
  unfolding catalog_outcome
  catalog_outcome-Good w (ok catalog) h = h
  catalog_outcome-Good w (err e) h = h

  finalize-Good :
      (io : Io) (range : SegmentRange) (w : SegmentWriter)
      → Good least most w
      → GoodOutcome least most (finalize io range w)
  unfolding finalize
  finalize-Good io range w h = elim (Bool-cases (not io.directory_sync)) [
    | inl fails ↦ rw fails h
    | inr works ↦ rw works (catalog_outcome-Good _ _ h)
  ]

  unnamed-Good :
      (io : Io) (w : SegmentWriter) → Good least most w → GoodOutcome least most (unnamed io w)
  unfolding unnamed
  unnamed-Good io w h = ground arith

  rotate_locked-Good :
      (final_path : Lsn → List ℕ) (io : Io) (w : SegmentWriter)
      → Good least most w
      → GoodOutcome least most (rotate_locked final_path io w)
  unfolding rotate_locked
  rotate_locked-Good final_path io w h = elim (Bool-cases (not w.file_open)) [
    | inl closed ↦ rw closed h
    | inr opened ↦ rw opened (
        and_then-Good least most (sync_locked io w) _ (sync_locked-Good io w h) (λ s a good.
          elim (Bool-cases (not io.close)) [
            | inl fails ↦ rw fails good
            | inr works ↦ rw works (elim (Bool-cases (not io.rename)) [
              | inl fails ↦ rw fails (unnamed-Good io (record s { file_open = false }) good)
              | inr renamed ↦ rw renamed (finalize-Good io _ (record s { file_open = false }) good)
            ])
          ]))
  ]

  open_if_needed-Good :
      (io : Io) (w : SegmentWriter) (start : Lsn)
      → Good least most w
      → GoodOutcome least most (open_if_needed io w start)
  unfolding open_if_needed
  open_if_needed-Good io w start h = elim (Bool-cases w.file_open) [
    | inl opened ↦ simp opened h
    | inr closed ↦ simp closed (open_segment-Good io start w h)
  ]

accept_frame_ends :
    (w : SegmentWriter) (tx : Transaction) (n : ℕ)
    → accept_frame w tx ≡ ok n
    → w.last_end_lsn < tx.end_lsn
unfolding accept_frame
accept_frame_ends w tx n h = ground arith

advance-Good :
    (least most : Lsn) (w : SegmentWriter) (tx : Transaction) (n : ℕ)
    → Good least most w
    → most < tx.end_lsn
    → Good least tx.end_lsn (advance w tx n)
unfolding advance
advance-Good least most w tx n h ends = ground arith

wider :
    (least most more : Lsn) (w : SegmentWriter)
    → most ≤ more
    → Good least most w
    → Good least more w
wider least most more w ends h = ground arith

-- What follows may append further.
and_then_wider :
    {A B : Type 0} (least low high : Lsn) (out : Outcome A) (f : SegmentWriter → A → Outcome B)
    → low ≤ high
    → GoodOutcome least low out
    → ((v : SegmentWriter) (a : A) → Good least low v → GoodOutcome least high (f v a))
    → GoodOutcome least high (and_then out f)
and_then_wider least low high (v, ok a) f le h k = k v a h
and_then_wider least low high (v, err e) f le h k = wider least low high v le h

module _ (crc : List ℕ → ℕ) (final_path : Lsn → List ℕ) where
  rotate_if_full-Good :
      (least most : Lsn) (io : Io) (w : SegmentWriter) (n : ℕ)
      → Good least most w
      → GoodOutcome least most (rotate_if_full crc final_path io w n)
  unfolding rotate_if_full
  rotate_if_full-Good least most io w n h = elim (Bool-cases (leb w.rotation_bytes w.size)) [
    | inl full ↦ rw full (
        and_then-Good least most (rotate_locked final_path io w) _
          (rotate_locked-Good least most final_path io w h) (λ v a good. good))
    | inr room ↦ rw room h
  ]

  append_size-Good :
      (least : Lsn) (io : Io) (w : SegmentWriter) (tx : Transaction) (r : Result WriterError ℕ)
      → accept_frame w tx ≡ r
      → Good least w.last_end_lsn w
      → (most : Lsn) × GoodOutcome least most (append_size crc final_path io w tx r)
  unfolding append_size append_accepted
  append_size-Good least io w tx (err e) accepted h = (w.last_end_lsn, h)
  append_size-Good least io w tx (ok size) accepted h =
      let ends = accept_frame_ends w tx size accepted in
      (
        tx.end_lsn,
        and_then_wider least w.last_end_lsn tx.end_lsn (open_if_needed io w tx.commit_lsn) _
            (omega (arith, ends)) (open_if_needed-Good least w.last_end_lsn io w tx.commit_lsn h)
            (λ v a opened.
              and_then_wider least w.last_end_lsn tx.end_lsn (write_frame crc io v tx size) _
                (omega (arith, ends))
                (write_frame-Good least w.last_end_lsn crc io v tx size opened)
                (λ u n written.
                  rotate_if_full-Good least tx.end_lsn io (advance u tx n) n
                    (advance-Good least w.last_end_lsn u tx n written (omega (arith, ends))))),
      )

  pub append_frame-Good :
      (least : Lsn) (io : Io) (w : SegmentWriter) (tx : Transaction)
      → Good least w.last_end_lsn w
      → (most : Lsn) × GoodOutcome least most (append_frame crc final_path io w (some tx))
  unfolding append_frame
  append_frame-Good least io w tx h = append_size-Good least io w tx (accept_frame w tx) refl h
