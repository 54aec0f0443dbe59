-- ===== src/Cdc/Segment/Rotates.antt =====
-- Finalizing a segment: internal/cdc/segment.go, Rotate and rotateLocked.
use pgmigrate.Base.{
  ℕ, ◌≡◌, refl, ap, ◌∙◌, true, false, List, [], ◌∷◌, ◌++◌, some, none, inl, inr, Bool-cases, ◌==◌,
  ==→≡,
}
use pgmigrate.Base.Results.{ok}
use pgmigrate.Cdc.Model.{Lsn, Transaction}
use pgmigrate.Cdc.Segment.Log.{last_end, log_bytes}
use pgmigrate.Cdc.Segment.Catalog.{SegmentRange, add_finalized}
use pgmigrate.Cdc.Segment.Writer.{
  Io, SegmentWriter, Outcome, mark_synced, sync_locked, finalize, catalog_outcome, rotate_locked,
  rotate, segment_start,
}
use pgmigrate.Cdc.Segment.Tracks.{Tracks}
use pgmigrate.Cdc.Segment.Syncs.{nothing_pending}

abbrev sealed : SegmentWriter → List SegmentRange → SegmentWriter
sealed w catalog = record w {
  catalog = catalog;
  file_open = false;
  partial_path = none;
  size = 0;
  tail = [];
  synced = [];
  finals = w.finals ++ (w.tail ∷ []);
}

finalize_lem :
    (io : Io) (range : SegmentRange) (w : SegmentWriter) (catalog : List SegmentRange)
    → io.directory_sync ≡ true
    → add_finalized w.catalog range ≡ ok catalog
    → ◌≡◌ {A = Outcome (Unit {0})}
        (finalize io range (record w { file_open = false }))
        (sealed w catalog, ok tt)
unfolding finalize catalog_outcome
finalize_lem io range w catalog entry added = simp (entry) (rw added)

marked_finals :
    (w : SegmentWriter)
    → (mark_synced w).finals ++ ((mark_synced w).tail ∷ []) ≡ w.finals ++ (w.tail ∷ [])
unfolding mark_synced
marked_finals w = refl

marked_durable : (w : SegmentWriter) → (mark_synced w).durable_end_lsn ≡ w.pending_end_lsn
unfolding mark_synced
marked_durable w = refl

marked_added :
    (w : SegmentWriter) (range : SegmentRange) (catalog : List SegmentRange)
    → add_finalized w.catalog range ≡ ok catalog
    → add_finalized (mark_synced w).catalog range ≡ ok catalog
unfolding mark_synced
marked_added w range catalog h = h

-- The catalog's entry for the tail.
abbrev pub sealed_range : (Lsn → List ℕ) → SegmentWriter → Lsn → SegmentRange
sealed_range final_path w start = record {
  path = final_path start;
  start_commit = start;
  last_commit = w.last_commit_lsn;
  last_end = w.last_end_lsn;
  validated_size = w.size;
}

-- Every step of a rotation succeeds.
pub record Seals (io : Io) : Type 0 where
  pub file_sync : io.file_sync ≡ true
  pub close : io.close ≡ true
  pub rename : io.rename ≡ true
  pub directory_sync : io.directory_sync ≡ true

module _ (crc : List ℕ → ℕ) (c e : Lsn) (safe fresh : List Transaction) where
  sync_locked_lem :
      (io : Io) (w : SegmentWriter)
      → Tracks crc w c e safe fresh
      → io.file_sync ≡ true
      → ◌≡◌ {A = Outcome (Unit {0})} (sync_locked io w) (mark_synced w, ok tt)
  unfolding sync_locked
  sync_locked_lem io w t works = elim (Bool-cases (w.pending_end_lsn == w.durable_end_lsn)) [
    | inl same ↦
        simp (t.opened, same)
          (ap {B = Outcome (Unit {0})} (λ v. (v, ok tt))
            (nothing_pending crc c e safe fresh w t (==→≡ _ _ same)))
    | inr more ↦ simp (t.opened, more, works)
  ]

  -- Rotating an open writer succeeds when the file system does and the catalog takes the segment:
  -- the finalized file holds the log, all of it is durable, the catalog has the new entry, and no
  -- tail is left open.
  pub rotate_lem :
      (final_path : Lsn → List ℕ) (io : Io) (w : SegmentWriter) (start : Lsn)
      (catalog : List SegmentRange)
      → Tracks crc w c e safe fresh
      → Seals io
      → w.partial_path ≡ some start
      → add_finalized w.catalog (sealed_range final_path w start) ≡ ok catalog
      → (v : SegmentWriter) × (rotate final_path io w ≡ (v, ok tt))
        × (v.finals ≡ w.finals ++ (log_bytes crc (safe ++ fresh) ∷ []))
        × (v.durable_end_lsn ≡ last_end e (safe ++ fresh))
        × (v.catalog ≡ catalog)
        × (v.file_open ≡ false)
        × (v.tail ≡ [])
  unfolding rotate rotate_locked segment_start
  rotate_lem final_path io w start catalog t s named added = (
    sealed (mark_synced w) catalog,
    simp (t.running, t.opened, named)
        (rw (sync_locked_lem io w t s.file_sync) (
          simp (s.close, s.rename)
            (finalize_lem io (sealed_range final_path w start) (mark_synced w) catalog
              s.directory_sync (marked_added w (sealed_range final_path w start) catalog added)))),
    marked_finals w ∙ ap (λ b. w.finals ++ (b ∷ [])) t.tail,
    marked_durable w ∙ t.pending,
    refl,
    refl,
    refl,
  )
