-- ===== src/Cdc/Segment/Syncs.antt =====
-- Sync on an open writer: internal/cdc/segment.go, Sync and syncLocked.
use mathlib.Core.List.{append-nil}
use pgmigrate.Base.{
  ℕ, ◌≡◌, ◌⊎◌, inl, inr, refl, sym, ap, ◌∙◌, true, false, List, [], ◌++◌, Bool-cases, ◌==◌, ==→≡,
  ==-self,
}
use pgmigrate.Base.Results.{ok, err}
use pgmigrate.Cdc.Model.{Lsn, Transaction}
use pgmigrate.Cdc.Segment.Log.{last_commit, last_end, log_bytes}
use pgmigrate.Cdc.Segment.Crash.{Log-append, nothing_fresh, last_end-append}
use pgmigrate.Cdc.Segment.Writer.{Io, SegmentWriter, sync_failed, mark_synced, sync_locked, sync}
use pgmigrate.Cdc.Segment.Tracks.{Tracks}

differs : (a b : ℕ) → (a == b) ≡ false → ¬ (a ≡ b)
differs a b h same = let here = ==-self a in let other = rw (sym same) at h in cc

module _ (crc : List ℕ → ℕ) (c e : Lsn) (safe fresh : List Transaction) where
  Tracks-sync :
      (w : SegmentWriter)
      → Tracks crc w c e safe fresh
      → Tracks crc (mark_synced w) c e (safe ++ fresh) []
  unfolding mark_synced
  Tracks-sync w t =
      let all : (safe ++ fresh) ++ [] ≡ safe ++ fresh = append-nil (safe ++ fresh) in
      record {
        opened = t.opened;
        running = t.running;
        log = rw all t.log;
        tail = rw all t.tail;
        synced = t.tail;
        size = t.size;
        at_commit = rw all t.at_commit;
        at_end = rw all t.at_end;
        pending = rw all t.pending;
        durable = t.pending;
      }

  marked : (w : SegmentWriter) → (mark_synced w).durable_end_lsn ≡ w.pending_end_lsn
  unfolding mark_synced
  marked w = refl

  none_fresh :
      (w : SegmentWriter)
      → Tracks crc w c e safe fresh
      → w.pending_end_lsn ≡ w.durable_end_lsn
      → fresh ≡ []
  none_fresh w t same =
      nothing_fresh (last_commit c safe) (last_end e safe) fresh (Log-append c e safe fresh t.log).1
        (sym (last_end-append e safe fresh) ∙ sym t.pending ∙ same ∙ t.durable)

  -- With nothing pending, all that was appended is synced already.
  pub nothing_pending :
      (w : SegmentWriter)
      → Tracks crc w c e safe fresh
      → w.pending_end_lsn ≡ w.durable_end_lsn
      → w ≡ mark_synced w
  unfolding mark_synced
  nothing_pending w t same =
      let all_synced : w.synced ≡ w.tail =
        t.synced
        ∙ ap (log_bytes crc)
            (sym (append-nil safe) ∙ ap (λ xs. safe ++ xs) (sym (none_fresh w t same)))
        ∙ sym t.tail in
      λ i. record w { durable_end_lsn = sym same i; synced = all_synced i }

  -- With something pending, not all that was appended is synced.
  some_fresh :
      (w : SegmentWriter)
      → Tracks crc w c e safe fresh
      → (w.pending_end_lsn == w.durable_end_lsn) ≡ false
      → ¬ (fresh ≡ [])
  some_fresh w t more nothing =
      let all : w.pending_end_lsn ≡ w.durable_end_lsn =
        t.pending
        ∙ ap (λ xs. last_end e (safe ++ xs)) nothing
        ∙ ap (last_end e) (append-nil safe)
        ∙ sym t.durable in
      differs w.pending_end_lsn w.durable_end_lsn more all

  -- When nothing is unsynced or the file's fsync succeeds, Sync makes every appended transaction
  -- durable and returns the end of the log. Only when something is unsynced and the fsync fails, it
  -- fails and returns the end of the synced part, with the writer as it was.
  pub sync_lem :
      (io : Io) (w : SegmentWriter)
      → Tracks crc w c e safe fresh
      → (((fresh ≡ []) ⊎ (io.file_sync ≡ true))
          × (v : SegmentWriter) × (sync io w ≡ ((v, ok tt), last_end e (safe ++ fresh)))
          × Tracks crc v c e (safe ++ fresh) [])
        ⊎ ((¬ (fresh ≡ []))
            × (io.file_sync ≡ false)
            × (sync io w ≡ ((w, err sync_failed), last_end e safe)))
  unfolding sync sync_locked
  sync_lem io w t = elim (Bool-cases (w.pending_end_lsn == w.durable_end_lsn)) [
    | inl same ↦ inl (
      inl (none_fresh w t (==→≡ _ _ same)),
      mark_synced w,
      simp (t.running, t.opened, same)
          (ap (λ v. ((v, ok tt), v.durable_end_lsn)) (nothing_pending w t (==→≡ _ _ same))
            ∙ ap (λ n. ((mark_synced w, ok tt), n)) (marked w ∙ t.pending)),
      Tracks-sync w t,
    )
    | inr more ↦ elim (Bool-cases io.file_sync) [
      | inl synced ↦ inl (
        inr synced,
        mark_synced w,
        simp (t.running, t.opened, more, synced)
            (ap (λ n. ((mark_synced w, ok tt), n)) (marked w ∙ t.pending)),
        Tracks-sync w t,
      )
      | inr fails ↦ inr (
        some_fresh w t more,
        fails,
        simp (t.running, t.opened, more, fails) (ap (λ n. ((w, err sync_failed), n)) t.durable),
      )
    ]
  ]
