-- ===== src/Cdc/Persister/Published.antt =====
-- What the persister publishes is durable, whatever the events and the file system's answers are.
use pgmigrate.Base.{
  ℕ, ◌+◌, ◌≤◌, ◌≡◌, inl, inr, refl, List, [], ◌∷◌, some, none, arith, leb, ◌==◌, Bool-cases,
}
use pgmigrate.Base.Results.{ok, err}
use pgmigrate.Cdc.Model.{Lsn}
use pgmigrate.Cdc.Segment.Writer.{Io, SegmentWriter, Outcome, sync}
use pgmigrate.Cdc.Segment.Append.{append_frame}
use pgmigrate.Cdc.Persister.{
  Persister, PersisterEvent, transaction, timer, transactions_closed, cancelled, Turn, publish,
  synced, sync_persister, finish, proceed, appended, step, run,
}
use pgmigrate.Cdc.Persister.Grows.{Good, GoodOutcome, sync_locked-Good, append_frame-Good}

-- The published LSN is at least `least` and at most the writer's durable one, and that is at most
-- what was appended.
abbrev pub Published : Lsn → Persister → Type 0
Published least p =
    (least ≤ p.durable)
    × (p.durable ≤ p.writer.durable_end_lsn)
    × (p.writer.durable_end_lsn ≤ p.writer.pending_end_lsn)
    × (p.writer.pending_end_lsn ≡ p.writer.last_end_lsn)

sync-Good :
    (least most : Lsn) (io : Io) (w : SegmentWriter)
    → Good least most w
    → GoodOutcome least most (sync io w).0 × ((sync io w).1 ≡ (sync io w).0.0.durable_end_lsn)
unfolding sync
sync-Good least most io w h = (
  elim (Bool-cases w.closed) [
    | inl closed ↦ simp closed h
    | inr running ↦ simp running (sync_locked-Good least most io w h)
  ],
  refl,
)

publish-Published :
    (least : Lsn) (p : Persister)
    → Published least p
    → Published least (publish p.writer.durable_end_lsn p)
unfolding publish
publish-Published least p h = ground arith

synced-Published :
    (least most : Lsn) (p : Persister) (out : Outcome (Unit {0}) × Lsn)
    → least ≤ p.durable
    → GoodOutcome p.durable most out.0
    → out.1 ≡ out.0.0.durable_end_lsn
    → Published least (synced p out).0
unfolding synced publish
synced-Published least most p ((w, err e), durable) above good same =
    (above, good.0, good.1, good.2)
synced-Published least most p ((w, ok t), durable) above good same = ground arith

sync_persister-Published :
    (least : Lsn) (io : Io) (p : Persister)
    → Published least p
    → Published least (sync_persister io p).0
unfolding sync_persister
sync_persister-Published least io p h = elim (Bool-cases (p.unsynced_bytes == 0)) [
  | inl none_left ↦ rw none_left h
  | inr some_left ↦
      let (good, same) =
        sync-Good p.durable p.writer.last_end_lsn io p.writer (h.1, h.2, h.3, omega arith) in
      rw some_left (synced-Published least p.writer.last_end_lsn p (sync io p.writer) h.0 good same)
]

finish-Published : (least : Lsn) (t : Turn) → Published least t.0 → Published least (finish t).0
finish-Published least (p, none) h = h
finish-Published least (p, some stop) h = h

proceed-Published :
    (least : Lsn) (next : Persister → Turn) (t : Turn)
    → Published least t.0
    → ((p : Persister) → Published least p → Published least (next p).0)
    → Published least (proceed next t).0
proceed-Published least next (p, none) h k = k p h
proceed-Published least next (p, some stop) h k = h

module _ (crc : List ℕ → ℕ) (final_path : Lsn → List ℕ) (sync_bytes : ℕ) where
  appended-Published :
      (least most : Lsn) (io : Io) (p : Persister) (out : Outcome ℕ)
      → least ≤ p.durable
      → GoodOutcome p.durable most out
      → Published least (appended crc final_path sync_bytes io p out).0
  unfolding appended
  appended-Published least most io p (w, err e) above good = (above, good.0, good.1, good.2)
  appended-Published least most io p (w, ok n) above good =
      let next : Persister = record p { writer = w; unsynced_bytes = p.unsynced_bytes + n } in
      elim (Bool-cases (leb sync_bytes (p.unsynced_bytes + n))) [
        | inl full ↦
            rw full (sync_persister-Published least io next (above, good.0, good.1, good.2))
        | inr room ↦ rw room (above, good.0, good.1, good.2)
      ]

  step-Published :
      (least : Lsn) (event : PersisterEvent) (p : Persister)
      → Published least p
      → Published least (step crc final_path sync_bytes event p).0
  unfolding step
  step-Published least (transaction io tx) p h =
      elim (Bool-cases (leb tx.end_lsn p.writer.last_end_lsn)) [
        | inl old ↦ rw old (publish-Published least p h)
        | inr new ↦
            let (most, good) =
              append_frame-Good crc final_path p.durable io p.writer tx
                (h.1, h.2, h.3, omega arith) in
            rw new (
              appended-Published least most io p (append_frame crc final_path io p.writer (some tx))
                h.0 good)
      ]
  step-Published least (timer io) p h = sync_persister-Published least io p h
  step-Published least (transactions_closed io) p h =
      finish-Published least (sync_persister io p) (sync_persister-Published least io p h)
  step-Published least cancelled p h = h

  -- However the events and the file system's answers come, the persister publishes no LSN above the
  -- writer's durable one, which is never above the last appended transaction, and what it publishes
  -- never goes back.
  pub run-Published :
      (least : Lsn) (events : List PersisterEvent) (p : Persister)
      → Published least p
      → Published least (run crc final_path sync_bytes events p).0
  unfolding run
  run-Published least [] p h = h
  run-Published least (event ∷ events) p h =
      proceed-Published least (run crc final_path sync_bytes events)
        (step crc final_path sync_bytes event p) (step-Published least event p h)
        (run-Published least events)
