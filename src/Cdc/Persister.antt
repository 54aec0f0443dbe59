-- ===== src/Cdc/Persister.antt =====
-- The persister: internal/cdc/persister.go, Persister.Run, and internal/cdc/receiver.go,
-- DurableWatermark. Each turn of the loop takes one event, with the file system's answers to it;
-- the timer and the order of events are the environment's, and `sync_bytes` is the threshold after
-- NewPersister has put the default in the place of a value that is not positive.
pub mod Grows
pub mod Published
use pgmigrate.Base.{ℕ, ◌+◌, List, [], ◌∷◌, Option, none, some, ltb, leb, ◌==◌, if◌then◌else◌}
use pgmigrate.Base.Results.{Result, ok, err}
use pgmigrate.Cdc.Model.{Lsn, Transaction}
use pgmigrate.Cdc.Segment.Writer.{Io, SegmentWriter, WriterError, Outcome, sync}
use pgmigrate.Cdc.Segment.Append.{append_frame}

pub record Persister : Type 0 where
  pub writer : SegmentWriter
  pub durable : Lsn
  pub unsynced_bytes : ℕ

pub data PersisterEvent : Type 0 where
  transaction : Io → Transaction → PersisterEvent
  timer : Io → PersisterEvent
  transactions_closed : Io → PersisterEvent
  cancelled : PersisterEvent

-- How Run returns.
pub data PersisterStop : Type 0 where
  finished context_done : PersisterStop
  writer_failed : WriterError → PersisterStop

-- A lower value is ignored.
unfoldable pub publish : Lsn → Persister → Persister
publish lsn p = if leb lsn p.durable then p else record p { durable = lsn }

-- NewPersister and the start of Run, on a watermark that stands at `durable`.
unfoldable pub start_persister : SegmentWriter → Lsn → Persister
start_persister w durable = publish w.durable_end_lsn (record {
  writer = w;
  durable = durable;
  unsynced_bytes = if ltb w.durable_end_lsn w.last_end_lsn then 1 else 0;
})

-- The state after one event, and the reason to return, if there is one.
abbrev pub Turn : Type 0
Turn = Persister × Option PersisterStop

unfoldable pub synced : Persister → Outcome (Unit {0}) × Lsn → Turn
synced p ((w, err e), durable) = (record p { writer = w }, some (writer_failed e))
synced p ((w, ok t), durable) =
    (record (publish durable (record p { writer = w })) { unsynced_bytes = 0 }, none)

unfoldable pub sync_persister : Io → Persister → Turn
sync_persister io p = if p.unsynced_bytes == 0 then (p, none) else synced p (sync io p.writer)

abbrev pub finish : Turn → Turn
finish (p, none) = (p, some finished)
finish (p, some stop) = (p, some stop)

abbrev pub proceed : (Persister → Turn) → Turn → Turn
proceed next (p, some stop) = (p, some stop)
proceed next (p, none) = next p

module _ (crc : List ℕ → ℕ) (final_path : Lsn → List ℕ) (sync_bytes : ℕ) where
  unfoldable pub appended : Io → Persister → Outcome ℕ → Turn
  appended io p (w, err e) = (record p { writer = w }, some (writer_failed e))
  appended io p (w, ok frame_bytes) =
      let next : Persister = record p {
        writer = w;
        unsynced_bytes = p.unsynced_bytes + frame_bytes;
      } in
      if leb sync_bytes next.unsynced_bytes then sync_persister io next else (next, none)

  -- A transaction that was appended before is dropped.
  unfoldable pub step : PersisterEvent → Persister → Turn
  step (transaction io tx) p =
      if leb tx.end_lsn p.writer.last_end_lsn
      then (publish p.writer.durable_end_lsn p, none)
      else appended io p (append_frame crc final_path io p.writer (some tx))
  step (timer io) p = sync_persister io p
  step (transactions_closed io) p = finish (sync_persister io p)
  step cancelled p = (p, some context_done)

  -- The loop over the events to come; it goes on while no turn returns.
  unfoldable pub run : List PersisterEvent → Persister → Turn
  run [] p = (p, none)
  run (event ∷ events) p = proceed (run events) (step event p)
