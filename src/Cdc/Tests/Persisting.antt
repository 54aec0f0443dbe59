-- ===== src/Cdc/Tests/Persisting.antt =====
-- The persister at one transaction and its replay.
use pgmigrate.Base.{ℕ, refl, true, false, List, [], ◌∷◌, ◌++◌, none, arith}
use pgmigrate.Base.Results.{ok}
use pgmigrate.Cdc.Model.{Lsn}
use pgmigrate.Cdc.Segment.Writer.{Io, SegmentWriter}
use pgmigrate.Cdc.Persister.{
  Persister, PersisterEvent, transaction, timer, transactions_closed, run,
}
use pgmigrate.Cdc.Persister.Published.{Published, run-Published}
use pgmigrate.Cdc.Tests.{checksum, first}

abbrev willing : Io
willing = record {
  create = true;
  entry_sync = true;
  header_write = true;
  payload_write = true;
  write = λ out bytes. ok (out ++ bytes);
  rollback = true;
  left_behind = [];
  header_seek = true;
  header_rewrite = true;
  end_seek = true;
  file_sync = true;
  close = true;
  rename = true;
  reopen = true;
  directory_sync = true;
}

abbrev empty_writer : SegmentWriter
empty_writer = record {
  rotation_bytes = 1073741824;
  catalog = [];
  file_open = false;
  partial_path = none;
  size = 0;
  last_commit_lsn = 0;
  last_end_lsn = 0;
  pending_end_lsn = 0;
  durable_end_lsn = 0;
  closed = false;
  tail = [];
  synced = [];
  finals = [];
  stranded = [];
}

abbrev idle : Persister
idle = record { writer = empty_writer; durable = 0; unsynced_bytes = 0 }

abbrev traffic : List PersisterEvent
traffic =
    transaction willing first
    ∷ timer willing
    ∷ transaction willing first
    ∷ transactions_closed willing
    ∷ []

abbrev named : Lsn → List ℕ
named start = start ∷ []

run_example : Published 0 (run checksum named 4194304 traffic idle).0
run_example =
    run-Published checksum named 4194304 0 traffic idle
      (omega arith, omega arith, omega arith, refl)
