-- ===== src/Cdc/Segment/Writer.antt =====
-- The segment writer: internal/cdc/segment.go, Writer, in state-passing style. The file system's
-- answers to one call are the fields of `Io`. A partial file is named by its first commit LSN, and
-- `final_path` is the path that the name of a finalized file makes. A write that failed is rolled
-- back; `rollback` says whether that works, and `left_behind` what is left in the file where its Seek
-- fails. That its Truncate fails alone is not modelled. File sizes stay below 2 ^ 63.
use pgmigrate.Base.{
  ℕ, Bool, true, false, not, ◌||◌, List, [], ◌∷◌, ◌++◌, Option, none, some, ◌==◌, if◌then◌else◌,
}
use pgmigrate.Base.Results.{Result, ok, err}
use pgmigrate.Cdc.Model.{Lsn}
use pgmigrate.Cdc.Codec.Size.{CodecError}
use pgmigrate.Cdc.Segment.Catalog.{SegmentRange, CatalogError, add_finalized}

pub data WriterError : Type 0 where
  writer_closed no_transaction invalid_lsns commit_lsn_order end_lsn_order payload_limit :
      WriterError
  create_failed write_failed seek_failed size_changed : WriterError
  sync_failed close_failed rename_failed reopen_failed directory_sync_failed : WriterError
  codec : CodecError → WriterError
  catalog_refused : CatalogError → WriterError

-- What the file system answers during one call; true is success.
pub record Io : Type 0 where
  pub create : Bool
  pub entry_sync : Bool
  pub header_write : Bool
  pub payload_write : Bool
  pub write : List ℕ → List ℕ → Result CodecError (List ℕ)
  pub rollback : Bool
  pub left_behind : List ℕ
  pub header_seek : Bool
  pub header_rewrite : Bool
  pub end_seek : Bool
  pub file_sync : Bool
  pub close : Bool
  pub rename : Bool
  pub reopen : Bool
  pub directory_sync : Bool

-- The writer's fields, and the bytes of the files that it keeps: the partial file, that file as it
-- was when last synced, the finalized files, and a partial file that could not be opened again.
pub record SegmentWriter : Type 0 where
  pub rotation_bytes : ℕ
  pub catalog : List SegmentRange
  pub file_open : Bool
  pub partial_path : Option Lsn
  pub size : ℕ
  pub last_commit_lsn : Lsn
  pub last_end_lsn : Lsn
  pub pending_end_lsn : Lsn
  pub durable_end_lsn : Lsn
  pub closed : Bool
  pub tail : List ℕ
  pub synced : List ℕ
  pub finals : List (List ℕ)
  pub stranded : List (List ℕ)

abbrev pub Outcome : Type 0 → Type 0
Outcome A = SegmentWriter × Result WriterError A

abbrev pub and_then : {A B : Type 0} → Outcome A → (SegmentWriter → A → Outcome B) → Outcome B
and_then (w, ok a) f = f w a
and_then (w, err e) f = (w, err e)

abbrev pub of_codec : {A : Type 0} → Result CodecError A → Result WriterError A
of_codec (ok a) = ok a
of_codec (err e) = err (codec e)

-- os.O_EXCL, and the directory entry made durable before the file is used.
unfoldable pub open_segment : Io → Lsn → SegmentWriter → Outcome (Unit {0})
open_segment io start w =
    if not io.create
    then (record w { partial_path = some start }, err create_failed)
    else if not io.entry_sync
    then (record w { partial_path = none; file_open = false; size = 0 }, err directory_sync_failed)
    else (
      record w { partial_path = some start; file_open = true; size = 0; tail = []; synced = [] },
      ok tt,
    )

unfoldable pub mark_synced : SegmentWriter → SegmentWriter
mark_synced w = record w { durable_end_lsn = w.pending_end_lsn; synced = w.tail }

unfoldable pub sync_locked : Io → SegmentWriter → Outcome (Unit {0})
sync_locked io w =
    if not w.file_open || (w.pending_end_lsn == w.durable_end_lsn)
    then (w, ok tt)
    else if not io.file_sync
    then (w, err sync_failed)
    else (mark_synced w, ok tt)

-- Sync returns the durable LSN with or without an error.
unfoldable pub sync : Io → SegmentWriter → Outcome (Unit {0}) × Lsn
sync io w =
    let out = (if w.closed then (w, err writer_closed) else sync_locked io w) in
    (out, out.0.durable_end_lsn)

unfoldable pub segment_start : Option Lsn → Lsn
segment_start none = 0
segment_start (some start) = start

unfoldable pub catalog_outcome :
    SegmentWriter → Result CatalogError (List SegmentRange) → Outcome (Unit {0})
catalog_outcome w (ok catalog) = (record w { catalog = catalog }, ok tt)
catalog_outcome w (err e) = (w, err (catalog_refused e))

-- Behind the rename: the entry made durable, then the catalog.
unfoldable pub finalize : Io → SegmentRange → SegmentWriter → Outcome (Unit {0})
finalize io finalized w =
    let renamed = record w {
      partial_path = none;
      size = 0;
      finals = w.finals ++ (w.tail ∷ []);
      tail = [];
      synced = [];
    } in
    if not io.directory_sync
    then (renamed, err directory_sync_failed)
    else catalog_outcome renamed (add_finalized renamed.catalog finalized)

-- A file that was not renamed is opened again, as the tail that it was.
unfoldable pub unnamed : Io → SegmentWriter → Outcome (Unit {0})
unnamed io w =
    if io.reopen
    then (record w { file_open = true }, err rename_failed)
    else (record w { stranded = w.tail ∷ w.stranded }, err reopen_failed)

module _ (final_path : Lsn → List ℕ) where
  unfoldable pub rotate_locked : Io → SegmentWriter → Outcome (Unit {0})
  rotate_locked io w =
      if not w.file_open
      then (w, ok tt)
      else (let finalized : SegmentRange = record {
        path = final_path (segment_start w.partial_path);
        start_commit = segment_start w.partial_path;
        last_commit = w.last_commit_lsn;
        last_end = w.last_end_lsn;
        validated_size = w.size;
      } in
          and_then (sync_locked io w) (λ s _.
            if not io.close
            then (s, err close_failed)
            else (let shut : SegmentWriter = record s { file_open = false } in
                if not io.rename then unnamed io shut else finalize io finalized shut)))

  unfoldable pub rotate : Io → SegmentWriter → Outcome (Unit {0})
  rotate io w = if w.closed then (w, err writer_closed) else rotate_locked io w
