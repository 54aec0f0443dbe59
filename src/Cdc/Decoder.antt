-- ===== src/Cdc/Decoder.antt =====
-- The decoder of pgoutput messages: internal/cdc/pgoutput.go, PGOutputDecoder. pglogrepl.Parse is the
-- parameter `parse`, which is `none` where it fails or panics; its messages are the data type Message.
-- Whether a spill file can be created, its writes and the clock are parameters too. A spill that is
-- dropped is removed by the file system.
pub mod Assembles
pub mod Carries
pub mod Streams
pub mod Aborts
pub mod Idle
use pgmigrate.Base.{
  ℕ, ◌+◌, ◌/◌, ◌%◌, Bool, true, false, not, ◌&&◌, ◌||◌, List, [], ◌∷◌, ◌++◌, Option, none, some,
  ltb, ◌==◌, if◌then◌else◌,
}
use pgmigrate.Base.Lists.{length}
use pgmigrate.Base.Bytes.{text_bytes}
use pgmigrate.Base.Results.{Result, ok, err, ◌>>=◌, ◌>>◌, fail_if, fold_result}
use pgmigrate.Cdc.Model.{
  Lsn, Relation, TupleDatum, Tuple, Change, CommitTime, TransactionSpill, Transaction, datum_null,
  datum_text, datum_binary, datum_unchanged_toast, change_insert, change_update, change_delete,
  change_truncate, u64,
}
use pgmigrate.Base.Int.{ℤ, pos, negsuc}
use pgmigrate.Cdc.Codec.Size.{CodecError, encoded_relation_size, encoded_change_size}
use pgmigrate.Cdc.Codec.Decode.{same_bytes}
use pgmigrate.Cdc.Codec.Write.{Writer}
use pgmigrate.Cdc.Spill.{new_transaction_spill, append_change}

-- A column of pglogrepl.TupleData; its type is an ASCII letter of the protocol.
pub record PgColumn : Type 0 where
  pub data_type : ℕ
  pub bytes : Option (List ℕ)

pub data Message : Type 0 where
  relation_message : Relation → Message
  begin_message : Lsn → CommitTime → Message
  insert_message : ℕ → Option (List PgColumn) → Message
  update_message : ℕ → Option (List PgColumn) → Option (List PgColumn) → Message
  delete_message : ℕ → Option (List PgColumn) → Message
  truncate_message : ℕ → List ℕ → Message
  commit_message : Lsn → Lsn → CommitTime → Message
  logical_message : List ℕ → Bool → Lsn → Message
  other_message : Message

pub data DecodeError : Type 0 where
  decoder_closed init_failed empty_message parse_failed begin_active outside_transaction :
      DecodeError
  relation_not_cached unknown_truncate_options commit_without_begin commit_lsn_differs : DecodeError
  end_precedes_commit message_in_transaction zero_cutover_lsn unsupported_tuple_kind : DecodeError
  spill_not_created negative_threshold : DecodeError
  encoding_failed : CodecError → DecodeError

-- `relations` is the cache, `required` the OIDs of the active transaction's relations.
pub record Decoder : Type 0 where
  pub relations : List (ℕ × Relation)
  pub current : Option Transaction
  pub required : List ℕ
  pub spill_threshold : ℕ
  pub encoded_size : ℕ
  pub init_error : Bool
  pub closed : Bool

abbrev pub encoded : {A : Type 0} → Result CodecError A → Result DecodeError A
encoded (ok a) = ok a
encoded (err e) = err (encoding_failed e)

unfoldable pub cached : List (ℕ × Relation) → ℕ → Option Relation
cached [] oid = none
cached ((known, relation) ∷ rest) oid =
    let later = cached rest oid in if known == oid then some relation else later

unfoldable pub is_required : List ℕ → ℕ → Bool
is_required [] oid = false
is_required (known ∷ rest) oid = known == oid || is_required rest oid

decode_pg_datum : PgColumn → Result DecodeError TupleDatum
decode_pg_datum column =
    if column.data_type == b'n'
    then ok (record { kind = datum_null; bytes = none })
    else if column.data_type == b't'
    then ok (record { kind = datum_text; bytes = column.bytes })
    else if column.data_type == b'b'
    then ok (record { kind = datum_binary; bytes = column.bytes })
    else if column.data_type == b'u'
    then ok (record { kind = datum_unchanged_toast; bytes = none })
    else err unsupported_tuple_kind

unfoldable pub decode_pg_columns : List PgColumn → Result DecodeError Tuple
unfolding decode_pg_datum
decode_pg_columns [] = ok []
decode_pg_columns (column ∷ columns) =
    decode_pg_datum column >>= λ datum. decode_pg_columns columns >>= λ rest. ok (datum ∷ rest)

unfoldable pub decode_pg_tuple : Option (List PgColumn) → Result DecodeError (Option Tuple)
decode_pg_tuple none = ok none
decode_pg_tuple (some columns) = decode_pg_columns columns >>= λ tuple. ok (some tuple)

row_change : ℕ → ℕ → Option Tuple → Option Tuple → Change
row_change kind oid old new = record {
  relation_oid = oid;
  kind = kind;
  old = old;
  new = new;
  truncate_cascade = false;
  truncate_restart_identity = false;
}

truncate_changes : ℕ → List ℕ → List Change
truncate_changes options [] = []
truncate_changes options (oid ∷ oids) =
    record {
      relation_oid = oid;
      kind = change_truncate;
      old = none;
      new = none;
      truncate_cascade = options % 2 == 1;
      truncate_restart_identity = options / 2 % 2 == 1;
    }
    ∷ truncate_changes options oids

-- The row changes of a message; `none` for a message of another kind.
unfoldable pub row_changes : Message → Option (Result DecodeError (List Change))
unfolding row_change truncate_changes
row_changes (insert_message oid new) =
    some (decode_pg_tuple new >>= λ n. ok (row_change change_insert oid none n ∷ []))
row_changes (update_message oid old new) = some (
    decode_pg_tuple old >>= λ o.
    decode_pg_tuple new >>= λ n. ok (row_change change_update oid o n ∷ []))
row_changes (delete_message oid old) =
    some (decode_pg_tuple old >>= λ o. ok (row_change change_delete oid o none ∷ []))
row_changes (truncate_message options oids) =
    some
      (if ltb 3 options then err unknown_truncate_options else ok (truncate_changes options oids))
row_changes (relation_message relation) = none
row_changes (begin_message lsn time) = none
row_changes (commit_message commit end time) = none
row_changes (logical_message prefix transactional lsn) = none
row_changes other_message = none

unfoldable pub begun : Lsn → CommitTime → Transaction
begun lsn time = record {
  commit_lsn = lsn;
  end_lsn = 0;
  commit_time = time;
  relations = [];
  changes = [];
  spill = none;
}

-- abortActive: only an active transaction is dropped.
unfoldable pub abort : Option Transaction → Decoder → Decoder
abort none d = d
abort (some tx) d = record d { current = none; required = []; encoded_size = 0 }

unfoldable pub abort_active : Decoder → Decoder
unfolding abort
abort_active d = abort d.current d

unfoldable pub close : Decoder → Decoder
close d = if d.closed then d else abort_active (record d { closed = true })

-- A threshold of 0 stands for the default; directories are created by the file system.
unfoldable pub new_decoder : ℤ → Result DecodeError Decoder
new_decoder (negsuc n) = err negative_threshold
new_decoder (pos threshold) = ok (record {
  relations = [];
  current = none;
  required = [];
  spill_threshold = if threshold == 0 then 268435456 else threshold;
  encoded_size = 0;
  init_error = false;
  closed = false;
})

module _ (write : Writer) (spill_created : Bool) where
  -- spillCurrent, which gives the transaction a spill for its changes.
  unfoldable pub spill_current : Transaction → Result DecodeError Transaction
  spill_current tx = do
    fail_if (not spill_created) spill_not_created
    spill ← encoded (fold_result (append_change write) new_transaction_spill tx.changes)
    ok (record tx { changes = []; spill = some spill })

  -- The relation of a change is required from its first change on.
  unfoldable pub require_relation :
      Decoder → Transaction → Relation → ℕ → Result DecodeError (Decoder × Transaction)
  require_relation d tx relation oid =
      if is_required d.required oid
      then ok (d, tx)
      else (encoded (encoded_relation_size relation) >>= λ size. ok (
        record d { required = oid ∷ d.required; encoded_size = u64 (d.encoded_size + size) },
        record tx { relations = tx.relations ++ relation ∷ [] },
      ))

  -- The change goes to the spill, or to memory, which is spilled above the threshold.
  unfoldable pub keep_change :
      ℕ → ℕ → Transaction → Option TransactionSpill → Change → Result DecodeError Transaction
  keep_change threshold size tx (some spill) change =
      encoded (append_change write spill change) >>= λ s. ok (record tx { spill = some s })
  keep_change threshold size tx none change =
      let kept : Transaction = record tx { changes = tx.changes ++ change ∷ [] } in
      if ltb threshold size then spill_current kept else ok kept

  unfoldable pub add_to :
      Decoder → Change → Option Transaction → Option Relation → Result DecodeError Decoder
  add_to d change none relation = err outside_transaction
  add_to d change (some tx) none = err relation_not_cached
  add_to d change (some tx) (some relation) =
      require_relation d tx relation change.relation_oid >>= λ (e, required).
      encoded (encoded_change_size change) >>= λ size.
      keep_change e.spill_threshold (u64 (e.encoded_size + size)) required required.spill change
      >>= λ kept. ok (record e { current = some kept; encoded_size = u64 (e.encoded_size + size) })

  unfoldable pub add_change : Decoder → Change → Result DecodeError Decoder
  add_change d change = add_to d change d.current (cached d.relations change.relation_oid)

  unfoldable pub commit :
      Decoder
      → Lsn
      → Lsn
      → CommitTime
      → Option Transaction
      → Result DecodeError (Decoder × Option Transaction)
  commit d commit_lsn end_lsn time none = err commit_without_begin
  commit d commit_lsn end_lsn time (some tx) = do
    fail_if (not (commit_lsn == tx.commit_lsn)) commit_lsn_differs
    fail_if (ltb end_lsn commit_lsn) end_precedes_commit
    ok (
      record d { current = none; required = []; encoded_size = 0 },
      some (record tx { commit_time = time; end_lsn = end_lsn }),
    )

  -- A cutover message is an empty transaction.
  unfoldable pub cutover :
      Decoder
      → Lsn
      → CommitTime
      → Option Transaction
      → Result DecodeError (Decoder × Option Transaction)
  cutover d lsn now (some tx) = err message_in_transaction
  cutover d lsn now none = do
    fail_if (lsn == 0) zero_cutover_lsn
    ok (d, some (record (begun lsn now) { end_lsn = lsn }))

  unfoldable pub begin :
      Decoder
      → Lsn
      → CommitTime
      → Option Transaction
      → Result DecodeError (Decoder × Option Transaction)
  unfolding begun
  begin d lsn time (some tx) = err begin_active
  begin d lsn time none = ok (
    record d {
      current = some (begun lsn time);
      required = [];
      encoded_size = 4 + 1 + 8 + 8 + 8 + 4 + 4 + 4;
    },
    none,
  )

  -- What a message of another kind than a row change does; other messages change nothing.
  unfoldable pub handle_other :
      CommitTime → Decoder → Message → Result DecodeError (Decoder × Option Transaction)
  unfolding commit cutover begin begun
  handle_other now d (relation_message relation) =
      ok (record d { relations = (relation.oid, relation) ∷ d.relations }, none)
  handle_other now d (begin_message lsn time) = begin d lsn time d.current
  handle_other now d (commit_message commit_lsn end_lsn time) =
      commit d commit_lsn end_lsn time d.current
  handle_other now d (logical_message prefix transactional lsn) =
      if not (same_bytes prefix (text_bytes "pgmigrate_cutover")) || transactional
      then ok (d, none)
      else cutover d lsn now d.current
  handle_other now d message = ok (d, none)

  unfoldable pub handle_rows :
      CommitTime
      → Decoder
      → Message
      → Option (Result DecodeError (List Change))
      → Result DecodeError (Decoder × Option Transaction)
  handle_rows now d message none = handle_other now d message
  handle_rows now d message (some rows) =
      rows >>= λ changes. fold_result add_change d changes >>= λ e. ok (e, none)

  unfoldable pub handle :
      CommitTime → Decoder → Message → Result DecodeError (Decoder × Option Transaction)
  unfolding handle_rows
  handle now d message = handle_rows now d message (row_changes message)

  -- An error drops the active transaction.
  unfoldable pub settle :
      Decoder
      → Result DecodeError (Decoder × Option Transaction)
      → Decoder × Result DecodeError (Option Transaction)
  settle d (ok (e, tx)) = (e, ok tx)
  settle d (err e) = (abort_active d, err e)

  unfoldable pub parsed :
      CommitTime → Decoder → Option Message → Result DecodeError (Decoder × Option Transaction)
  parsed now d none = err parse_failed
  parsed now d (some message) = handle now d message

  unfoldable pub decode :
      (List ℕ → Option Message)
      → CommitTime
      → Decoder
      → List ℕ
      → Decoder × Result DecodeError (Option Transaction)
  unfolding parsed
  decode parse now d bytes =
      if d.closed
      then (d, err decoder_closed)
      else if d.init_error
      then (d, err init_failed)
      else if length bytes == 0
      then (d, err empty_message)
      else settle d (parsed now d (parse bytes))
