-- ===== src/Cdc/Codec/Encode.antt =====
-- The encoder: internal/cdc/codec.go, AppendTransaction, MarshalTransaction and the append…
-- functions. Each takes the bytes written so far and returns them extended, or an error.
use pgmigrate.Base.{
  ℕ, ◌+◌, ◌-◌, Bool, not, List, [], ◌∷◌, ◌++◌, Option, none, some, ltb, ◌==◌, if◌then◌else◌,
}
use pgmigrate.Base.Int.{u64_of_int}
use pgmigrate.Base.Bytes.{le_bytes}
use pgmigrate.Base.Lists.{length}
use pgmigrate.Base.Results.{Result, ok, err, ◌>>=◌, ◌>>◌, fail_if, fold_result}
use pgmigrate.Cdc.Model.{
  Column, Relation, TupleDatum, Tuple, Change, Transaction, change_truncate, u64,
}
use pgmigrate.Cdc.Codec.Size.{
  CodecError, nil_transaction, needs_write, collection_too_large, payload_too_large, size_mismatch,
  too_many_columns, too_many_datums, value_too_large, truncate_options, unexpected_data,
  invalid_kind, max_payload_size, too_long, slice, has_no_data, has_data, known_change,
  misplaced_options, is_some, transaction_payload_size,
}

-- binary.LittleEndian.AppendUint32 and AppendUint64: the low bits of the number.
abbrev pub put_u32 : List ℕ → ℕ → List ℕ
put_u32 dst v = dst ++ le_bytes 4 v

abbrev pub put_u64 : List ℕ → ℕ → List ℕ
put_u64 dst v = dst ++ le_bytes 8 v

abbrev pub put_u8 : List ℕ → ℕ → List ℕ
put_u8 dst b = dst ++ b ∷ []

abbrev pub payload_magic : List ℕ
payload_magic = b'P' ∷ b'G' ∷ b'M' ∷ b'C' ∷ []

abbrev pub payload_version : ℕ
payload_version = 2

unfoldable pub append_bytes : List ℕ → List ℕ → Result CodecError (List ℕ)
append_bytes dst value = do
  fail_if (too_long value) value_too_large
  ok (put_u32 dst (length value) ++ value)

unfoldable pub append_column : List ℕ → Column → Result CodecError (List ℕ)
append_column dst c = append_bytes (put_u8 (put_u32 dst c.type) c.flags) c.name

unfoldable pub append_relation : List ℕ → Relation → Result CodecError (List ℕ)
append_relation dst r = do
  fail_if (too_long r.columns) too_many_columns
  d ← append_bytes (put_u8 (put_u32 dst r.oid) r.replica_identity) r.namespace
  e ← append_bytes d r.name
  fold_result append_column (put_u32 e (length r.columns)) r.columns

unfoldable pub append_datum : List ℕ → TupleDatum → Result CodecError (List ℕ)
append_datum dst d =
    if has_no_data d.kind
    then (if length (slice d.bytes) == 0 then ok (put_u8 dst d.kind) else err unexpected_data)
    else if has_data d.kind
    then append_bytes (put_u8 dst d.kind) (slice d.bytes)
    else err invalid_kind

unfoldable pub append_tuple : List ℕ → Option Tuple → Result CodecError (List ℕ)
append_tuple dst none = ok (put_u8 dst 0)
append_tuple dst (some t) =
    fail_if (too_long t) too_many_datums
    >> fold_result append_datum (put_u32 (put_u8 dst 1) (length t)) t

-- options |= 1 and options |= 2.
abbrev pub truncate_options_byte : Bool → Bool → ℕ
truncate_options_byte cascade restart = (if cascade then 1 else 0) + (if restart then 2 else 0)

-- The relation, the kind and, for TRUNCATE, the options.
abbrev pub put_change_header : List ℕ → Change → List ℕ
put_change_header dst c =
    let fixed = put_u8 (put_u32 dst c.relation_oid) c.kind in
    if c.kind == change_truncate
    then put_u8 fixed (truncate_options_byte c.truncate_cascade c.truncate_restart_identity)
    else fixed

unfoldable pub append_change : List ℕ → Change → Result CodecError (List ℕ)
append_change dst c = do
  fail_if (not (known_change c.kind)) invalid_kind
  fail_if (misplaced_options c) truncate_options
  d ← append_tuple (put_change_header dst c) c.old
  append_tuple d c.new

-- Magic, version, LSNs and commit time, before the relations.
abbrev pub put_prefix_header : List ℕ → Transaction → List ℕ
put_prefix_header dst tx =
    let lsns =
      put_u64 (put_u64 (put_u8 (dst ++ payload_magic) payload_version) tx.commit_lsn) tx.end_lsn in
    put_u32 (put_u64 lsns (u64_of_int tx.commit_time.seconds)) tx.commit_time.nanos

unfoldable pub append_transaction_prefix : List ℕ → Transaction → ℕ → Result CodecError (List ℕ)
append_transaction_prefix dst tx change_count = do
  fail_if (too_long tx.relations) collection_too_large
  d ←
      fold_result append_relation (put_u32 (put_prefix_header dst tx) (length tx.relations))
        tx.relations
  ok (put_u32 d change_count)

unfoldable pub append_transaction : List ℕ → Option Transaction → Result CodecError (List ℕ)
append_transaction dst none = err nil_transaction
append_transaction dst (some tx) = do
  fail_if (is_some tx.spill) needs_write
  fail_if (too_long tx.relations) collection_too_large
  fail_if (too_long tx.changes) collection_too_large
  size ← transaction_payload_size (some tx)
  fail_if (ltb max_payload_size size) payload_too_large
  d ← append_transaction_prefix dst tx (length tx.changes)
  e ← fold_result append_change d tx.changes
  fail_if (not (u64 (length e - length dst) == size)) size_mismatch
  ok e

unfoldable pub marshal_transaction : Option Transaction → Result CodecError (List ℕ)
marshal_transaction tx = append_transaction [] tx
