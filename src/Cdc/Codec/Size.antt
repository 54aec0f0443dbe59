-- ===== src/Cdc/Codec/Size.antt =====
-- Encoded sizes: internal/cdc/codec.go, transactionPayloadSize and the encoded…Size functions.
-- Sizes are uint64 sums; a length is compared with the largest uint32 before it is used.
use pgmigrate.Base.{
  ℕ, ◌+◌, Bool, true, false, not, ◌&&◌, ◌||◌, List, [], Option, none, some, ltb, ◌==◌,
  if◌then◌else◌,
}
use pgmigrate.Base.Lists.{length}
use pgmigrate.Base.Results.{Result, ok, err, ◌>>=◌, ◌>>◌, fail_if, fold_result}
use pgmigrate.Cdc.Model.{
  Column, Relation, TupleDatum, Tuple, Change, TransactionSpill, Transaction, datum_null,
  datum_text, datum_binary, datum_unchanged_toast, change_insert, change_update, change_delete,
  change_truncate, u64,
}

-- The errors of codec.go, without the context that the callers wrap them in.
pub data CodecError : Type 0 where
  nil_transaction needs_write collection_too_large payload_too_large size_mismatch : CodecError
  resident_and_spilled name_too_large too_many_columns too_many_datums value_too_large : CodecError
  truncate_options unexpected_data invalid_kind spill_closed write_failed : CodecError
  truncated count_exceeds invalid_magic unsupported_version invalid_timestamp : CodecError
  invalid_presence trailing_bytes spill_limit : CodecError

abbrev pub max_u32 : ℕ
max_u32 = 4294967295

abbrev pub max_payload_size : ℕ
max_payload_size = 4294967295

abbrev pub stream_payload_bytes : ℕ
stream_payload_bytes = 16777216

-- `len(x) > int(^uint32(0))`.
abbrev pub too_long {ℓ} : {A : Type ℓ} → List A → Bool
too_long xs = ltb max_u32 (length xs)

-- len of a possibly nil byte slice, and its bytes.
abbrev pub slice : Option (List ℕ) → List ℕ
slice none = []
slice (some v) = v

abbrev pub has_no_data : ℕ → Bool
has_no_data kind = kind == datum_null || kind == datum_unchanged_toast

abbrev pub has_data : ℕ → Bool
has_data kind = kind == datum_text || kind == datum_binary

abbrev pub known_change : ℕ → Bool
known_change kind =
    kind == change_insert
    || kind == change_update
    || kind == change_delete
    || kind == change_truncate

-- One round of the loop over a relation's columns; the other loops are built alike.
unfoldable pub add_column_size : ℕ → Column → Result CodecError ℕ
add_column_size size c =
    fail_if (too_long c.name) name_too_large >> ok (u64 (size + (4 + 1 + 4 + length c.name)))

unfoldable pub encoded_relation_size : Relation → Result CodecError ℕ
encoded_relation_size r = do
  fail_if (too_long r.namespace || too_long r.name) name_too_large
  fail_if (too_long r.columns) too_many_columns
  fold_result add_column_size (u64 (4 + 1 + 4 + length r.namespace + 4 + length r.name + 4))
      r.columns

unfoldable pub add_datum_size : ℕ → TupleDatum → Result CodecError ℕ
add_datum_size size d =
    if has_no_data d.kind
    then (if length (slice d.bytes) == 0 then ok (u64 (size + 1)) else err unexpected_data)
    else if has_data d.kind
    then (if too_long (slice d.bytes)
        then err value_too_large
        else ok (u64 (u64 (size + 1) + u64 (4 + length (slice d.bytes)))))
    else err invalid_kind

unfoldable pub encoded_tuple_size : Option Tuple → Result CodecError ℕ
encoded_tuple_size none = ok 1
encoded_tuple_size (some t) =
    fail_if (too_long t) too_many_datums >> fold_result add_datum_size (1 + 4) t

abbrev pub misplaced_options : Change → Bool
misplaced_options c =
    not (c.kind == change_truncate) && (c.truncate_cascade || c.truncate_restart_identity)

unfoldable pub encoded_change_size : Change → Result CodecError ℕ
encoded_change_size c = do
  fail_if (not (known_change c.kind)) invalid_kind
  fail_if (misplaced_options c) truncate_options
  let size = if c.kind == change_truncate then 4 + 1 + 1 else 4 + 1
  old_size ← encoded_tuple_size c.old
  new_size ← encoded_tuple_size c.new
  ok (u64 (size + old_size + new_size))

unfoldable pub add_relation_size : ℕ → Relation → Result CodecError ℕ
add_relation_size size r = encoded_relation_size r >>= λ s. ok (u64 (size + s))

unfoldable pub add_change_size : ℕ → Change → Result CodecError ℕ
add_change_size size c = encoded_change_size c >>= λ s. ok (u64 (size + s))

abbrev pub is_some {ℓ} : {A : Type ℓ} → Option A → Bool
is_some none = false
is_some (some a) = true

body_size : ℕ → Option TransactionSpill → List Change → Result CodecError ℕ
body_size size (some s) changes = ok (u64 (size + s.change_bytes))
body_size size none changes =
    fail_if (too_long changes) collection_too_large >> fold_result add_change_size size changes

unfoldable pub transaction_payload_size : Option Transaction → Result CodecError ℕ
unfolding body_size
transaction_payload_size none = err nil_transaction
transaction_payload_size (some tx) = do
  fail_if (too_long tx.relations) collection_too_large
  fail_if (is_some tx.spill && not (length tx.changes == 0)) resident_and_spilled
  size ← fold_result add_relation_size (4 + 1 + 8 + 8 + 8 + 4 + 4 + 4) tx.relations
  body_size size tx.spill tx.changes
