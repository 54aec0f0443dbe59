-- ===== src/Cdc/Codec/Stream.antt =====
-- The streaming decoder, internal/cdc/codec_stream.go. The reader is the bytes that are left.
-- `bounded` says whether it knows how many remain (remainingEncodedReader), as the reader of a
-- segment frame does and the reader of a spill does not; only a bounded reader checks counts.
use pgmigrate.Base.{
  ℕ, ◌-◌, ◌/◌, Bool, false, not, ◌&&◌, List, [], Option, none, some, ltb, leb, ◌==◌, if◌then◌else◌,
}
use pgmigrate.Base.Bytes.{le_value}
use pgmigrate.Base.Int.{int_of_u64}
use pgmigrate.Base.Lists.{length, get_or, take, drop}
use pgmigrate.Base.Results.{Result, ok, err, ◌>>=◌, ◌>>◌, fail_if}
use pgmigrate.Cdc.Model.{Column, Relation, TupleDatum, Tuple, Change, Transaction, change_truncate}
use pgmigrate.Cdc.Codec.Size.{
  CodecError, invalid_kind, truncated, count_exceeds, unsupported_version, invalid_timestamp,
  invalid_presence, truncate_options, invalid_magic, has_no_data, has_data, known_change,
}
use pgmigrate.Cdc.Codec.Encode.{payload_magic, payload_version}
use pgmigrate.Cdc.Codec.Decode.{Step, read_many, same_bytes, cascade_bit, restart_bit}

-- readN, readByte and io.ReadFull: a short read is an error, bounded or not.
unfoldable pub read_n : ℕ → Step (List ℕ)
read_n n d = if ltb (length d) n then err truncated else ok (take n d, drop n d)

unfoldable pub read_byte : Step ℕ
read_byte d = read_n 1 d >>= λ (v, rest). ok (get_or v 0 0, rest)

unfoldable pub read_uint32 : Step ℕ
read_uint32 d = read_n 4 d >>= λ (v, rest). ok (le_value v, rest)

unfoldable pub read_uint64 : Step ℕ
read_uint64 d = read_n 8 d >>= λ (v, rest). ok (le_value v, rest)

unfoldable pub read_length_bytes : Step (List ℕ)
read_length_bytes d = read_uint32 d >>= λ (n, rest). read_n n rest

unfoldable pub validate_encoded_count : Bool → List ℕ → ℕ → ℕ → ℕ → Result CodecError (Unit {0})
validate_encoded_count bounded d count minimum_item_bytes reserve = do
  fail_if (bounded && ltb (length d) reserve) truncated
  fail_if
      (bounded
        && not (minimum_item_bytes == 0)
        && ltb ((length d - reserve) / minimum_item_bytes) count)
      count_exceeds

-- A count and its validation.
unfoldable pub read_valid_count : Bool → ℕ → ℕ → Step ℕ
read_valid_count bounded minimum_item_bytes reserve d = do
  (count, d) ← read_uint32 d
  validate_encoded_count bounded d count minimum_item_bytes reserve
  ok (count, d)

unfoldable pub decode_column_reader : Step Column
decode_column_reader d = do
  (type, d) ← read_uint32 d
  (flags, d) ← read_byte d
  (name, d) ← read_length_bytes d
  ok (record { name = name; type = type; flags = flags }, d)

unfoldable pub decode_datum_reader : Step TupleDatum
decode_datum_reader d = do
  (kind, d) ← read_byte d
  if has_no_data kind
      then ok (record { kind = kind; bytes = none }, d)
      else if has_data kind
      then (read_length_bytes d >>= λ (v, d). ok (record { kind = kind; bytes = some v }, d))
      else err invalid_kind

-- A failed read of the options, the magic or the nanoseconds is reported as an invalid value.
or_invalid : {A : Type 0} → CodecError → Result CodecError A → Result CodecError A
or_invalid e (ok a) = ok a
or_invalid e (err other) = err e

unfoldable pub options_reader : ℕ → ℕ → Step (Bool × Bool)
unfolding or_invalid
options_reader version kind d =
    if leb 2 version && kind == change_truncate
    then (do
      (options, d) ← or_invalid truncate_options (read_byte d)
      fail_if (not (options / 4 == 0)) truncate_options
      ok ((cascade_bit options, restart_bit options), d))
    else ok ((false, false), d)

unfoldable pub magic_reader : Step (List ℕ)
unfolding or_invalid
magic_reader d = do
  (magic, d) ← or_invalid invalid_magic (read_n 4 d)
  fail_if (not (same_bytes magic payload_magic)) invalid_magic
  ok (magic, d)

unfoldable pub nanos_reader : Step ℕ
unfolding or_invalid
nanos_reader d = do
  (nanos, d) ← or_invalid invalid_timestamp (read_uint32 d)
  fail_if (leb 1000000000 nanos) invalid_timestamp
  ok (nanos, d)

module _ (bounded : Bool) where
  unfoldable pub decode_relation_reader : Step Relation
  decode_relation_reader d = do
    (oid, d) ← read_uint32 d
    (identity, d) ← read_byte d
    (namespace, d) ← read_length_bytes d
    (name, d) ← read_length_bytes d
    (count, d) ← read_valid_count bounded 9 0 d
    (columns, d) ← read_many decode_column_reader count d
    ok (
      record {
        oid = oid;
        namespace = namespace;
        name = name;
        replica_identity = identity;
        columns = columns;
      },
      d,
    )

  unfoldable pub decode_tuple_reader : Step (Option Tuple)
  decode_tuple_reader d = do
    (present, d) ← read_byte d
    if present == 0
        then ok (none, d)
        else if present == 1
        then (do
          (count, d) ← read_valid_count bounded 1 0 d
          (tuple, d) ← read_many decode_datum_reader count d
          ok (some tuple, d))
        else err invalid_presence

  unfoldable pub decode_change_reader : ℕ → Step Change
  decode_change_reader version d = do
    (oid, d) ← read_uint32 d
    (kind, d) ← read_byte d
    fail_if (not (known_change kind)) invalid_kind
    (options, d) ← options_reader version kind d
    (old, d) ← decode_tuple_reader d
    (new, d) ← decode_tuple_reader d
    ok (
      record {
        relation_oid = oid;
        kind = kind;
        old = old;
        new = new;
        truncate_cascade = options.0;
        truncate_restart_identity = options.1;
      },
      d,
    )

  -- Everything before the changes, their number, and the payload's version.
  unfoldable pub decode_transaction_prefix : Step (Transaction × ℕ × ℕ)
  decode_transaction_prefix d = do
    (magic, d) ← magic_reader d
    (version, d) ← read_byte d
    fail_if (not (version == 1) && not (version == payload_version)) unsupported_version
    (commit, d) ← read_uint64 d
    (end, d) ← read_uint64 d
    (seconds, d) ← read_uint64 d
    (nanos, d) ← nanos_reader d
    (relation_count, d) ← read_valid_count bounded 17 4 d
    (relations, d) ← read_many decode_relation_reader relation_count d
    (changes, d) ← read_valid_count bounded 7 0 d
    ok (
      (
        record {
          commit_lsn = commit;
          end_lsn = end;
          commit_time = record { seconds = int_of_u64 seconds; nanos = nanos };
          relations = relations;
          changes = [];
          spill = none;
        },
        version,
        changes,
      ),
      d,
    )
