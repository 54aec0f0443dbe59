-- ===== src/Cdc/Codec/Decode.antt =====
-- The decoder: internal/cdc/codec.go, UnmarshalTransaction and the methods of `decoder`. The
-- decoder's state is the bytes that are left; every method returns them with its value.
use pgmigrate.Base.{
  ℕ, zero, suc, ◌/◌, ◌%◌, Bool, true, false, not, ◌&&◌, List, [], ◌∷◌, Option, none, some, ltb, leb,
  ◌==◌, if◌then◌else◌,
}
use pgmigrate.Base.Int.{int_of_u64}
use pgmigrate.Base.Bytes.{le_value}
use pgmigrate.Base.Lists.{length, take, drop, get_or}
use pgmigrate.Base.Results.{Result, ok, err, ◌>>=◌, ◌>>◌, fail_if}
use pgmigrate.Cdc.Model.{Column, Relation, TupleDatum, Tuple, Change, Transaction, change_truncate}
use pgmigrate.Cdc.Codec.Size.{
  CodecError, payload_too_large, invalid_kind, truncated, count_exceeds, invalid_magic,
  unsupported_version, invalid_timestamp, invalid_presence, trailing_bytes, truncate_options,
  max_payload_size, has_no_data, has_data, known_change,
}
use pgmigrate.Cdc.Codec.Encode.{payload_magic, payload_version}

-- A decoding step.
abbrev pub Step : Type 0 → Type 0
Step A = List ℕ → Result CodecError (A × List ℕ)

unfoldable pub take_bytes : ℕ → Step (List ℕ)
take_bytes n d = if ltb (length d) n then err truncated else ok (take n d, drop n d)

unfoldable pub read_u8 : Step ℕ
read_u8 d = take_bytes 1 d >>= λ (v, rest). ok (get_or v 0 0, rest)

unfoldable pub read_u32 : Step ℕ
read_u32 d = take_bytes 4 d >>= λ (v, rest). ok (le_value v, rest)

unfoldable pub read_u64 : Step ℕ
read_u64 d = take_bytes 8 d >>= λ (v, rest). ok (le_value v, rest)

unfoldable pub read_count : ℕ → Step ℕ
read_count min_item_bytes d = do
  (value, rest) ← read_u32 d
  fail_if (ltb 0 min_item_bytes && ltb (length rest / min_item_bytes) value) count_exceeds
  ok (value, rest)

unfoldable pub read_bytes : Step (List ℕ)
read_bytes d = read_u32 d >>= λ (size, rest). take_bytes size rest

-- `for i := range make([]T, count)`.
unfoldable pub read_many : {A : Type 0} → Step A → ℕ → Step (List A)
read_many item zero d = ok ([], d)
read_many item (suc n) d = do
  (x, rest) ← item d
  (xs, end) ← read_many item n rest
  ok (x ∷ xs, end)

unfoldable pub read_column : Step Column
read_column d = do
  (type, d) ← read_u32 d
  (flags, d) ← read_u8 d
  (name, d) ← read_bytes d
  ok (record { name = name; type = type; flags = flags }, d)

unfoldable pub read_relation : Step Relation
read_relation d = do
  (oid, d) ← read_u32 d
  (identity, d) ← read_u8 d
  (namespace, d) ← read_bytes d
  (name, d) ← read_bytes d
  (count, d) ← read_count 9 d
  (columns, d) ← read_many read_column count d
  ok (
    record {
      oid = oid;
      namespace = namespace;
      name = name;
      replica_identity = identity;
      columns = columns;
    },
    d,
  )

unfoldable pub read_datum : Step TupleDatum
read_datum d = do
  (kind, d) ← read_u8 d
  if has_no_data kind
      then ok (record { kind = kind; bytes = none }, d)
      else if has_data kind
      then (read_bytes d >>= λ (value, d). ok (record { kind = kind; bytes = some value }, d))
      else err invalid_kind

unfoldable pub read_tuple : Step (Option Tuple)
read_tuple d = do
  (present, d) ← read_u8 d
  if present == 0
      then ok (none, d)
      else if present == 1
      then (do
        (count, d) ← read_count 1 d
        (tuple, d) ← read_many read_datum count d
        ok (some tuple, d))
      else err invalid_presence

-- options & 1 and options & 2, of options that are below 4.
abbrev pub cascade_bit : ℕ → Bool
cascade_bit options = options % 2 == 1

abbrev pub restart_bit : ℕ → Bool
restart_bit options = options / 2 % 2 == 1

-- The TRUNCATE options of a change: absent before version 2, and for other kinds.
unfoldable pub read_options : ℕ → ℕ → Step (Bool × Bool)
read_options version kind d =
    if leb 2 version && kind == change_truncate
    then (do
      (options, d) ← read_u8 d
      fail_if (not (options / 4 == 0)) truncate_options
      ok ((cascade_bit options, restart_bit options), d))
    else ok ((false, false), d)

unfoldable pub read_change : ℕ → Step Change
read_change version d = do
  (oid, d) ← read_u32 d
  (kind, d) ← read_u8 d
  fail_if (not (known_change kind)) invalid_kind
  (options, d) ← read_options version kind d
  (old, d) ← read_tuple d
  (new, d) ← read_tuple d
  ok (
    record {
      relation_oid = oid;
      kind = kind;
      old = old;
      new = new;
      truncate_cascade = options.0;
      truncate_restart_identity = options.1;
    },
    d,
  )

-- Byte string equality.
unfoldable pub same_bytes : List ℕ → List ℕ → Bool
same_bytes [] [] = true
same_bytes [] (y ∷ ys) = false
same_bytes (x ∷ xs) [] = false
same_bytes (x ∷ xs) (y ∷ ys) = x == y && same_bytes xs ys

-- A short read is reported as a bad magic too.
unfoldable pub read_magic : Step (List ℕ)
read_magic d = elim (take_bytes 4 d) [
  | ok (magic, rest) ↦
      if same_bytes magic payload_magic then ok (magic, rest) else err invalid_magic
  | err e ↦ err invalid_magic
]

unfoldable pub read_transaction : Step Transaction
read_transaction d = do
  (magic, d) ← read_magic d
  (version, d) ← read_u8 d
  fail_if (not (version == 1) && not (version == payload_version)) unsupported_version
  (commit, d) ← read_u64 d
  (end, d) ← read_u64 d
  (seconds, d) ← read_u64 d
  (nanos, d) ← read_u32 d
  fail_if (leb 1000000000 nanos) invalid_timestamp
  (relation_count, d) ← read_count 17 d
  (relations, d) ← read_many read_relation relation_count d
  (change_count, d) ← read_count 7 d
  (changes, d) ← read_many (read_change version) change_count d
  ok (
    record {
      commit_lsn = commit;
      end_lsn = end;
      commit_time = record { seconds = int_of_u64 seconds; nanos = nanos };
      relations = relations;
      changes = changes;
      spill = none;
    },
    d,
  )

unfoldable pub unmarshal_transaction : List ℕ → Result CodecError Transaction
unmarshal_transaction d = do
  fail_if (ltb max_payload_size (length d)) payload_too_large
  (tx, rest) ← read_transaction d
  fail_if (not (length rest == 0)) trailing_bytes
  ok tx
