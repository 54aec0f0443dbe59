-- ===== src/Cdc/Codec/Streams.antt =====
-- The streaming decoder reads back the layout, whether or not its reader is bounded.
use mathlib.Core.List.{append_assoc}
use native.Mathlib.Nat.{mul_comm, le-div_iff_mul-le}
use pgmigrate.Base.{
  ℕ, ◌+◌, ◌-◌, ◌*◌, ◌/◌, ◌≤◌, ◌<◌, ◌≡◌, refl, Bool, true, false, List, [], ◌∷◌, ◌++◌, Option, none,
  some, arith, le→ltb, gt→leb, inl, inr,
}
use pgmigrate.Base.Bytes.{le_bytes, length-append_bytes, length-le_bytes}
use pgmigrate.Base.Int.{u64_of_int-lt, int_of_u64-u64_of_int, u64_of_int}
use pgmigrate.Base.Lists.{length, length-concat_map-ge, concat_map, All}
use pgmigrate.Base.Results.{ok}
use pgmigrate.Cdc.Model.{Column, Relation, TupleDatum, Tuple, Change, Transaction, change_truncate}
use pgmigrate.Cdc.Codec.Encode.{truncate_options_byte, payload_magic}
use pgmigrate.Cdc.Codec.Decode.{
  Step, take_bytes, read_u8, read_u32, read_u64, read_bytes, read_many, same_bytes, read_datum,
  read_column,
}
use pgmigrate.Cdc.Codec.Stream.{
  read_n, read_byte, read_uint32, read_uint64, read_length_bytes, validate_encoded_count,
  read_valid_count, decode_column_reader, decode_datum_reader, decode_relation_reader,
  decode_tuple_reader, decode_change_reader, options_reader, magic_reader, nanos_reader,
  decode_transaction_prefix,
}
use pgmigrate.Cdc.Codec.Layout.{
  column_bytes, relation_bytes, datum_bytes, tuple_bytes, options_bytes, change_bytes,
  payload_bytes, IsU32, Fits, CanonicalColumn, CanonicalRelation, CanonicalDatum, CanonicalTuple,
  CanonicalChange, CanonicalKind, CanonicalTransaction,
}
use pgmigrate.Cdc.Codec.Encodes.{guards_lem}
use pgmigrate.Cdc.Codec.RoundTrip.{relations-Fits, changes-Fits}
use pgmigrate.Cdc.Codec.Decodes.{
  take_bytes-append, read_u8-cons, read_u32-le_bytes, read_u64-le_bytes, read_bytes-field,
  read_many-concat_map, read_column_lem, read_datum_lem, column_least, datum_least, relation_least,
  change_least,
}

-- The primitive reads are those of the resident decoder.
read_byte-cons : (b : ℕ) (rest : List ℕ) → read_byte (b ∷ rest) ≡ ok (b, rest)
unfolding read_byte read_n read_u8 take_bytes
read_byte-cons b rest = read_u8-cons b rest

read_uint32-le_bytes :
    (n : ℕ) (rest : List ℕ) → IsU32 n → read_uint32 (le_bytes 4 n ++ rest) ≡ ok (n, rest)
unfolding read_uint32 read_n read_u32 take_bytes
read_uint32-le_bytes n rest h = read_u32-le_bytes n rest h

read_uint64-le_bytes :
    (n : ℕ) (rest : List ℕ)
    → n < 18446744073709551616
    → read_uint64 (le_bytes 8 n ++ rest) ≡ ok (n, rest)
unfolding read_uint64 read_n read_u64 take_bytes
read_uint64-le_bytes n rest h = read_u64-le_bytes n rest h

read_length_bytes-field :
    (v rest : List ℕ)
    → Fits v
    → read_length_bytes (le_bytes 4 (length v) ++ (v ++ rest)) ≡ ok (v, rest)
unfolding read_length_bytes read_uint32 read_n read_bytes read_u32 take_bytes
read_length_bytes-field v rest h = read_bytes-field v rest h

decode_column_reader_lem :
    (c : Column) (rest : List ℕ)
    → CanonicalColumn c
    → decode_column_reader (column_bytes c ++ rest) ≡ ok (c, rest)
unfolding decode_column_reader read_byte read_length_bytes read_uint32 read_n read_column read_u8
    read_bytes read_u32 take_bytes
decode_column_reader_lem c rest h = read_column_lem c rest h

decode_datum_reader_lem :
    (d : TupleDatum) (rest : List ℕ)
    → CanonicalDatum d
    → decode_datum_reader (datum_bytes d ++ rest) ≡ ok (d, rest)
unfolding decode_datum_reader read_byte read_length_bytes read_uint32 read_n read_datum read_u8
    read_bytes read_u32 take_bytes
decode_datum_reader_lem d rest h = read_datum_lem d rest h

-- A count is valid where the items behind it, and the reserve behind them, fit what is left.
read_valid_count-le_bytes :
    (bounded : Bool) (k reserve n : ℕ) (rest : List ℕ)
    → 0 < k
    → IsU32 n
    → k * n + reserve ≤ length rest
    → read_valid_count bounded k reserve (le_bytes 4 n ++ rest) ≡ ok (n, rest)
unfolding read_valid_count validate_encoded_count
read_valid_count-le_bytes false k reserve n rest pos range h =
    rw (read_uint32-le_bytes n rest range)
read_valid_count-le_bytes true k reserve n rest pos range h =
    rw (read_uint32-le_bytes n rest range) (
      rw
        (
          le→ltb (length rest) reserve (omega arith),
          le→ltb ((length rest - reserve) / k) n
              ((le-div_iff_mul-le pos).1 (rw (mul_comm n k) (omega arith))),
        )
        (ground arith))

read_valid_counted :
    {A : Type 0} {P : A → Type 0} (bounded : Bool) (item : Step A) (bytes : A → List ℕ)
    → ((x : A) (rest : List ℕ) → P x → item (bytes x ++ rest) ≡ ok (x, rest))
    → (k reserve : ℕ) → 0 < k
    → ((x : A) → k ≤ length (bytes x))
    → (xs : List A) (rest : List ℕ) → reserve ≤ length rest
    → Fits xs
    → All P xs
    → (read_valid_count bounded k reserve (le_bytes 4 (length xs) ++ (concat_map bytes xs ++ rest))
        ≡ ok (length xs, concat_map bytes xs ++ rest))
      × (read_many item (length xs) (concat_map bytes xs ++ rest) ≡ ok (xs, rest))
read_valid_counted bounded item bytes step k reserve pos least xs rest enough fits h = (
  read_valid_count-le_bytes bounded k reserve (length xs) _ pos (omega arith) (
      omega (
        arith,
        length-concat_map-ge bytes k least xs,
        length-append_bytes (concat_map bytes xs) rest,
      )),
  read_many-concat_map item bytes step xs rest h,
)

options_reader_byte :
    (cascade restart : Bool) (rest : List ℕ)
    → options_reader 2 change_truncate (truncate_options_byte cascade restart ∷ rest)
      ≡ ok ((cascade, restart), rest)
unfolding options_reader
options_reader_byte true true rest = rw (read_byte-cons 3 rest)
options_reader_byte true false rest = rw (read_byte-cons 1 rest)
options_reader_byte false true rest = rw (read_byte-cons 2 rest)
options_reader_byte false false rest = rw (read_byte-cons 0 rest)

options_reader_lem :
    (c : Change) (rest : List ℕ)
    → CanonicalKind c
    → options_reader 2 c.kind (options_bytes c ++ rest)
      ≡ ok ((c.truncate_cascade, c.truncate_restart_identity), rest)
unfolding options_bytes
options_reader_lem c rest (inl e) =
    simp e (options_reader_byte c.truncate_cascade c.truncate_restart_identity rest)
options_reader_lem c rest (inr (e, cascade, restart)) = unfold options_reader in ground arith

magic_reader_lem :
    (rest : List ℕ) → magic_reader (80 ∷ 71 ∷ 77 ∷ 67 ∷ rest) ≡ ok (payload_magic, rest)
unfolding magic_reader same_bytes read_n take_bytes
magic_reader_lem rest = rw (take_bytes-append 4 payload_magic rest refl, magic_reader)

nanos_reader_lem :
    (n : ℕ) (rest : List ℕ) → n < 1000000000 → nanos_reader (le_bytes 4 n ++ rest) ≡ ok (n, rest)
unfolding nanos_reader
nanos_reader_lem n rest h =
    rw (read_uint32-le_bytes n rest (omega arith)) (rw (gt→leb 1000000000 n h))

module _ (bounded : Bool) where
  decode_relation_reader_lem :
      (r : Relation) (rest : List ℕ)
      → CanonicalRelation r
      → decode_relation_reader bounded (relation_bytes r ++ rest) ≡ ok (r, rest)
  unfolding decode_relation_reader
  decode_relation_reader_lem r rest h =
      let (count, many) =
        read_valid_counted bounded decode_column_reader column_bytes decode_column_reader_lem 9 0
          (omega arith) column_least r.columns rest (omega arith) h.columns_fit h.columns in
      simp append_assoc (
        rw
          (
            read_uint32-le_bytes r.oid _ h.oid_range,
            read_byte-cons r.replica_identity _,
            read_length_bytes-field r.namespace _ h.namespace_fits,
            read_length_bytes-field r.name _ h.name_fits,
          )
          (rw (count, many)))

  decode_tuple_reader_lem :
      (t : Option Tuple) (rest : List ℕ)
      → CanonicalTuple t
      → decode_tuple_reader bounded (tuple_bytes t ++ rest) ≡ ok (t, rest)
  unfolding decode_tuple_reader tuple_bytes
  decode_tuple_reader_lem none rest h = rw (read_byte-cons 0 rest)
  decode_tuple_reader_lem (some t) rest h =
      let (count, many) =
        read_valid_counted bounded decode_datum_reader datum_bytes decode_datum_reader_lem 1 0
          (omega arith) datum_least t rest (omega arith) h.0 h.1 in
      simp append_assoc (rw (read_byte-cons 1 _) (rw (count, many)))

  -- The streaming decoder reads back a change that the format carries, and nothing behind it.
  pub decode_change_reader_lem :
      (c : Change) (rest : List ℕ)
      → CanonicalChange c
      → decode_change_reader bounded 2 (change_bytes c ++ rest) ≡ ok (c, rest)
  unfolding decode_change_reader
  decode_change_reader_lem c rest h = simp append_assoc (
      rw (
        read_uint32-le_bytes c.relation_oid _ h.oid_range,
        read_byte-cons c.kind _,
        (guards_lem c h.kind).0,
        options_reader_lem c _ h.kind,
        decode_tuple_reader_lem c.old _ h.old,
        decode_tuple_reader_lem c.new rest h.new,
      ))

  changes_count_lem :
      (tx : Transaction)
      → CanonicalTransaction tx
      → read_valid_count bounded 7 0
          (le_bytes 4 (length tx.changes) ++ concat_map change_bytes tx.changes)
        ≡ ok (length tx.changes, concat_map change_bytes tx.changes)
  changes_count_lem tx h =
      read_valid_count-le_bytes bounded 7 0 (length tx.changes) _ (omega arith)
        (omega (arith, changes-Fits tx h))
        (omega (arith, length-concat_map-ge change_bytes 7 change_least tx.changes))

  -- The streaming decoder reads the fields and the relations of a payload, and stops in front of
  -- its changes, of which it returns the number.
  pub decode_transaction_prefix_lem :
      (tx : Transaction)
      → CanonicalTransaction tx
      → decode_transaction_prefix bounded (payload_bytes tx)
        ≡ ok (
          (record tx { changes = []; spill = none }, 2, length tx.changes),
          concat_map change_bytes tx.changes,
        )
  unfolding decode_transaction_prefix
  decode_transaction_prefix_lem tx h =
      let (relations_count, relations) =
        read_valid_counted bounded (decode_relation_reader bounded) relation_bytes
          decode_relation_reader_lem 17 4 (omega arith) relation_least tx.relations
          (le_bytes 4 (length tx.changes) ++ concat_map change_bytes tx.changes)
          (omega (
            arith,
            length-append_bytes (le_bytes 4 (length tx.changes))
                (concat_map change_bytes tx.changes),
            length-le_bytes 4 (length tx.changes),
          ))
          (relations-Fits tx h) h.relations in
      simp append_assoc (
        rw
          (
            magic_reader_lem _,
            read_byte-cons 2 _,
            read_uint64-le_bytes tx.commit_lsn _ h.commit_range,
            read_uint64-le_bytes tx.end_lsn _ h.end_range,
            read_uint64-le_bytes (u64_of_int tx.commit_time.seconds) _
                (u64_of_int-lt tx.commit_time.seconds h.seconds_range),
            nanos_reader_lem tx.commit_time.nanos _ h.nanos_range,
          )
          (rw (relations_count, relations)
            (rw (changes_count_lem tx h)
              (rw (int_of_u64-u64_of_int tx.commit_time.seconds h.seconds_range)))))
