-- ===== src/Cdc/Codec/Decodes.antt =====
-- Every decoding step reads back what the layout holds, and leaves the bytes behind it.
use mathlib.Core.List.{append_assoc}
use native.Mathlib.Nat.{mul_comm, le-div_iff_mul-le}
use pgmigrate.Base.{
  ℕ, ◌*◌, ◌/◌, ◌≤◌, ◌<◌, ◌≡◌, refl, List, [], ◌∷◌, ◌++◌, Option, none, some, arith, true, false,
  lt→ltb, le→ltb, inl, inr, Bool,
}
use pgmigrate.Base.Bytes.{le_bytes, length-le_bytes, le_value-le_bytes, length-append_bytes}
use pgmigrate.Base.Lists.{
  length, length-concat_map-ge, concat_map, All, take-length-append, drop-length-append,
}
use pgmigrate.Base.Results.{ok}
use pgmigrate.Cdc.Model.{Column, Relation, TupleDatum, Tuple, Change, change_truncate}
use pgmigrate.Cdc.Codec.Encode.{truncate_options_byte}
use pgmigrate.Cdc.Codec.Decode.{
  Step, take_bytes, read_u8, read_u32, read_u64, read_count, read_bytes, read_many, read_column,
  read_relation, read_datum, read_tuple, read_options, read_change,
}
use pgmigrate.Cdc.Codec.Layout.{
  column_bytes, relation_bytes, datum_bytes, tuple_bytes, options_bytes, change_bytes, IsU32, Fits,
  CanonicalColumn, CanonicalRelation, CanonicalDatum, null_datum, toast_datum, text_datum,
  binary_datum, CanonicalTuple, CanonicalChange, CanonicalKind,
}
use pgmigrate.Cdc.Codec.Encodes.{guards_lem}

pub take_bytes-append :
    (n : ℕ) (xs rest : List ℕ) → length xs ≡ n → take_bytes n (xs ++ rest) ≡ ok (xs, rest)
unfolding take_bytes
take_bytes-append n xs rest h = rw (
  ← h,
  le→ltb (length (xs ++ rest)) (length xs) (omega (arith, length-append_bytes xs rest)),
  take-length-append xs rest,
  drop-length-append xs rest,
)

pub read_u8-cons : (b : ℕ) (rest : List ℕ) → read_u8 (b ∷ rest) ≡ ok (b, rest)
unfolding read_u8
read_u8-cons b rest = rw (take_bytes-append 1 (b ∷ []) rest refl)

pub read_u32-le_bytes :
    (n : ℕ) (rest : List ℕ) → IsU32 n → read_u32 (le_bytes 4 n ++ rest) ≡ ok (n, rest)
unfolding read_u32
read_u32-le_bytes n rest h =
    rw (take_bytes-append 4 (le_bytes 4 n) rest (length-le_bytes 4 n), le_value-le_bytes 4 n h)

pub read_u64-le_bytes :
    (n : ℕ) (rest : List ℕ)
    → n < 18446744073709551616
    → read_u64 (le_bytes 8 n ++ rest) ≡ ok (n, rest)
unfolding read_u64
read_u64-le_bytes n rest h =
    rw (take_bytes-append 8 (le_bytes 8 n) rest (length-le_bytes 8 n), le_value-le_bytes 8 n h)

pub read_bytes-field :
    (v rest : List ℕ) → Fits v → read_bytes (le_bytes 4 (length v) ++ (v ++ rest)) ≡ ok (v, rest)
unfolding read_bytes
read_bytes-field v rest h =
    rw (read_u32-le_bytes (length v) (v ++ rest) (omega arith))
      (take_bytes-append (length v) v rest refl)

-- The count is accepted where every item of the collection takes the least number of bytes.
pub read_count-le_bytes :
    (k n : ℕ) (rest : List ℕ)
    → 0 < k
    → IsU32 n
    → k * n ≤ length rest
    → read_count k (le_bytes 4 n ++ rest) ≡ ok (n, rest)
unfolding read_count
read_count-le_bytes k n rest pos range h = rw (read_u32-le_bytes n rest range) (
    rw (
      lt→ltb 0 k pos,
      le→ltb (length rest / k) n ((le-div_iff_mul-le pos).1 (rw (mul_comm n k) h)),
    ))

-- A loop that reads items one by one reads back what a loop that writes them has written.
pub read_many-concat_map :
    {A : Type 0} {P : A → Type 0} (item : Step A) (bytes : A → List ℕ)
    → ((x : A) (rest : List ℕ) → P x → item (bytes x ++ rest) ≡ ok (x, rest))
    → (xs : List A) (rest : List ℕ) → All P xs
    → read_many item (length xs) (concat_map bytes xs ++ rest) ≡ ok (xs, rest)
unfolding read_many concat_map
read_many-concat_map item bytes step [] rest h = refl
read_many-concat_map item bytes step (x ∷ xs) rest h = rw (
  append_assoc (bytes x) (concat_map bytes xs) rest,
  step x (concat_map bytes xs ++ rest) h.0,
  read_many-concat_map item bytes step xs rest h.1,
)

-- A counted collection: the count, then the items.
pub read_counted :
    {A : Type 0} {P : A → Type 0} (item : Step A) (bytes : A → List ℕ)
    → ((x : A) (rest : List ℕ) → P x → item (bytes x ++ rest) ≡ ok (x, rest))
    → (k : ℕ) → 0 < k
    → ((x : A) → k ≤ length (bytes x))
    → (xs : List A) (rest : List ℕ) → Fits xs
    → All P xs
    → (read_count k (le_bytes 4 (length xs) ++ (concat_map bytes xs ++ rest))
        ≡ ok (length xs, concat_map bytes xs ++ rest))
      × (read_many item (length xs) (concat_map bytes xs ++ rest) ≡ ok (xs, rest))
read_counted item bytes step k pos least xs rest fits h = (
  read_count-le_bytes k (length xs) _ pos (omega arith) (
      omega (
        arith,
        length-concat_map-ge bytes k least xs,
        length-append_bytes (concat_map bytes xs) rest,
      )),
  read_many-concat_map item bytes step xs rest h,
)

pub read_column_lem :
    (c : Column) (rest : List ℕ)
    → CanonicalColumn c
    → read_column (column_bytes c ++ rest) ≡ ok (c, rest)
unfolding read_column
read_column_lem c rest h = simp append_assoc (
    rw (
      read_u32-le_bytes c.type _ h.type_range,
      read_u8-cons c.flags _,
      read_bytes-field c.name rest h.name_fits,
    ))

pub column_least : (c : Column) → 9 ≤ length (column_bytes c)
column_least c = simp (length-append_bytes, length-le_bytes) (omega arith)

pub relation_least : (r : Relation) → 17 ≤ length (relation_bytes r)
relation_least r = simp (length-append_bytes, length-le_bytes) (omega arith)

pub read_relation_lem :
    (r : Relation) (rest : List ℕ)
    → CanonicalRelation r
    → read_relation (relation_bytes r ++ rest) ≡ ok (r, rest)
unfolding read_relation
read_relation_lem r rest h =
    let (count, many) =
      read_counted read_column column_bytes read_column_lem 9 (omega arith) column_least r.columns
        rest h.columns_fit h.columns in
    simp append_assoc (
      rw
        (
          read_u32-le_bytes r.oid _ h.oid_range,
          read_u8-cons r.replica_identity _,
          read_bytes-field r.namespace _ h.namespace_fits,
          read_bytes-field r.name _ h.name_fits,
        )
        (rw (count, many)))

pub read_datum_lem :
    (d : TupleDatum) (rest : List ℕ)
    → CanonicalDatum d
    → read_datum (datum_bytes d ++ rest) ≡ ok (d, rest)
unfolding read_datum datum_bytes
read_datum_lem d rest null_datum = rw (read_u8-cons 0 rest)
read_datum_lem d rest toast_datum = rw (read_u8-cons 3 rest)
read_datum_lem d rest (text_datum v h) =
    simp append_assoc (rw (read_u8-cons 1 _) (rw (read_bytes-field v rest h)))
read_datum_lem d rest (binary_datum v h) =
    simp append_assoc (rw (read_u8-cons 2 _) (rw (read_bytes-field v rest h)))

pub datum_least : (d : TupleDatum) → 1 ≤ length (datum_bytes d)
unfolding datum_bytes
datum_least d = omega arith

pub read_tuple_lem :
    (t : Option Tuple) (rest : List ℕ)
    → CanonicalTuple t
    → read_tuple (tuple_bytes t ++ rest) ≡ ok (t, rest)
unfolding read_tuple tuple_bytes
read_tuple_lem none rest h = rw (read_u8-cons 0 rest)
read_tuple_lem (some t) rest h =
    let (count, many) =
      read_counted read_datum datum_bytes read_datum_lem 1 (omega arith) datum_least t rest h.0
        h.1 in
    simp append_assoc (rw (read_u8-cons 1 _) (rw (count, many)))

-- Two bits make up the options of a TRUNCATE.
read_options_byte :
    (cascade restart : Bool) (rest : List ℕ)
    → read_options 2 change_truncate (truncate_options_byte cascade restart ∷ rest)
      ≡ ok ((cascade, restart), rest)
unfolding read_options
read_options_byte true true rest = rw (read_u8-cons 3 rest)
read_options_byte true false rest = rw (read_u8-cons 1 rest)
read_options_byte false true rest = rw (read_u8-cons 2 rest)
read_options_byte false false rest = rw (read_u8-cons 0 rest)

read_options_lem :
    (c : Change) (rest : List ℕ)
    → CanonicalKind c
    → read_options 2 c.kind (options_bytes c ++ rest)
      ≡ ok ((c.truncate_cascade, c.truncate_restart_identity), rest)
unfolding options_bytes
read_options_lem c rest (inl e) =
    simp e (read_options_byte c.truncate_cascade c.truncate_restart_identity rest)
read_options_lem c rest (inr (e, cascade, restart)) = unfold read_options in ground arith

tuple_least : (t : Option Tuple) → 1 ≤ length (tuple_bytes t)
unfolding tuple_bytes
tuple_least none = omega arith
tuple_least (some t) = omega arith

pub change_least : (c : Change) → 7 ≤ length (change_bytes c)
change_least c =
    simp (length-append_bytes, length-le_bytes)
      (omega (arith, tuple_least c.old, tuple_least c.new))

pub read_change_lem :
    (c : Change) (rest : List ℕ)
    → CanonicalChange c
    → read_change 2 (change_bytes c ++ rest) ≡ ok (c, rest)
unfolding read_change
read_change_lem c rest h = simp append_assoc (
    rw (
      read_u32-le_bytes c.relation_oid _ h.oid_range,
      read_u8-cons c.kind _,
      (guards_lem c h.kind).0,
      read_options_lem c _ h.kind,
      read_tuple_lem c.old _ h.old,
      read_tuple_lem c.new rest h.new,
    ))
