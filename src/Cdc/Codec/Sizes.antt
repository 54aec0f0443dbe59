-- ===== src/Cdc/Codec/Sizes.antt =====
-- The computed sizes are the lengths of the layout, as uint64 numbers.
use pgmigrate.Base.{ℕ, ◌+◌, ◌≡◌, refl, ap, ◌∙◌, List, [], ◌∷◌, Option, none, some, arith, le→ltb}
use pgmigrate.Base.Bytes.{lengths, length-append_bytes, length-le_bytes}
use pgmigrate.Base.Lists.{length, concat_map, All, length-append}
use pgmigrate.Base.Results.{Result, ok, fold_result}
use pgmigrate.Cdc.Model.{Column, Relation, TupleDatum, Tuple, Change, Transaction, u64}
use pgmigrate.Cdc.Codec.Size.{
  CodecError, max_u32, add_column_size, encoded_relation_size, add_datum_size, encoded_tuple_size,
  encoded_change_size, add_relation_size, add_change_size, transaction_payload_size,
}
use pgmigrate.Cdc.Codec.Encodes.{guards_lem}
use pgmigrate.Cdc.Codec.Layout.{
  column_bytes, relation_bytes, datum_bytes, tuple_bytes, options_bytes, change_bytes,
  payload_bytes, CanonicalTransaction, Fits, CanonicalColumn, CanonicalRelation, CanonicalDatum,
  null_datum, toast_datum, text_datum, binary_datum, CanonicalTuple, CanonicalChange,
}

-- A loop whose rounds add an item's length adds the lengths of all of them.
pub fold_result-size :
    {A : Type 0} {P : A → Type 0} (f : ℕ → A → Result CodecError ℕ) (bytes : A → List ℕ)
    → ((n : ℕ) (x : A) → P x → f (u64 n) x ≡ ok (u64 (n + length (bytes x))))
    → (n : ℕ) (xs : List A) → All P xs
    → fold_result f (u64 n) xs ≡ ok (u64 (n + length (concat_map bytes xs)))
unfolding fold_result concat_map
fold_result-size f bytes step n [] h = ap ok (omega arith)
fold_result-size f bytes step n (x ∷ xs) h = rw (step n x h.0) (
    fold_result-size f bytes step (n + length (bytes x)) xs h.1
    ∙ ap ok (omega (arith, length-append (bytes x) (concat_map bytes xs))))

add_column_size_lem :
    (n : ℕ) (c : Column)
    → CanonicalColumn c
    → add_column_size (u64 n) c ≡ ok (u64 (n + length (column_bytes c)))
unfolding add_column_size
add_column_size_lem n c h = rw (le→ltb max_u32 (length c.name) h.name_fits) (ap ok (omega lengths))

pub length-relation_bytes :
    (r : Relation)
    → length (relation_bytes r)
      ≡ 17 + length r.namespace + length r.name + length (concat_map column_bytes r.columns)
length-relation_bytes r = omega lengths

pub encoded_relation_size_lem :
    (r : Relation)
    → CanonicalRelation r
    → encoded_relation_size r ≡ ok (u64 (length (relation_bytes r)))
unfolding encoded_relation_size
encoded_relation_size_lem r h =
    rw
      (
        le→ltb max_u32 (length r.namespace) h.namespace_fits,
        le→ltb max_u32 (length r.name) h.name_fits,
        le→ltb max_u32 (length r.columns) h.columns_fit,
      )
      (fold_result-size add_column_size column_bytes add_column_size_lem
          (4 + 1 + 4 + length r.namespace + 4 + length r.name + 4) r.columns h.columns
        ∙ ap ok (omega lengths))

pub add_relation_size_lem :
    (n : ℕ) (r : Relation)
    → CanonicalRelation r
    → add_relation_size (u64 n) r ≡ ok (u64 (n + length (relation_bytes r)))
unfolding add_relation_size
add_relation_size_lem n r h = rw (encoded_relation_size_lem r h) (ap ok (omega arith))

add_datum_size_lem :
    (n : ℕ) (d : TupleDatum)
    → CanonicalDatum d
    → add_datum_size (u64 n) d ≡ ok (u64 (n + length (datum_bytes d)))
unfolding add_datum_size datum_bytes
add_datum_size_lem n d null_datum = ap ok (omega arith)
add_datum_size_lem n d toast_datum = ap ok (omega arith)
add_datum_size_lem n d (text_datum v h) = rw (le→ltb max_u32 (length v) h) (ap ok (omega lengths))
add_datum_size_lem n d (binary_datum v h) = rw (le→ltb max_u32 (length v) h) (ap ok (omega lengths))

encoded_tuple_size_lem :
    (t : Option Tuple) → CanonicalTuple t → encoded_tuple_size t ≡ ok (u64 (length (tuple_bytes t)))
unfolding encoded_tuple_size tuple_bytes
encoded_tuple_size_lem none h = refl
encoded_tuple_size_lem (some t) h = rw (le→ltb max_u32 (length t) h.0) (
    fold_result-size add_datum_size datum_bytes add_datum_size_lem (1 + 4) t h.1
    ∙ ap ok (omega lengths))

pub length-change_bytes :
    (c : Change)
    → length (change_bytes c)
      ≡ 5 + length (options_bytes c) + length (tuple_bytes c.old) + length (tuple_bytes c.new)
length-change_bytes c = simp (length-append_bytes, length-le_bytes) (omega arith)

pub encoded_change_size_lem :
    (c : Change) → CanonicalChange c → encoded_change_size c ≡ ok (u64 (length (change_bytes c)))
unfolding encoded_change_size options_bytes
encoded_change_size_lem c h =
    rw
      (
        (guards_lem c h.kind).0,
        (guards_lem c h.kind).1,
        encoded_tuple_size_lem c.old h.old,
        encoded_tuple_size_lem c.new h.new,
        length-change_bytes c,
      )
      (ground arith)

pub add_change_size_lem :
    (n : ℕ) (c : Change)
    → CanonicalChange c
    → add_change_size (u64 n) c ≡ ok (u64 (n + length (change_bytes c)))
unfolding add_change_size
add_change_size_lem n c h = rw (encoded_change_size_lem c h) (ap ok (omega arith))

pub length-payload_bytes :
    (tx : Transaction)
    → length (payload_bytes tx)
      ≡ 41
        + length (concat_map relation_bytes tx.relations)
        + length (concat_map change_bytes tx.changes)
length-payload_bytes tx = simp (length-append_bytes, length-le_bytes) (omega arith)

-- For a transaction that the format carries, the size is the exact length of the layout.
pub transaction_payload_size_lem :
    (tx : Transaction)
    → CanonicalTransaction tx
    → Fits tx.relations
    → Fits tx.changes
    → transaction_payload_size (some tx) ≡ ok (length (payload_bytes tx))
unfolding transaction_payload_size
transaction_payload_size_lem tx h rs cs =
    rw (h.resident, le→ltb max_u32 (length tx.relations) rs)
      (rw
        (
          fold_result-size add_relation_size relation_bytes add_relation_size_lem
              (4 + 1 + 8 + 8 + 8 + 4 + 4 + 4) tx.relations h.relations,
          le→ltb max_u32 (length tx.changes) cs,
        )
        (fold_result-size add_change_size change_bytes add_change_size_lem _ tx.changes h.changes
          ∙ ap ok (omega (arith, h.payload_fits, length-payload_bytes tx))))
