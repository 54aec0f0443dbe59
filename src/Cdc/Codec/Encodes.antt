-- ===== src/Cdc/Codec/Encodes.antt =====
-- The encoder writes the layout.
use mathlib.Core.List.{append_assoc}
use pgmigrate.Base.{
  ℕ, ◌≡◌, refl, List, ◌∷◌, ◌++◌, Option, none, some, arith, le→ltb, true, false, Bool-cases, inl,
  inr, ◌==◌,
}
use pgmigrate.Base.Bytes.{le_bytes}
use pgmigrate.Base.Lists.{length}
use pgmigrate.Base.Results.{ok, fold_result-append}
use pgmigrate.Cdc.Model.{Column, Relation, TupleDatum, Tuple, Change, change_truncate}
use pgmigrate.Cdc.Codec.Size.{max_u32, known_change, misplaced_options}
use pgmigrate.Cdc.Codec.Encode.{
  append_bytes, append_column, append_relation, append_datum, append_tuple, append_change,
  put_change_header,
}
use pgmigrate.Cdc.Codec.Layout.{
  field_bytes, column_bytes, relation_bytes, datum_bytes, tuple_bytes, options_bytes, change_bytes,
  Fits, CanonicalColumn, CanonicalRelation, CanonicalDatum, null_datum, toast_datum, text_datum,
  binary_datum, CanonicalTuple, CanonicalChange, CanonicalKind,
}

pub append_bytes_lem : (dst v : List ℕ) → Fits v → append_bytes dst v ≡ ok (dst ++ field_bytes v)
unfolding append_bytes
append_bytes_lem dst v h = rw (le→ltb max_u32 (length v) h, append_assoc)

append_column_lem :
    (dst : List ℕ) (c : Column)
    → CanonicalColumn c
    → append_column dst c ≡ ok (dst ++ column_bytes c)
unfolding append_column
append_column_lem dst c h = rw (append_bytes_lem _ c.name h.name_fits) (simp append_assoc)

pub append_relation_lem :
    (dst : List ℕ) (r : Relation)
    → CanonicalRelation r
    → append_relation dst r ≡ ok (dst ++ relation_bytes r)
unfolding append_relation
append_relation_lem dst r h =
    rw
      (
        le→ltb max_u32 (length r.columns) h.columns_fit,
        append_bytes_lem _ r.namespace h.namespace_fits,
      )
      (rw (append_bytes_lem _ r.name h.name_fits) (
        rw (fold_result-append append_column column_bytes append_column_lem _ r.columns h.columns)
          (simp append_assoc)))

append_datum_lem :
    (dst : List ℕ) (d : TupleDatum)
    → CanonicalDatum d
    → append_datum dst d ≡ ok (dst ++ datum_bytes d)
unfolding append_datum datum_bytes
append_datum_lem dst d null_datum = refl
append_datum_lem dst d toast_datum = refl
append_datum_lem dst d (text_datum v h) = rw (append_bytes_lem _ v h, append_assoc)
append_datum_lem dst d (binary_datum v h) = rw (append_bytes_lem _ v h, append_assoc)

pub append_tuple_lem :
    (dst : List ℕ) (t : Option Tuple)
    → CanonicalTuple t
    → append_tuple dst t ≡ ok (dst ++ tuple_bytes t)
unfolding append_tuple tuple_bytes
append_tuple_lem dst none h = refl
append_tuple_lem dst (some t) h =
    rw (le→ltb max_u32 (length t) h.0) (
      rw (fold_result-append append_datum datum_bytes append_datum_lem _ t h.1) (simp append_assoc))

header_lem :
    (dst : List ℕ) (c : Change)
    → put_change_header dst c ≡ dst ++ (le_bytes 4 c.relation_oid ++ (c.kind ∷ options_bytes c))
unfolding options_bytes
header_lem dst c = elim (Bool-cases (c.kind == change_truncate)) [
  | inl e ↦ rw e (simp append_assoc)
  | inr e ↦ rw e (simp append_assoc)
]

pub guards_lem :
    (c : Change) → CanonicalKind c → (known_change c.kind ≡ true) × (misplaced_options c ≡ false)
guards_lem c h = ground arith

pub append_change_lem :
    (dst : List ℕ) (c : Change)
    → CanonicalChange c
    → append_change dst c ≡ ok (dst ++ change_bytes c)
unfolding append_change
append_change_lem dst c h =
    rw ((guards_lem c h.kind).0, (guards_lem c h.kind).1, append_tuple_lem _ c.old h.old)
      (rw (append_tuple_lem _ c.new h.new, header_lem dst c) (simp append_assoc))
