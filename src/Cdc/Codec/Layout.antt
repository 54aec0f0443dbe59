-- ===== src/Cdc/Codec/Layout.antt =====
-- The payload format, written as plain concatenations, and the transactions that it can carry.
use pgmigrate.Base.{
  ℕ, ◌≤◌, ◌<◌, ◌≡◌, ◌⊎◌, List, [], ◌∷◌, ◌++◌, Option, none, some, false, ◌==◌, if◌then◌else◌,
}
use pgmigrate.Base.Int.{IsInt64, u64_of_int}
use pgmigrate.Base.Bytes.{le_bytes}
use pgmigrate.Base.Lists.{length, concat_map, All}
use pgmigrate.Cdc.Model.{
  Column, Relation, TupleDatum, Tuple, Change, Transaction, change_truncate, change_insert,
  change_update, change_delete,
}
use pgmigrate.Cdc.Codec.Size.{max_u32, slice, has_data}
use pgmigrate.Cdc.Codec.Encode.{payload_magic, payload_version, truncate_options_byte}

-- A length-prefixed byte string.
abbrev pub field_bytes : List ℕ → List ℕ
field_bytes v = le_bytes 4 (length v) ++ v

abbrev pub column_bytes : Column → List ℕ
column_bytes c = le_bytes 4 c.type ++ (c.flags ∷ field_bytes c.name)

abbrev pub relation_bytes : Relation → List ℕ
relation_bytes r =
    le_bytes 4 r.oid
    ++ (r.replica_identity
        ∷ (field_bytes r.namespace
            ++ (field_bytes r.name
                ++ (le_bytes 4 (length r.columns) ++ concat_map column_bytes r.columns))))

unfoldable pub datum_bytes : TupleDatum → List ℕ
datum_bytes d = d.kind ∷ (if has_data d.kind then field_bytes (slice d.bytes) else [])

unfoldable pub tuple_bytes : Option Tuple → List ℕ
tuple_bytes none = 0 ∷ []
tuple_bytes (some t) = 1 ∷ (le_bytes 4 (length t) ++ concat_map datum_bytes t)

unfoldable pub options_bytes : Change → List ℕ
options_bytes c =
    if c.kind == change_truncate
    then truncate_options_byte c.truncate_cascade c.truncate_restart_identity ∷ []
    else []

abbrev pub change_bytes : Change → List ℕ
change_bytes c =
    le_bytes 4 c.relation_oid
    ++ (c.kind ∷ (options_bytes c ++ (tuple_bytes c.old ++ tuple_bytes c.new)))

abbrev pub prefix_bytes : Transaction → ℕ → List ℕ
prefix_bytes tx count =
    payload_magic
    ++ (payload_version
        ∷ (le_bytes 8 tx.commit_lsn
            ++ (le_bytes 8 tx.end_lsn
                ++ (le_bytes 8 (u64_of_int tx.commit_time.seconds)
                    ++ (le_bytes 4 tx.commit_time.nanos
                        ++ (le_bytes 4 (length tx.relations)
                            ++ (concat_map relation_bytes tx.relations ++ le_bytes 4 count)))))))

abbrev pub payload_bytes : Transaction → List ℕ
payload_bytes tx = prefix_bytes tx (length tx.changes) ++ concat_map change_bytes tx.changes

-- A value of type uint32, and a slice that the format can count.
abbrev pub IsU32 : ℕ → Type 0
IsU32 n = n < 4294967296

abbrev pub Fits {ℓ} : {A : Type ℓ} → List A → Type 0
Fits xs = length xs ≤ max_u32

pub record CanonicalColumn (c : Column) : Type 0 where
  pub type_range : IsU32 c.type
  pub name_fits : Fits c.name

pub record CanonicalRelation (r : Relation) : Type 0 where
  pub oid_range : IsU32 r.oid
  pub namespace_fits : Fits r.namespace
  pub name_fits : Fits r.name
  pub columns_fit : Fits r.columns
  pub columns : All CanonicalColumn r.columns

-- Data is present for text and binary datums, and for no others.
pub data CanonicalDatum : TupleDatum → Type 0 where
  null_datum : CanonicalDatum (record { kind = 0; bytes = none })
  toast_datum : CanonicalDatum (record { kind = 3; bytes = none })
  text_datum : (v : List ℕ) → Fits v → CanonicalDatum (record { kind = 1; bytes = some v })
  binary_datum : (v : List ℕ) → Fits v → CanonicalDatum (record { kind = 2; bytes = some v })

abbrev pub CanonicalTuple : Option Tuple → Type 0
CanonicalTuple none = Unit {0}
CanonicalTuple (some t) = Fits t × All CanonicalDatum t

-- TRUNCATE options stand only on a TRUNCATE.
abbrev pub CanonicalKind : Change → Type 0
CanonicalKind c =
    (c.kind ≡ change_truncate)
    ⊎ (((c.kind ≡ change_insert) ⊎ ((c.kind ≡ change_update) ⊎ (c.kind ≡ change_delete)))
        × (c.truncate_cascade ≡ false)
        × (c.truncate_restart_identity ≡ false))

pub record CanonicalChange (c : Change) : Type 0 where
  pub oid_range : IsU32 c.relation_oid
  pub kind : CanonicalKind c
  pub old : CanonicalTuple c.old
  pub new : CanonicalTuple c.new

-- The transactions that the format carries: fields in range, nothing spilled, and a payload whose
-- length a uint32 can hold.
pub record CanonicalTransaction (tx : Transaction) : Type 0 where
  pub commit_range : tx.commit_lsn < 18446744073709551616
  pub end_range : tx.end_lsn < 18446744073709551616
  pub seconds_range : IsInt64 tx.commit_time.seconds
  pub nanos_range : tx.commit_time.nanos < 1000000000
  pub relations : All CanonicalRelation tx.relations
  pub changes : All CanonicalChange tx.changes
  pub resident : tx.spill ≡ none
  pub payload_fits : Fits (payload_bytes tx)
