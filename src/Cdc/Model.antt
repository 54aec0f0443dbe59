-- ===== src/Cdc/Model.antt =====
-- The change stream's data: internal/cdc/model.go, with the spill of internal/cdc/spill.go.
-- A Go string or []byte is a list of byte values, a nil pointer or slice is `none`.
use pgmigrate.Base.{ℕ, ◌%◌, Bool, List, Option, none, some}
use pgmigrate.Base.Lists.{length}
use pgmigrate.Base.Int.{ℤ}

-- A uint64 write-ahead log position.
abbrev pub Lsn : Type 0
Lsn = ℕ

pub record Column : Type 0 where
  pub name : List ℕ
  pub type : ℕ
  pub flags : ℕ

pub record Relation : Type 0 where
  pub oid : ℕ
  pub namespace : List ℕ
  pub name : List ℕ
  pub replica_identity : ℕ
  pub columns : List Column

-- DatumKind, a byte of which only four values are named.
abbrev pub datum_null : ℕ
datum_null = 0

abbrev pub datum_text : ℕ
datum_text = 1

abbrev pub datum_binary : ℕ
datum_binary = 2

abbrev pub datum_unchanged_toast : ℕ
datum_unchanged_toast = 3

pub record TupleDatum : Type 0 where
  pub kind : ℕ
  pub bytes : Option (List ℕ)

abbrev pub Tuple : Type 0
Tuple = List TupleDatum

-- ChangeKind, likewise a byte.
abbrev pub change_insert : ℕ
change_insert = 1

abbrev pub change_update : ℕ
change_update = 2

abbrev pub change_delete : ℕ
change_delete = 3

abbrev pub change_truncate : ℕ
change_truncate = 4

pub record Change : Type 0 where
  pub relation_oid : ℕ
  pub kind : ℕ
  pub old : Option Tuple
  pub new : Option Tuple
  pub truncate_cascade : Bool
  pub truncate_restart_identity : Bool

-- `time.Unix(seconds, nanos)`.
pub record CommitTime : Type 0 where
  pub seconds : ℤ
  pub nanos : ℕ

-- A spill holds encoded changes in a temporary file; `none` is a closed file.
pub record TransactionSpill : Type 0 where
  pub file : Option (List ℕ)
  pub change_count : ℕ
  pub change_bytes : ℕ
  pub version : ℕ

pub record Transaction : Type 0 where
  pub commit_lsn : Lsn
  pub end_lsn : Lsn
  pub commit_time : CommitTime
  pub relations : List Relation
  pub changes : List Change
  pub spill : Option TransactionSpill

-- uint32(n) and uint64(n).
abbrev pub u32 : ℕ → ℕ
u32 n = n % 4294967296

abbrev pub u64 : ℕ → ℕ
u64 n = n % 18446744073709551616

change_count_of : Option TransactionSpill → List Change → ℕ
change_count_of none changes = u32 (length changes)
change_count_of (some s) changes = s.change_count

-- Transaction.ChangeCount.
unfoldable pub change_count : Transaction → ℕ
unfolding change_count_of
change_count tx = change_count_of tx.spill tx.changes
