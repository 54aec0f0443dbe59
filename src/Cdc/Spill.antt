-- ===== src/Cdc/Spill.antt =====
-- Spilled changes: internal/cdc/spill.go, TransactionSpill. The temporary file is its contents;
-- its name, locks and directory entries are the file system's.
pub mod Changes
use pgmigrate.Base.{ℕ, ◌+◌, ◌-◌, not, false, List, [], Option, none, some, ltb, ◌==◌}
use pgmigrate.Base.Lists.{length, take}
use pgmigrate.Base.Results.{Result, ok, err, ◌>>=◌, ◌>>◌, fail_if}
use pgmigrate.Cdc.Model.{Change, TransactionSpill, Transaction, u32, u64}
use pgmigrate.Cdc.Codec.Size.{
  CodecError, spill_closed, spill_limit, trailing_bytes, max_u32, encoded_change_size,
}
use pgmigrate.Cdc.Codec.Encode.{payload_version}
use pgmigrate.Cdc.Codec.Decode.{read_many}
use pgmigrate.Cdc.Codec.Write.{Writer, write_change_to}
use pgmigrate.Cdc.Codec.Stream.{decode_change_reader}

abbrev pub new_transaction_spill : TransactionSpill
new_transaction_spill = record {
  file = some [];
  change_count = 0;
  change_bytes = 0;
  version = payload_version;
}

-- `uint64(^uint32(0)) - changeSize`, which wraps below zero.
abbrev pub spill_room : ℕ → ℕ
spill_room size = u64 (max_u32 + 18446744073709551616 - u64 size)

-- The file is extended by what `write` makes of it; a failed write keeps the counters.
module _ (write : Writer) where
  append_to : TransactionSpill → Option (List ℕ) → Change → Result CodecError TransactionSpill
  append_to s none c = err spill_closed
  append_to s (some contents) c = do
    size ← encoded_change_size c
    fail_if (ltb (spill_room size) s.change_bytes) spill_limit
    (extended, written) ← write_change_to write contents c
    ok (record s {
      file = some extended;
      change_bytes = u64 (s.change_bytes + written);
      change_count = u32 (s.change_count + 1);
    })

  unfoldable pub append_change : TransactionSpill → Change → Result CodecError TransactionSpill
  unfolding append_to
  append_change s c = append_to s s.file c

-- SectionReader and LimitedReader hand out at most `change_bytes` bytes of the file.
reader : TransactionSpill → Option (List ℕ) → Result CodecError (List ℕ)
reader s none = err spill_closed
reader s (some contents) = ok (take s.change_bytes contents)

-- forEachChange with a visitor that keeps every change, as materializeChanges has. The limit is
-- counted down by the bytes that are decoded, whatever is left of the file.
unfoldable pub spilled_changes : TransactionSpill → Result CodecError (List Change)
unfolding reader
spilled_changes s = do
  contents ← reader s s.file
  (changes, rest) ← read_many (decode_change_reader false s.version) s.change_count contents
  fail_if (not (s.change_bytes - (length contents - length rest) == 0)) trailing_bytes
  ok changes

-- materializeChanges: the changes in memory, the spill removed.
materialize : Transaction → Option TransactionSpill → Result CodecError Transaction
materialize tx none = ok tx
materialize tx (some s) =
    spilled_changes s >>= λ changes. ok (record tx { changes = changes; spill = none })

unfoldable pub materialize_changes : Transaction → Result CodecError Transaction
unfolding materialize
materialize_changes tx = materialize tx tx.spill
