-- ===== src/Cdc/Codec/Write.antt =====
-- The streaming encoder: internal/cdc/codec.go, WriteTransaction, writeChangeTo, writeTupleTo and
-- writeBytes. `write` is the io.Writer: it appends bytes to what was written, or fails.
use pgmigrate.Base.{ℕ, List, [], ◌∷◌, ◌++◌, Option, none, some, ltb, ◌==◌, if◌then◌else◌}
use pgmigrate.Base.Bytes.{le_bytes}
use pgmigrate.Base.Lists.{length, take}
use pgmigrate.Base.Results.{Result, ok, err, ◌>>=◌, ◌>>◌, fail_if, fold_result}
use pgmigrate.Cdc.Model.{
  TupleDatum, Tuple, Change, TransactionSpill, Transaction, change_truncate, change_count,
}
use pgmigrate.Cdc.Codec.Size.{
  CodecError, nil_transaction, payload_too_large, invalid_kind, spill_closed, truncated,
  max_payload_size, slice, has_no_data, has_data, encoded_change_size, transaction_payload_size,
}
use pgmigrate.Cdc.Codec.Encode.{truncate_options_byte, append_transaction_prefix}

abbrev pub Writer : Type 0
Writer = List ℕ → List ℕ → Result CodecError (List ℕ)

-- The contents of an open spill file, cut at the recorded size; io.CopyN fails on a shorter file.
copy_n : ℕ → List ℕ → Result CodecError (List ℕ)
copy_n n contents = if ltb (length contents) n then err truncated else ok (take n contents)

unfoldable pub spill_contents : TransactionSpill → Option (List ℕ) → Result CodecError (List ℕ)
unfolding copy_n
spill_contents s none = err spill_closed
spill_contents s (some contents) = copy_n s.change_bytes contents

module _ (write : Writer) where
  -- writeBytes: nothing is written for no bytes.
  unfoldable pub write_bytes : List ℕ → List ℕ → Result CodecError (List ℕ)
  write_bytes out [] = ok out
  write_bytes out (b ∷ bytes) = write out (b ∷ bytes)

  unfoldable pub write_datum_to : List ℕ → TupleDatum → Result CodecError (List ℕ)
  write_datum_to out d = do
    kind ← write out (d.kind ∷ [])
    if has_no_data d.kind
        then ok kind
        else if has_data d.kind
        then (write kind (le_bytes 4 (length (slice d.bytes))) >>= λ o.
            write_bytes o (slice d.bytes))
        else err invalid_kind

  unfoldable pub write_tuple_to : List ℕ → Option Tuple → Result CodecError (List ℕ)
  write_tuple_to out none = write out (0 ∷ [])
  write_tuple_to out (some t) =
      write out (1 ∷ le_bytes 4 (length t)) >>= λ o. fold_result write_datum_to o t

  -- The options follow the kind on a TRUNCATE alone.
  unfoldable pub write_options_to : List ℕ → Change → Result CodecError (List ℕ)
  write_options_to out c =
      if c.kind == change_truncate
      then write out (truncate_options_byte c.truncate_cascade c.truncate_restart_identity ∷ [])
      else ok out

  -- What is written, and the size that is reported.
  unfoldable pub write_change_to : List ℕ → Change → Result CodecError (List ℕ × ℕ)
  write_change_to out c = do
    size ← encoded_change_size c
    fixed ← write out (le_bytes 4 c.relation_oid ++ c.kind ∷ [])
    options ← write_options_to fixed c
    old ← write_tuple_to options c.old
    new ← write_tuple_to old c.new
    ok (new, size)

  unfoldable pub write_change : List ℕ → Change → Result CodecError (List ℕ)
  write_change out c = write_change_to out c >>= λ (o, size). ok o

  unfoldable pub write_body :
      List ℕ → Option TransactionSpill → Transaction → Result CodecError (List ℕ)
  write_body out none tx = fold_result write_change out tx.changes
  write_body out (some s) tx = spill_contents s s.file >>= λ contents. write out contents

  unfoldable pub write_transaction : List ℕ → Option Transaction → Result CodecError (List ℕ × ℕ)
  write_transaction out none = err nil_transaction
  write_transaction out (some tx) = do
    size ← transaction_payload_size (some tx)
    fail_if (ltb max_payload_size size) payload_too_large
    prefix ← append_transaction_prefix [] tx (change_count tx)
    o ← write out prefix
    body ← write_body o tx.spill tx
    ok (body, size)
