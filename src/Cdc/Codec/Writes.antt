-- ===== src/Cdc/Codec/Writes.antt =====
-- The streaming encoder writes the layout too, given a writer that accepts what it is handed.
use mathlib.Core.List.{append_assoc, append-nil}
use pgmigrate.Base.{
  ℕ, ◌≡◌, List, [], ◌∷◌, ◌++◌, Option, none, some, arith, le→ltb, Bool-cases, ◌==◌, inl, inr,
}
use pgmigrate.Base.Lists.{length}
use pgmigrate.Base.Results.{ok, fold_result-append}
use pgmigrate.Cdc.Model.{TupleDatum, Tuple, Change, Transaction, u64, change_truncate, change_count}
use pgmigrate.Cdc.Codec.Size.{max_u32}
use pgmigrate.Cdc.Codec.Encode.{append_transaction}
use pgmigrate.Cdc.Codec.Write.{
  Writer, write_bytes, write_datum_to, write_tuple_to, write_options_to, write_change_to,
  write_change, write_body, write_transaction,
}
use pgmigrate.Cdc.Codec.Layout.{
  datum_bytes, tuple_bytes, options_bytes, change_bytes, payload_bytes, CanonicalDatum, null_datum,
  toast_datum, text_datum, binary_datum, CanonicalTuple, CanonicalChange, CanonicalTransaction,
}
use pgmigrate.Cdc.Codec.Sizes.{encoded_change_size_lem, transaction_payload_size_lem}
use pgmigrate.Cdc.Codec.RoundTrip.{
  relations-Fits, changes-Fits, append_transaction_prefix_lem, append_transaction_lem,
}

-- io.Writer's contract for a file that accepts every write.
abbrev pub Accepts : Writer → Type 0
Accepts write = (out bytes : List ℕ) → write out bytes ≡ ok (out ++ bytes)

module _ (write : Writer) (accepts : Accepts write) where
  write_bytes_lem : (out bytes : List ℕ) → write_bytes write out bytes ≡ ok (out ++ bytes)
  unfolding write_bytes
  write_bytes_lem out [] = rw append-nil
  write_bytes_lem out (b ∷ bytes) = accepts out (b ∷ bytes)

  write_datum_to_lem :
      (out : List ℕ) (d : TupleDatum)
      → CanonicalDatum d
      → write_datum_to write out d ≡ ok (out ++ datum_bytes d)
  unfolding write_datum_to datum_bytes
  write_datum_to_lem out d null_datum = rw (accepts out _)
  write_datum_to_lem out d toast_datum = rw (accepts out _)
  write_datum_to_lem out d (text_datum v h) = simp (accepts, write_bytes_lem, append_assoc)
  write_datum_to_lem out d (binary_datum v h) = simp (accepts, write_bytes_lem, append_assoc)

  write_tuple_to_lem :
      (out : List ℕ) (t : Option Tuple)
      → CanonicalTuple t
      → write_tuple_to write out t ≡ ok (out ++ tuple_bytes t)
  unfolding write_tuple_to tuple_bytes
  write_tuple_to_lem out none h = accepts out _
  write_tuple_to_lem out (some t) h = rw (accepts out _) (
      rw (fold_result-append (write_datum_to write) datum_bytes write_datum_to_lem _ t h.1)
        (simp append_assoc))

  write_options_to_lem :
      (out : List ℕ) (c : Change) → write_options_to write out c ≡ ok (out ++ options_bytes c)
  unfolding write_options_to options_bytes
  write_options_to_lem out c = elim (Bool-cases (c.kind == change_truncate)) [
    | inl e ↦ rw e (accepts out _)
    | inr e ↦ rw (e, append-nil out)
  ]

  pub write_change_to_lem :
      (out : List ℕ) (c : Change)
      → CanonicalChange c
      → write_change_to write out c ≡ ok (out ++ change_bytes c, u64 (length (change_bytes c)))
  unfolding write_change_to
  write_change_to_lem out c h =
      rw (encoded_change_size_lem c h, accepts out _)
        (rw (write_options_to_lem _ c) (
          rw (write_tuple_to_lem _ c.old h.old)
            (rw (write_tuple_to_lem _ c.new h.new) (simp append_assoc))))

  write_change_lem :
      (out : List ℕ) (c : Change)
      → CanonicalChange c
      → write_change write out c ≡ ok (out ++ change_bytes c)
  unfolding write_change
  write_change_lem out c h = rw (write_change_to_lem out c h)

  resident_count :
      (tx : Transaction) → CanonicalTransaction tx → change_count tx ≡ length tx.changes
  unfolding change_count
  resident_count tx h = simp (h.resident) (omega (arith, changes-Fits tx h))

  -- The streaming encoder writes exactly the layout.
  pub write_transaction_lem :
      (tx : Transaction)
      → CanonicalTransaction tx
      → (out : List ℕ)
      → write_transaction write out (some tx)
        ≡ ok (out ++ payload_bytes tx, length (payload_bytes tx))
  unfolding write_transaction write_body
  write_transaction_lem tx h out =
      rw
        (
          transaction_payload_size_lem tx h (relations-Fits tx h) (changes-Fits tx h),
          le→ltb max_u32 (length (payload_bytes tx)) h.payload_fits,
          resident_count tx h,
          append_transaction_prefix_lem tx h [] (length tx.changes),
        )
        (simp (h.resident) (
          rw (accepts out _) (
            rw
              (fold_result-append (write_change write) change_bytes write_change_lem _ tx.changes
                h.changes)
              (simp append_assoc))))

  -- To a writer that accepts everything, the streaming encoder writes the bytes that the buffered
  -- encoder appends, and reports the number of them, for every transaction that the format carries.
  pub write-append_transaction :
      (tx : Transaction)
      → CanonicalTransaction tx
      → (out : List ℕ)
      → (payload : List ℕ) × (append_transaction out (some tx) ≡ ok (out ++ payload))
        × (write_transaction write out (some tx) ≡ ok (out ++ payload, length payload))
  write-append_transaction tx h out =
      (payload_bytes tx, append_transaction_lem tx h out, write_transaction_lem tx h out)
