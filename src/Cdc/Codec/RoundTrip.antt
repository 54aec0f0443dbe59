-- ===== src/Cdc/Codec/RoundTrip.antt =====
-- Encoding and decoding whole transactions.
use mathlib.Core.List.{append_assoc, append-nil}
use pgmigrate.Base.{
  ℕ, ◌-◌, ◌≤◌, ◌≡◌, refl, sym, List, [], ◌∷◌, ◌++◌, some, arith, le→ltb, gt→leb, ==-self,
}
use pgmigrate.Base.Bytes.{le_bytes, length-append_bytes}
use pgmigrate.Base.Int.{u64_of_int-lt, int_of_u64-u64_of_int, u64_of_int}
use pgmigrate.Base.Lists.{length, length-concat_map-ge, concat_map}
use pgmigrate.Base.Results.{ok, err, fold_result-append}
use pgmigrate.Cdc.Model.{Transaction, u64}
use pgmigrate.Cdc.Codec.Size.{max_u32, max_payload_size, trailing_bytes}
use pgmigrate.Cdc.Codec.Encode.{
  append_relation, append_change, append_transaction_prefix, append_transaction,
  marshal_transaction, payload_magic,
}
use pgmigrate.Cdc.Codec.Decode.{
  read_change, read_relation, read_magic, same_bytes, read_transaction, unmarshal_transaction,
}
use pgmigrate.Cdc.Codec.Layout.{
  relation_bytes, change_bytes, payload_bytes, prefix_bytes, Fits, CanonicalTransaction,
}
use pgmigrate.Cdc.Codec.Encodes.{append_relation_lem, append_change_lem}
use pgmigrate.Cdc.Codec.Sizes.{transaction_payload_size_lem, length-payload_bytes}
use pgmigrate.Cdc.Codec.Decodes.{
  take_bytes-append, read_u8-cons, read_u32-le_bytes, read_u64-le_bytes, read_counted,
  read_relation_lem, read_change_lem, relation_least, change_least,
}

read_magic_lem : (rest : List ℕ) → read_magic (80 ∷ 71 ∷ 77 ∷ 67 ∷ rest) ≡ ok (payload_magic, rest)
unfolding read_magic same_bytes
read_magic_lem rest = rw (take_bytes-append 4 payload_magic rest refl, read_magic)

module _ (tx : Transaction) (h : CanonicalTransaction tx) where
  -- The payload bounds the collections, since every item takes some bytes of it.
  pub relations-Fits : Fits tx.relations
  relations-Fits = omega (
    arith,
    h.payload_fits,
    length-payload_bytes tx,
    length-concat_map-ge relation_bytes 17 relation_least tx.relations,
  )

  pub changes-Fits : Fits tx.changes
  changes-Fits = omega (
    arith,
    h.payload_fits,
    length-payload_bytes tx,
    length-concat_map-ge change_bytes 7 change_least tx.changes,
  )

  pub append_transaction_prefix_lem :
      (dst : List ℕ) (count : ℕ)
      → append_transaction_prefix dst tx count ≡ ok (dst ++ prefix_bytes tx count)
  unfolding append_transaction_prefix
  append_transaction_prefix_lem dst count =
      rw (le→ltb max_u32 (length tx.relations) relations-Fits) (
        rw
          (fold_result-append append_relation relation_bytes append_relation_lem _ tx.relations
            h.relations)
          (simp append_assoc))

  -- For a transaction that the format carries, the encoder appends exactly the layout, for any bytes
  -- already in the buffer.
  pub append_transaction_lem :
      (dst : List ℕ) → append_transaction dst (some tx) ≡ ok (dst ++ payload_bytes tx)
  unfolding append_transaction
  append_transaction_lem dst = simp (h.resident) (
      rw
        (
          le→ltb max_u32 (length tx.relations) relations-Fits,
          le→ltb max_u32 (length tx.changes) changes-Fits,
          transaction_payload_size_lem tx h relations-Fits changes-Fits,
          le→ltb max_u32 (length (payload_bytes tx)) h.payload_fits,
          append_transaction_prefix_lem dst (length tx.changes),
        )
        (rw (
          fold_result-append append_change change_bytes append_change_lem _ tx.changes h.changes,
          append_assoc dst (prefix_bytes tx (length tx.changes))
              (concat_map change_bytes tx.changes),
          written dst,
          ==-self,
        )))
    where
      written :
          (dst : List ℕ)
          → u64 (length (dst ++ payload_bytes tx) - length dst) ≡ length (payload_bytes tx)
      written dst = omega (arith, h.payload_fits, length-append_bytes dst (payload_bytes tx))

  pub read_transaction_lem :
      (rest : List ℕ) → read_transaction (payload_bytes tx ++ rest) ≡ ok (tx, rest)
  unfolding read_transaction
  read_transaction_lem rest =
      let (relations_count, relations) =
        read_counted read_relation relation_bytes read_relation_lem 17 (omega arith) relation_least
          tx.relations
          (le_bytes 4 (length tx.changes) ++ (concat_map change_bytes tx.changes ++ rest))
          relations-Fits h.relations in
      let (changes_count, changes) =
        read_counted (read_change 2) change_bytes read_change_lem 7 (omega arith) change_least
          tx.changes rest changes-Fits h.changes in
      simp append_assoc (
        rw
          (
            read_magic_lem _,
            read_u8-cons 2 _,
            read_u64-le_bytes tx.commit_lsn _ h.commit_range,
            read_u64-le_bytes tx.end_lsn _ h.end_range,
            read_u64-le_bytes (u64_of_int tx.commit_time.seconds) _
                (u64_of_int-lt tx.commit_time.seconds h.seconds_range),
            read_u32-le_bytes tx.commit_time.nanos _ (omega (arith, h.nanos_range)),
            gt→leb 1000000000 tx.commit_time.nanos h.nanos_range,
          )
          (rw (relations_count, relations)
            (rw (changes_count, changes)
              (rw (int_of_u64-u64_of_int tx.commit_time.seconds h.seconds_range)
                (λ i. ok (record tx { spill = sym h.resident i }, rest))))))

  -- Marshalling a transaction that the format carries succeeds, stays within the payload limit, and
  -- unmarshalling its payload returns the transaction.
  pub unmarshal-marshal :
      (payload : List ℕ) × (marshal_transaction (some tx) ≡ ok payload)
      × (length payload ≤ max_payload_size)
      × (unmarshal_transaction payload ≡ ok tx)
  unfolding marshal_transaction unmarshal_transaction
  unmarshal-marshal = (
    payload_bytes tx,
    append_transaction_lem [],
    h.payload_fits,
    rw (
      le→ltb max_u32 (length (payload_bytes tx)) h.payload_fits,
      ← append-nil (payload_bytes tx),
      read_transaction_lem [],
    ),
  )

  -- Unmarshalling a payload with further bytes behind it, within the payload limit, fails.
  pub unmarshal_trailing :
      (x : ℕ) (xs payload : List ℕ)
      → marshal_transaction (some tx) ≡ ok payload
      → length (payload ++ x ∷ xs) ≤ max_payload_size
      → unmarshal_transaction (payload ++ x ∷ xs) ≡ err trailing_bytes
  unfolding marshal_transaction unmarshal_transaction
  unmarshal_trailing x xs payload e fits =
      let same : payload ≡ payload_bytes tx = cc (e, append_transaction_lem []) in
      rw (le→ltb max_u32 (length (payload ++ x ∷ xs)) fits, same, read_transaction_lem (x ∷ xs))
        (ground arith)
