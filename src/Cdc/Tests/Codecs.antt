-- ===== src/Cdc/Tests/Codecs.antt =====
-- The codec and spills at small transactions.
use pgmigrate.Base.{ℕ, ◌≤◌, ◌≡◌, refl, true, List, [], ◌∷◌, ◌++◌, some, arith}
use pgmigrate.Base.Bytes.{le_bytes}
use pgmigrate.Base.Int.{u64_of_int}
use pgmigrate.Base.Lists.{length, concat_map}
use pgmigrate.Base.Results.{ok, err, fold_result}
use pgmigrate.Cdc.Model.{TransactionSpill}
use pgmigrate.Cdc.Codec.Size.{max_payload_size, trailing_bytes}
use pgmigrate.Cdc.Codec.Encode.{append_transaction, marshal_transaction}
use pgmigrate.Cdc.Codec.Decode.{unmarshal_transaction}
use pgmigrate.Cdc.Codec.Layout.{
  payload_bytes, change_bytes, datum_bytes, tuple_bytes, options_bytes,
}
use pgmigrate.Cdc.Codec.Write.{Writer, write_transaction}
use pgmigrate.Cdc.Codec.Stream.{decode_change_reader, decode_transaction_prefix}
use pgmigrate.Cdc.Codec.RoundTrip.{unmarshal-marshal, unmarshal_trailing, append_transaction_lem}
use pgmigrate.Cdc.Codec.Writes.{write-append_transaction}
use pgmigrate.Cdc.Codec.Streams.{decode_change_reader_lem, decode_transaction_prefix_lem}
use pgmigrate.Cdc.Spill.{append_change, spilled_changes, new_transaction_spill}
use pgmigrate.Cdc.Spill.Changes.{spilled_changes-append_change}
use pgmigrate.Cdc.Tests.{inserted, first, inserted-canonical, first-canonical}

unmarshal-marshal_example :
    (payload : List ℕ) × (marshal_transaction (some first) ≡ ok payload)
    × (length payload ≤ max_payload_size)
    × (unmarshal_transaction payload ≡ ok first)
unmarshal-marshal_example = unmarshal-marshal first first-canonical

append_transaction_example :
    append_transaction (9 ∷ []) (some first) ≡ ok ((9 ∷ []) ++ payload_bytes first)
append_transaction_example = append_transaction_lem first first-canonical (9 ∷ [])

length-first : length (payload_bytes first ++ (0 ∷ [])) ≤ max_payload_size
unfolding concat_map le_bytes datum_bytes tuple_bytes options_bytes u64_of_int
length-first = omega arith

first-marshalled : marshal_transaction (some first) ≡ ok (payload_bytes first)
unfolding marshal_transaction
first-marshalled = append_transaction_lem first first-canonical []

unmarshal_trailing_example :
    unmarshal_transaction (payload_bytes first ++ (0 ∷ [])) ≡ err trailing_bytes
unmarshal_trailing_example =
    unmarshal_trailing first first-canonical 0 [] (payload_bytes first) first-marshalled
      length-first

abbrev write_all : Writer
write_all out bytes = ok (out ++ bytes)

write-append_transaction_example :
    (payload : List ℕ) × (append_transaction [] (some first) ≡ ok payload)
    × (write_transaction write_all [] (some first) ≡ ok (payload, length payload))
write-append_transaction_example =
    write-append_transaction write_all (λ out bytes. refl) first first-canonical []

decode_change_reader_example :
    decode_change_reader true 2 (change_bytes inserted ++ (5 ∷ [])) ≡ ok (inserted, 5 ∷ [])
decode_change_reader_example = decode_change_reader_lem true inserted (5 ∷ []) inserted-canonical

decode_transaction_prefix_example :
    decode_transaction_prefix true (payload_bytes first)
    ≡ ok ((record first { changes = [] }, 2, 1), concat_map change_bytes (inserted ∷ []))
decode_transaction_prefix_example = decode_transaction_prefix_lem true first first-canonical

inserted_twice : length (concat_map change_bytes (inserted ∷ inserted ∷ [])) ≤ 4294967295
unfolding concat_map le_bytes datum_bytes tuple_bytes options_bytes
inserted_twice = omega arith

spilled_changes-append_change_example :
    (s : TransactionSpill) × (fold_result
        (append_change write_all)
        new_transaction_spill
        (inserted ∷ inserted ∷ [])
      ≡ ok s)
    × (spilled_changes s ≡ ok (inserted ∷ inserted ∷ []))
    × (s.change_count ≡ 2)
    × (s.change_bytes ≡ length (concat_map change_bytes (inserted ∷ inserted ∷ [])))
spilled_changes-append_change_example =
    spilled_changes-append_change write_all (λ out bytes. refl) (inserted ∷ inserted ∷ [])
      (inserted-canonical, (inserted-canonical, tt)) inserted_twice
