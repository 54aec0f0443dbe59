-- ===== src/Cdc/Tests/Decoding.antt =====
-- The decoder at a transaction of one insert, which it spills, and behind a message that it cannot
-- parse.
use pgmigrate.Base.{
  ℕ, ◌≡◌, refl, true, false, List, [], ◌∷◌, ◌++◌, Option, none, some, arith, ◌==◌, if◌then◌else◌,
}
use pgmigrate.Base.Int.{pos}
use pgmigrate.Base.Bytes.{le_bytes}
use pgmigrate.Base.Lists.{concat_map}
use pgmigrate.Base.Results.{ok, err}
use pgmigrate.Cdc.Model.{CommitTime, Transaction}
use pgmigrate.Cdc.Codec.Layout.{datum_bytes, tuple_bytes, options_bytes}
use pgmigrate.Cdc.Codec.Write.{Writer}
use pgmigrate.Cdc.Decoder.{
  Message, begin_message, insert_message, commit_message, Decoder, parse_failed, cached,
  row_changes, decode_pg_tuple, decode_pg_columns, parsed, settle, abort_active, abort, decode,
  new_decoder,
}
use pgmigrate.Cdc.Decoder.Streams.{decode_stream, no_rows, row, Commits, decode_stream_lem}
use pgmigrate.Cdc.Decoder.Aborts.{decode_stream-after_error}
use pgmigrate.Cdc.Decoder.Idle.{IsClean, new_decoder-IsClean, decode_stream-IsClean}
use pgmigrate.Cdc.Tests.{users, inserted, first, users-canonical, inserted-canonical}

abbrev appends : Writer
appends out bytes = ok (out ++ bytes)

abbrev at : ℕ → CommitTime
at seconds = record { seconds = pos seconds; nanos = 0 }

abbrev insert_one : Message
insert_one = insert_message 7 (some (record { data_type = b't'; bytes = some (52 ∷ []) } ∷ []))

-- Not pglogrepl's parser: a message is its first byte.
abbrev message_at : ℕ → Option Message
message_at b =
    if b == 1
    then some (begin_message 10 (at 5))
    else if b == 2
    then some insert_one
    else if b == 3
    then some (commit_message 10 12 (at 6))
    else none

abbrev parse : List ℕ → Option Message
parse [] = none
parse (b ∷ bs) = message_at b

abbrev fresh : Decoder
fresh = record {
  relations = (7, users) ∷ [];
  current = none;
  required = [];
  spill_threshold = 1;
  encoded_size = 0;
  init_error = false;
  closed = false;
}

decode_stream_example :
    (tx : Transaction) × (e : Decoder) × (decode_stream appends true parse
        (at 9)
        fresh
        ((1 ∷ []) ∷ (2 ∷ []) ∷ (3 ∷ []) ∷ [])
      ≡ (e, ok none ∷ ok none ∷ ok (some tx) ∷ []))
    × (e.current ≡ none)
    × Commits appends (λ out bytes. refl) ((7, users) ∷ []) 10 (inserted ∷ []) 12 (at 6) tx
unfolding cached row_changes decode_pg_tuple decode_pg_columns concat_map le_bytes datum_bytes
    tuple_bytes options_bytes
decode_stream_example =
    decode_stream_lem appends (λ out bytes. refl) ((7, users) ∷ []) 10 parse (at 9) fresh (1 ∷ [])
      (3 ∷ []) ((2 ∷ []) ∷ []) (inserted ∷ []) 12 (at 5) (at 6) (refl, refl) (refl, refl)
      (omega arith, refl) (omega arith, refl) (omega arith)
      (row (2 ∷ []) insert_one (inserted ∷ []) [] [] (omega arith) refl refl no_rows)
      (((users, refl, users-canonical), inserted-canonical), tt) (omega arith)

abbrev active : Decoder
active = record fresh { current = some first; required = 7 ∷ []; encoded_size = 41 }

fails : decode appends true parse (at 9) active (4 ∷ []) ≡ (fresh, err parse_failed)
unfolding decode parsed settle abort_active abort
fails = refl

decode_stream-after_error_example :
    (tx : Transaction) × (f : Decoder) × (decode_stream appends true parse
        (at 9)
        fresh
        ((1 ∷ []) ∷ (2 ∷ []) ∷ (3 ∷ []) ∷ [])
      ≡ (f, ok none ∷ ok none ∷ ok (some tx) ∷ []))
    × (f.current ≡ none)
    × Commits appends (λ out bytes. refl) ((7, users) ∷ []) 10 (inserted ∷ []) 12 (at 6) tx
unfolding cached row_changes decode_pg_tuple decode_pg_columns concat_map le_bytes datum_bytes
    tuple_bytes options_bytes
decode_stream-after_error_example =
    decode_stream-after_error appends true (at 9) active fresh (4 ∷ []) parse_failed appends
      (λ out bytes. refl) 10 parse (at 9) (1 ∷ []) (3 ∷ []) ((2 ∷ []) ∷ []) (inserted ∷ []) 12
      (at 5) (at 6) (refl, refl) (omega arith) fails (omega arith, refl) (omega arith, refl)
      (omega arith) (row (2 ∷ []) insert_one (inserted ∷ []) [] [] (omega arith) refl refl no_rows)
      (((users, refl, users-canonical), inserted-canonical), tt) (omega arith)

abbrev empty : Decoder
empty = record fresh { relations = []; spill_threshold = 268435456 }

created : new_decoder (pos 0) ≡ ok empty
unfolding new_decoder
created = refl

decode_stream-IsClean_example :
    IsClean (decode_stream appends true parse (at 9) empty ((1 ∷ []) ∷ (2 ∷ []) ∷ (4 ∷ []) ∷ [])).0
decode_stream-IsClean_example =
    decode_stream-IsClean appends true parse (at 9) empty ((1 ∷ []) ∷ (2 ∷ []) ∷ (4 ∷ []) ∷ [])
      (new_decoder-IsClean (pos 0) empty created)
