-- ===== src/Cdc/Tests.antt =====
-- Small transactions for the tests of the codec, of spills and of segments.
mod Codecs
mod Segments
mod Writers
mod Persisting
mod Decoding
mod Positions
mod Pruning
use pgmigrate.Base.{
  ℕ, ◌≤◌, ◌<◌, ◌≡◌, refl, inl, inr, true, false, List, [], ◌∷◌, ◌++◌, none, some, arith,
}
use pgmigrate.Base.Int.{ℤ, pos, negsuc, IsInt64, u64_of_int}
use pgmigrate.Base.Bytes.{le_bytes}
use pgmigrate.Base.{◌%◌}
use pgmigrate.Cdc.Segment.Log.{Log}
use pgmigrate.Base.Lists.{length, concat_map}
use pgmigrate.Base.Results.{ok}
use pgmigrate.Cdc.Model.{Relation, Column, Change, Transaction, TupleDatum}
use pgmigrate.Cdc.Codec.Encode.{marshal_transaction}
use pgmigrate.Cdc.Codec.Layout.{
  payload_bytes, datum_bytes, tuple_bytes, options_bytes, CanonicalTransaction, CanonicalChange,
  CanonicalRelation, CanonicalColumn, null_datum, text_datum,
}

abbrev users : Relation
users = record {
  oid = 7;
  namespace = 112 ∷ [];
  name = 117 ∷ [];
  replica_identity = 100;
  columns = record { name = 105 ∷ []; type = 23; flags = 1 } ∷ [];
}

abbrev inserted : Change
inserted = record {
  relation_oid = 7;
  kind = 1;
  old = none;
  new = some (record { kind = 1; bytes = some (52 ∷ []) } ∷ []);
  truncate_cascade = false;
  truncate_restart_identity = false;
}

abbrev first : Transaction
first = record {
  commit_lsn = 10;
  end_lsn = 12;
  commit_time = record { seconds = pos 5; nanos = 6 };
  relations = users ∷ [];
  changes = inserted ∷ [];
  spill = none;
}

abbrev second : Transaction
second = record first { commit_lsn = 20; end_lsn = 25 }

abbrev third : Transaction
third = record first { commit_lsn = 30; end_lsn = 40 }

users-canonical : CanonicalRelation users
users-canonical = record {
  oid_range = omega arith;
  namespace_fits = omega arith;
  name_fits = omega arith;
  columns_fit = omega arith;
  columns = (record { type_range = omega arith; name_fits = omega arith }, tt);
}

inserted-canonical : CanonicalChange inserted
inserted-canonical = record {
  oid_range = omega arith;
  kind = inr (inl refl, refl, refl);
  old = tt;
  new = (omega arith, (text_datum (52 ∷ []) (omega arith), tt));
}

first-canonical : CanonicalTransaction first
unfolding concat_map le_bytes datum_bytes tuple_bytes options_bytes u64_of_int
first-canonical = record {
  commit_range = omega arith;
  end_range = omega arith;
  seconds_range = omega arith;
  nanos_range = omega arith;
  relations = (users-canonical, tt);
  changes = (inserted-canonical, tt);
  resident = refl;
  payload_fits = omega arith;
}

second-canonical : CanonicalTransaction second
unfolding concat_map le_bytes datum_bytes tuple_bytes options_bytes u64_of_int
second-canonical = record {
  commit_range = omega arith;
  end_range = omega arith;
  seconds_range = omega arith;
  nanos_range = omega arith;
  relations = (users-canonical, tt);
  changes = (inserted-canonical, tt);
  resident = refl;
  payload_fits = omega arith;
}

third-canonical : CanonicalTransaction third
unfolding concat_map le_bytes datum_bytes tuple_bytes options_bytes u64_of_int
third-canonical = record {
  commit_range = omega arith;
  end_range = omega arith;
  seconds_range = omega arith;
  nanos_range = omega arith;
  relations = (users-canonical, tt);
  changes = (inserted-canonical, tt);
  resident = refl;
  payload_fits = omega arith;
}

-- Not the real checksum, but one in its range.
abbrev checksum : List ℕ → ℕ
checksum p = length p % 4294967296

checksum-range : (p : List ℕ) → checksum p < 4294967296
checksum-range p = omega arith

abbrev two : List Transaction
two = first ∷ second ∷ []

two-Log : Log 0 0 two
two-Log = (
  first-canonical,
  omega arith,
  omega arith,
  omega arith,
  (second-canonical, omega arith, omega arith, omega arith, tt),
)
