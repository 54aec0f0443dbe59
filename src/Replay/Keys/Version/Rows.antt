-- ===== src/Replay/Keys/Version/Rows.antt =====
-- Which changes share a lane key: internal/cdc/replay_plan.go, replayChangeKeyWithOrderedLane.
use pgmigrate.Base.{
  ℕ, ◌≤◌, ◌≡◌, ◌≢◌, inl, inr, refl, sym, ap, ◌∙◌, Bool, true, false, not, ◌||◌, List, [], ◌∷◌, ◌++◌,
  Option, none, some, arith, if◌then◌else◌,
}
use mathlib.Core.List.{append_assoc, append-nil}
use pgmigrate.Base.Bytes.{be_bytes}
use pgmigrate.Cdc.Codec.Size.{slice}
use pgmigrate.Base.Lists.{length, get_or, All, get_elem?, take}
use pgmigrate.Base.Results.{Result, ok, ◌>>=◌, ok_ok, >>=-eq-ok, if-eq, >>=-ext}
use pgmigrate.Cdc.Model.{Tuple, TupleDatum, Change}
use pgmigrate.Replay.Claim.{PlanError}
use pgmigrate.Replay.Hash.{
  Digest, Hasher, new_replay_claim_hasher, write_replay_hash_bytes, write_replay_hash_int,
}
use pgmigrate.Replay.Relations.{TargetColumn, TargetRelation, primary_key_columns}
use pgmigrate.Replay.Keys.{replay_lane_payload_safe}
use pgmigrate.Replay.Keys.Version.{
  write_key_datum, key_datum, on_some, write_key_columns, identifying_tuple, keeps_row,
  has_safe_primary, finish_key, row_key, identified_key, table_or_row_key, replay_relation_lane_key,
  replay_change_key_with_ordered_lane,
}

-- Two tuples with one primary key.
abbrev pub SameKey : TargetRelation → Tuple → Tuple → Type 0
SameKey relation t u =
    All (λ column. get_elem? t column.source_index ≡ get_elem? u column.source_index)
      (primary_key_columns relation)

on_some-ext :
    {A B : Type 0} (m : Option A) {f g : A → Result PlanError (Option B)}
    → ((a : A) → f a ≡ g a)
    → on_some m f ≡ on_some m g
on_some-ext none h = refl
on_some-ext (some a) h = h a

write_key_columns-same :
    (relation : TargetRelation) (t u : Tuple) (columns : List TargetColumn) (hasher : Hasher)
    → All (λ column. get_elem? t column.source_index ≡ get_elem? u column.source_index) columns
    → write_key_columns relation t hasher columns ≡ write_key_columns relation u hasher columns
unfolding write_key_columns
write_key_columns-same relation t u [] hasher h = refl
write_key_columns-same relation t u (column ∷ rest) hasher h = rw h.0 (
    >>=-ext (key_datum relation column (get_elem? u column.source_index)) (λ found.
      on_some-ext found
        (λ datum. write_key_columns-same relation t u rest (write_key_datum hasher datum) h.1)))

write_replay_hash_bytes-appends :
    (hasher : Hasher) (value : List ℕ)
    → (more : Hasher) × (write_replay_hash_bytes hasher value ≡ hasher ++ more)
unfolding write_replay_hash_bytes
write_replay_hash_bytes-appends hasher value =
    (be_bytes 8 (length value) ++ value, append_assoc hasher (be_bytes 8 (length value)) value)

write_key_datum-appends :
    (hasher : Hasher) (datum : TupleDatum)
    → (more : Hasher) × (write_key_datum hasher datum ≡ hasher ++ more)
unfolding write_key_datum write_replay_hash_int
write_key_datum-appends hasher datum =
    let kind = be_bytes 8 datum.kind in
    let (more, same) = write_replay_hash_bytes-appends (hasher ++ kind) (slice datum.bytes) in
    (kind ++ more, same ∙ append_assoc hasher kind more)

-- Writing a key only appends.
write_key_columns-appends :
    (relation : TargetRelation) (t : Tuple) (columns : List TargetColumn) (hasher out : Hasher)
    → write_key_columns relation t hasher columns ≡ ok (some out)
    → (more : Hasher) × (out ≡ hasher ++ more)
unfolding write_key_columns
write_key_columns-appends relation t [] hasher out h =
    let same : hasher ≡ out = cc in ([], sym same ∙ sym (append-nil hasher))
write_key_columns-appends relation t (column ∷ rest) hasher out h =
    let (found, datum, later) =
      >>=-eq-ok (key_datum relation column (get_elem? t column.source_index)) _ h in
    rest_of (λ datum. write_key_columns-appends relation t rest (write_key_datum hasher datum) out)
      found later
  where
    rest_of :
        ((datum : TupleDatum)
          → write_key_columns relation t (write_key_datum hasher datum) rest ≡ ok (some out)
          → (more : Hasher) × (out ≡ write_key_datum hasher datum ++ more))
        → (found : Option TupleDatum)
        → on_some found (λ datum. write_key_columns relation t (write_key_datum hasher datum) rest)
          ≡ ok (some out)
        → (more : Hasher) × (out ≡ hasher ++ more)
    rest_of each none later = cc
    rest_of each (some datum) later =
        let (first, wrote) = write_key_datum-appends hasher datum in
        let (more, same) = each datum later in
        (first ++ more, same ∙ ap (λ h. h ++ more) wrote ∙ append_assoc hasher first more)

some_injective : {A : Type 0} {a b : A} → ◌≡◌ {A = Option A} (some a) (some b) → a ≡ b
some_injective h = cc

row_label :
    (more : List ℕ)
    → take 8 (new_replay_claim_hasher "pgmigrate-replay-lane-v1" ++ more)
      ≡ 0 ∷ 0 ∷ 0 ∷ 0 ∷ 0 ∷ 0 ∷ 0 ∷ 24 ∷ []
unfolding new_replay_claim_hasher write_replay_hash_bytes be_bytes
row_label more = refl

table_label :
    (more : List ℕ)
    → take 8 (new_replay_claim_hasher "pgmigrate-replay-relation-lane-v1" ++ more)
      ≡ 0 ∷ 0 ∷ 0 ∷ 0 ∷ 0 ∷ 0 ∷ 0 ∷ 33 ∷ []
unfolding new_replay_claim_hasher write_replay_hash_bytes be_bytes
table_label more = refl

-- A table's key and a row's are hashes of different messages.
labels-apart :
    (row table : List ℕ)
    → new_replay_claim_hasher "pgmigrate-replay-relation-lane-v1" ++ table
      ≢ new_replay_claim_hasher "pgmigrate-replay-lane-v1" ++ row
labels-apart row table h =
    elim (24-33 (sym (row_label row) ∙ ap (take 8) (sym h) ∙ table_label table)) [ ]
  where
    24-33 :
        ◌≡◌ {A = List ℕ} (0 ∷ 0 ∷ 0 ∷ 0 ∷ 0 ∷ 0 ∷ 0 ∷ 24 ∷ []) (0 ∷ 0 ∷ 0 ∷ 0 ∷ 0 ∷ 0 ∷ 0 ∷ 33 ∷ [])
        → 1 ≤ 0
    24-33 e = let same : ◌≡◌ {A = ℕ} 24 33 = ap (λ xs. get_or xs 7 0) e in omega arith

-- The key of a change, taken apart.
module _ (sha : List ℕ → Digest) (relation : TargetRelation) (fingerprint : Digest) where
  identified :
      (c : Change) (ordered : Bool) (k : Digest)
      → replay_change_key_with_ordered_lane sha relation fingerprint c ordered ≡ ok (some k)
      → (t : Tuple) × (identifying_tuple relation c ≡ ok (some t))
        × (table_or_row_key sha relation fingerprint c t ≡ ok (some k))
  unfolding replay_change_key_with_ordered_lane identified_key
  identified c ordered k h =
      elim (if-eq (not ordered || not (replay_lane_payload_safe relation c)) _ _ h) [
        | inl (unsafe, nothing) ↦ cc
        | inr (safe, keyed) ↦
            let (tuple, found, made) = >>=-eq-ok (identifying_tuple relation c) _ keyed in
            given tuple found made
      ]
    where
      given :
          (tuple : Option Tuple)
          → identifying_tuple relation c ≡ ok tuple
          → identified_key sha relation fingerprint c tuple ≡ ok (some k)
          → (t : Tuple) × (identifying_tuple relation c ≡ ok (some t))
            × (table_or_row_key sha relation fingerprint c t ≡ ok (some k))
      given none found made = cc
      given (some t) found made = (t, found, made)

  abbrev pub IsSharded : Type 0
  IsSharded =
      (not relation.capabilities.relation_lane || relation.capabilities.cross_key_conflicts) ≡ false

  row_of :
      (c : Change) (t : Tuple) (k : Digest) (kept : Bool)
      → IsSharded
      → keeps_row relation c ≡ ok kept
      → table_or_row_key sha relation fingerprint c t ≡ ok (some k)
      → (if kept
          then row_key sha relation fingerprint t
          else ok (some (replay_relation_lane_key sha fingerprint)))
        ≡ ok (some k)
  unfolding table_or_row_key
  row_of c t k kept sharded keeps h =
      elim (if-eq
        (not relation.capabilities.relation_lane || relation.capabilities.cross_key_conflicts) _ _
        h) [
          | inl (wide, made) ↦ cc
          | inr (narrow, chosen) ↦ elim (if-eq (not (has_safe_primary relation)) _ _ chosen) [
            | inl (unsafe, nothing) ↦ cc
            | inr (safe, later) ↦
                let (kept', found, made) = >>=-eq-ok (keeps_row relation c) _ later in
                let same : kept' ≡ kept = ok_ok (sym found ∙ keeps) in rw (sym same) made
          ]
        ]

  row_key-message :
      (t : Tuple) (k : Digest)
      → row_key sha relation fingerprint t ≡ ok (some k)
      → (more : Hasher) × (k ≡ sha (new_replay_claim_hasher "pgmigrate-replay-lane-v1" ++ more))
  unfolding row_key finish_key
  row_key-message t k h =
      let begun = new_replay_claim_hasher "pgmigrate-replay-lane-v1" in
      let (out, written, made) =
        >>=-eq-ok
          (write_key_columns relation t (write_replay_hash_bytes begun fingerprint)
            (primary_key_columns relation))
          _ h in
      message out written made
    where
      message :
          (out : Option Hasher)
          → write_key_columns relation t
              (write_replay_hash_bytes
                (new_replay_claim_hasher "pgmigrate-replay-lane-v1")
                fingerprint)
              (primary_key_columns relation)
            ≡ ok out
          → ◌≡◌ {A = Result PlanError (Option Digest)} (ok (finish_key sha out)) (ok (some k))
          → (more : Hasher) × (k ≡ sha (new_replay_claim_hasher "pgmigrate-replay-lane-v1" ++ more))
      message none written made = cc
      message (some out) written made =
          let (more, same) =
            write_key_columns-appends relation t (primary_key_columns relation) _ out written in
          let hashed : sha out ≡ k = cc in
          let begun = new_replay_claim_hasher "pgmigrate-replay-lane-v1" in
          let (first, wrote) = write_replay_hash_bytes-appends begun fingerprint in
          (
            first ++ more,
            sym hashed ∙ ap sha (same ∙ ap (λ h. h ++ more) wrote ∙ append_assoc begun first more),
          )

  -- In a table that is sharded by primary key, two changes that stay in their rows and whose rows have
  -- one primary key get one lane key, whatever their kinds.
  pub same_row_lane_key :
      (c d : Change) (ordered : Bool) (t u : Tuple) (k l : Digest)
      → IsSharded
      → identifying_tuple relation c ≡ ok (some t)
      → identifying_tuple relation d ≡ ok (some u)
      → SameKey relation t u
      → keeps_row relation c ≡ ok true
      → keeps_row relation d ≡ ok true
      → replay_change_key_with_ordered_lane sha relation fingerprint c ordered ≡ ok (some k)
      → replay_change_key_with_ordered_lane sha relation fingerprint d ordered ≡ ok (some l)
      → k ≡ l
  unfolding row_key
  same_row_lane_key c d ordered t u k l sharded in_c in_d same kept_c kept_d key_c key_d =
      let (t', at_c, made_c) = identified c ordered k key_c in
      let (u', at_d, made_d) = identified d ordered l key_d in
      let t_is : t' ≡ t = some_injective (ok_ok (sym at_c ∙ in_c)) in
      let u_is : u' ≡ u = some_injective (ok_ok (sym at_d ∙ in_d)) in
      let row_c = row_of c t k true sharded kept_c (rw (sym t_is) made_c) in
      let row_d = row_of d u l true sharded kept_d (rw (sym u_is) made_d) in
      some_injective (
        ok_ok (
          sym row_c
          ∙ ap (λ w. w >>= λ written. ok (finish_key sha written))
              (write_key_columns-same relation t u (primary_key_columns relation) _ same)
          ∙ row_d))

  -- In a table that is sharded by primary key, a change that may leave its row gets the table's key,
  -- the hash of another message than that of any change that stays in its row.
  pub moved_row-table_key :
      (c d : Change) (ordered : Bool) (k l : Digest)
      → IsSharded
      → keeps_row relation c ≡ ok false
      → keeps_row relation d ≡ ok true
      → replay_change_key_with_ordered_lane sha relation fingerprint c ordered ≡ ok (some k)
      → replay_change_key_with_ordered_lane sha relation fingerprint d ordered ≡ ok (some l)
      → (table row : List ℕ) × (k ≡ sha table) × (l ≡ sha row) × (table ≢ row)
  unfolding replay_relation_lane_key
  moved_row-table_key c d ordered k l sharded moved kept key_c key_d =
      let (t, at_c, made_c) = identified c ordered k key_c in
      let (u, at_d, made_d) = identified d ordered l key_d in
      let by_table = row_of c t k false sharded moved made_c in
      let (more, by_row) = row_key-message u l (row_of d u l true sharded kept made_d) in
      let begun = new_replay_claim_hasher "pgmigrate-replay-relation-lane-v1" in
      let (rest, wrote) = write_replay_hash_bytes-appends begun fingerprint in
      let hashed : sha (write_replay_hash_bytes begun fingerprint) ≡ k =
        some_injective (ok_ok by_table) in
      (begun ++ rest, _, sym hashed ∙ ap sha wrote, by_row, labels-apart more rest)
