-- ===== src/Replay/Lanes/Joined.antt =====
-- The loop over keys in replayTransactionComponentLanes, internal/cdc/replay_plan.go, joins the
-- transactions that share a key.
use pgmigrate.Base.{
  ℕ, zero, suc, ◌+◌, ◌≤◌, ◌<◌, ◌≡◌, ◌⊎◌, inl, inr, refl, sym, ap, ◌∙◌, List, [], ◌∷◌, none, some,
  arith, positive-==, Bool-cases, Option-cases,
}
use pgmigrate.Base.Lists.{length, get_or, All, All-map, get_elem?}
use pgmigrate.Base.Results.{ok, if-eq}
use pgmigrate.Cdc.Codec.Decode.{same_bytes}
use pgmigrate.Cdc.Codec.Same.{same_bytes→≡, same_bytes_self}
use pgmigrate.Replay.Hash.{Digest}
use pgmigrate.Replay.UnionFind.{union}
use pgmigrate.Replay.UnionFind.Roots.{top}
use pgmigrate.Replay.UnionFind.Unions.{Together, WellRooted, deeper, union-Joins}
use pgmigrate.Replay.Lanes.{
  PlanTransaction, Components, first_of, place_key, add_key, add_keys, add_transactions, key_count,
  range, initial_components,
}

-- The tree of transaction `index` holds the first transaction that has the key.
abbrev pub Owned : Components → ℕ → Digest → Type 0
Owned c index key =
    (first : ℕ) × (first_of key c.first_by_key ≡ some first) × Together c.forest.parents first index

pub record Sound (n d : ℕ) (c : Components) : Type 0 where
  pub trees : WellRooted n d c.forest.parents
  pub firsts : (key : Digest) (first : ℕ) → first_of key c.first_by_key ≡ some first → first < n

pub record Advances (n d : ℕ) (c e : Components) : Type 0 where
  pub sound : Sound n d e
  pub owned : (index : ℕ) (key : Digest) → Owned c index key → Owned e index key

Advances-trans :
    {n d m : ℕ} {c e f : Components} → Advances n d c e → Advances n m e f → Advances n m c f
Advances-trans a b = record { sound = b.sound; owned = λ i k o. b.owned i k (a.owned i k o) }

-- A further key hides none that was there.
first_of_wider :
    (key other : Digest) (first index : ℕ) (known : List (Digest × ℕ))
    → first_of other known ≡ none
    → first_of key known ≡ some first
    → first_of key ((other, index) ∷ known) ≡ some first
unfolding first_of
first_of_wider key other first index known absent found = elim (Bool-cases (same_bytes other key)) [
  | inl same ↦
      let renamed : first_of key known ≡ none = rw (sym (same_bytes→≡ other key same)) absent in
      cc (renamed, found)
  | inr distinct ↦ rw distinct found
]

first_of_new :
    (key : Digest) (index : ℕ) (known : List (Digest × ℕ))
    → first_of key ((key, index) ∷ known) ≡ some index
unfolding first_of
first_of_new key index known = rw (same_bytes_self key) refl

first_of_cases :
    (key other : Digest) (index first : ℕ) (known : List (Digest × ℕ))
    → first_of key ((other, index) ∷ known) ≡ some first
    → (index ≡ first) ⊎ (first_of key known ≡ some first)
unfolding first_of
first_of_cases key other index first known h =
    elim (if-eq (same_bytes other key) (some index) (first_of key known) h) [
      | inl (same, found) ↦ inl cc
      | inr (distinct, found) ↦ inr found
    ]

Owned-cons :
    (e : Components) (index : ℕ) (t : PlanTransaction) (ts : List PlanTransaction)
    → All (Owned e index) t.keys
    → ((i j : ℕ) (u : PlanTransaction)
        → get_elem? ts i ≡ some u
        → suc index + i ≡ j
        → All (Owned e j) u.keys)
    → (i j : ℕ) (u : PlanTransaction) → get_elem? (t ∷ ts) i ≡ some u
    → index + i ≡ j
    → All (Owned e j) u.keys
Owned-cons e index t ts own owns zero j u at place =
    let same : t ≡ u = cc in let here : index ≡ j = omega arith in rw (sym same, sym here) own
Owned-cons e index t ts own owns (suc i) j u at place = owns i j u at (omega arith)

module _ (n fuel : ℕ) where
  new_key :
      (d index : ℕ) (c : Components) (key : Digest)
      → index < n
      → Sound n d c
      → first_of key c.first_by_key ≡ none
      → Advances n (suc d) c (record c { first_by_key = (key, index) ∷ c.first_by_key })
        × Owned (record c { first_by_key = (key, index) ∷ c.first_by_key }) index key
  new_key d index c key h sound absent =
      let (r, in_r, climb) = sound.trees.rooted index h in
      (
        record {
          sound = record {
            trees = deeper n d c.forest.parents sound.trees;
            firsts = λ other first found.
                elim (first_of_cases other key index first c.first_by_key found) [
                  | inl same ↦ rw (sym same) h
                  | inr known ↦ sound.firsts other first known
                ];
          };
          owned = λ i other (first, found, together).
              (first, first_of_wider other key first index c.first_by_key absent found, together);
        },
        (index, first_of_new key index c.first_by_key, (r, (d, climb), (d, climb))),
      )

  known_key :
      (d index first : ℕ) (c : Components) (key : Digest)
      → d ≤ fuel
      → index < n
      → Sound n d c
      → first_of key c.first_by_key ≡ some first
      → Advances n (suc d) c (record c { forest = union fuel c.forest first index })
        × Owned (record c { forest = union fuel c.forest first index }) index key
  known_key d index first c key le h sound found =
      let joins =
        union-Joins n d fuel c.forest first index le (sound.firsts key first found) h sound.trees in
      (
        record {
          sound = record { trees = joins.trees; firsts = sound.firsts };
          owned = λ i other (f, known, together). (f, known, joins.together f i together);
        },
        (first, found, joins.joined),
      )

  pub add_key-Advances :
      (d index : ℕ) (c : Components) (key : Digest)
      → d ≤ fuel
      → index < n
      → Sound n d c
      → Advances n (suc d) c (add_key fuel index c key) × Owned (add_key fuel index c key) index key
  unfolding add_key place_key
  add_key-Advances d index c key le h sound = elim (Option-cases (first_of key c.first_by_key)) [
    | inl absent ↦ rw absent (new_key d index c key h sound absent)
    | inr (first, found) ↦ rw found (known_key d index first c key le h sound found)
  ]

  pub add_keys-Advances :
      (keys : List Digest) (d m index : ℕ) (c : Components)
      → d + length keys ≡ m
      → m ≤ fuel
      → index < n
      → Sound n d c
      → Advances n m c (add_keys fuel index c keys)
        × All (Owned (add_keys fuel index c keys) index) keys
  unfolding add_keys
  add_keys-Advances [] d m index c count le h sound =
      let same : d ≡ m = omega arith in
      (record { sound = rw (sym same) sound; owned = λ i k o. o }, tt)
  add_keys-Advances (key ∷ keys) d m index c count le h sound =
      let (one, own) = add_key-Advances d index c key (omega arith) h sound in
      let (rest, owns) =
        add_keys-Advances keys (suc d) m index (add_key fuel index c key) (omega arith) le h
          one.sound in
      (Advances-trans one rest, (rest.owned index key own, owns))

  -- The whole loop: no error, and each transaction is in the trees of its keys.
  pub add_transactions-Advances :
      (ts : List PlanTransaction) (d m index : ℕ) (c : Components)
      → All (λ t. 1 ≤ length t.keys) ts
      → d + key_count ts ≡ m
      → m ≤ fuel
      → index + length ts ≤ n
      → Sound n d c
      → (e : Components) × (add_transactions fuel index c ts ≡ ok e)
        × Advances n m c e
        × ((i j : ℕ) (t : PlanTransaction)
            → get_elem? ts i ≡ some t
            → index + i ≡ j
            → All (Owned e j) t.keys)
  unfolding add_transactions key_count
  add_transactions-Advances [] d m index c keyed count le h sound =
      let same : d ≡ m = omega arith in
      (c, refl, record { sound = rw (sym same) sound; owned = λ i k o. o }, λ i j t at. cc)
  add_transactions-Advances (t ∷ ts) d m index c keyed count le h sound =
      let (one, own) =
        add_keys-Advances t.keys d (d + length t.keys) index c refl (omega arith) (omega arith)
          sound in
      let (e, same, rest, owns) =
        add_transactions-Advances ts (d + length t.keys) m (suc index)
          (add_keys fuel index c t.keys) keyed.1 (omega arith) le (omega arith) one.sound in
      (
        e,
        rw (positive-== (length t.keys) keyed.0) same,
        Advances-trans one rest,
        Owned-cons e index t ts (All-map (λ k o. rest.owned index k o) t.keys own) owns,
      )

length-range : (start n : ℕ) → length (range start n) ≡ n
unfolding range
length-range start zero = refl
length-range start (suc n) = ap suc (length-range (suc start) n)

get_or-range : (start n v d : ℕ) → v < n → get_or (range start n) v d ≡ start + v
unfolding range
get_or-range start zero v d h = elim h [ ]
get_or-range start (suc n) zero d h = omega arith
get_or-range start (suc n) (suc v) d h = get_or-range (suc start) n v d (omega arith) ∙ omega arith

pub initial-Sound : (n : ℕ) → Sound n 0 (initial_components n)
unfolding initial_components first_of
initial-Sound n = record {
  trees = record {
    size = length-range 0 n;
    rooted = λ v h. (v, h, top 0 v (get_or-range 0 n v v h ∙ omega arith));
  };
  firsts = λ key first found. cc;
}
