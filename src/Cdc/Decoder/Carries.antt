-- ===== src/Cdc/Decoder/Carries.antt =====
-- What the decoder of internal/cdc/pgoutput.go keeps of the changes that it is given, and of their
-- relations.
use mathlib.Core.List.{Memᴰ}
use pgmigrate.Base.{
  ℕ, ◌+◌, ◌≡◌, ◌⊎◌, inl, inr, refl, sym, ap, ◌∙◌, true, false, List, [], ◌∷◌, ◌++◌, some, ◌==◌,
  ==→≡, ==-self, Bool-cases,
}
use pgmigrate.Base.Lists.{length, All, All-append, All-map, concat_map}
use pgmigrate.Base.Results.{ok, ◌>>=◌}
use pgmigrate.Cdc.Model.{Relation, Change, Transaction, u64}
use pgmigrate.Cdc.Codec.Size.{encoded_change_size}
use pgmigrate.Cdc.Codec.Layout.{
  change_bytes, relation_bytes, Fits, CanonicalChange, CanonicalRelation,
}
use pgmigrate.Cdc.Codec.Sizes.{encoded_relation_size_lem, encoded_change_size_lem}
use pgmigrate.Cdc.Codec.Write.{Writer}
use pgmigrate.Cdc.Codec.Writes.{Accepts}
use pgmigrate.Cdc.Decoder.Assembles.{HeldIn, moved_held, keep_change-Kept}
use pgmigrate.Cdc.Decoder.{
  Decoder, encoded, cached, is_required, require_relation, keep_change, add_to, add_change,
}

is_required_first : (oid : ℕ) (known : List ℕ) → is_required (oid ∷ known) oid ≡ true
unfolding is_required
is_required_first oid known = rw (==-self oid) refl

is_required_later :
    (oid other : ℕ) (known : List ℕ)
    → is_required known other ≡ true
    → is_required (oid ∷ known) other ≡ true
unfolding is_required
is_required_later oid other known h = elim (Bool-cases (oid == other)) [
  | inl same ↦ rw same refl
  | inr different ↦ rw different h
]

is_required_cases :
    (oid other : ℕ) (known : List ℕ)
    → is_required (oid ∷ known) other ≡ true
    → (oid ≡ other) ⊎ (is_required known other ≡ true)
unfolding is_required
is_required_cases oid other known h = elim (Bool-cases (oid == other)) [
  | inl same ↦ inl (==→≡ oid other same)
  | inr different ↦ inr (rw different at h)
]

Memᴰ-last : (r : Relation) (rs : List Relation) → Memᴰ r (rs ++ r ∷ [])
Memᴰ-last r [] = Memᴰ.head refl
Memᴰ-last r (x ∷ xs) = Memᴰ.tail (Memᴰ-last r xs)

Memᴰ-before : (q r : Relation) (rs : List Relation) → Memᴰ q rs → Memᴰ q (rs ++ r ∷ [])
Memᴰ-before q r [] m = elim m [ ]
Memᴰ-before q r (x ∷ xs) (Memᴰ.head e) = Memᴰ.head e
Memᴰ-before q r (x ∷ xs) (Memᴰ.tail m) = Memᴰ.tail (Memᴰ-before q r xs m)

module _ (write : Writer) (accepts : Accepts write) where
  -- The relations of changes are cached and can be encoded.
  abbrev pub IsCached : List (ℕ × Relation) → Change → Type 0
  IsCached relations c =
      (r : Relation) × (cached relations c.relation_oid ≡ some r) × CanonicalRelation r

  -- An active transaction that holds the changes and the relations of the required OIDs.
  pub record Carries (relations : List (ℕ × Relation)) (lsn : ℕ) (cs : List Change) (d : Decoder)
      : Type 0 where
    pub tx : Transaction
    pub cache : d.relations ≡ relations
    pub active : d.current ≡ some tx
    pub begun_at : tx.commit_lsn ≡ lsn
    pub held : HeldIn tx cs
    pub complete :
        (oid : ℕ)
        → is_required d.required oid ≡ true
        → (r : Relation) × (cached relations oid ≡ some r) × Memᴰ r tx.relations
    pub used : All (λ c. is_required d.required c.relation_oid ≡ true) cs
    pub running : (d.closed ≡ false) × (d.init_error ≡ false)

  abbrev pub Complete : List (ℕ × Relation) → List ℕ → List Relation → Type 0
  Complete relations required known =
      (oid : ℕ)
      → is_required required oid ≡ true
      → (r : Relation) × (cached relations oid ≡ some r) × Memᴰ r known

  -- What requiring a relation keeps.
  record Requires (relations : List (ℕ × Relation)) (d : Decoder) (tx : Transaction) (oid : ℕ)
      (e : Decoder) (out : Transaction) : Type 0 where
    same_cache : e.relations ≡ d.relations
    same_running : (e.closed ≡ d.closed) × (e.init_error ≡ d.init_error)
    same_changes :
        (out.spill ≡ tx.spill) × (out.changes ≡ tx.changes) × (out.commit_lsn ≡ tx.commit_lsn)
    now_required : is_required e.required oid ≡ true
    still_required :
        (other : ℕ) → is_required d.required other ≡ true → is_required e.required other ≡ true
    still_complete : Complete relations e.required out.relations

  require_relation-Requires :
      (relations : List (ℕ × Relation)) (d : Decoder) (tx : Transaction) (r : Relation) (oid : ℕ)
      → cached relations oid ≡ some r
      → CanonicalRelation r
      → Complete relations d.required tx.relations
      → (e : Decoder) × (out : Transaction) × (require_relation write true d tx r oid ≡ ok (e, out))
        × Requires relations d tx oid e out
  unfolding require_relation
  require_relation-Requires relations d tx r oid found canonical complete =
      elim (Bool-cases (is_required d.required oid)) [
        | inl already ↦ (
          d,
          tx,
          rw already refl,
          record {
            same_cache = refl;
            same_running = (refl, refl);
            same_changes = (refl, refl, refl);
            now_required = already;
            still_required = λ other h. h;
            still_complete = complete;
          },
        )
        | inr first ↦ (
          record d {
            required = oid ∷ d.required;
            encoded_size = u64 (d.encoded_size + u64 (length (relation_bytes r)));
          },
          record tx { relations = tx.relations ++ r ∷ [] },
          rw (first, encoded_relation_size_lem r canonical) refl,
          record {
            same_cache = refl;
            same_running = (refl, refl);
            same_changes = (refl, refl, refl);
            now_required = is_required_first oid d.required;
            still_required = λ other h. is_required_later oid other d.required h;
            still_complete = λ other h. elim (is_required_cases oid other d.required h) [
              | inl same ↦ (r, ap (cached relations) (sym same) ∙ found, Memᴰ-last r tx.relations)
              | inr before ↦
                  let (q, at, known) = complete other before in
                  (q, at, Memᴰ-before q r tx.relations known)
            ];
          },
        )
      ]

  same_relations :
      (relations : List (ℕ × Relation)) (required : List ℕ) {known kept : List Relation}
      → Complete relations required known
      → kept ≡ known
      → Complete relations required kept
  same_relations relations required complete same = rw same complete

  add_required :
      (d : Decoder) (c : Change) (tx : Transaction) (r : Relation) (e : Decoder) (out : Transaction)
      → require_relation write true d tx r c.relation_oid ≡ ok (e, out)
      → add_to write true d c (some tx) (some r) ≡ (
          encoded (encoded_change_size c) >>= λ s.
          keep_change write true e.spill_threshold (u64 (e.encoded_size + s)) out out.spill c
          >>= λ k. ok (record e { current = some k; encoded_size = u64 (e.encoded_size + s) }))
  unfolding add_to
  add_required d c tx r e out required = rw required refl

  pub add_change-Carries :
      (relations : List (ℕ × Relation)) (lsn : ℕ) (cs : List Change) (d : Decoder) (c : Change)
      → Carries relations lsn cs d
      → IsCached relations c
      → CanonicalChange c
      → Fits (concat_map change_bytes (cs ++ c ∷ []))
      → (e : Decoder) × (add_change write true d c ≡ ok e) × Carries relations lsn (cs ++ c ∷ []) e
  unfolding add_change add_to
  add_change-Carries relations lsn cs d c carries (r, found, canonical) h fits =
      let (e, out, required, requires) =
        require_relation-Requires relations d carries.tx r c.relation_oid found canonical
          carries.complete in
      let (unspilled, unchanged, same_lsn) = requires.same_changes in
      let size = u64 (length (change_bytes c)) in
      let (kept, keeps, all) =
        keep_change-Kept write accepts e.spill_threshold (u64 (e.encoded_size + size)) out cs c
          out.spill refl (moved_held carries.tx out cs unspilled unchanged carries.held) h fits in
      let grown = u64 (e.encoded_size + size) in
      let next : Decoder = record e { current = some kept; encoded_size = grown } in
      let later : (encoded (encoded_change_size c) >>= λ s.
      keep_change write true e.spill_threshold (u64 (e.encoded_size + s)) out out.spill c >>= λ k.
      ok (record e { current = some k; encoded_size = u64 (e.encoded_size + s) }))
          ≡ ok next =
        rw (encoded_change_size_lem c h, keeps) refl in
      let cached_here : cached d.relations c.relation_oid ≡ some r =
        ap (λ known. cached known c.relation_oid) carries.cache ∙ found in
      (
        next,
        ap (λ current. add_to write true d c current (cached d.relations c.relation_oid))
              carries.active
            ∙ ap (add_to write true d c (some carries.tx)) cached_here
            ∙ add_required d c carries.tx r e out required
            ∙ later,
        record {
          tx = kept;
          cache = requires.same_cache ∙ carries.cache;
          active = refl;
          begun_at = all.lsn_kept ∙ same_lsn ∙ carries.begun_at;
          held = all.held;
          complete = same_relations relations e.required requires.still_complete all.relations_kept;
          used =
              All-append (λ x. is_required e.required x.relation_oid ≡ true) cs (c ∷ [])
                (All-map (λ x u. requires.still_required x.relation_oid u) cs carries.used)
                (requires.now_required, tt);
          running = (
            requires.same_running.0 ∙ carries.running.0,
            requires.same_running.1 ∙ carries.running.1,
          );
        },
      )
