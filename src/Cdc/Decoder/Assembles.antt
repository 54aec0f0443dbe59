-- ===== src/Cdc/Decoder/Assembles.antt =====
-- Where the decoder of internal/cdc/pgoutput.go keeps the changes that it is given.
use pgmigrate.Base.{
  ℕ, ◌+◌, ◌≤◌, ◌≡◌, inl, inr, refl, sym, ap, ◌∙◌, true, false, List, [], ◌∷◌, ◌++◌, Option, none,
  some, arith, ltb, Bool-cases,
}
use pgmigrate.Base.Lists.{length, length-append, All, concat_map}
use pgmigrate.Base.Results.{Result, ok, ◌>>=◌, ◌>>◌, fail_if, fold_result, >>=-eq-ok}
use pgmigrate.Cdc.Model.{Change, TransactionSpill, Transaction}
use pgmigrate.Cdc.Codec.Size.{max_u32}
use pgmigrate.Cdc.Codec.Layout.{change_bytes, Fits, CanonicalChange}
use pgmigrate.Cdc.Codec.Write.{Writer}
use pgmigrate.Cdc.Codec.Writes.{Accepts}
use pgmigrate.Cdc.Spill.{new_transaction_spill, append_change, materialize_changes}
use pgmigrate.Cdc.Spill.Changes.{
  Holds, new-Holds, append-All, All-snoc, concat_map-snoc, spilled_changes_lem,
}
use pgmigrate.Cdc.Decoder.{spill_not_created, encoded, spill_current, keep_change}

-- The changes of a transaction, in memory or in its spill.
pub data HeldIn (tx : Transaction) (cs : List Change) : Type 0 where
  resident : tx.spill ≡ none → tx.changes ≡ cs → All CanonicalChange cs → HeldIn tx cs
  spilled : (s : TransactionSpill) → tx.spill ≡ some s → Holds s cs → HeldIn tx cs

pub materialize_changes-HeldIn :
    (tx : Transaction) (cs : List Change)
    → HeldIn tx cs
    → materialize_changes tx ≡ ok (record tx { changes = cs; spill = none })
unfolding materialize_changes
materialize_changes-HeldIn tx cs (resident unspilled same canonical) = rw (unspilled, sym same) refl
materialize_changes-HeldIn tx cs (spilled s at holds) = rw (at, spilled_changes_lem s cs holds) refl

none_first :
    (cs : List Change)
    → Fits (concat_map change_bytes cs)
    → length (concat_map change_bytes []) + length (concat_map change_bytes cs) ≤ max_u32
unfolding concat_map
none_first cs h = omega arith

one_more :
    (cs : List Change) (c : Change)
    → Fits (concat_map change_bytes (cs ++ c ∷ []))
    → length (concat_map change_bytes cs) + length (concat_map change_bytes (c ∷ [])) ≤ max_u32
unfolding concat_map
one_more cs c h =
    let size = length-append (concat_map change_bytes cs) (change_bytes c) in
    let alone = length-append (change_bytes c) [] in
    omega (arith, size, alone, ap length (concat_map-snoc cs c))

some_injective : {A : Type 0} {a b : A} → ◌≡◌ {A = Option A} (some a) (some b) → a ≡ b
some_injective h = cc

fold_one :
    {E A S : Type 0} (f : S → A → Result E S) (s : S) (a : A) (t : S)
    → fold_result f s (a ∷ []) ≡ ok t
    → f s a ≡ ok t
unfolding fold_result
fold_one f s a t h = let (u, first, rest) = >>=-eq-ok (f s a) _ h in first ∙ rest

pub moved_held :
    (tx out : Transaction) (cs : List Change)
    → out.spill ≡ tx.spill
    → out.changes ≡ tx.changes
    → HeldIn tx cs
    → HeldIn out cs
moved_held tx out cs same unchanged (resident unspilled is canonical) =
    resident (same ∙ unspilled) (unchanged ∙ is) canonical
moved_held tx out cs same unchanged (spilled s at holds) = spilled s (same ∙ at) holds

module _ (write : Writer) (accepts : Accepts write) where
  -- What keeping a change does to a transaction.
  pub record Kept (tx : Transaction) (cs : List Change) (kept : Transaction) : Type 0 where
    pub held : HeldIn kept cs
    pub relations_kept : kept.relations ≡ tx.relations
    pub lsn_kept : kept.commit_lsn ≡ tx.commit_lsn

  spill_current-Kept :
      (tx : Transaction) (cs : List Change)
      → tx.changes ≡ cs
      → All CanonicalChange cs
      → Fits (concat_map change_bytes cs)
      → (kept : Transaction) × (spill_current write true tx ≡ ok kept) × Kept tx cs kept
  unfolding spill_current
  spill_current-Kept tx cs same canonical fits =
      let (s, appended, holds) =
        append-All write accepts new_transaction_spill [] cs new-Holds canonical
          (none_first cs fits) in
      let made : (fail_if false spill_not_created
            >> (encoded (fold_result (append_change write) new_transaction_spill tx.changes)
                >>= λ spill. ok (record tx { changes = []; spill = some spill })))
          ≡ ok (record tx { changes = []; spill = some s }) =
        rw (same, appended) refl in
      (
        record tx { changes = []; spill = some s },
        made,
        record { held = spilled s refl holds; relations_kept = refl; lsn_kept = refl },
      )

  pub keep_change-Kept :
      (threshold size : ℕ) (tx : Transaction) (cs : List Change) (c : Change)
      (at : Option TransactionSpill)
      → tx.spill ≡ at
      → HeldIn tx cs
      → CanonicalChange c
      → Fits (concat_map change_bytes (cs ++ c ∷ []))
      → (kept : Transaction) × (keep_change write true threshold size tx at c ≡ ok kept)
        × Kept tx (cs ++ c ∷ []) kept
  unfolding keep_change
  keep_change-Kept threshold size tx cs c none at (spilled s other holds) h fits = cc
  keep_change-Kept threshold size tx cs c (some s) at (resident unspilled same canonical) h fits =
      cc
  keep_change-Kept threshold size tx cs c none at (resident unspilled same canonical) h fits =
      let all = All-snoc cs c canonical h in
      let kept : Transaction = record tx { changes = tx.changes ++ c ∷ [] } in
      let grown : kept.changes ≡ cs ++ c ∷ [] = ap (λ xs. xs ++ c ∷ []) same in
      elim (Bool-cases (ltb threshold size)) [
        | inl over ↦
            let (out, spilled_to, keeps) = spill_current-Kept kept (cs ++ c ∷ []) grown all fits in
            (
              out,
              rw over spilled_to,
              record {
                held = keeps.held;
                relations_kept = keeps.relations_kept;
                lsn_kept = keeps.lsn_kept;
              },
            )
        | inr under ↦ (
          kept,
          rw under refl,
          record { held = resident unspilled grown all; relations_kept = refl; lsn_kept = refl },
        )
      ]
  keep_change-Kept threshold size tx cs c (some s) at (spilled s' other holds) h fits =
      let same : s' ≡ s = some_injective (sym other ∙ at) in
      let (t, appended, more) =
        append-All write accepts s cs (c ∷ []) (rw (sym same) holds) (h, tt) (one_more cs c fits) in
      (
        record tx { spill = some t },
        rw (fold_one (append_change write) s c t appended) refl,
        record { held = spilled t refl more; relations_kept = refl; lsn_kept = refl },
      )
