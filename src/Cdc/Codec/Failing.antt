-- ===== src/Cdc/Codec/Failing.antt =====
-- The streaming encoder over a writer that may fail: it fails too, or writes what it writes over one
-- that accepts everything.
use pgmigrate.Base.{
  ℕ, ◌≡◌, ◌⊎◌, inl, inr, refl, sym, Bool, true, false, List, [], ◌∷◌, ◌++◌, Option, none, some,
  if◌then◌else◌, ◌==◌, ltb,
}
use pgmigrate.Base.Bytes.{le_bytes}
use pgmigrate.Base.Lists.{length}
use pgmigrate.Base.Results.{Result, ok, err, ◌>>=◌, fail_if, fold_result}
use pgmigrate.Cdc.Model.{
  TupleDatum, Tuple, Change, TransactionSpill, Transaction, change_truncate, change_count,
}
use pgmigrate.Cdc.Codec.Size.{
  CodecError, has_no_data, has_data, slice, encoded_change_size, transaction_payload_size,
  max_payload_size, payload_too_large,
}
use pgmigrate.Cdc.Codec.Encode.{append_transaction_prefix}
use pgmigrate.Cdc.Codec.Write.{
  Writer, write_bytes, write_datum_to, write_tuple_to, write_options_to, write_change_to,
  write_change, spill_contents, write_body, write_transaction,
}
use pgmigrate.Cdc.Codec.Layout.{payload_bytes, CanonicalTransaction}
use pgmigrate.Cdc.Codec.Writes.{write_transaction_lem}

abbrev pub Agrees : {A : Type 0} → Result CodecError A → Result CodecError A → Type 0
Agrees r s = (r ≡ s) ⊎ ((e : CodecError) × (r ≡ err e))

-- io.Writer's contract: a write that is not whole returns an error.
abbrev pub WritesWhole : Writer → Type 0
WritesWhole write = (out bytes : List ℕ) → Agrees (write out bytes) (ok (out ++ bytes))

Agrees->>= :
    {A B : Type 0} (m n : Result CodecError A) (f g : A → Result CodecError B)
    → Agrees m n
    → ((a : A) → Agrees (f a) (g a))
    → Agrees (m >>= f) (n >>= g)
Agrees->>= (ok a) n f g (inl same) step = rw (sym same) (step a)
Agrees->>= (err e) n f g (inl same) step = inr (e, refl)
Agrees->>= (ok a) n f g (inr (e, fails)) step = cc
Agrees->>= (err d) n f g (inr (e, fails)) step = inr (d, refl)

Agrees-if :
    {A : Type 0} (b : Bool) (x y z w : Result CodecError A)
    → Agrees x z
    → Agrees y w
    → Agrees (if b then x else y) (if b then z else w)
Agrees-if true x y z w h k = h
Agrees-if false x y z w h k = k

Agrees-fold :
    {A S : Type 0} (f g : S → A → Result CodecError S)
    → ((s : S) (x : A) → Agrees (f s x) (g s x))
    → (s : S) (xs : List A) → Agrees (fold_result f s xs) (fold_result g s xs)
unfolding fold_result
Agrees-fold f g step s [] = inl refl
Agrees-fold f g step s (x ∷ xs) =
    Agrees->>= (f s x) (g s x) _ _ (step s x) (λ t. Agrees-fold f g step t xs)

abbrev pub appends : Writer
appends out bytes = ok (out ++ bytes)

module _ (write : Writer) (whole : WritesWhole write) where
  write_bytes-Agrees :
      (out bytes : List ℕ) → Agrees (write_bytes write out bytes) (write_bytes appends out bytes)
  unfolding write_bytes
  write_bytes-Agrees out [] = inl refl
  write_bytes-Agrees out (b ∷ bytes) = whole out (b ∷ bytes)

  write_datum_to-Agrees :
      (out : List ℕ) (d : TupleDatum)
      → Agrees (write_datum_to write out d) (write_datum_to appends out d)
  unfolding write_datum_to
  write_datum_to-Agrees out d =
      Agrees->>= (write out (d.kind ∷ [])) (ok (out ++ d.kind ∷ [])) _ _ (whole out (d.kind ∷ []))
        (λ kind. Agrees-if (has_no_data d.kind) _ _ _ _ (inl refl) (
          Agrees-if (has_data d.kind) _ _ _ _
            (Agrees->>= (write kind (le_bytes 4 (length (slice d.bytes))))
              (ok (kind ++ le_bytes 4 (length (slice d.bytes)))) _ _ (whole kind _)
              (λ o. write_bytes-Agrees o (slice d.bytes)))
            (inl refl)))

  write_tuple_to-Agrees :
      (out : List ℕ) (t : Option Tuple)
      → Agrees (write_tuple_to write out t) (write_tuple_to appends out t)
  unfolding write_tuple_to
  write_tuple_to-Agrees out none = whole out (0 ∷ [])
  write_tuple_to-Agrees out (some t) =
      Agrees->>= (write out (1 ∷ le_bytes 4 (length t))) (ok (out ++ 1 ∷ le_bytes 4 (length t))) _ _
        (whole out _)
        (λ o. Agrees-fold (write_datum_to write) (write_datum_to appends) write_datum_to-Agrees o t)

  write_options_to-Agrees :
      (out : List ℕ) (c : Change)
      → Agrees (write_options_to write out c) (write_options_to appends out c)
  unfolding write_options_to
  write_options_to-Agrees out c =
      Agrees-if (c.kind == change_truncate) _ _ _ _ (whole out _) (inl refl)

  write_change_to-Agrees :
      (out : List ℕ) (c : Change)
      → Agrees (write_change_to write out c) (write_change_to appends out c)
  unfolding write_change_to
  write_change_to-Agrees out c =
      Agrees->>= (encoded_change_size c) (encoded_change_size c) _ _ (inl refl) (λ size.
        Agrees->>= (write out (le_bytes 4 c.relation_oid ++ c.kind ∷ []))
          (ok (out ++ (le_bytes 4 c.relation_oid ++ c.kind ∷ []))) _ _ (whole out _)
          (λ fixed.
            Agrees->>= (write_options_to write fixed c) (write_options_to appends fixed c) _ _
              (write_options_to-Agrees fixed c)
              (λ options.
                Agrees->>= (write_tuple_to write options c.old)
                  (write_tuple_to appends options c.old) _ _ (write_tuple_to-Agrees options c.old)
                  (λ old.
                    Agrees->>= (write_tuple_to write old c.new) (write_tuple_to appends old c.new) _
                      _ (write_tuple_to-Agrees old c.new) (λ new. inl refl)))))

  write_change-Agrees :
      (out : List ℕ) (c : Change) → Agrees (write_change write out c) (write_change appends out c)
  unfolding write_change
  write_change-Agrees out c =
      Agrees->>= (write_change_to write out c) (write_change_to appends out c) _ _
        (write_change_to-Agrees out c) (λ p. inl refl)

  write_body-Agrees :
      (out : List ℕ) (spill : Option TransactionSpill) (tx : Transaction)
      → Agrees (write_body write out spill tx) (write_body appends out spill tx)
  unfolding write_body
  write_body-Agrees out none tx =
      Agrees-fold (write_change write) (write_change appends) write_change-Agrees out tx.changes
  write_body-Agrees out (some s) tx =
      Agrees->>= (spill_contents s s.file) (spill_contents s s.file) _ _ (inl refl)
        (λ contents. whole out contents)

  write_transaction-Agrees :
      (out : List ℕ) (tx : Transaction)
      → Agrees (write_transaction write out (some tx)) (write_transaction appends out (some tx))
  unfolding write_transaction
  write_transaction-Agrees out tx =
      Agrees->>= (transaction_payload_size (some tx)) (transaction_payload_size (some tx)) _ _
        (inl refl)
        (λ size.
          Agrees->>= (fail_if (ltb max_payload_size size) payload_too_large)
            (fail_if (ltb max_payload_size size) payload_too_large) _ _ (inl refl)
            (λ fits.
              Agrees->>= (append_transaction_prefix [] tx (change_count tx))
                (append_transaction_prefix [] tx (change_count tx)) _ _ (inl refl)
                (λ prefix.
                  Agrees->>= (write out prefix) (ok (out ++ prefix)) _ _ (whole out prefix) (λ o.
                    Agrees->>= (write_body write o tx.spill tx) (write_body appends o tx.spill tx) _
                      _ (write_body-Agrees o tx.spill tx) (λ body. inl refl)))))

  -- The streaming encoder writes exactly the layout, or fails.
  pub write_transaction-whole :
      (tx : Transaction)
      → CanonicalTransaction tx
      → (out : List ℕ)
      → Agrees
          (write_transaction write out (some tx))
          (ok (out ++ payload_bytes tx, length (payload_bytes tx)))
  write_transaction-whole tx h out =
      rw (sym (write_transaction_lem appends (λ o b. refl) tx h out))
        (write_transaction-Agrees out tx)
