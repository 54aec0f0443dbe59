-- ===== src/Base/Results.antt =====
-- Go's `(value, error)` results: a value, or an error of the component's own type.
use mathlib.Core.Path.{◌≡◌, refl, ap, ◌∙◌}
use mathlib.Core.Logic.{◌⊎◌, inl, inr}
use mathlib.Core.Bool.{Bool, true, false}
use mathlib.Core.List.{List, [], ◌∷◌, ◌++◌, append_assoc, append-nil}
use pgmigrate.Base.Tests.{if◌then◌else◌}
use pgmigrate.Base.Lists.{concat_map, All}

pub data Result (E : Type 0) (A : Type 0) : Type 0 where
  ok : A → Result E A
  err : E → Result E A

-- `if bad { return error }`.
abbrev pub fail_if : {E : Type 0} → Bool → E → Result E (Unit {0})
fail_if true e = err e
fail_if false e = ok tt

infixl 5 ◌>>=◌ ◌>>◌
abbrev pub ◌>>=◌ : {E A B : Type 0} → Result E A → (A → Result E B) → Result E B
err reason >>= next = err reason
ok value >>= next = next value

abbrev pub ◌>>◌ : {E B : Type 0} → Result E (Unit {0}) → Result E B → Result E B
this >> next = this >>= λ done. next

-- A loop over a list that stops at the first error, with an accumulator.
unfoldable pub fold_result : {E A S : Type 0} → (S → A → Result E S) → S → List A → Result E S
fold_result f s [] = ok s
fold_result f s (x ∷ xs) = f s x >>= λ t. fold_result f t xs

pub Result-cases :
    {E A : Type 0} (r : Result E A) → ((a : A) × (r ≡ ok a)) ⊎ ((e : E) × (r ≡ err e))
Result-cases (ok a) = inl (a, refl)
Result-cases (err e) = inr (e, refl)

pub ok_ok : {E A : Type 0} {a b : A} → ◌≡◌ {A = Result E A} (ok a) (ok b) → a ≡ b
ok_ok h = cc

pub if-eq :
    {A : Type 0} (b : Bool) (x y : A) {z : A}
    → (if b then x else y) ≡ z
    → ((b ≡ true) × (x ≡ z)) ⊎ ((b ≡ false) × (y ≡ z))
if-eq true x y h = inl (refl, h)
if-eq false x y h = inr (refl, h)

-- A guard that was passed.
pub passed : {E : Type 0} (b : Bool) (e : E) → fail_if b e ≡ ok tt → b ≡ false
passed true e h = cc
passed false e h = refl

pub if-ok :
    {E A : Type 0} (b : Bool) (e : E) (x : A) {a : A}
    → (if b then err e else ok x) ≡ ok a
    → (b ≡ false) × (x ≡ a)
if-ok true e x h = cc
if-ok false e x h = (refl, ok_ok h)

-- What a chain that succeeded went through.
pub >>=-eq-ok :
    {E S T : Type 0} (first : Result E S) (next : S → Result E T) {out : T}
    → (first >>= next) ≡ ok out
    → (middle : S) × (first ≡ ok middle) × (next middle ≡ ok out)
>>=-eq-ok (err reason) next joined = cc
>>=-eq-ok (ok middle) next joined = (middle, refl, joined)

pub seq-ok :
    {E A : Type 0} (m : Result E (Unit {0})) (k : Result E A) {a : A}
    → (m >> k) ≡ ok a
    → (m ≡ ok tt) × (k ≡ ok a)
seq-ok (ok t) k h = (refl, h)
seq-ok (err e) k h = cc

-- A loop whose rounds each append an item's bytes appends the bytes of all of them.
pub fold_result-append :
    {E A B : Type 0} {P : A → Type 0} (f : List B → A → Result E (List B)) (bytes : A → List B)
    → ((dst : List B) (x : A) → P x → f dst x ≡ ok (dst ++ bytes x))
    → (dst : List B) (xs : List A) → All P xs
    → fold_result f dst xs ≡ ok (dst ++ concat_map bytes xs)
unfolding fold_result concat_map
fold_result-append f bytes step dst [] h = rw append-nil
fold_result-append f bytes step dst (x ∷ xs) h = rw (step dst x h.0) (
    fold_result-append f bytes step (dst ++ bytes x) xs h.1
    ∙ ap ok (append_assoc dst (bytes x) (concat_map bytes xs)))

-- Chains whose second parts agree.
pub >>=-ext :
    {E A B : Type 0} (m : Result E A) {f g : A → Result E B}
    → ((a : A) → f a ≡ g a)
    → (m >>= f) ≡ (m >>= g)
>>=-ext (ok a) h = h a
>>=-ext (err e) h = refl
