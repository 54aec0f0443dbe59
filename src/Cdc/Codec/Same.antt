-- ===== src/Cdc/Codec/Same.antt =====
-- same_bytes decides the equality of byte strings.
use pgmigrate.Base.{ℕ, ◌≡◌, refl, true, List, [], ◌∷◌, ◌==◌, ==→≡, ==-self, &&-true}
use pgmigrate.Cdc.Codec.Decode.{same_bytes}

pub same_bytes→≡ : (xs ys : List ℕ) → same_bytes xs ys ≡ true → xs ≡ ys
unfolding same_bytes
same_bytes→≡ [] [] h = refl
same_bytes→≡ [] (y ∷ ys) h = cc
same_bytes→≡ (x ∷ xs) [] h = cc
same_bytes→≡ (x ∷ xs) (y ∷ ys) h =
    let (same, rest) = &&-true (x == y) (same_bytes xs ys) h in
    let tails = same_bytes→≡ xs ys rest in rw (==→≡ x y same, tails) refl

pub same_bytes_self : (xs : List ℕ) → same_bytes xs xs ≡ true
unfolding same_bytes
same_bytes_self [] = refl
same_bytes_self (x ∷ xs) = rw (==-self x) (same_bytes_self xs)
