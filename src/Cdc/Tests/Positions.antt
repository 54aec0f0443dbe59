-- ===== src/Cdc/Tests/Positions.antt =====
-- The end position of a small log: internal/cdc/end_position.go.
use pgmigrate.Base.{ℕ, ◌≡◌, refl, [], ◌∷◌, Option, none, false, arith}
use pgmigrate.Base.Results.{ok}
use pgmigrate.Cdc.Model.{Transaction}
use pgmigrate.Cdc.EndPosition.{normalize_end_position}
use pgmigrate.Cdc.EndPosition.Newest.{reads_of, normalize_end_position_lem}
use pgmigrate.Cdc.Tests.{first, second}

abbrev no_failure : Transaction → Option ℕ
no_failure tx = none

normalize_end_position_example :
    normalize_end_position no_failure 20 (reads_of (first ∷ second ∷ []))
    ≡ ok (record { requested = 20; boundary = 12; exact = false })
normalize_end_position_example =
    normalize_end_position_lem no_failure (λ tx. refl) 20 (first ∷ second ∷ [])
      (omega arith, (omega arith, tt))
