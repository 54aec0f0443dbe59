-- ===== src/Cdc/EndPosition/Newest.antt =====
-- The boundary that NormalizeEndPosition, internal/cdc/end_position.go, finds.
use pgmigrate.Base.{
  ℕ, ◌≤◌, ◌<◌, ◌≡◌, inl, inr, refl, false, List, [], ◌∷◌, Option, none, arith, ltb, ltb→lt, lt→ltb,
  lt→==, gt→==, ◌==◌, ==→≡, if◌then◌else◌, Bool-cases,
}
use pgmigrate.Base.Results.{Result, ok, err}
use pgmigrate.Cdc.Model.{Lsn, Transaction}
use pgmigrate.Cdc.EndPosition.{
  EndPositionResolution, EndPositionError, zero_requested, no_boundary, resolved, after_cleanup,
  normalize, normalize_end_position,
}

-- Transactions that end one after another, above `low`.
abbrev pub Ascends : Lsn → List Transaction → Type 0
Ascends low [] = Unit
Ascends low (tx ∷ txs) = (low < tx.end_lsn) × Ascends tx.end_lsn txs

abbrev pub reads_of : {E : Type 0} → List Transaction → List (Result E Transaction)
reads_of [] = []
reads_of (tx ∷ txs) = ok tx ∷ reads_of txs

-- The newest end at or before `requested`, and `low` if there is none.
abbrev pub newest : Lsn → Lsn → List Transaction → Lsn
newest requested low [] = low
newest requested low (tx ∷ txs) =
    let later = newest requested tx.end_lsn txs in
    let kept = newest requested low txs in if ltb requested tx.end_lsn then kept else later

nothing_later :
    (requested low high : Lsn) (txs : List Transaction)
    → requested ≤ high
    → Ascends high txs
    → newest requested low txs ≡ low
nothing_later requested low high [] h ascends = refl
nothing_later requested low high (tx ∷ txs) h ascends =
    rw (lt→ltb requested tx.end_lsn (omega (arith, ascends.0)))
      (nothing_later requested low tx.end_lsn txs (omega (arith, ascends.0)) ascends.1)

-- What is resolved at a boundary: nothing at 0, else the boundary, exact if it was requested.
abbrev pub resolution : {E : Type 0} → Lsn → Lsn → Result (EndPositionError E) EndPositionResolution
resolution requested boundary =
    if boundary == 0
    then err no_boundary
    else ok (record { requested = requested; boundary = boundary; exact = boundary == requested })

before_it : (a b : ℕ) → ltb b a ≡ false → (a == b) ≡ false → a < b
before_it a b h k = ground arith

positive : (n : ℕ) → (n == 0) ≡ false → 0 < n
positive n h = ground arith

module _ {E : Type 0} (cleanup_spill : Transaction → Option E)
    (clean : (tx : Transaction) → cleanup_spill tx ≡ none) where
  normalize_lem :
      (requested low : Lsn) (txs : List Transaction)
      → low < requested
      → Ascends low txs
      → ◌≡◌ {A = Result (EndPositionError E) EndPositionResolution}
          (normalize cleanup_spill
            (record { requested = requested; boundary = low; exact = false })
            (reads_of txs))
          (resolution requested (newest requested low txs))
  unfolding normalize resolved after_cleanup
  normalize_lem requested low [] h ascends = rw (lt→== low requested h) refl
  normalize_lem requested low (tx ∷ txs) h ascends = elim (Bool-cases (ltb requested tx.end_lsn)) [
    | inl beyond ↦
        let past = ltb→lt requested tx.end_lsn beyond in
        rw
          (
            beyond,
            clean tx,
            nothing_later requested low tx.end_lsn txs (omega arith) ascends.1,
            lt→== low requested h,
          )
          refl
    | inr within ↦ elim (Bool-cases (tx.end_lsn == requested)) [
      | inl same ↦
          let exact = ==→≡ tx.end_lsn requested same in
          rw
            (
              within,
              clean tx,
              nothing_later requested tx.end_lsn tx.end_lsn txs (omega arith) ascends.1,
              gt→== tx.end_lsn 0 (omega arith),
              same,
            )
            refl
      | inr other ↦
          let before : tx.end_lsn < requested = before_it tx.end_lsn requested within other in
          rw (within, other, clean tx) (normalize_lem requested tx.end_lsn txs before ascends.1)
    ]
  ]

-- For transactions whose ends ascend from above 0, and if every CleanupSpill succeeds, a requested
-- position other than 0 is resolved to the newest end at or before it, exactly if that is the position
-- itself; without such an end, and for the position 0, there is an error.
pub normalize_end_position_lem :
    {E : Type 0} (cleanup_spill : Transaction → Option E)
    → ((tx : Transaction) → cleanup_spill tx ≡ none)
    → (requested : Lsn) (txs : List Transaction) → Ascends 0 txs
    → ◌≡◌ {A = Result (EndPositionError E) EndPositionResolution}
        (normalize_end_position cleanup_spill requested (reads_of txs))
        (if requested == 0
          then err zero_requested
          else resolution requested (newest requested 0 txs))
unfolding normalize_end_position
normalize_end_position_lem cleanup_spill clean requested txs ascends =
    elim (Bool-cases (requested == 0)) [
      | inl nothing ↦ rw nothing refl
      | inr other ↦
          rw other
            (normalize_lem cleanup_spill clean requested 0 txs (positive requested other) ascends)
    ]
