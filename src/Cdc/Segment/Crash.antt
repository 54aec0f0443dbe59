-- ===== src/Cdc/Segment/Crash.antt =====
-- A crash keeps the synced part of the tail and any prefix of the bytes written behind it.
use mathlib.Core.List.{append_assoc, append-nil}
use pgmigrate.Base.{
  ℕ, zero, suc, ◌+◌, ◌-◌, ◌≤◌, ◌<◌, ◌≡◌, inl, inr, refl, sym, ap, ◌∙◌, true, List, [], ◌∷◌, ◌++◌,
  arith, ltb, Bool-cases, ltb→lt, ltb→ge,
}
use pgmigrate.Base.Lists.{length, take, drop, concat_map}
use pgmigrate.Base.Results.{ok}
use pgmigrate.Cdc.Model.{Lsn, Transaction}
use pgmigrate.Cdc.Segment.Scan.{scan_start, scan_segment}
use pgmigrate.Cdc.Segment.Log.{Log, last_commit, last_end, frame_bytes, log_bytes, scan_log}
use pgmigrate.Cdc.Segment.Torn.{scan_segment-scan_log, scan_segment-torn, scan_log-last_end}

pub Log-append :
    (c e : Lsn) (xs ys : List Transaction)
    → Log c e (xs ++ ys)
    → Log c e xs × Log (last_commit c xs) (last_end e xs) ys
Log-append c e [] ys h = (tt, h)
Log-append c e (x ∷ xs) ys h =
    let (front, back) = Log-append x.commit_lsn x.end_lsn xs ys h.4 in
    ((h.0, h.1, h.2, h.3, front), back)

pub append-Log :
    (c e : Lsn) (xs ys : List Transaction)
    → Log c e xs
    → Log (last_commit c xs) (last_end e xs) ys
    → Log c e (xs ++ ys)
append-Log c e [] ys h k = k
append-Log c e (x ∷ xs) ys h k = (h.0, h.1, h.2, h.3, append-Log x.commit_lsn x.end_lsn xs ys h.4 k)

pub last_end-append :
    (e : Lsn) (xs ys : List Transaction) → last_end e (xs ++ ys) ≡ last_end (last_end e xs) ys
last_end-append e [] ys = refl
last_end-append e (x ∷ xs) ys = last_end-append x.end_lsn xs ys

pub last_commit-append :
    (c : Lsn) (xs ys : List Transaction)
    → last_commit c (xs ++ ys) ≡ last_commit (last_commit c xs) ys
last_commit-append c [] ys = refl
last_commit-append c (x ∷ xs) ys = last_commit-append x.commit_lsn xs ys

pub last_end-ge : (c e : Lsn) (xs : List Transaction) → Log c e xs → e ≤ last_end e xs
last_end-ge c e [] h = omega arith
last_end-ge c e (x ∷ xs) h = omega (arith, h.3, last_end-ge x.commit_lsn x.end_lsn xs h.4)

lt_self : (n : ℕ) → n < n → 1 ≤ 0
lt_self n h = omega (arith, h)

pub nothing_fresh : (c e : Lsn) (xs : List Transaction) → Log c e xs → last_end e xs ≡ e → xs ≡ []
nothing_fresh c e [] h same = refl
nothing_fresh c e (x ∷ xs) h same =
    elim (lt_self e (omega (arith, h.3, same, last_end-ge x.commit_lsn x.end_lsn xs h.4))) [ ]

take-all : (n : ℕ) (xs : List ℕ) → length xs ≤ n → take n xs ≡ xs
take-all zero [] h = refl
take-all (suc n) [] h = refl
take-all zero (x ∷ xs) h = elim h [ ]
take-all (suc n) (x ∷ xs) h = ap (λ t. x ∷ t) (take-all n xs (omega arith))

zero-suc : (n : ℕ) → suc n ≤ 0 → suc n ≤ 0
zero-suc n h = h

take-behind : (xs ys : List ℕ) (n m : ℕ) → n ≡ length xs + m → take n (xs ++ ys) ≡ xs ++ take m ys
take-behind [] ys n m h = ap (λ k. take k ys) (omega (arith, h))
take-behind (x ∷ xs) ys zero m h = elim (zero-suc (length xs + m) (omega (arith, h))) [ ]
take-behind (x ∷ xs) ys (suc n) m h = ap (λ t. x ∷ t) (take-behind xs ys n m (omega (arith, h)))

take-split :
    (n : ℕ) (xs ys : List ℕ)
    → n < length xs
    → (take n (xs ++ ys) ++ drop n xs ≡ xs) × (0 < length (drop n xs))
take-split n [] ys h = elim h [ ]
take-split zero (x ∷ xs) ys h = (refl, omega arith)
take-split (suc n) (x ∷ xs) ys h =
    let (whole, lost) = take-split n xs ys (omega arith) in (ap (λ t. x ∷ t) whole, lost)

module _ (crc : List ℕ → ℕ) where
  -- A log cut short: at a frame's end or within a frame.
  data Cut : List Transaction → List ℕ → Type 0 where
    nothing : (txs : List Transaction) → Cut txs []
    within :
        (tx : Transaction) (txs : List Transaction) (part missing : List ℕ)
        → part ++ missing ≡ frame_bytes crc tx
        → 0 < length missing
        → Cut (tx ∷ txs) part
    behind :
        (tx : Transaction) (txs : List Transaction) (bytes : List ℕ)
        → Cut txs bytes
        → Cut (tx ∷ txs) (frame_bytes crc tx ++ bytes)

  cut : (txs : List Transaction) (n : ℕ) → Cut txs (take n (log_bytes crc txs))
  unfolding concat_map
  cut [] zero = nothing []
  cut [] (suc n) = nothing []
  cut (tx ∷ txs) n = elim (Bool-cases (ltb n (length (frame_bytes crc tx)))) [
    | inl short ↦
        let (whole, lost) =
          take-split n (frame_bytes crc tx) (log_bytes crc txs) (ltb→lt n _ short) in
        within tx txs _ (drop n (frame_bytes crc tx)) whole lost
    | inr long ↦
        rw
          (take-behind (frame_bytes crc tx) (log_bytes crc txs) n (n - length (frame_bytes crc tx))
            (omega (arith, ltb→ge n _ long)))
          (behind tx txs _ (cut txs (n - length (frame_bytes crc tx))))
  ]

  pub log_bytes-append :
      (xs ys : List Transaction) → log_bytes crc (xs ++ ys) ≡ log_bytes crc xs ++ log_bytes crc ys
  unfolding concat_map
  log_bytes-append [] ys = refl
  log_bytes-append (x ∷ xs) ys =
      ap (λ t. frame_bytes crc x ++ t) (log_bytes-append xs ys)
      ∙ sym (append_assoc (frame_bytes crc x) (log_bytes crc xs) (log_bytes crc ys))

  pub log_bytes-snoc :
      (xs : List Transaction) (x : Transaction) (bytes : List ℕ)
      → log_bytes crc (xs ++ (x ∷ [])) ++ bytes ≡ log_bytes crc xs ++ (frame_bytes crc x ++ bytes)
  unfolding concat_map
  log_bytes-snoc [] x bytes = ap (λ t. t ++ bytes) (append-nil (frame_bytes crc x))
  log_bytes-snoc (y ∷ ys) x bytes =
      append_assoc (frame_bytes crc y) _ bytes
      ∙ ap (λ t. frame_bytes crc y ++ t) (log_bytes-snoc ys x bytes)
      ∙ sym (append_assoc (frame_bytes crc y) (log_bytes crc ys) _)

module _ (crc : List ℕ → ℕ) (crc_range : (p : List ℕ) → crc p < 4294967296) where
  -- What recovery makes of a log that was cut behind `safe`.
  abbrev Recovers : Lsn → Lsn → List Transaction → List Transaction → List ℕ → Type 0
  Recovers c e safe fresh bytes =
      (kept : List Transaction) × (lost : List Transaction) × (truncated : ℕ) × (kept ++ lost
        ≡ fresh)
      × (scan_segment crc true c e (log_bytes crc safe ++ bytes)
          ≡ ok (
            record (scan_log (scan_start c e) (safe ++ kept)) { truncated = truncated },
            log_bytes crc (safe ++ kept),
          ))

  recovers :
      (c e : Lsn) (safe fresh : List Transaction) (bytes : List ℕ)
      → Log c e (safe ++ fresh)
      → Cut crc fresh bytes
      → Recovers c e safe fresh bytes
  recovers c e safe fresh bytes h (nothing _) = (
    [],
    fresh,
    (scan_log (scan_start c e) safe).truncated,
    refl,
    rw (append-nil safe, append-nil (log_bytes crc safe))
        (scan_segment-scan_log crc crc_range c e safe (Log-append c e safe fresh h).0 true),
  )
  recovers c e safe fresh bytes h (within tx txs part missing whole lost) = (
    [],
    tx ∷ txs,
    length part,
    refl,
    rw (append-nil safe) (
        scan_segment-torn crc crc_range c e safe (Log-append c e safe (tx ∷ txs) h).0 tx part
          missing ((Log-append c e safe (tx ∷ txs) h).1.0) whole lost),
  )
  recovers c e safe fresh bytes h (behind tx txs rest next) =
      let (kept, lost, truncated, split, scan) =
        recovers c e (safe ++ (tx ∷ [])) txs rest (rw (append_assoc safe (tx ∷ []) txs) h) next in
      (
        tx ∷ kept,
        lost,
        truncated,
        ap (λ t. tx ∷ t) split,
        rw (sym (log_bytes-snoc crc safe tx rest), sym (append_assoc safe (tx ∷ []) kept)) scan,
      )

  -- After a crash that keeps the first `n` bytes behind the synced ones, recovery succeeds, restores
  -- all of the synced transactions and a prefix of the others, in their order, and so ends at or
  -- after the LSN at which the synced ones end.
  pub recovered-Log :
      (c e : Lsn) (safe fresh : List Transaction)
      → Log c e (safe ++ fresh)
      → (n : ℕ)
      → (kept : List Transaction) × (lost : List Transaction) × (truncated : ℕ) × (kept ++ lost
          ≡ fresh)
        × (scan_segment crc true c e (log_bytes crc safe ++ take n (log_bytes crc fresh))
            ≡ ok (
              record (scan_log (scan_start c e) (safe ++ kept)) { truncated = truncated },
              log_bytes crc (safe ++ kept),
            ))
        × (last_end e safe ≤ (scan_log (scan_start c e) (safe ++ kept)).last_end_lsn)
  recovered-Log c e safe fresh h n =
      let (kept, lost, truncated, split, scan) =
        recovers c e safe fresh (take n (log_bytes crc fresh)) h (cut crc fresh n) in
      let tail = Log-append c e safe fresh h in
      let ends : last_end e safe ≤ last_end (last_end e safe) kept =
        last_end-ge (last_commit c safe) (last_end e safe) kept
          (Log-append _ _ kept lost (rw split (tail.1))).0 in
      (
        kept,
        lost,
        truncated,
        split,
        scan,
        omega (
          arith,
          ends,
          scan_log-last_end (scan_start c e) (safe ++ kept),
          last_end-append e safe kept,
        ),
      )
