-- ===== src/Replay/Plan/Totals.antt =====
-- The two checks of the totals in internal/cdc/replay_plan.go,
-- buildReplayPlanForGenerationVersion.
use pgmigrate.Base.{
  ℕ, zero, suc, ◌+◌, ◌≤◌, ◌≡◌, inl, inr, refl, sym, ap, ◌∙◌, List, [], ◌∷◌, Option, none, some,
  arith, ==-self,
}
use pgmigrate.Base.Lists.{length, get_elem?}
use pgmigrate.Base.Results.{ok, ◌>>=◌, ok_ok, >>=-eq-ok, if-eq}
use pgmigrate.Cdc.Model.{Transaction, change_count}
use pgmigrate.Replay.Claim.{ReplayClaim, ReplayClaimWork}
use pgmigrate.Replay.Hash.{Digest, Hasher, new_replay_claim_hasher, write_replay_hash_int}
use pgmigrate.Replay.Lanes.Weights.{sum_by}
use pgmigrate.Replay.Plan.Work.{
  Resolved, not_after, located, hash_planned, hash_lane, hash_transaction, parallel_replay_work,
  serial_replay_work, replay_plan_digest, replay_plan_work_changes, replay_plan_work_transactions,
}
use pgmigrate.Replay.Plan.{Planning, plan_steps, total_changes, finish_plan, named_plan}
use pgmigrate.Replay.Plan.Covers.{prefix, total, plan_steps-total}

changes_in : Option Transaction → ℕ
changes_in none = 0
changes_in (some tx) = change_count tx

abbrev changes_at : List Transaction → ℕ → ℕ
changes_at transactions i = changes_in (get_elem? transactions i)

expected_changes_of : ReplayClaimWork → ℕ
expected_changes_of work = work.expected_changes

expected_transactions_of : ReplayClaimWork → ℕ
expected_transactions_of work = work.expected_transactions

one : ℕ → ℕ
one i = 1

work_changes-total :
    (works : List ReplayClaimWork)
    → replay_plan_work_changes works ≡ total expected_changes_of works
unfolding replay_plan_work_changes expected_changes_of
work_changes-total [] = refl
work_changes-total (work ∷ works) = ap (λ n. work.expected_changes + n) (work_changes-total works)

work_transactions-total :
    (works : List ReplayClaimWork)
    → replay_plan_work_transactions works ≡ total expected_transactions_of works
unfolding replay_plan_work_transactions expected_transactions_of
work_transactions-total [] = refl
work_transactions-total (work ∷ works) =
    ap (λ n. work.expected_transactions + n) (work_transactions-total works)

prefix-one : (n : ℕ) → prefix one n ≡ n
unfolding one
prefix-one zero = refl
prefix-one (suc n) = let rest = prefix-one n in omega arith

prefix-shift : (w : ℕ → ℕ) (n : ℕ) → prefix w (suc n) ≡ w 0 + prefix (λ i. w (suc i)) n
prefix-shift w zero = omega arith
prefix-shift w (suc n) = let rest = prefix-shift w n in omega arith

prefix-changes : (txs : List Transaction) → prefix (changes_at txs) (length txs) ≡ total_changes txs
unfolding total_changes changes_in
prefix-changes [] = refl
prefix-changes (tx ∷ txs) =
    prefix-shift (changes_at (tx ∷ txs)) (length txs)
    ∙ ap (λ n. change_count tx + n) (prefix-changes txs)

sum_by-one : (is : List ℕ) → length is ≡ sum_by one is
unfolding one
sum_by-one [] = refl
sum_by-one (i ∷ is) = let rest = sum_by-one is in omega arith

located-found :
    (tx : Option Transaction) (relations : Option Resolved) (found : Transaction)
    (resolved : Resolved)
    → located tx relations ≡ ok (found, resolved)
    → tx ≡ some found
unfolding located
located-found none relations found resolved h = cc
located-found (some tx) none found resolved h = cc
located-found (some tx) (some r) found resolved h = ap some (ap (λ p. p.0) (ok_ok h))

module _ (sha : List ℕ → Digest) (v : ℕ) (transactions : List Transaction)
    (relations : List Resolved) where
  hash_lane-changes :
      (indexes : List ℕ) (previous : Option ℕ) (hasher : Hasher) (out : Hasher × ℕ)
      → hash_lane sha v transactions relations previous hasher indexes ≡ ok out
      → out.1 ≡ sum_by (changes_at transactions) indexes
  unfolding hash_lane changes_in
  hash_lane-changes [] previous hasher out h = let made = ok_ok h in rw (sym made) refl
  hash_lane-changes (i ∷ is) previous hasher out h = elim (if-eq (not_after previous i) _ _ h) [
    | inl (late, failed) ↦ cc
    | inr (after, later) ↦
        let ((tx, resolved), found, h1) =
          >>=-eq-ok (located (get_elem? transactions i) (get_elem? relations i)) _ later in
        let (hashed, planned, h2) = >>=-eq-ok (hash_planned sha v i hasher tx resolved) _ h1 in
        let (rest, others, made) =
          >>=-eq-ok (hash_lane sha v transactions relations (some i) hashed is) _ h2 in
        let same = ok_ok made in
        rw (sym same, located-found _ _ tx resolved found)
          (ap (λ n. change_count tx + n) (hash_lane-changes is (some i) hashed rest others))
  ]

  lane_changes :
      (step lane : ℕ) (indexes : List ℕ) (work : ReplayClaimWork)
      → parallel_replay_work sha v transactions relations step lane indexes ≡ ok work
      → (expected_changes_of work ≡ sum_by (changes_at transactions) indexes)
        × (expected_transactions_of work ≡ sum_by one indexes)
  unfolding parallel_replay_work expected_changes_of expected_transactions_of
  lane_changes step lane indexes work h =
      let (out, hashed, made) =
        >>=-eq-ok
          (hash_lane sha v transactions relations none
            (write_replay_hash_int
              (write_replay_hash_int (new_replay_claim_hasher "pgmigrate-replay-parallel-work-v1")
                step)
              lane)
            indexes)
          _ h in
      let same = ok_ok made in
      rw (sym same) (hash_lane-changes indexes none _ out hashed, sum_by-one indexes)

  serial_changes :
      (step m : ℕ) (tx : Transaction) (work : ReplayClaimWork)
      → get_elem? transactions m ≡ some tx
      → serial_replay_work sha step m tx ≡ ok work
      → (expected_changes_of work ≡ changes_at transactions m)
        × (expected_transactions_of work ≡ one m)
  unfolding serial_replay_work expected_changes_of expected_transactions_of changes_in one
  serial_changes step m tx work at h =
      let (out, hashed, made) =
        >>=-eq-ok
          (hash_transaction
            (write_replay_hash_int
              (write_replay_hash_int (new_replay_claim_hasher "pgmigrate-replay-serial-work-v1")
                step)
              m)
            tx)
          _ h in
      let same = ok_ok made in rw (sym same, at) (refl, refl)

  plan_steps-covers :
      (lane_count : ℕ) (p : Planning)
      → 1 ≤ lane_count
      → plan_steps sha v lane_count transactions relations ≡ ok p
      → (total_changes transactions ≡ replay_plan_work_changes p.works)
        × (length transactions ≡ replay_plan_work_transactions p.works)
  plan_steps-covers lane_count p some_lane h = (
    sym (prefix-changes transactions)
        ∙ sym (
            plan_steps-total sha v lane_count some_lane transactions relations
              (changes_at transactions) expected_changes_of
              (λ step lane is work made. (lane_changes step lane is work made).0)
              (λ step m tx work at made. (serial_changes step m tx work at made).0) p h)
        ∙ sym (work_changes-total p.works),
    sym (prefix-one (length transactions))
        ∙ sym (
            plan_steps-total sha v lane_count some_lane transactions relations one
              expected_transactions_of
              (λ step lane is work made. (lane_changes step lane is work made).1)
              (λ step m tx work at made. (serial_changes step m tx work at made).1) p h)
        ∙ sym (work_transactions-total p.works),
  )

-- The works of the planned steps hold exactly the transactions and changes that were planned: behind
-- the loop neither check of the totals fails, and the plan is made if its digest is.
pub finish_plan-covered :
    (sha : List ℕ → Digest) (v lane_count : ℕ) (transactions : List Transaction)
    (relations : List Resolved) (claim : ReplayClaim) (p : Planning)
    → 1 ≤ lane_count
    → plan_steps sha v lane_count transactions relations ≡ ok p
    → finish_plan sha transactions claim p ≡ (
        replay_plan_digest sha claim transactions p.works >>= λ digest.
        ok (named_plan claim p digest))
unfolding finish_plan
finish_plan-covered sha v lane_count transactions relations claim p some_lane h =
    let (changes, count) =
      plan_steps-covers sha v transactions relations lane_count p some_lane h in
    rw (sym changes, sym count, ==-self (total_changes transactions), ==-self (length transactions))
      refl
