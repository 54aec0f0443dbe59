-- ===== src/Replay/Plan/Order.antt =====
-- Every step of the planner, internal/cdc/replay_plan.go, buildReplayPlanForGenerationVersion, keeps
-- the order of the transactions.
use pgmigrate.Base.{
  ℕ, suc, ◌≤◌, ◌≡◌, inl, inr, refl, sym, ap, ◌∙◌, false, List, [], ◌∷◌, Option, none, some, arith,
  ltb, ◌==◌, not, ◌||◌, ||-false, ltb→ge, ==→≡,
}
use pgmigrate.Base.Lists.{length, length-append, length-none}
use pgmigrate.Base.Results.{ok, fail_if, ok_ok, >>=-eq-ok, if-eq, passed, seq-ok}
use pgmigrate.Cdc.Model.{Lsn, Transaction}
use pgmigrate.Replay.Claim.{
  invalid_plan_input, uncovered_changes, uncovered_transactions, ReplayClaim, ReplayClaimWork,
}
use pgmigrate.Replay.Hash.{Digest}
use pgmigrate.Replay.Lanes.{PlanTransaction, replay_transaction_component_lanes}
use pgmigrate.Replay.Lanes.Shares.{replay_transaction_component_lanes_lem}
use pgmigrate.Replay.Plan.Work.{
  Resolved, replay_plan_digest, replay_plan_work_changes, replay_plan_work_transactions,
  serial_replay_work,
}
use pgmigrate.Replay.Plan.{
  PlanStep, Planning, ReplayPlan, work_lanes, flushed, flush_parallel, serial_step,
  place_transaction, plan_all, planning, plan_steps, total_changes, named_plan, finish_plan,
  invalid_input, build_replay_plan_for_generation_version,
}
use pgmigrate.Replay.Plan.Loop.{plan_all-keeps}
use pgmigrate.Replay.Plan.Schedules.{
  Planned, Epoch, empty, more, Schedules, start, serial, parallel, Epoch-keyed, work_lanes-used,
}

module _ (sha : List ℕ → Digest) (v lane_count : ℕ) (some_lane : 1 ≤ lane_count)
    (transactions : List Transaction) (relations : List Resolved) where
  Epoch-none :
      (a m : ℕ) (ts : List PlanTransaction)
      → Epoch sha v lane_count transactions relations a ts m
      → length ts ≡ 0
      → a ≡ m
  Epoch-none a m ts (empty _) h = refl
  Epoch-none a m ts (more _ k us t before planned) h =
      let longer = length-append us (t ∷ []) in omega arith

  Epoch-idle :
      (a : ℕ) (ts : List PlanTransaction)
      → length ts ≡ 0
      → Epoch sha v lane_count transactions relations a ts a
  Epoch-idle a ts h = rw (length-none ts h) (empty a)

  -- The steps end where the epoch begins, which ends at `m`.
  abbrev Holds : List PlanStep → List ReplayClaimWork → List PlanTransaction → ℕ → Type 0
  Holds steps works epoch m =
      (a : ℕ) × Schedules sha v lane_count transactions relations steps a
      × Epoch sha v lane_count transactions relations a epoch m

  flush-Holds :
      (p q : Planning) (m : ℕ)
      → Holds p.steps p.works p.current_epoch m
      → flush_parallel sha v lane_count transactions relations p ≡ ok q
      → Schedules sha v lane_count transactions relations q.steps m × (length q.current_epoch ≡ 0)
  unfolding flush_parallel flushed
  flush-Holds p q m (a, steps, epoch) h = elim (if-eq (length p.current_epoch == 0) _ _ h) [
    | inl (idle, same) ↦
        let none_left = ==→≡ (length p.current_epoch) 0 idle in
        let at : a ≡ m = Epoch-none a m p.current_epoch epoch none_left in
        let kept = ok_ok same in rw (sym kept) (rw (sym at) steps, none_left)
    | inr (busy, worked) ↦
        let (lanes, assigned, next) =
          >>=-eq-ok (replay_transaction_component_lanes sha p.current_epoch lane_count) _ worked in
        let ((step_lanes, works), covered, made) =
          >>=-eq-ok (work_lanes sha v lane_count transactions relations (length p.steps) lanes) _
            next in
        let kept = ok_ok made in
        let nonempty : 1 ≤ length p.current_epoch = ground arith in
        let (lanes', assigned', assigns) =
          replay_transaction_component_lanes_lem sha p.current_epoch lane_count nonempty some_lane
            (Epoch-keyed sha v lane_count transactions relations a m p.current_epoch epoch) in
        let same : lanes' ≡ lanes = ok_ok (sym assigned' ∙ assigned) in
        rw (sym kept) (
          parallel p.steps a m p.current_epoch lanes step_lanes steps nonempty epoch
              (rw (sym same) assigns)
              (work_lanes-used sha v lane_count transactions relations (length p.steps) lanes
                (step_lanes, works) covered),
          refl,
        )
  ]

  place-Holds :
      (p q : Planning) (tx : Transaction) (m : ℕ) (found : Option PlanTransaction)
      → Holds p.steps p.works p.current_epoch m
      → ((t : PlanTransaction)
          → found ≡ some t
          → Planned sha v lane_count transactions relations m t)
      → place_transaction sha v lane_count transactions relations m tx p found ≡ ok q
      → Holds q.steps q.works q.current_epoch (suc m)
  unfolding place_transaction serial_step
  place-Holds p q tx m (some t) (a, steps, epoch) planned h =
      let kept = ok_ok h in
      rw (sym kept) (a, steps, more a m p.current_epoch t epoch (planned t refl))
  place-Holds p q tx m none holds planned h =
      let (f, flush, next) =
        >>=-eq-ok (flush_parallel sha v lane_count transactions relations p) _ h in
      let (work, worked, made) = >>=-eq-ok (serial_replay_work sha (length f.steps) m tx) _ next in
      let kept = ok_ok made in
      let (steps, idle) = flush-Holds p f m holds flush in
      rw (sym kept) (suc m, serial f.steps m steps, Epoch-idle (suc m) f.current_epoch idle)

  pub plan_steps-Schedules :
      (q : Planning)
      → plan_steps sha v lane_count transactions relations ≡ ok q
      → Schedules sha v lane_count transactions relations q.steps (length transactions)
  unfolding plan_steps planning
  plan_steps-Schedules q h =
      let (p, planned, flush) =
        >>=-eq-ok
          (plan_all sha v lane_count transactions relations 0 planning transactions relations) _
          h in
      let held =
        plan_all-keeps sha v lane_count transactions relations Holds
          (λ p q tx m found at holds planned placed.
            place-Holds p q tx m found holds planned placed)
          p (0, start, empty 0) planned in
      (flush-Holds p q (length transactions) held flush).0

finish_plan-keeps :
    (sha : List ℕ → Digest) (transactions : List Transaction) (claim : ReplayClaim) (p : Planning)
    (plan : ReplayPlan)
    → finish_plan sha transactions claim p ≡ ok plan
    → (plan.steps ≡ p.steps) × (plan.works ≡ p.works)
unfolding finish_plan named_plan
finish_plan-keeps sha transactions claim p plan h =
    let (changes, h1) =
      seq-ok
        (fail_if (not (total_changes transactions == replay_plan_work_changes p.works))
          uncovered_changes)
        _ h in
    let (count, h2) =
      seq-ok
        (fail_if (not (length transactions == replay_plan_work_transactions p.works))
          uncovered_transactions)
        _ h1 in
    let (digest, digested, made) =
      >>=-eq-ok (replay_plan_digest sha claim transactions p.works) _ h2 in
    let same = ok_ok made in (ap (λ q. q.steps) (sym same), ap (λ q. q.works) (sym same))

lane_given :
    (stream_id generation start_generation : List ℕ) (lane_count : ℕ)
    (transactions : List Transaction) (relations : List Resolved)
    → invalid_input stream_id generation start_generation lane_count transactions relations ≡ false
    → 1 ≤ lane_count
unfolding invalid_input
lane_given stream_id generation start_generation lane_count transactions relations h =
    let names = length stream_id == 0 || length generation == 0 || length start_generation == 0 in
    let a =
      (||-false (names || ltb lane_count 1 || length transactions == 0)
        (not (length relations == length transactions)) h).0 in
    let b = (||-false (names || ltb lane_count 1) (length transactions == 0) a).0 in
    ltb→ge lane_count 1 (||-false names (ltb lane_count 1) b).1

-- A plan that is built schedules every transaction once: its steps hold the transactions from the
-- first to the last, in order, each step one transaction or the lanes of consecutive transactions
-- whose changes all have keys.
pub build_replay_plan-Schedules :
    (sha : List ℕ → Digest) (stream_id generation start_generation : List ℕ) (start_lsn : Lsn)
    (lane_count : ℕ) (transactions : List Transaction) (relations : List Resolved) (v : ℕ)
    (plan : ReplayPlan)
    → build_replay_plan_for_generation_version sha stream_id generation start_generation start_lsn
        lane_count transactions relations v
      ≡ ok plan
    → Schedules sha v lane_count transactions relations plan.steps (length transactions)
unfolding build_replay_plan_for_generation_version
build_replay_plan-Schedules sha stream_id generation start_generation start_lsn lane_count
      transactions relations v plan h =
    let (supported, h1) = seq-ok _ _ h in
    let (valid, h2) =
      seq-ok
        (fail_if
          (invalid_input stream_id generation start_generation lane_count transactions relations)
          invalid_plan_input)
        _ h1 in
    let (p, planned, h3) = >>=-eq-ok (plan_steps sha v lane_count transactions relations) _ h2 in
    let same = (finish_plan-keeps sha transactions _ p plan h3).0 in
    let some_lane =
      lane_given stream_id generation start_generation lane_count transactions relations (
        passed
          (invalid_input stream_id generation start_generation lane_count transactions relations)
          invalid_plan_input valid) in
    rw same (plan_steps-Schedules sha v lane_count some_lane transactions relations p planned)
