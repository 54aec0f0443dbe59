-- ===== src/Replay/Plan/Covers.antt =====
-- The works of a plan cover its transactions: internal/cdc/replay_plan.go,
-- buildReplayPlanForGenerationVersion and its two checks of the totals.
use pgmigrate.Base.{
  ℕ, zero, suc, ◌+◌, ◌≤◌, ◌≡◌, inl, inr, refl, sym, ap, ◌∙◌, false, List, [], ◌∷◌, ◌++◌, Option,
  none, some, arith, ◌==◌, ==→≡,
}
use pgmigrate.Base.Lists.{length, All, All-append, get_elem?, length-none}
use pgmigrate.Base.Results.{ok, ok_ok, >>=-eq-ok, if-eq}
use pgmigrate.Cdc.Model.{Transaction}
use pgmigrate.Replay.Claim.{ReplayClaimWork}
use pgmigrate.Replay.Hash.{Digest}
use pgmigrate.Replay.Lanes.{PlanTransaction, PlanLane, replay_transaction_component_lanes}
use pgmigrate.Replay.Lanes.Shares.{replay_transaction_component_lanes_lem}
use pgmigrate.Replay.Lanes.Weights.{
  sum_by, lanes_weight, epoch_weight, epoch_weight-append, Assigns-weight,
}
use pgmigrate.Replay.Plan.Work.{Resolved, parallel_replay_work, serial_replay_work}
use pgmigrate.Replay.Plan.{
  StepLane, PlanStep, Planning, add_work, work_lanes, flushed, flush_parallel, serial_step,
  place_transaction, plan_all, planning, plan_steps,
}
use pgmigrate.Replay.Plan.Loop.{plan_all-keeps}
use pgmigrate.Replay.Plan.Schedules.{Planned, plan_transaction-IsKeyed}

-- What the first `n` transactions weigh.
abbrev pub prefix : (ℕ → ℕ) → ℕ → ℕ
prefix w zero = 0
prefix w (suc n) = prefix w n + w n

abbrev pub total : (ReplayClaimWork → ℕ) → List ReplayClaimWork → ℕ
total measure [] = 0
total measure (work ∷ works) = measure work + total measure works

total-append :
    (measure : ReplayClaimWork → ℕ) (xs ys : List ReplayClaimWork)
    → total measure (xs ++ ys) ≡ total measure xs + total measure ys
total-append measure [] ys = omega arith
total-append measure (x ∷ xs) ys = let rest = total-append measure xs ys in omega arith

-- A weight of transactions that works report.
module _ (sha : List ℕ → Digest) (v lane_count : ℕ) (some_lane : 1 ≤ lane_count)
    (transactions : List Transaction) (relations : List Resolved) (w : ℕ → ℕ)
    (measure : ReplayClaimWork → ℕ)
    (lane_measure : (step lane : ℕ) (indexes : List ℕ) (work : ReplayClaimWork)
      → parallel_replay_work sha v transactions relations step lane indexes ≡ ok work
      → measure work ≡ sum_by w indexes)
    (serial_measure : (step m : ℕ) (tx : Transaction) (work : ReplayClaimWork)
      → get_elem? transactions m ≡ some tx
      → serial_replay_work sha step m tx ≡ ok work
      → measure work ≡ w m) where
  -- Works and epoch weigh what was planned, and the epoch's transactions have keys.
  abbrev Weighs : List PlanStep → List ReplayClaimWork → List PlanTransaction → ℕ → Type 0
  Weighs steps works epoch m =
      (total measure works + epoch_weight w epoch ≡ prefix w m) × All (λ t. 1 ≤ length t.keys) epoch

  sum_by-none : (is : List ℕ) → length is ≡ 0 → sum_by w is ≡ 0
  sum_by-none is e = rw (length-none is e) refl

  work_lanes-total :
      (step : ℕ) (lanes : List PlanLane) (out : List StepLane × List ReplayClaimWork)
      → work_lanes sha v lane_count transactions relations step lanes ≡ ok out
      → total measure out.1 ≡ lanes_weight w lanes
  unfolding work_lanes add_work
  work_lanes-total step [] out h = let made : ([], []) ≡ out = ok_ok h in rw (sym made) refl
  work_lanes-total step (lane ∷ lanes) out h =
      elim (if-eq (length lane.transaction_indexes == 0) _ _ h) [
        | inl (idle, later) ↦
            let rest = work_lanes-total step lanes out later in
            let nothing =
              sum_by-none lane.transaction_indexes
                (==→≡ (length lane.transaction_indexes) 0 idle) in
            omega arith
        | inr (busy, later) ↦
            let (work, worked, next) =
              >>=-eq-ok
                (parallel_replay_work sha v transactions relations step lane.lane
                  lane.transaction_indexes)
                _ later in
            let (rest, others, made) =
              >>=-eq-ok (work_lanes sha v lane_count transactions relations step lanes) _ next in
            let here = lane_measure step lane.lane lane.transaction_indexes work worked in
            let there = work_lanes-total step lanes rest others in
            let out_is = ok_ok made in rw (sym out_is) (omega arith)
      ]

  weight_none : (ts : List PlanTransaction) → length ts ≡ 0 → epoch_weight w ts ≡ 0
  weight_none ts e = rw (length-none ts e) refl

  flush-total :
      (p q : Planning) (m : ℕ)
      → Weighs p.steps p.works p.current_epoch m
      → flush_parallel sha v lane_count transactions relations p ≡ ok q
      → (total measure q.works ≡ prefix w m) × (length q.current_epoch ≡ 0)
  unfolding flush_parallel flushed
  flush-total p q m (weighs, keyed) h = elim (if-eq (length p.current_epoch == 0) _ _ h) [
    | inl (idle, same) ↦
        let none_left = ==→≡ (length p.current_epoch) 0 idle in
        let kept = ok_ok same in
        let nothing = weight_none p.current_epoch none_left in
        rw (sym kept) (omega arith, none_left)
    | inr (busy, worked) ↦
        let (lanes, assigned, next) =
          >>=-eq-ok (replay_transaction_component_lanes sha p.current_epoch lane_count) _ worked in
        let ((step_lanes, works), covered, made) =
          >>=-eq-ok (work_lanes sha v lane_count transactions relations (length p.steps) lanes) _
            next in
        let kept = ok_ok made in
        let nonempty : 1 ≤ length p.current_epoch = ground arith in
        let (lanes', assigned', assigns) =
          replay_transaction_component_lanes_lem sha p.current_epoch lane_count nonempty some_lane
            keyed in
        let same : lanes' ≡ lanes = ok_ok (sym assigned' ∙ assigned) in
        let sum = work_lanes-total (length p.steps) lanes (step_lanes, works) covered in
        let weight = Assigns-weight w p.current_epoch lane_count lanes (rw (sym same) assigns) in
        let joined = total-append measure p.works works in rw (sym kept) (omega arith, refl)
  ]

  keyed_none : (ts : List PlanTransaction) → length ts ≡ 0 → All (λ t. 1 ≤ length t.keys) ts
  keyed_none ts e = rw (length-none ts e) tt

  place-Weighs :
      (p q : Planning) (tx : Transaction) (m : ℕ) (found : Option PlanTransaction)
      → get_elem? transactions m ≡ some tx
      → Weighs p.steps p.works p.current_epoch m
      → ((t : PlanTransaction)
          → found ≡ some t
          → Planned sha v lane_count transactions relations m t)
      → place_transaction sha v lane_count transactions relations m tx p found ≡ ok q
      → Weighs q.steps q.works q.current_epoch (suc m)
  unfolding place_transaction serial_step
  place-Weighs p q tx m (some t) at (weighs, keyed) planned h =
      let kept = ok_ok h in
      let given = planned t refl in
      let (has, place, resident) =
        plan_transaction-IsKeyed sha v m given.resolved false given.tx t given.planned in
      let grown = epoch_weight-append w p.current_epoch (t ∷ []) in
      let same : w t.index ≡ w m = ap w place in
      rw (sym kept) (omega arith, All-append _ p.current_epoch (t ∷ []) keyed (has, tt))
  place-Weighs p q tx m none at holds planned h =
      let (f, flush, next) =
        >>=-eq-ok (flush_parallel sha v lane_count transactions relations p) _ h in
      let (work, worked, made) = >>=-eq-ok (serial_replay_work sha (length f.steps) m tx) _ next in
      let kept = ok_ok made in
      let (done, idle) = flush-total p f m holds flush in
      let joined = total-append measure f.works (work ∷ []) in
      let own = serial_measure (length f.steps) m tx work at worked in
      let nothing = weight_none f.current_epoch idle in
      rw (sym kept) (omega arith, keyed_none f.current_epoch idle)

  pub plan_steps-total :
      (q : Planning)
      → plan_steps sha v lane_count transactions relations ≡ ok q
      → total measure q.works ≡ prefix w (length transactions)
  unfolding plan_steps
  plan_steps-total q h =
      let (p, planned, flush) =
        >>=-eq-ok
          (plan_all sha v lane_count transactions relations 0 planning transactions relations) _
          h in
      let held =
        plan_all-keeps sha v lane_count transactions relations Weighs place-Weighs p (refl, tt)
          planned in
      (flush-total p q (length transactions) held flush).0
