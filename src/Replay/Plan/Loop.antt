-- ===== src/Replay/Plan/Loop.antt =====
-- Induction over the planner's loop, internal/cdc/replay_plan.go,
-- buildReplayPlanForGenerationVersion.
use pgmigrate.Base.{ℕ, suc, ◌+◌, ◌≡◌, refl, sym, ap, ◌∙◌, Bool, List, [], ◌∷◌, Option, some, arith}
use pgmigrate.Base.Lists.{length, get_elem?}
use pgmigrate.Base.Results.{ok, ok_ok, >>=-eq-ok}
use pgmigrate.Cdc.Model.{Transaction}
use pgmigrate.Replay.Claim.{ReplayClaimWork}
use pgmigrate.Replay.Hash.{Digest}
use pgmigrate.Replay.Lanes.{PlanTransaction}
use pgmigrate.Replay.Plan.Work.{Resolved}
use pgmigrate.Replay.Plan.{
  PlanStep, Planning, place_transaction, add_transaction, plan_all, planning,
}
use pgmigrate.Replay.Plan.Admission.{check_relations, plan_transaction}
use pgmigrate.Replay.Plan.Schedules.{Planned, plan_transaction-IsKeyed}

-- What placing each transaction keeps, for the parts of the plan that it reads.
module _ (sha : List ℕ → Digest) (v lane_count : ℕ) (transactions : List Transaction)
    (relations : List Resolved)
    (I : List PlanStep → List ReplayClaimWork → List PlanTransaction → ℕ → Type 0)
    (place_keeps : (p q : Planning) (tx : Transaction) (m : ℕ) (found : Option PlanTransaction)
      → get_elem? transactions m ≡ some tx
      → I p.steps p.works p.current_epoch m
      → ((t : PlanTransaction)
          → found ≡ some t
          → Planned sha v lane_count transactions relations m t)
      → place_transaction sha v lane_count transactions relations m tx p found ≡ ok q
      → I q.steps q.works q.current_epoch (suc m)) where
  abbrev Holds : Planning → ℕ → Type 0
  Holds p m = I p.steps p.works p.current_epoch m

  add_transaction-Holds :
      (p q : Planning) (tx : Transaction) (resolved : Resolved) (m : ℕ)
      → get_elem? transactions m ≡ some tx
      → get_elem? relations m ≡ some resolved
      → Holds p m
      → add_transaction sha v lane_count transactions relations m resolved p tx ≡ ok q
      → Holds q (suc m)
  unfolding add_transaction
  add_transaction-Holds p q tx resolved m at resolved_at holds h =
      let ((hasher, changed), checked, next) =
        >>=-eq-ok
          (check_relations sha v m 0 resolved p.last_definitions p.catalog_hasher tx.relations) _
          h in
      let (found, plan, then_place) =
        >>=-eq-ok (plan_transaction sha v m resolved changed tx) _ next in
      let (placed, place, made) =
        >>=-eq-ok
          (place_transaction sha v lane_count transactions relations m tx
            (record p { catalog_hasher = hasher }) found)
          _ then_place in
      let kept = ok_ok made in
      rw (sym kept) (
        place_keeps (record p { catalog_hasher = hasher }) placed tx m found at holds
          (λ t is. planned_of resolved changed tx m t at resolved_at (plan ∙ ap ok is)) place)
    where
      planned_of :
          (resolved : Resolved) (changed : Bool) (tx : Transaction) (m : ℕ) (t : PlanTransaction)
          → get_elem? transactions m ≡ some tx
          → get_elem? relations m ≡ some resolved
          → plan_transaction sha v m resolved changed tx ≡ ok (some t)
          → Planned sha v lane_count transactions relations m t
      planned_of resolved changed tx m t at resolved_at h =
          let (has, place, same) = plan_transaction-IsKeyed sha v m resolved changed tx t h in
          record {
            tx = tx;
            resolved = resolved;
            tx_at = at;
            resolved_at = resolved_at;
            planned = rw (sym same) h;
          }

  abbrev Rest : {A : Type 0} → List A → ℕ → List A → Type 0
  Rest {A = A} whole m rest =
      (i j : ℕ) (x : A) → get_elem? rest i ≡ some x → m + i ≡ j → get_elem? whole j ≡ some x

  plan_all-Holds :
      (txs : List Transaction) (rest : List Resolved) (p q : Planning) (m : ℕ)
      → Rest transactions m txs
      → Rest relations m rest
      → Holds p m
      → plan_all sha v lane_count transactions relations m p txs rest ≡ ok q
      → Holds q (m + length txs)
  unfolding plan_all
  plan_all-Holds [] rest p q m at resolved_at holds h =
      let kept = ok_ok h in let same : m ≡ m + 0 = omega arith in rw (sym kept, sym same) holds
  plan_all-Holds (tx ∷ txs) [] p q m at resolved_at holds h = cc
  plan_all-Holds (tx ∷ txs) (resolved ∷ rest) p q m at resolved_at holds h =
      let (next, added, later) =
        >>=-eq-ok (add_transaction sha v lane_count transactions relations m resolved p tx) _ h in
      let held =
        add_transaction-Holds p next tx resolved m (at 0 m tx refl (omega arith))
          (resolved_at 0 m resolved refl (omega arith)) holds added in
      let same : suc m + length txs ≡ m + suc (length txs) = omega arith in
      rw (sym same) (
        plan_all-Holds txs rest next q (suc m)
          (λ i j x found place. at (suc i) j x found (omega arith))
          (λ i j x found place. resolved_at (suc i) j x found (omega arith)) held later)

  whole_Rest : {A : Type 0} (xs : List A) → Rest xs 0 xs
  whole_Rest xs i j x found place = let same : i ≡ j = omega arith in rw (sym same) found

  pub plan_all-keeps :
      (q : Planning)
      → I [] [] [] 0
      → plan_all sha v lane_count transactions relations 0 planning transactions relations ≡ ok q
      → I q.steps q.works q.current_epoch (length transactions)
  unfolding planning
  plan_all-keeps q first h =
      let same : 0 + length transactions ≡ length transactions = omega arith in
      rw (sym same) (
        plan_all-Holds transactions relations planning q 0 (whole_Rest transactions)
          (whole_Rest relations) first h)
