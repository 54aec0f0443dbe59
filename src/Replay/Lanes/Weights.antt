-- ===== src/Replay/Lanes/Weights.antt =====
-- The lanes of replayTransactionComponentLanes, internal/cdc/replay_plan.go, hold together what the
-- epoch holds.
use pgmigrate.Base.{ℕ, zero, suc, ◌+◌, ◌<◌, ◌≡◌, refl, sym, ap, ◌∙◌, List, [], ◌∷◌, ◌++◌, arith}
use pgmigrate.Base.Lists.{length}
use pgmigrate.Replay.Lanes.{PlanTransaction, PlanLane, empty_lanes, append_to, add_to_lane}
use pgmigrate.Replay.Lanes.Assigned.{filled, filled-empty, filled-append_to}
use pgmigrate.Replay.Lanes.Shares.{Assigns}

module _ (w : ℕ → ℕ) where
  abbrev pub sum_by : List ℕ → ℕ
  sum_by [] = 0
  sum_by (i ∷ is) = w i + sum_by is

  abbrev pub lanes_weight : List PlanLane → ℕ
  lanes_weight [] = 0
  lanes_weight (l ∷ ls) = sum_by l.transaction_indexes + lanes_weight ls

  abbrev pub epoch_weight : List PlanTransaction → ℕ
  epoch_weight [] = 0
  epoch_weight (t ∷ ts) = w t.index + epoch_weight ts

  sum_by-append : (is js : List ℕ) → sum_by (is ++ js) ≡ sum_by is + sum_by js
  sum_by-append [] js = omega arith
  sum_by-append (i ∷ is) js = let rest = sum_by-append is js in omega arith

  pub epoch_weight-append :
      (ts us : List PlanTransaction) → epoch_weight (ts ++ us) ≡ epoch_weight ts + epoch_weight us
  epoch_weight-append [] us = omega arith
  epoch_weight-append (t ∷ ts) us = let rest = epoch_weight-append ts us in omega arith

  weight-append_to :
      (t : PlanTransaction) (lane : ℕ) (ls : List PlanLane)
      → lane < length ls
      → lanes_weight (append_to t lane ls) ≡ lanes_weight ls + w t.index
  unfolding append_to add_to_lane
  weight-append_to t lane [] h = elim h [ ]
  weight-append_to t zero (l ∷ ls) h =
      let grown = sum_by-append l.transaction_indexes (t.index ∷ []) in omega arith
  weight-append_to t (suc lane) (l ∷ ls) h =
      let rest = weight-append_to t lane ls (omega arith) in omega arith

  length-append_to :
      (t : PlanTransaction) (lane : ℕ) (ls : List PlanLane)
      → length (append_to t lane ls) ≡ length ls
  unfolding append_to
  length-append_to t lane [] = refl
  length-append_to t zero (l ∷ ls) = refl
  length-append_to t (suc lane) (l ∷ ls) = ap suc (length-append_to t lane ls)

  weight-filled :
      (lane_of : ℕ → ℕ) (ts : List PlanTransaction) (index n : ℕ) (ls : List PlanLane)
      → length ls ≡ n
      → ((i : ℕ) → lane_of i < n)
      → lanes_weight (filled lane_of index ts 0 ls) ≡ lanes_weight ls + epoch_weight ts
  weight-filled lane_of [] index n ls size bound =
      ap lanes_weight (filled-empty lane_of index 0 ls) ∙ omega arith
  weight-filled lane_of (t ∷ ts) index n ls size bound =
      let k = lane_of index in
      let grown = weight-append_to t k ls (rw size (bound index)) in
      let rest =
        weight-filled lane_of ts (suc index) n (append_to t k ls) (length-append_to t k ls ∙ size)
          bound in
      ap lanes_weight (sym (filled-append_to lane_of index t ts 0 k ls (omega arith)))
      ∙ rest
      ∙ omega arith

  weight-empty_lanes : (start n : ℕ) → lanes_weight (empty_lanes start n) ≡ 0
  unfolding empty_lanes
  weight-empty_lanes start zero = refl
  weight-empty_lanes start (suc n) = let rest = weight-empty_lanes (suc start) n in omega arith

  length-empty_lanes : (start n : ℕ) → length (empty_lanes start n) ≡ n
  unfolding empty_lanes
  length-empty_lanes start zero = refl
  length-empty_lanes start (suc n) = ap suc (length-empty_lanes (suc start) n)

  -- The lanes weigh what the epoch weighs.
  pub Assigns-weight :
      (epoch : List PlanTransaction) (n : ℕ) (lanes : List PlanLane)
      → Assigns epoch n lanes
      → lanes_weight lanes ≡ epoch_weight epoch
  Assigns-weight epoch n lanes h =
      let nothing = weight-empty_lanes 0 n in
      ap lanes_weight h.lanes_filled
      ∙ weight-filled h.lane_of epoch 0 n (empty_lanes 0 n) (length-empty_lanes 0 n) h.bounded
      ∙ omega arith
