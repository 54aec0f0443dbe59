-- ===== src/Replay/Claim.antt =====
-- Replay claims: the types and pure functions of internal/cdc/replay_claim.go, and the errors of
-- planning. The creation and commit times are the database's and have no part in planning, nor has
-- the manifest, which is read back from it. Counts are int64 and never negative.
use pgmigrate.Base.{
  ℕ, Bool, ◌&&◌, List, [], ◌∷◌, ◌++◌, ltb, ◌==◌, if◌then◌else◌, ◌+◌, ◌-◌, ◌/◌, ◌%◌,
}
use pgmigrate.Base.Int.{ℤ}
use pgmigrate.Base.Bytes.{text_bytes}
use pgmigrate.Cdc.Model.{Lsn}
use pgmigrate.Cdc.Codec.Size.{CodecError}
use pgmigrate.Cdc.Codec.Decode.{same_bytes}
use pgmigrate.Replay.Hash.{Digest}

pub data PlanError : Type 0 where
  unsupported_plan_version invalid_plan_input missing_relation : PlanError
  invalid_component_input no_dependency_key : PlanError
  absent_tuple wrong_width wrong_binary_type toast_parameter wrong_datum_kind : PlanError
  invalid_transaction_order missing_fingerprint : PlanError
  codec_failed : CodecError → PlanError
  uncovered_changes uncovered_transactions index_out_of_range : PlanError

abbrev pub replay_claim_plan_version : ℕ
replay_claim_plan_version = 5

abbrev pub replay_claim_minimum_plan_version : ℕ
replay_claim_minimum_plan_version = 2

pub data ReplayWorkKind : Type 0 where
  parallel_lane serial_transaction : ReplayWorkKind

abbrev pub kind_text : ReplayWorkKind → List ℕ
kind_text parallel_lane = text_bytes "parallel_lane"
kind_text serial_transaction = text_bytes "serial_transaction"

pub record ReplayClaimWork : Type 0 where
  pub step : ℕ
  pub work : ℕ
  pub kind : ReplayWorkKind
  pub lane : ℤ
  pub digest : Digest
  pub expected_transactions : ℕ
  pub expected_changes : ℕ

pub record ReplayClaim : Type 0 where
  pub id : List ℕ
  pub stream_id : List ℕ
  pub generation : List ℕ
  pub start_generation : List ℕ
  pub fence_generation : List ℕ
  pub start_lsn : Lsn
  pub end_lsn : Lsn
  pub digest : Digest
  pub catalog_digest : Digest
  pub plan_version : ℕ
  pub lane_count : ℕ
  pub transactions : ℕ
  pub changes : ℕ
  pub expected_work : ℕ

unfoldable pub replay_fence_generation : List ℕ → List ℕ → List ℕ
replay_fence_generation generation claim_id =
    generation ++ 10 ∷ text_bytes "pgmigrate-replay-claim-v1:" ++ claim_id

hex_digit : ℕ → ℕ
hex_digit n = if ltb n 10 then b'0' + n else b'a' + (n - 10)

-- hex.EncodeToString.
unfoldable pub replay_claim_id : Digest → List ℕ
unfolding hex_digit
replay_claim_id [] = []
replay_claim_id (b ∷ bs) = hex_digit (b / 16) ∷ hex_digit (b % 16) ∷ replay_claim_id bs

unfoldable pub replay_claims_equal : ReplayClaim → ReplayClaim → Bool
replay_claims_equal left right =
    same_bytes left.id right.id
    && same_bytes left.stream_id right.stream_id
    && same_bytes left.generation right.generation
    && same_bytes left.start_generation right.start_generation
    && same_bytes left.fence_generation right.fence_generation
    && left.start_lsn == right.start_lsn
    && left.end_lsn == right.end_lsn
    && same_bytes left.digest right.digest
