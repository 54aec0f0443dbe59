-- ===== src/Cdc/EndPosition.antt =====
-- End positions: internal/cdc/end_position.go, NormalizeEndPosition. What the calls of the reader's
-- Next return, up to the end of the durable log, is an argument; a failing NewReader is a first failing
-- call. CleanupSpill, which calls the file system, is a parameter that returns the error, if any.
pub mod Newest
use pgmigrate.Base.{
  ℕ, Bool, true, false, List, [], ◌∷◌, Option, none, some, ltb, ◌==◌, if◌then◌else◌,
}
use pgmigrate.Base.Results.{Result, ok, err}
use pgmigrate.Cdc.Model.{Lsn, Transaction}

pub record EndPositionResolution : Type 0 where
  pub requested : Lsn
  pub boundary : Lsn
  pub exact : Bool

-- The errors of EndPositionUnavailableError by their reasons, or the reader's.
pub data EndPositionError (E : Type 0) : Type 0 where
  zero_requested : EndPositionError E
  no_boundary : EndPositionError E
  reader_failed : E → EndPositionError E
  cleanup_failed : E → EndPositionError E

module _ {E : Type 0} (cleanup_spill : Transaction → Option E) where
  -- What follows CleanupSpill.
  unfoldable pub after_cleanup :
      Option E
      → Result (EndPositionError E) EndPositionResolution
      → Result (EndPositionError E) EndPositionResolution
  after_cleanup none following = following
  after_cleanup (some e) following = err (cleanup_failed e)

  -- Behind the loop.
  unfoldable pub resolved :
      EndPositionResolution → Result (EndPositionError E) EndPositionResolution
  resolved r = if r.boundary == 0 then err no_boundary else ok r

  -- The loop over the calls of Next; the list's end is io.EOF.
  unfoldable pub normalize :
      EndPositionResolution
      → List (Result E Transaction)
      → Result (EndPositionError E) EndPositionResolution
  normalize r [] = resolved r
  normalize r (err e ∷ rest) = err (reader_failed e)
  normalize r (ok tx ∷ rest) =
      let later = normalize (record r { boundary = tx.end_lsn }) rest in
      if ltb r.requested tx.end_lsn
      then after_cleanup (cleanup_spill tx) (resolved r)
      else if tx.end_lsn == r.requested
      then after_cleanup (cleanup_spill tx) (ok (record r { boundary = tx.end_lsn; exact = true }))
      else after_cleanup (cleanup_spill tx) later

  unfoldable pub normalize_end_position :
      Lsn → List (Result E Transaction) → Result (EndPositionError E) EndPositionResolution
  normalize_end_position requested reads =
      if requested == 0
      then err zero_requested
      else normalize (record { requested = requested; boundary = 0; exact = false }) reads
