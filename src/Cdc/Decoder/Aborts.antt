-- ===== src/Cdc/Decoder/Aborts.antt =====
-- Failing calls of Decode, internal/cdc/pgoutput.go.
use pgmigrate.Base.{
  ℕ, ◌≤◌, ◌≡◌, refl, sym, ap, ◌∙◌, Bool, true, false, List, [], ◌∷◌, ◌++◌, Option, none, some, ◌==◌,
  positive-==,
}
use pgmigrate.Base.Lists.{length, All, concat_map}
use pgmigrate.Base.Results.{Result, ok, err}
use pgmigrate.Cdc.Model.{Lsn, Change, CommitTime, Transaction}
use pgmigrate.Cdc.Codec.Layout.{change_bytes, Fits}
use pgmigrate.Cdc.Codec.Writes.{Accepts}
use pgmigrate.Cdc.Codec.Write.{Writer}
use pgmigrate.Cdc.Decoder.{
  Message, begin_message, commit_message, Decoder, DecodeError, abort, abort_active, parsed, settle,
  decode,
}
use pgmigrate.Cdc.Decoder.Streams.{
  if_false, Rows, IsKnown, Commits, quiet, decode_stream, decode_stream_lem,
}

abbrev Aborted : Decoder → Decoder → Type 0
Aborted d e =
    (e.current ≡ none)
    × (e.relations ≡ d.relations)
    × (e.closed ≡ d.closed)
    × (e.init_error ≡ d.init_error)

abort-Aborted :
    (d : Decoder) (current : Option Transaction) → d.current ≡ current → Aborted d (abort current d)
unfolding abort
abort-Aborted d none h = (h, refl, refl, refl)
abort-Aborted d (some tx) h = (refl, refl, refl, refl)

settle-Aborted :
    (write : Writer) (created : Bool) (d e : Decoder) (reason : DecodeError)
    (r : Result DecodeError (Decoder × Option Transaction))
    → settle write created d r ≡ (e, err reason)
    → Aborted d e
unfolding settle abort_active
settle-Aborted write created d e reason (ok (f, tx)) h = let second = ap (λ p. p.1) h in cc
settle-Aborted write created d e reason (err other) h =
    let same = ap (λ p. p.0) h in rw (sym same) (abort-Aborted d d.current refl)

decode-Aborted :
    (write : Writer) (created : Bool) (parse : List ℕ → Option Message) (now : CommitTime)
    (d e : Decoder) (bytes : List ℕ) (reason : DecodeError)
    → (d.closed ≡ false) × (d.init_error ≡ false)
    → 1 ≤ length bytes
    → decode write created parse now d bytes ≡ (e, err reason)
    → Aborted d e
unfolding decode
decode-Aborted write created parse now d e bytes reason (running, ready) some_bytes h =
    settle-Aborted write created d e reason (parsed write created now d (parse bytes)) (
      sym (
        if_false d.closed _ _ running
        ∙ if_false d.init_error _ _ ready
        ∙ if_false (length bytes == 0) _ _ (positive-== (length bytes) some_bytes))
      ∙ h)

-- A call on an open decoder, be it in a transaction or not, with a message that is not empty,
-- whatever the message and the spill file's writes, fails. Then a Begin, messages of row changes that
-- the format carries, whose relations were cached before the failure and which fit a payload
-- together, and a Commit with Begin's LSN and an end at or after it, with a spill file that can be
-- created and takes every write, are decoded to a transaction with the LSNs, Commit's time, these
-- changes and no others in their order, and the relation of every change. No transaction is active
-- then.
pub decode_stream-after_error :
    (failing : Writer) (created : Bool) (at : CommitTime) (d e : Decoder) (bytes : List ℕ)
    (reason : DecodeError) (write : Writer) (accepts : Accepts write) (lsn : Lsn)
    (parse : List ℕ → Option Message) (now : CommitTime) (first last : List ℕ)
    (inputs : List (List ℕ)) (cs : List Change) (end : Lsn) (before time : CommitTime)
    → (d.closed ≡ false) × (d.init_error ≡ false)
    → 1 ≤ length bytes
    → decode failing created parse at d bytes ≡ (e, err reason)
    → (1 ≤ length first) × (parse first ≡ some (begin_message lsn before))
    → (1 ≤ length last) × (parse last ≡ some (commit_message lsn end time))
    → lsn ≤ end
    → Rows parse inputs cs
    → All (IsKnown write accepts d.relations lsn) cs
    → Fits (concat_map change_bytes cs)
    → (tx : Transaction) × (f : Decoder) × (decode_stream write true parse now e
          (first ∷ (inputs ++ last ∷ []))
        ≡ (f, ok none ∷ (quiet (length inputs) ++ ok (some tx) ∷ [])))
      × (f.current ≡ none)
      × Commits write accepts d.relations lsn cs end time tx
decode_stream-after_error failing created at d e bytes reason write accepts lsn parse now first last
      inputs cs end before time running some_bytes fails begins commits le rows known fits =
    let (idle, cache, still_open, ready) =
      decode-Aborted failing created parse at d e bytes reason running some_bytes fails in
    decode_stream_lem write accepts d.relations lsn parse now e first last inputs cs end before time
      (still_open ∙ running.0, ready ∙ running.1) (cache, idle) begins commits le rows known fits
