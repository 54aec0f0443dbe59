-- ===== src/Cdc/Decoder/Idle.antt =====
-- What the decoder of internal/cdc/pgoutput.go holds when no transaction is active.
use pgmigrate.Base.{
  ℕ, ◌+◌, ◌≡◌, ◌⊎◌, inl, inr, refl, sym, ap, Bool, true, false, not, ◌||◌, List, [], ◌∷◌, Option,
  none, some, ltb, ◌==◌, if◌then◌else◌,
}
use pgmigrate.Base.Int.{ℤ, pos, negsuc}
use pgmigrate.Base.Bytes.{text_bytes}
use pgmigrate.Base.Lists.{length}
use pgmigrate.Base.Results.{Result, ok, err, fail_if, fold_result, >>=-eq-ok, ok_ok, seq-ok, if-eq}
use pgmigrate.Cdc.Model.{Lsn, Relation, Change, CommitTime, Transaction, u64}
use pgmigrate.Cdc.Codec.Size.{encoded_change_size}
use pgmigrate.Cdc.Codec.Decode.{same_bytes}
use pgmigrate.Cdc.Codec.Write.{Writer}
use pgmigrate.Cdc.Decoder.{
  Message, relation_message, begin_message, insert_message, update_message, delete_message,
  truncate_message, commit_message, logical_message, other_message, Decoder, DecodeError, cached,
  row_changes, add_to, add_change, require_relation, keep_change, begun, commit, cutover, begin,
  handle_other, handle_rows, handle, settle, parsed, decode, abort, abort_active, new_decoder,
  encoded, commit_lsn_differs, end_precedes_commit, zero_cutover_lsn,
}
use pgmigrate.Cdc.Decoder.Streams.{decode_stream}

-- A transaction is active, or nothing of one is left.
abbrev pub IsClean : Decoder → Type 0
IsClean d =
    ((tx : Transaction) × (d.current ≡ some tx))
    ⊎ ((d.current ≡ none) × (d.required ≡ []) × (d.encoded_size ≡ 0))

pub new_decoder-IsClean : (threshold : ℤ) (d : Decoder) → new_decoder threshold ≡ ok d → IsClean d
unfolding new_decoder
new_decoder-IsClean (negsuc n) d h = cc
new_decoder-IsClean (pos threshold) d h = rw⁻¹ (ok_ok h) (inr (refl, refl, refl))

abort-IsClean :
    (d : Decoder) (current : Option Transaction)
    → d.current ≡ current
    → IsClean d
    → IsClean (abort current d)
unfolding abort
abort-IsClean d none same h = h
abort-IsClean d (some tx) same h = inr (refl, refl, refl)

module _ (write : Writer) (created : Bool) where
  add_to-active :
      (d : Decoder) (change : Change) (current : Option Transaction) (relation : Option Relation)
      (e : Decoder)
      → add_to write created d change current relation ≡ ok e
      → (tx : Transaction) × (e.current ≡ some tx)
  unfolding add_to
  add_to-active d change none relation e added = cc
  add_to-active d change (some tx) none e added = cc
  add_to-active d change (some tx) (some relation) e added =
      let (required, _, sized) =
        >>=-eq-ok (require_relation write created d tx relation change.relation_oid) _ added in
      let (size, _, keeps) = >>=-eq-ok (encoded (encoded_change_size change)) _ sized in
      let total = u64 (required.0.encoded_size + size) in
      let (kept, _, joined) =
        >>=-eq-ok
          (keep_change write created required.0.spill_threshold total required.1 required.1.spill
            change)
          (λ kept. ok (record required.0 { current = some kept; encoded_size = total })) keeps in
      (kept, ap (λ d. d.current) (sym (ok_ok joined)))

  add_all-IsClean :
      (d : Decoder) (cs : List Change) (e : Decoder)
      → IsClean d
      → fold_result (add_change write created) d cs ≡ ok e
      → IsClean e
  unfolding fold_result add_change
  add_all-IsClean d [] e h added = rw⁻¹ (ok_ok added) h
  add_all-IsClean d (c ∷ cs) e h added =
      let (f, first, rest) =
        >>=-eq-ok (add_change write created d c) (λ f. fold_result (add_change write created) f cs)
          added in
      add_all-IsClean f cs e
        (inl (add_to-active d c d.current (cached d.relations c.relation_oid) f first)) rest

  begin-IsClean :
      (d : Decoder) (lsn : Lsn) (time : CommitTime) (current : Option Transaction) (e : Decoder)
      (out : Option Transaction)
      → begin write created d lsn time current ≡ ok (e, out)
      → IsClean e
  unfolding begin
  begin-IsClean d lsn time (some tx) e out h = cc
  begin-IsClean d lsn time none e out h =
      inl (begun lsn time, ap (λ p. p.0.current) (sym (ok_ok h)))

  commit-IsClean :
      (d : Decoder) (lsn end : Lsn) (time : CommitTime) (current : Option Transaction) (e : Decoder)
      (out : Option Transaction)
      → commit write created d lsn end time current ≡ ok (e, out)
      → IsClean e
  unfolding commit
  commit-IsClean d lsn end time none e out h = cc
  commit-IsClean d lsn end time (some tx) e out h =
      let (_, ends) = seq-ok (fail_if (not (lsn == tx.commit_lsn)) commit_lsn_differs) _ h in
      let (_, done) = seq-ok (fail_if (ltb end lsn) end_precedes_commit) _ ends in
      inr (
        ap (λ p. p.0.current) (sym (ok_ok done)),
        ap (λ p. p.0.required) (sym (ok_ok done)),
        ap (λ p. p.0.encoded_size) (sym (ok_ok done)),
      )

  cutover-IsClean :
      (d : Decoder) (lsn : Lsn) (now : CommitTime) (current : Option Transaction) (e : Decoder)
      (out : Option Transaction)
      → IsClean d
      → cutover write created d lsn now current ≡ ok (e, out)
      → IsClean e
  unfolding cutover
  cutover-IsClean d lsn now (some tx) e out clean h = cc
  cutover-IsClean d lsn now none e out clean h =
      let (_, done) = seq-ok (fail_if (lsn == 0) zero_cutover_lsn) _ h in
      rw (sym (ap (λ p. p.0) (ok_ok done))) clean

  handle_other-IsClean :
      (now : CommitTime) (d : Decoder) (m : Message) (e : Decoder) (out : Option Transaction)
      → IsClean d
      → handle_other write created now d m ≡ ok (e, out)
      → IsClean e
  unfolding handle_other
  handle_other-IsClean now d (relation_message relation) e out clean h =
      rw (sym (ap (λ p. p.0) (ok_ok h))) clean
  handle_other-IsClean now d (begin_message lsn time) e out clean h =
      begin-IsClean d lsn time d.current e out h
  handle_other-IsClean now d (commit_message lsn end time) e out clean h =
      commit-IsClean d lsn end time d.current e out h
  handle_other-IsClean now d (logical_message prefix transactional lsn) e out clean h =
      elim (if-eq (not (same_bytes prefix (text_bytes "pgmigrate_cutover")) || transactional) _ _
        h) [
          | inl (_, ignored) ↦ rw (sym (ap (λ p. p.0) (ok_ok ignored))) clean
          | inr (_, cuts) ↦ cutover-IsClean d lsn now d.current e out clean cuts
        ]
  handle_other-IsClean now d (insert_message oid new) e out clean h =
      rw (sym (ap (λ p. p.0) (ok_ok h))) clean
  handle_other-IsClean now d (update_message oid old new) e out clean h =
      rw (sym (ap (λ p. p.0) (ok_ok h))) clean
  handle_other-IsClean now d (delete_message oid old) e out clean h =
      rw (sym (ap (λ p. p.0) (ok_ok h))) clean
  handle_other-IsClean now d (truncate_message options oids) e out clean h =
      rw (sym (ap (λ p. p.0) (ok_ok h))) clean
  handle_other-IsClean now d other_message e out clean h = rw (sym (ap (λ p. p.0) (ok_ok h))) clean

  handle_rows-IsClean :
      (now : CommitTime) (d : Decoder) (m : Message)
      (rows : Option (Result DecodeError (List Change))) (e : Decoder) (out : Option Transaction)
      → IsClean d
      → handle_rows write created now d m rows ≡ ok (e, out)
      → IsClean e
  unfolding handle_rows
  handle_rows-IsClean now d m none e out clean h = handle_other-IsClean now d m e out clean h
  handle_rows-IsClean now d m (some rows) e out clean h =
      let (changes, _, handled) = >>=-eq-ok rows _ h in
      let (f, folds, joined) =
        >>=-eq-ok (fold_result (add_change write created) d changes) (λ e. ok (e, none)) handled in
      rw (sym (ap (λ p. p.0) (ok_ok joined))) (add_all-IsClean d changes f clean folds)

  settle-IsClean :
      (d : Decoder) (r : Result DecodeError (Decoder × Option Transaction))
      → IsClean d
      → ((e : Decoder) (out : Option Transaction) → r ≡ ok (e, out) → IsClean e)
      → IsClean (settle write created d r).0
  unfolding settle abort_active
  settle-IsClean d (ok (e, out)) clean h = h e out refl
  settle-IsClean d (err e) clean h = abort-IsClean d d.current refl clean

  parsed-IsClean :
      (now : CommitTime) (d : Decoder) (m : Option Message) (e : Decoder) (out : Option Transaction)
      → IsClean d
      → parsed write created now d m ≡ ok (e, out)
      → IsClean e
  unfolding parsed handle
  parsed-IsClean now d none e out clean h = cc
  parsed-IsClean now d (some m) e out clean h =
      handle_rows-IsClean now d m (row_changes m) e out clean h

  if-IsClean :
      (b : Bool) (x y : Decoder × Result DecodeError (Option Transaction))
      → IsClean x.0
      → IsClean y.0
      → IsClean (if b then x else y).0
  if-IsClean true x y h k = h
  if-IsClean false x y h k = k

  decode-IsClean :
      (parse : List ℕ → Option Message) (now : CommitTime) (d : Decoder) (bytes : List ℕ)
      → IsClean d
      → IsClean (decode write created parse now d bytes).0
  unfolding decode
  decode-IsClean parse now d bytes clean = if-IsClean d.closed _ _ clean (
      if-IsClean d.init_error _ _ clean (
        if-IsClean (length bytes == 0) _ _ clean (
          settle-IsClean d (parsed write created now d (parse bytes)) clean
            (λ e out h. parsed-IsClean now d (parse bytes) e out clean h))))

-- Whatever messages arrive, failing ones included, whether spill files can be created and however
-- their writes end: a decoder in which a transaction is active or nothing of one is left stays so.
-- When no transaction is active, no relation is required and the size is 0.
pub decode_stream-IsClean :
    (write : Writer) (created : Bool) (parse : List ℕ → Option Message) (now : CommitTime)
    (d : Decoder) (inputs : List (List ℕ))
    → IsClean d
    → IsClean (decode_stream write created parse now d inputs).0
unfolding decode_stream
decode_stream-IsClean write created parse now d [] clean = clean
decode_stream-IsClean write created parse now d (bytes ∷ rest) clean =
    decode_stream-IsClean write created parse now (decode write created parse now d bytes).0 rest
      (decode-IsClean write created parse now d bytes clean)
