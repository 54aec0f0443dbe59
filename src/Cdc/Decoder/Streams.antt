-- ===== src/Cdc/Decoder/Streams.antt =====
-- A transaction's messages through the decoder of internal/cdc/pgoutput.go.
use mathlib.Core.List.{Memᴰ, append_assoc, append-nil}
use pgmigrate.Base.{
  ℕ, zero, suc, ◌≤◌, ◌≡◌, refl, sym, ap, ◌∙◌, Bool, true, false, List, [], ◌∷◌, ◌++◌, Option, none,
  some, arith, ◌==◌, ==-self, le→ltb, positive-==, if◌then◌else◌,
}
use pgmigrate.Base.Lists.{length, length-append, All, All-map, concat_map}
use pgmigrate.Base.Results.{Result, ok, ◌>>=◌, fold_result}
use pgmigrate.Cdc.Model.{Lsn, Relation, Change, CommitTime, Transaction}
use pgmigrate.Cdc.Codec.Layout.{change_bytes, Fits, CanonicalChange}
use pgmigrate.Cdc.Codec.Write.{Writer}
use pgmigrate.Cdc.Codec.Writes.{Accepts}
use pgmigrate.Cdc.Spill.{materialize_changes}
use pgmigrate.Cdc.Decoder.{
  Message, begin_message, commit_message, Decoder, DecodeError, cached, is_required, row_changes,
  add_change, begun, commit, begin, handle_other, handle_rows, handle, settle, parsed, decode,
}
use pgmigrate.Cdc.Decoder.Assembles.{resident, moved_held, materialize_changes-HeldIn}
use pgmigrate.Cdc.Decoder.Carries.{IsCached, Carries, add_change-Carries}

concat_map-append :
    (xs ys : List Change)
    → concat_map change_bytes (xs ++ ys) ≡ concat_map change_bytes xs ++ concat_map change_bytes ys
unfolding concat_map
concat_map-append [] ys = refl
concat_map-append (x ∷ xs) ys =
    ap (λ rest. change_bytes x ++ rest) (concat_map-append xs ys)
    ∙ sym (append_assoc (change_bytes x) (concat_map change_bytes xs) (concat_map change_bytes ys))

-- What fits a payload with more behind it fits without.
Fits-before :
    (xs ys : List Change)
    → Fits (concat_map change_bytes (xs ++ ys))
    → Fits (concat_map change_bytes xs)
Fits-before xs ys h =
    let joined = ap length (concat_map-append xs ys) in
    let size = length-append (concat_map change_bytes xs) (concat_map change_bytes ys) in
    omega (arith, joined, size)

-- Messages as they arrive, through one decoder: its state at the end, and each call's result.
unfoldable pub decode_stream :
    Writer
    → Bool
    → (List ℕ → Option Message)
    → CommitTime
    → Decoder
    → List (List ℕ)
    → Decoder × List (Result DecodeError (Option Transaction))
decode_stream write created parse now d [] = (d, [])
decode_stream write created parse now d (bytes ∷ rest) =
    let (e, result) = decode write created parse now d bytes in
    let (f, results) = decode_stream write created parse now e rest in (f, result ∷ results)

-- `n` calls that return no transaction.
abbrev pub quiet : ℕ → List (Result DecodeError (Option Transaction))
quiet zero = []
quiet (suc n) = ok none ∷ quiet n

-- Messages that carry row changes, and all of these.
pub data Rows (parse : List ℕ → Option Message) : List (List ℕ) → List Change → Type 0 where
  no_rows : Rows parse [] []
  row :
      (bytes : List ℕ) (m : Message) (cs : List Change) (rest : List (List ℕ)) (more : List Change)
      → 1 ≤ length bytes
      → parse bytes ≡ some m
      → row_changes m ≡ some (ok cs)
      → Rows parse rest more
      → Rows parse (bytes ∷ rest) (cs ++ more)

pub if_false : {A : Type 0} (b : Bool) (x y : A) → b ≡ false → (if b then x else y) ≡ y
if_false true x y h = cc
if_false false x y h = refl

All-parts : (P : Change → Type 0) (xs ys : List Change) → All P (xs ++ ys) → All P xs × All P ys
All-parts P [] ys h = (tt, h)
All-parts P (x ∷ xs) ys h = let (before, after) = All-parts P xs ys h.1 in ((h.0, before), after)

decode_stream-append :
    (write : Writer) (parse : List ℕ → Option Message) (now : CommitTime) (d e : Decoder)
    (xs ys : List (List ℕ)) (results : List (Result DecodeError (Option Transaction)))
    → decode_stream write true parse now d xs ≡ (e, results)
    → decode_stream write true parse now d (xs ++ ys) ≡ (
      (decode_stream write true parse now e ys).0,
      results ++ (decode_stream write true parse now e ys).1,
    )
unfolding decode_stream
decode_stream-append write parse now d e [] ys results h =
    let state = ap (λ p. p.0) h in let nothing = ap (λ p. p.1) h in rw (sym state, sym nothing) refl
decode_stream-append write parse now d e (x ∷ xs) ys results h =
    let next = (decode write true parse now d x).0 in
    let rest =
      decode_stream-append write parse now next (decode_stream write true parse now next xs).0 xs ys
        (decode_stream write true parse now next xs).1 refl in
    let state = ap (λ p. p.0) h in let all = ap (λ p. p.1) h in rw (rest, sym state, sym all) refl

module _ (write : Writer) (accepts : Accepts write) (relations : List (ℕ × Relation))
    (lsn : ℕ) where
  abbrev pub IsKnown : Change → Type 0
  IsKnown c = IsCached write accepts relations c × CanonicalChange c

  add_all-Carries :
      (cs done : List Change) (d : Decoder)
      → Carries write accepts relations lsn done d
      → All IsKnown cs
      → Fits (concat_map change_bytes (done ++ cs))
      → (e : Decoder) × (fold_result (add_change write true) d cs ≡ ok e)
        × Carries write accepts relations lsn (done ++ cs) e
  unfolding fold_result
  add_all-Carries [] done d carries h fits = (d, refl, rw (append-nil done) carries)
  add_all-Carries (c ∷ cs) done d carries h fits =
      let split = append_assoc done (c ∷ []) cs in
      let all : Fits (concat_map change_bytes ((done ++ c ∷ []) ++ cs)) = rw split fits in
      let (e, added, carries') =
        add_change-Carries write accepts relations lsn done d c carries h.0.0 h.0.1
          (Fits-before (done ++ c ∷ []) cs all) in
      let (f, rest, carries'') = add_all-Carries cs (done ++ c ∷ []) e carries' h.1 all in
      (f, rw added rest, rw (sym split) carries'')

  pub decode_handles :
      (parse : List ℕ → Option Message) (now : CommitTime) (d : Decoder) (bytes : List ℕ)
      (m : Message)
      → (d.closed ≡ false) × (d.init_error ≡ false)
      → 1 ≤ length bytes
      → parse bytes ≡ some m
      → decode write true parse now d bytes ≡ settle write true d (handle write true now d m)
  unfolding decode parsed
  decode_handles parse now d bytes m running some_bytes is =
      if_false d.closed _ _ running.0
      ∙ if_false d.init_error _ _ running.1
      ∙ if_false (length bytes == 0) _ _ (positive-== (length bytes) some_bytes)
      ∙ ap (λ message. settle write true d (parsed write true now d message)) is

  decode_row-Carries :
      (parse : List ℕ → Option Message) (now : CommitTime) (d : Decoder) (done cs : List Change)
      (bytes : List ℕ) (m : Message)
      → Carries write accepts relations lsn done d
      → 1 ≤ length bytes
      → parse bytes ≡ some m
      → row_changes m ≡ some (ok cs)
      → All IsKnown cs
      → Fits (concat_map change_bytes (done ++ cs))
      → (e : Decoder) × (decode write true parse now d bytes ≡ (e, ok none))
        × Carries write accepts relations lsn (done ++ cs) e
  unfolding handle handle_rows settle
  decode_row-Carries parse now d done cs bytes m carries some_bytes is rows h fits =
      let (e, added, carries') = add_all-Carries cs done d carries h fits in
      let handled : handle write true now d m ≡ ok (e, none) =
        ap (handle_rows write true now d m) rows
        ∙ ap (λ added. added >>= λ e. ok (e, none)) added in
      (
        e,
        decode_handles parse now d bytes m carries.running some_bytes is
            ∙ ap (settle write true d) handled,
        carries',
      )

  decode_rows-Carries :
      (parse : List ℕ → Option Message) (now : CommitTime) (inputs : List (List ℕ))
      (cs done : List Change) (d : Decoder)
      → Carries write accepts relations lsn done d
      → Rows parse inputs cs
      → All IsKnown cs
      → Fits (concat_map change_bytes (done ++ cs))
      → (e : Decoder) × (decode_stream write true parse now d inputs ≡ (e, quiet (length inputs)))
        × Carries write accepts relations lsn (done ++ cs) e
  unfolding decode_stream
  decode_rows-Carries parse now [] cs done d carries no_rows h fits =
      (d, refl, rw (append-nil done) carries)
  decode_rows-Carries parse now (bytes ∷ rest) all done d carries
        (row _ m cs _ more some_bytes is rows others) h fits =
      let split = append_assoc done cs more in
      let whole : Fits (concat_map change_bytes ((done ++ cs) ++ more)) = rw split fits in
      let (known, later) = All-parts IsKnown cs more h in
      let (e, first, carries') =
        decode_row-Carries parse now d done cs bytes m carries some_bytes is rows known
          (Fits-before (done ++ cs) more whole) in
      let (f, then_rest, carries'') =
        decode_rows-Carries parse now rest more (done ++ cs) e carries' others later whole in
      (f, rw (first, then_rest) refl, rw (sym split) carries'')

  begun-Carries :
      (d : Decoder) (time : CommitTime)
      → (d.closed ≡ false) × (d.init_error ≡ false)
      → d.relations ≡ relations
      → Carries write accepts relations lsn []
          (record d { current = some (begun lsn time); required = []; encoded_size = 41 })
  unfolding begun is_required
  begun-Carries d time running cache = record {
    tx = begun lsn time;
    cache = cache;
    active = refl;
    begun_at = refl;
    held = resident refl refl tt;
    complete = λ oid h. cc;
    used = tt;
    running = running;
  }

  -- A finished transaction, and the decoder without it.
  pub record Commits (cs : List Change) (end : Lsn) (time : CommitTime) (tx : Transaction)
      : Type 0 where
    pub changes_kept : materialize_changes tx ≡ ok (record tx { changes = cs; spill = none })
    pub at_lsn : (tx.commit_lsn ≡ lsn) × (tx.end_lsn ≡ end) × (tx.commit_time ≡ time)
    pub relations_known :
        All
          (λ c. (r : Relation) × (cached relations c.relation_oid ≡ some r) × Memᴰ r tx.relations)
          cs

  commit-Commits :
      (d : Decoder) (cs : List Change) (end : Lsn) (time : CommitTime)
      → Carries write accepts relations lsn cs d
      → lsn ≤ end
      → (tx : Transaction) × (e : Decoder) × (commit write true d lsn end time d.current
          ≡ ok (e, some tx))
        × (e.current ≡ none)
        × Commits cs end time tx
  unfolding commit
  commit-Commits d cs end time carries le =
      let tx : Transaction = record carries.tx { commit_time = time; end_lsn = end } in
      let e : Decoder = record d { current = none; required = []; encoded_size = 0 } in
      let guards : commit write true d lsn end time (some carries.tx) ≡ ok (e, some tx) =
        rw (carries.begun_at, ==-self lsn, le→ltb end lsn le) refl in
      (
        tx,
        e,
        ap (commit write true d lsn end time) carries.active ∙ guards,
        refl,
        record {
          changes_kept =
              materialize_changes-HeldIn tx cs (moved_held carries.tx tx cs refl refl carries.held);
          at_lsn = (carries.begun_at, refl, refl);
          relations_known = All-map (λ c u. carries.complete c.relation_oid u) cs carries.used;
        },
      )

  -- Begin, messages of row changes whose relations are cached, and a Commit with Begin's LSN and an
  -- end at or after it: the calls before Commit return nothing, Commit returns a transaction with the
  -- LSNs and the time, whose changes, in memory or read back from a spill, are those of the messages
  -- in their order, and which holds the relation of every change. No transaction is active then.
  pub decode_stream_lem :
      (parse : List ℕ → Option Message) (now : CommitTime) (d : Decoder) (first last : List ℕ)
      (inputs : List (List ℕ)) (cs : List Change) (end : Lsn) (before time : CommitTime)
      → (d.closed ≡ false) × (d.init_error ≡ false)
      → (d.relations ≡ relations) × (d.current ≡ none)
      → (1 ≤ length first) × (parse first ≡ some (begin_message lsn before))
      → (1 ≤ length last) × (parse last ≡ some (commit_message lsn end time))
      → lsn ≤ end
      → Rows parse inputs cs
      → All IsKnown cs
      → Fits (concat_map change_bytes cs)
      → (tx : Transaction) × (e : Decoder) × (decode_stream write true parse now d
            (first ∷ (inputs ++ last ∷ []))
          ≡ (e, ok none ∷ (quiet (length inputs) ++ ok (some tx) ∷ [])))
        × (e.current ≡ none)
        × Commits cs end time tx
  unfolding decode_stream handle handle_rows row_changes handle_other begin settle
  decode_stream_lem parse now d first last inputs cs end before time running (cache, idle)
        (some_first, is_begin) (some_last, is_commit) le rows known fits =
      let d' : Decoder = record d {
        current = some (begun lsn before);
        required = [];
        encoded_size = 41;
      } in
      let begins : decode write true parse now d first ≡ (d', ok none) =
        decode_handles parse now d first _ running some_first is_begin
        ∙ ap (λ current. settle write true d (begin write true d lsn before current)) idle in
      let (m, then_rows, carries) =
        decode_rows-Carries parse now inputs cs [] d' (begun-Carries d before running cache) rows
          known fits in
      let (tx, e, committed, over, commits) = commit-Commits m cs end time carries le in
      let ends : decode write true parse now m last ≡ (e, ok (some tx)) =
        decode_handles parse now m last _ carries.running some_last is_commit
        ∙ ap (settle write true m) committed in
      let tail =
        decode_stream-append write parse now d' m inputs (last ∷ []) (quiet (length inputs))
          then_rows in
      (tx, e, rw (begins, tail, ends) refl, over, commits)
