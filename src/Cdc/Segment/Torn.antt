-- ===== src/Cdc/Segment/Torn.antt =====
-- The whole scan of a segment file: what recovery keeps of a tail that a crash has torn.
use mathlib.Core.List.{append-nil}
use pgmigrate.Base.{
  ℕ, suc, ◌+◌, ◌-◌, ◌<◌, ◌≡◌, refl, sym, ap, ◌∙◌, Bool, true, false, List, [], ◌∷◌, ◌++◌, Option,
  none, some, arith, ◌==◌,
}
use pgmigrate.Base.Bytes.{length-append_bytes}
use pgmigrate.Base.Lists.{length, concat_map, take-length-append}
use pgmigrate.Base.Results.{ok}
use pgmigrate.Cdc.Model.{Lsn, Transaction}
use pgmigrate.Cdc.Codec.Layout.{payload_bytes, CanonicalTransaction}
use pgmigrate.Cdc.Codec.Sizes.{length-payload_bytes}
use pgmigrate.Cdc.Segment.Scan.{
  FrameError, ScanResult, add_frame, scan_frames, scan_start, finish_scan, scan_segment,
}
use pgmigrate.Cdc.Segment.Log.{Log, last_commit, last_end, frame_bytes, log_bytes, scan_log}
use pgmigrate.Cdc.Segment.Recovers.{
  scan_frames-Log, scan_frame-torn, scan_frames-stop, nothing_left, length-frame_bytes,
}

pub scan_log-last_commit :
    (r : ScanResult) (txs : List Transaction)
    → (scan_log r txs).last_commit_lsn ≡ last_commit r.last_commit_lsn txs
unfolding scan_log add_frame
scan_log-last_commit r [] = refl
scan_log-last_commit r (tx ∷ txs) =
    scan_log-last_commit (add_frame r (length (payload_bytes tx)) tx.commit_lsn tx.end_lsn) txs

pub scan_log-last_end :
    (r : ScanResult) (txs : List Transaction)
    → (scan_log r txs).last_end_lsn ≡ last_end r.last_end_lsn txs
unfolding scan_log add_frame
scan_log-last_end r [] = refl
scan_log-last_end r (tx ∷ txs) =
    scan_log-last_end (add_frame r (length (payload_bytes tx)) tx.commit_lsn tx.end_lsn) txs

scan_log-truncated :
    (r : ScanResult) (txs : List Transaction) → (scan_log r txs).truncated ≡ r.truncated
unfolding scan_log add_frame
scan_log-truncated r [] = refl
scan_log-truncated r (tx ∷ txs) =
    scan_log-truncated (add_frame r (length (payload_bytes tx)) tx.commit_lsn tx.end_lsn) txs

some_frames : (n : ℕ) → (n + 1 == 0) ≡ false
some_frames n = ground arith

pub grown : (r : ScanResult) (n : ℕ) (c e : Lsn) → ((add_frame r n c e).frames == 0) ≡ false
unfolding add_frame
grown r n c e = some_frames r.frames

kept_commit :
    (r : ScanResult) (n : ℕ) (c e : Lsn)
    → (r.frames == 0) ≡ false
    → (add_frame r n c e).first_commit_lsn ≡ r.first_commit_lsn
unfolding add_frame
kept_commit r n c e h = rw h

kept_end :
    (r : ScanResult) (n : ℕ) (c e : Lsn)
    → (r.frames == 0) ≡ false
    → (add_frame r n c e).first_end_lsn ≡ r.first_end_lsn
unfolding add_frame
kept_end r n c e h = rw h

-- The first LSNs stay when more frames are read.
pub first_stays :
    (r : ScanResult) (txs : List Transaction)
    → (r.frames == 0) ≡ false
    → ((scan_log r txs).first_commit_lsn ≡ r.first_commit_lsn)
      × ((scan_log r txs).first_end_lsn ≡ r.first_end_lsn)
      × (((scan_log r txs).frames == 0) ≡ false)
unfolding scan_log
first_stays r [] h = (refl, refl, h)
first_stays r (tx ∷ txs) h =
    let next = add_frame r (length (payload_bytes tx)) tx.commit_lsn tx.end_lsn in
    let (commit, end, more) =
      first_stays next txs (grown r (length (payload_bytes tx)) tx.commit_lsn tx.end_lsn) in
    (commit ∙ kept_commit r _ _ _ h, end ∙ kept_end r _ _ _ h, more)

-- The LSNs of a log's first transaction, 0 if there is none.
abbrev pub first_commit_of : List Transaction → Lsn
first_commit_of [] = 0
first_commit_of (tx ∷ txs) = tx.commit_lsn

abbrev pub first_end_of : List Transaction → Lsn
first_end_of [] = 0
first_end_of (tx ∷ txs) = tx.end_lsn

scan_log-first :
    (commit end : Lsn) (txs : List Transaction)
    → ((scan_log (scan_start commit end) txs).first_commit_lsn ≡ first_commit_of txs)
      × ((scan_log (scan_start commit end) txs).first_end_lsn ≡ first_end_of txs)
unfolding scan_log add_frame
scan_log-first commit end [] = (refl, refl)
scan_log-first commit end (tx ∷ txs) =
    let n = length (payload_bytes tx) in
    let r = add_frame (scan_start commit end) n tx.commit_lsn tx.end_lsn in
    let (first_commit, first_end, _) =
      first_stays r txs (grown (scan_start commit end) n tx.commit_lsn tx.end_lsn) in
    (first_commit, first_end)

scan_log-frames :
    (r : ScanResult) (txs : List Transaction) → (scan_log r txs).frames ≡ r.frames + length txs
unfolding scan_log add_frame
scan_log-frames r [] = omega arith
scan_log-frames r (tx ∷ txs) =
    let n = length (payload_bytes tx) in
    let rest = scan_log-frames (add_frame r n tx.commit_lsn tx.end_lsn) txs in omega (arith, rest)

add_sub : (n m : ℕ) → n + m - n ≡ m
add_sub n m = omega arith

add_frame-size : (r : ScanResult) (n : ℕ) (c e : Lsn) → (add_frame r n c e).size ≡ r.size + (8 + n)
unfolding add_frame
add_frame-size r n c e = refl

module _ (crc : List ℕ → ℕ) (crc_range : (p : List ℕ) → crc p < 4294967296) where
  pub scan_log-size :
      (r : ScanResult) (txs : List Transaction)
      → (scan_log r txs).size ≡ r.size + length (log_bytes crc txs)
  unfolding scan_log concat_map
  scan_log-size r [] = omega arith
  scan_log-size r (tx ∷ txs) = omega (
    arith,
    scan_log-size (add_frame r (length (payload_bytes tx)) tx.commit_lsn tx.end_lsn) txs,
    add_frame-size r (length (payload_bytes tx)) tx.commit_lsn tx.end_lsn,
    length-append_bytes (frame_bytes crc tx) (log_bytes crc txs),
    length-frame_bytes crc crc_range tx,
  )

module _ (crc : List ℕ → ℕ) (crc_range : (p : List ℕ) → crc p < 4294967296) (commit end : Lsn)
    (txs : List Transaction) (log : Log commit end txs) where
  after :
      (rest : List ℕ) (o : Option FrameError)
      → ((fuel : ℕ)
          → length rest < fuel
          → scan_frames crc fuel (scan_log (scan_start commit end) txs) rest
            ≡ (scan_log (scan_start commit end) txs, o))
      → scan_frames crc
          (suc (length (log_bytes crc txs ++ rest)))
          (scan_start commit end)
          (log_bytes crc txs ++ rest)
        ≡ (scan_log (scan_start commit end) txs, o)
  after rest o k =
      scan_frames-Log crc crc_range (scan_start commit end) txs rest _ log k
        (suc (length (log_bytes crc txs ++ rest))) (omega arith)

  read_all :
      scan_frames crc (suc (length (log_bytes crc txs))) (scan_start commit end) (log_bytes crc txs)
      ≡ (scan_log (scan_start commit end) txs, none)
  read_all =
      rw (sym (append-nil (log_bytes crc txs)))
        (after [] none (nothing_left crc crc_range (scan_log (scan_start commit end) txs)))

  -- The scan of a log's bytes is the fold over the log.
  pub scan_segment-scan_log :
      (repair : Bool)
      → scan_segment crc repair commit end (log_bytes crc txs)
        ≡ ok (scan_log (scan_start commit end) txs, log_bytes crc txs)
  unfolding scan_segment finish_scan
  scan_segment-scan_log repair = ap (finish_scan repair (log_bytes crc txs)) read_all

  size : (scan_log (scan_start commit end) txs).size ≡ length (log_bytes crc txs)
  size = omega (arith, scan_log-size crc crc_range (scan_start commit end) txs)

  cut :
      (rest : List ℕ) (e : FrameError)
      → finish_scan true (log_bytes crc txs ++ rest) (scan_log (scan_start commit end) txs, some e)
        ≡ ok (
          record (scan_log (scan_start commit end) txs) { truncated = length rest },
          log_bytes crc txs,
        )
  unfolding finish_scan
  cut rest e = rw (
    size,
    length-append_bytes (log_bytes crc txs) rest,
    take-length-append (log_bytes crc txs) rest,
    add_sub (length (log_bytes crc txs)) (length rest),
  )

  nothing_torn :
      finish_scan true (log_bytes crc txs) (scan_log (scan_start commit end) txs, none)
      ≡ ok (record (scan_log (scan_start commit end) txs) { truncated = 0 }, log_bytes crc txs)
  unfolding finish_scan
  nothing_torn =
      ap
        (λ n.
          ok (record (scan_log (scan_start commit end) txs) { truncated = n }, log_bytes crc txs))
        (scan_log-truncated (scan_start commit end) txs)

  -- Scanning the tail after a crash that left a log and a part of the next frame, be it none of it,
  -- keeps the log, cuts the torn bytes off and reports how many there were.
  pub scan_segment-torn :
      (next : Transaction) (torn missing : List ℕ)
      → CanonicalTransaction next
      → torn ++ missing ≡ frame_bytes crc next
      → 0 < length missing
      → scan_segment crc true commit end (log_bytes crc txs ++ torn)
        ≡ ok (
          record (scan_log (scan_start commit end) txs) { truncated = length torn },
          log_bytes crc txs,
        )
  unfolding scan_segment frame_bytes
  scan_segment-torn next [] missing canonical split lost =
      rw (append-nil (log_bytes crc txs), read_all) nothing_torn
  scan_segment-torn next (b ∷ torn) missing canonical split lost =
      let r = scan_log (scan_start commit end) txs in
      let (e, stops) =
        scan_frame-torn crc crc_range r (payload_bytes next) (b ∷ torn) missing
          (omega (arith, canonical.payload_fits)) (omega (arith, length-payload_bytes next)) split
          lost in
      ap (finish_scan true (log_bytes crc txs ++ (b ∷ torn))) (
        after (b ∷ torn) (some e)
          (scan_frames-stop crc crc_range r (b ∷ torn) e stops (omega arith)))
      ∙ cut (b ∷ torn) e

  -- Scanning a file that holds a log and nothing else reads all of it, whether the file is
  -- finalized or the tail: the first and last LSNs are those of the log's first and last
  -- transaction, or 0 and the given LSNs if there is none, the size is the file's, the number of
  -- frames that of the transactions, and nothing is cut.
  pub scan_segment-log :
      (repair : Bool)
      → (r : ScanResult) × (scan_segment crc repair commit end (log_bytes crc txs)
          ≡ ok (r, log_bytes crc txs))
        × (r.first_commit_lsn ≡ first_commit_of txs)
        × (r.first_end_lsn ≡ first_end_of txs)
        × (r.last_commit_lsn ≡ last_commit commit txs)
        × (r.last_end_lsn ≡ last_end end txs)
        × (r.size ≡ length (log_bytes crc txs))
        × (r.frames ≡ length txs)
        × (r.truncated ≡ 0)
  scan_segment-log repair =
      let r = scan_start commit end in
      let (first_commit, first_end) = scan_log-first commit end txs in
      (
        scan_log r txs,
        scan_segment-scan_log repair,
        first_commit,
        first_end,
        scan_log-last_commit r txs,
        scan_log-last_end r txs,
        size,
        omega (arith, scan_log-frames r txs),
        scan_log-truncated r txs,
      )
