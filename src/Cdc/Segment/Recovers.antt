-- ===== src/Cdc/Segment/Recovers.antt =====
-- Scanning a log, with or without a torn frame behind it.
use mathlib.Core.List.{append_assoc}
use pgmigrate.Base.{
  ℕ, zero, suc, ◌+◌, ◌≤◌, ◌<◌, ◌≡◌, inl, inr, refl, sym, ap, ◌∙◌, List, [], ◌∷◌, ◌++◌, Option, none,
  some, arith, le→ltb, lt→ltb, gt→leb, ==-self, Bool-cases, ltb, ltb→ge,
}
use pgmigrate.Base.Bytes.{
  le_bytes, le_value, length-le_bytes, le_value-le_bytes, length-append_bytes, lengths,
}
use pgmigrate.Base.Lists.{
  length, take, drop, concat_map, take-append, drop-append, take-append_le, length-drop,
}
use pgmigrate.Base.Results.{ok, err}
use pgmigrate.Cdc.Model.{Lsn, Transaction}
use pgmigrate.Cdc.Codec.Decode.{same_bytes}
use pgmigrate.Cdc.Codec.Layout.{payload_bytes, CanonicalTransaction}
use pgmigrate.Cdc.Codec.Sizes.{length-payload_bytes}
use pgmigrate.Cdc.Segment.Scan.{
  FrameError, short_header, short_payload, ScanResult, scan_transaction_metadata, check_order,
  add_frame, scan_frame, scan_frames,
}
use pgmigrate.Cdc.Segment.Log.{Log, frame, frame_bytes, log_bytes, scan_log}

-- The LSNs stand at fixed places of a payload.
commit_field :
    (tx : Transaction)
    → CanonicalTransaction tx
    → le_value (take 8 (drop 5 (payload_bytes tx))) ≡ tx.commit_lsn
commit_field tx h = simp append_assoc (
    rw (take-append 8 (le_bytes 8 tx.commit_lsn) _ (length-le_bytes 8 tx.commit_lsn))
      (le_value-le_bytes 8 tx.commit_lsn h.commit_range))

end_field :
    (tx : Transaction)
    → CanonicalTransaction tx
    → le_value (take 8 (drop 13 (payload_bytes tx))) ≡ tx.end_lsn
end_field tx h = simp append_assoc (
    rw
      (
        drop-append 8 (le_bytes 8 tx.commit_lsn) _ (length-le_bytes 8 tx.commit_lsn),
        take-append 8 (le_bytes 8 tx.end_lsn) _ (length-le_bytes 8 tx.end_lsn),
      )
      (le_value-le_bytes 8 tx.end_lsn h.end_range))

drop_8 : (xs ys zs : List ℕ) → length xs ≡ 4 → length ys ≡ 4 → drop 8 (xs ++ (ys ++ zs)) ≡ zs
drop_8 xs ys zs hx hy =
    ap (drop 8) (sym (append_assoc xs ys zs))
    ∙ drop-append 8 (xs ++ ys) zs (omega (arith, length-append_bytes xs ys))

module _ (crc : List ℕ → ℕ) (crc_range : (p : List ℕ) → crc p < 4294967296) where
  scan_transaction_metadata_lem :
      (tx : Transaction) (rest : List ℕ)
      → CanonicalTransaction tx
      → scan_transaction_metadata crc
          (payload_bytes tx ++ rest)
          (length (payload_bytes tx))
          (crc (payload_bytes tx))
        ≡ ok (tx.commit_lsn, tx.end_lsn)
  unfolding scan_transaction_metadata same_bytes le_value
  scan_transaction_metadata_lem tx rest h =
      rw
        (
          take-append (length (payload_bytes tx)) (payload_bytes tx) rest refl,
          le→ltb (length (payload_bytes tx)) 21 (omega (arith, length-payload_bytes tx)),
          le→ltb (length (payload_bytes tx ++ rest)) (length (payload_bytes tx))
              (omega (arith, length-append_bytes (payload_bytes tx) rest)),
          ==-self,
        )
        (ap ok (λ i. (commit_field tx h i, end_field tx h i)))

  -- A frame in order is read whole.
  scan_frame-payload :
      (r : ScanResult) (p rest : List ℕ) (commit end : Lsn)
      → length p < 4294967296
      → scan_transaction_metadata crc (p ++ rest) (length p) (crc p) ≡ ok (commit, end)
      → r.last_commit_lsn < commit
      → commit ≤ end
      → r.last_end_lsn < end
      → scan_frame crc r (frame crc p ++ rest) ≡ ok (add_frame r (length p) commit end, rest)
  unfolding scan_frame check_order
  scan_frame-payload r p rest commit end fits meta c o e = simp append_assoc (
      rw
        (
          le→ltb (length (le_bytes 4 (length p) ++ (le_bytes 4 (crc p) ++ (p ++ rest)))) 8
              (omega lengths),
          take-append 4 (le_bytes 4 (length p)) _ (length-le_bytes 4 (length p)),
          drop_8 (le_bytes 4 (length p)) (le_bytes 4 (crc p)) (p ++ rest)
              (length-le_bytes 4 (length p)) (length-le_bytes 4 (crc p)),
          drop-append 4 (le_bytes 4 (length p)) _ (length-le_bytes 4 (length p)),
          take-append 4 (le_bytes 4 (crc p)) _ (length-le_bytes 4 (crc p)),
          le_value-le_bytes 4 (length p) fits,
          le_value-le_bytes 4 (crc p) (crc_range p),
        )
        (rw (
          meta,
          gt→leb commit r.last_commit_lsn c,
          le→ltb end commit o,
          gt→leb end r.last_end_lsn e,
          drop-append (length p) p rest refl,
        )))

  scan_frame-frame :
      (r : ScanResult) (tx : Transaction) (rest : List ℕ)
      → CanonicalTransaction tx
      → r.last_commit_lsn < tx.commit_lsn
      → tx.commit_lsn ≤ tx.end_lsn
      → r.last_end_lsn < tx.end_lsn
      → scan_frame crc r (frame_bytes crc tx ++ rest)
        ≡ ok (add_frame r (length (payload_bytes tx)) tx.commit_lsn tx.end_lsn, rest)
  unfolding frame_bytes
  scan_frame-frame r tx rest h c o e =
      scan_frame-payload r (payload_bytes tx) rest tx.commit_lsn tx.end_lsn
        (omega (arith, h.payload_fits)) (scan_transaction_metadata_lem tx rest h) c o e

  pub length-frame : (p : List ℕ) → length (frame crc p) ≡ 8 + length p
  length-frame p = simp (length-append_bytes, length-le_bytes) (omega arith)

  pub length-frame_bytes :
      (tx : Transaction) → length (frame_bytes crc tx) ≡ 8 + length (payload_bytes tx)
  unfolding frame_bytes
  length-frame_bytes tx = length-frame (payload_bytes tx)

  scan_frames-step :
      (fuel : ℕ) (r : ScanResult) (xs : List ℕ) {s : ScanResult} {left : List ℕ}
      → scan_frame crc r xs ≡ ok (s, left)
      → 0 < length xs
      → scan_frames crc (suc fuel) r xs ≡ scan_frames crc fuel s left
  unfolding scan_frames
  scan_frames-step fuel r [] e h = elim h [ ]
  scan_frames-step fuel r (b ∷ xs) e h = rw (e, scan_frames)

  pub scan_frames-stop :
      (r : ScanResult) (xs : List ℕ) (e : FrameError)
      → scan_frame crc r xs ≡ err e
      → 0 < length xs
      → (fuel : ℕ) → length xs < fuel
      → scan_frames crc fuel r xs ≡ (r, some e)
  unfolding scan_frames
  scan_frames-stop r xs e stops h zero f = elim f [ ]
  scan_frames-stop r [] e stops h (suc fuel) f = elim h [ ]
  scan_frames-stop r (b ∷ xs) e stops h (suc fuel) f = rw (stops, scan_frames)

  pub nothing_left : (r : ScanResult) (fuel : ℕ) → 0 < fuel → scan_frames crc fuel r [] ≡ (r, none)
  unfolding scan_frames
  nothing_left r zero f = elim f [ ]
  nothing_left r (suc fuel) f = refl

  -- What the loop makes of the bytes behind a log, it makes of the log and these bytes.
  pub scan_frames-Log :
      (r : ScanResult) (txs : List Transaction) (rest : List ℕ)
      (out : ScanResult × Option FrameError)
      → Log r.last_commit_lsn r.last_end_lsn txs
      → ((fuel : ℕ) → length rest < fuel → scan_frames crc fuel (scan_log r txs) rest ≡ out)
      → (fuel : ℕ) → length (log_bytes crc txs ++ rest) < fuel
      → scan_frames crc fuel r (log_bytes crc txs ++ rest) ≡ out
  unfolding concat_map scan_log
  scan_frames-Log r [] rest out h k fuel f = k fuel f
  scan_frames-Log r (tx ∷ txs) rest out h k zero f = elim f [ ]
  scan_frames-Log r (tx ∷ txs) rest out h k (suc fuel) f =
      let behind = log_bytes crc txs ++ rest in
      let size : length (frame_bytes crc tx ++ behind)
          ≡ 8 + length (payload_bytes tx) + length behind =
        length-append_bytes (frame_bytes crc tx) behind
        ∙ ap (λ n. n + length behind) (length-frame_bytes tx) in
      rw (append_assoc (frame_bytes crc tx) (log_bytes crc txs) rest) (
        scan_frames-step fuel r _ (scan_frame-frame r tx behind h.0 h.1 h.2 h.3)
          (omega (arith, size))
        ∙ scan_frames-Log (add_frame r (length (payload_bytes tx)) tx.commit_lsn tx.end_lsn) txs
            rest out (unfold add_frame in h.4) k fuel
            (omega (
              arith,
              size,
              ap length (append_assoc (frame_bytes crc tx) (log_bytes crc txs) rest),
            )))

  torn_size :
      (p torn missing : List ℕ)
      → length p < 4294967296
      → torn ++ missing ≡ frame crc p
      → 8 ≤ length torn
      → le_value (take 4 torn) ≡ length p
  torn_size p torn missing fits split long =
      ap le_value (
        sym (take-append_le 4 torn missing (omega arith))
        ∙ ap (take 4) split
        ∙ take-append 4 (le_bytes 4 (length p)) _ (length-le_bytes 4 (length p)))
      ∙ le_value-le_bytes 4 (length p) fits

  -- A proper prefix of a frame is no frame.
  pub scan_frame-torn :
      (r : ScanResult) (p torn missing : List ℕ)
      → length p < 4294967296
      → 21 ≤ length p
      → torn ++ missing ≡ frame crc p
      → 0 < length missing
      → (e : FrameError) × (scan_frame crc r torn ≡ err e)
  unfolding scan_frame scan_transaction_metadata
  scan_frame-torn r p torn missing fits large split some_missing =
      elim (Bool-cases (ltb (length torn) 8)) [
        | inl short ↦ (short_header, rw short)
        | inr long ↦
            let whole : length torn + length missing ≡ 8 + length p =
              sym (length-append_bytes torn missing) ∙ ap length split ∙ length-frame p in
            let least = ltb→ge (length torn) 8 long in
            (
              short_payload,
              rw (
                long,
                torn_size p torn missing fits split least,
                le→ltb (length p) 21 large,
                lt→ltb (length (drop 8 torn)) (length p)
                    (omega (arith, whole, least, length-drop 8 torn)),
              ),
            )
      ]
