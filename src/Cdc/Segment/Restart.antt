-- ===== src/Cdc/Segment/Restart.antt =====
-- Recovery of a directory as a writer leaves it: finalized logs, and a tail that a crash has cut.
use pgmigrate.Base.{
  ℕ, ◌≤◌, ◌<◌, ◌≡◌, refl, ◌∙◌, true, false, List, [], ◌∷◌, ◌++◌, some, arith, ◌==◌, gt→leb, le→ltb,
}
use pgmigrate.Base.Lists.{length, take}
use pgmigrate.Base.Results.{ok}
use pgmigrate.Cdc.Model.{Lsn, Transaction}
use pgmigrate.Cdc.Codec.Layout.{payload_bytes}
use pgmigrate.Cdc.Segment.Scan.{ScanResult, add_frame, scan_start, scan_segment}
use pgmigrate.Cdc.Segment.Log.{Log, last_commit, last_end, log_bytes, scan_log}
use pgmigrate.Cdc.Segment.Torn.{
  scan_segment-scan_log, scan_log-last_commit, scan_log-last_end, scan_log-size, first_stays, grown,
}
use pgmigrate.Cdc.Segment.Crash.{last_commit-append, last_end-append, recovered-Log}
use pgmigrate.Cdc.Segment.Catalog.{SegmentRange}
use pgmigrate.Cdc.Segment.Recovery.{
  SegmentFile, split_partial, prepare_recovery_segments, follow_segment, recover_finalized,
  recover_partial, recover_directory,
}

-- Finalized segments behind the LSNs `c` and `e`, each with a log that is not empty, and the log
-- that they make together.
pub data Finalized (crc : List ℕ → ℕ)
    : Lsn → Lsn → List SegmentFile → List Transaction → Type 0 where
  no_segment : (c e : Lsn) → Finalized crc c e [] []
  segment :
      (c e : Lsn) (s : SegmentFile) (tx : Transaction) (txs : List Transaction)
      (rest : List SegmentFile) (behind : List Transaction)
      → s.partial ≡ false
      → s.contents ≡ log_bytes crc (tx ∷ txs)
      → Log c e (tx ∷ txs)
      → Finalized crc (last_commit c (tx ∷ txs)) (last_end e (tx ∷ txs)) rest behind
      → Finalized crc c e (s ∷ rest) ((tx ∷ txs) ++ behind)

-- The entries that a catalog should have for these segments: each with the file's path and start,
-- the LSNs at which the file's log ends, and the file's size.
pub data Cataloged (crc : List ℕ → ℕ)
    : Lsn → Lsn → List SegmentFile → List Transaction → List SegmentRange → Type 0 where
  no_entry : (c e : Lsn) → Cataloged crc c e [] [] []
  entry :
      (c e : Lsn) (s : SegmentFile) (tx : Transaction) (txs : List Transaction)
      (rest : List SegmentFile) (behind : List Transaction) (ranges : List SegmentRange)
      → s.contents ≡ log_bytes crc (tx ∷ txs)
      → Cataloged crc (last_commit c (tx ∷ txs)) (last_end e (tx ∷ txs)) rest behind ranges
      → Cataloged crc c e (s ∷ rest) ((tx ∷ txs) ++ behind) (
          record {
            path = s.path;
            start_commit = s.start;
            last_commit = last_commit c (tx ∷ txs);
            last_end = last_end e (tx ∷ txs);
            validated_size = length s.contents;
          }
          ∷ ranges)

-- A log stands behind all lower LSNs.
Log-zero : (c e : Lsn) (xs : List Transaction) → Log c e xs → Log 0 0 xs
Log-zero c e [] h = tt
Log-zero c e (x ∷ xs) h = (h.0, omega (arith, h.1), h.2, omega (arith, h.3), h.4)

follow_scan :
    (c e : Lsn) (s : ScanResult)
    → (s.frames == 0) ≡ false
    → c < s.first_commit_lsn
    → e < s.first_end_lsn
    → follow_segment (c, e) s ≡ ok (s.last_commit_lsn, s.last_end_lsn)
unfolding follow_segment
follow_scan c e s some_frame commit end =
    rw (some_frame, gt→leb s.first_commit_lsn c commit, gt→leb s.first_end_lsn e end)

first_commit :
    (tx : Transaction) (n : ℕ)
    → (add_frame (scan_start 0 0) n tx.commit_lsn tx.end_lsn).first_commit_lsn ≡ tx.commit_lsn
unfolding add_frame
first_commit tx n = refl

first_end :
    (tx : Transaction) (n : ℕ)
    → (add_frame (scan_start 0 0) n tx.commit_lsn tx.end_lsn).first_end_lsn ≡ tx.end_lsn
unfolding add_frame
first_end tx n = refl

-- A log behind the LSNs passes the check that recovery makes of a finalized segment.
follow-Log :
    (c e : Lsn) (tx : Transaction) (txs : List Transaction)
    → Log c e (tx ∷ txs)
    → follow_segment (c, e) (scan_log (scan_start 0 0) (tx ∷ txs))
      ≡ ok (last_commit c (tx ∷ txs), last_end e (tx ∷ txs))
unfolding scan_log
follow-Log c e tx txs h =
    let n = length (payload_bytes tx) in
    let r = add_frame (scan_start 0 0) n tx.commit_lsn tx.end_lsn in
    let (commit, end, more) =
      first_stays r txs (grown (scan_start 0 0) n tx.commit_lsn tx.end_lsn) in
    follow_scan c e (scan_log r txs) more (omega (arith, h.1, commit, first_commit tx n))
      (omega (arith, h.3, end, first_end tx n))
    ∙ λ i. ok (
      scan_log-last_commit (scan_start 0 0) (tx ∷ txs) i,
      scan_log-last_end (scan_start 0 0) (tx ∷ txs) i,
    )

module _ (crc : List ℕ → ℕ) (crc_range : (p : List ℕ) → crc p < 4294967296) where
  recover_finalized_lem :
      (c e : Lsn) (files : List SegmentFile) (txs : List Transaction)
      → Finalized crc c e files txs
      → (ranges : List SegmentRange) × (recover_finalized crc (c, e) files
          ≡ ok ((last_commit c txs, last_end e txs), ranges))
        × Cataloged crc c e files txs ranges
  unfolding recover_finalized
  recover_finalized_lem c e files txs (no_segment _ _) = ([], refl, no_entry c e)
  recover_finalized_lem c e files txs
        (segment _ _ s tx first rest behind whole contents log others) =
      let (ranges, found, cataloged) = recover_finalized_lem _ _ rest behind others in
      let size : (scan_log (scan_start 0 0) (tx ∷ first)).size
          ≡ length (log_bytes crc (tx ∷ first)) =
        omega (arith, scan_log-size crc crc_range (scan_start 0 0) (tx ∷ first)) in
      (
        record {
          path = s.path;
          start_commit = s.start;
          last_commit = last_commit c (tx ∷ first);
          last_end = last_end e (tx ∷ first);
          validated_size = length s.contents;
        }
            ∷ ranges,
        rw (
          contents,
          scan_segment-scan_log crc crc_range 0 0 (tx ∷ first) (Log-zero c e (tx ∷ first) log)
              false,
          follow-Log c e tx first log,
          found,
          last_commit-append c (tx ∷ first) behind,
          last_end-append e (tx ∷ first) behind,
          size,
        ),
        entry c e s tx first rest behind ranges contents cataloged,
      )

  split_lem :
      (c e : Lsn) (files : List SegmentFile) (txs : List Transaction) (tail : SegmentFile)
      → Finalized crc c e files txs
      → tail.partial ≡ true
      → split_partial (files ++ (tail ∷ [])) ≡ ok (files, some tail)
  unfolding split_partial
  split_lem c e files txs tail (no_segment _ _) partial = rw partial
  split_lem c e files txs tail (segment _ _ s tx first [] behind whole contents log others)
        partial =
      rw (whole, partial)
  split_lem c e files txs tail (segment _ _ s tx first (t ∷ rest) behind whole contents log others)
        partial =
      rw (whole, split_lem _ _ (t ∷ rest) behind tail others partial)

  tail_lem :
      (c e : Lsn) (tail : SegmentFile) (safe kept : List Transaction) (truncated : ℕ)
      → scan_segment crc true c e tail.contents
        ≡ ok (
          record (scan_log (scan_start c e) (safe ++ kept)) { truncated = truncated },
          log_bytes crc (safe ++ kept),
        )
      → recover_partial crc (c, e) (some tail)
        ≡ ok (
          record {
            last_commit_lsn = last_commit c (safe ++ kept);
            durable_lsn = last_end e (safe ++ kept);
            partial_path = some tail.path;
            truncated_bytes = truncated;
          },
          some (log_bytes crc (safe ++ kept)),
        )
  unfolding recover_partial
  tail_lem c e tail safe kept truncated scan = rw (
    scan,
    scan_log-last_commit (scan_start c e) (safe ++ kept),
    scan_log-last_end (scan_start c e) (safe ++ kept),
  )

  -- After a crash that cuts the unsynced part of the tail at any byte, recovery of a directory of
  -- finalized logs and that tail succeeds with one to four workers, while the sizes fit an int64. It
  -- catalogs every finalized file, in order, with its path, its start, the LSNs at which its log ends
  -- and its size; it keeps the synced part of the tail and a prefix of the rest, ends at the LSNs of
  -- the last transaction of all these, and leaves a tail that holds just the frames that it keeps.
  pub recover_directory_lem :
      (workers total n : ℕ) (files : List SegmentFile) (tail : SegmentFile)
      (sealed safe fresh : List Transaction)
      → 1 ≤ workers
      → workers ≤ 4
      → Finalized crc 0 0 files sealed
      → tail.partial ≡ true
      → tail.contents ≡ log_bytes crc safe ++ take n (log_bytes crc fresh)
      → Log (last_commit 0 sealed) (last_end 0 sealed) (safe ++ fresh)
      → prepare_recovery_segments 0 (files ++ (tail ∷ [])) ≡ ok total
      → (kept : List Transaction) × (lost : List Transaction) × (truncated : ℕ) × (ranges : List
          SegmentRange)
        × (kept ++ lost ≡ fresh)
        × (recover_directory crc workers (files ++ (tail ∷ []))
            ≡ ok (
              (
                record {
                  last_commit_lsn = last_commit 0 (sealed ++ (safe ++ kept));
                  durable_lsn = last_end 0 (sealed ++ (safe ++ kept));
                  partial_path = some tail.path;
                  truncated_bytes = truncated;
                },
                some (log_bytes crc (safe ++ kept)),
              ),
              ranges,
            ))
        × Cataloged crc 0 0 files sealed ranges
  unfolding recover_directory
  recover_directory_lem workers total n files tail sealed safe fresh least most finals partial
        contents log sizes =
      let (ranges, found, cataloged) = recover_finalized_lem 0 0 files sealed finals in
      let (kept, lost, truncated, split, scan, _) =
        recovered-Log crc crc_range (last_commit 0 sealed) (last_end 0 sealed) safe fresh log n in
      (
        kept,
        lost,
        truncated,
        ranges,
        split,
        rw (
          le→ltb workers 1 least,
          le→ltb 4 workers most,
          split_lem 0 0 files sealed tail finals partial,
          sizes,
          found,
          tail_lem (last_commit 0 sealed) (last_end 0 sealed) tail safe kept truncated
              (rw contents scan),
          last_commit-append 0 sealed (safe ++ kept),
          last_end-append 0 sealed (safe ++ kept),
        ),
        cataloged,
      )
