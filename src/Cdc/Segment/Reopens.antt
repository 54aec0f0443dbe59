-- ===== src/Cdc/Segment/Reopens.antt =====
-- A writer that is opened after a crash keeps a log again.
use mathlib.Core.List.{append-nil, append_assoc}
use pgmigrate.Base.{
  ℕ, ◌≡◌, ◌≤◌, ◌<◌, refl, true, false, List, [], ◌∷◌, ◌++◌, Option, some, ltb, ltb→ge, inl, inr,
  ◌==◌, arith,
}
use pgmigrate.Base.Lists.{length, take}
use pgmigrate.Base.Results.{ok, if-eq, ok_ok}
use pgmigrate.Base.Int.{ℤ, pos, negsuc}
use pgmigrate.Cdc.Model.{Lsn, Transaction}
use pgmigrate.Cdc.Segment.Log.{Log, last_commit, last_end, log_bytes}
use pgmigrate.Cdc.Segment.Writer.{SegmentWriter}
use pgmigrate.Cdc.Segment.Catalog.{SegmentRange}
use pgmigrate.Cdc.Segment.Recovery.{SegmentFile, Recovery, prepare_recovery_segments}
use pgmigrate.Cdc.Segment.Restart.{Finalized, recover_directory_lem}
use pgmigrate.Cdc.Segment.Crash.{Log-append, last_end-append, last_commit-append}
use pgmigrate.Cdc.Segment.Open.{
  WriterConfig, rotation_of, workers_of, recovered_writer, open_tail, open_writer,
}
use pgmigrate.Cdc.Segment.Tracks.{Tracks}

nonzero : (n : ℕ) → (n == 0) ≡ false → 1 ≤ n
nonzero n h = ground arith

workers_in_range : (n : ℤ) (workers : ℕ) → workers_of n ≡ ok workers → (1 ≤ workers) × (workers ≤ 4)
unfolding workers_of
workers_in_range (negsuc n) workers h = cc
workers_in_range (pos n) workers h = elim (if-eq (ltb 4 n) _ _ h) [
  | inl (many, failed) ↦ cc
  | inr (few, found) ↦ elim (if-eq (n == 0) 4 n (ok_ok found)) [
    | inl (zero_workers, same) ↦ (omega (arith, same), omega (arith, same))
    | inr (some_workers, same) ↦
        (omega (arith, same, nonzero n some_workers), omega (arith, same, ltb→ge 4 n few))
  ]
]

-- What recovery reports of a directory.
abbrev after : List Transaction → List Transaction → List Transaction → List ℕ → ℕ → Recovery
after sealed safe kept path truncated = record {
  last_commit_lsn = last_commit 0 (sealed ++ (safe ++ kept));
  durable_lsn = last_end 0 (sealed ++ (safe ++ kept));
  partial_path = some path;
  truncated_bytes = truncated;
}

module _ (crc : List ℕ → ℕ) (crc_range : (p : List ℕ) → crc p < 4294967296)
    (parse_uint : List ℕ → Option ℕ) where
  reopened :
      (rotation : ℕ) (r : Recovery) (ranges : List SegmentRange) (segments : List SegmentFile)
      (path : List ℕ) (c e : Lsn) (txs : List Transaction)
      → r.last_commit_lsn ≡ last_commit c txs
      → r.durable_lsn ≡ last_end e txs
      → Log c e txs
      → (w : SegmentWriter) × (open_tail parse_uint true
            (some path)
            (some (log_bytes crc txs))
            (recovered_writer rotation r ranges segments)
          ≡ ok w)
        × Tracks crc w c e txs []
  unfolding open_tail recovered_writer
  reopened rotation r ranges segments path c e txs commit end log =
      let all : txs ++ [] ≡ txs = append-nil txs in
      (
        _,
        refl,
        record {
          opened = refl;
          running = refl;
          log = rw all log;
          tail = rw all refl;
          synced = refl;
          size = refl;
          at_commit = rw all commit;
          at_end = rw all end;
          pending = rw all end;
          durable = end;
        },
      )

  -- Opening a writer after a crash, with a directory name, a rotation threshold and a number of
  -- workers that are in range, on finalized logs and a tail cut at any byte behind its synced part:
  -- the writer's tail holds the synced transactions and a prefix of the others, all of them synced,
  -- and the next transaction must follow them.
  pub open_writer_lem :
      (config : WriterConfig) (rotation workers total n : ℕ) (files : List SegmentFile)
      (tail : SegmentFile) (sealed safe fresh : List Transaction)
      → (length config.directory == 0) ≡ false
      → rotation_of config.rotation_bytes ≡ ok rotation
      → workers_of config.recovery_workers ≡ ok workers
      → Finalized crc 0 0 files sealed
      → tail.partial ≡ true
      → tail.contents ≡ log_bytes crc safe ++ take n (log_bytes crc fresh)
      → Log (last_commit 0 sealed) (last_end 0 sealed) (safe ++ fresh)
      → prepare_recovery_segments 0 (files ++ (tail ∷ [])) ≡ ok total
      → (w : SegmentWriter) × (r : Recovery) × (kept : List Transaction) × (lost : List Transaction)
        × (open_writer parse_uint crc config true (files ++ (tail ∷ [])) ≡ ok (w, r))
        × (kept ++ lost ≡ fresh)
        × Tracks crc w (last_commit 0 sealed) (last_end 0 sealed) (safe ++ kept) []
  unfolding open_writer
  open_writer_lem config rotation workers total n files tail sealed safe fresh named rotates works
        finals partial contents log sizes =
      let (least, most) = workers_in_range config.recovery_workers workers works in
      let (kept, lost, truncated, ranges, split, recovered, _) =
        recover_directory_lem crc crc_range workers total n files tail sealed safe fresh least most
          finals partial contents log sizes in
      let restored : Log (last_commit 0 sealed) (last_end 0 sealed) (safe ++ kept) =
        (Log-append _ _ (safe ++ kept) lost (rw (append_assoc safe kept lost, split) log)).0 in
      let (w, opened, tracks) =
        reopened rotation (after sealed safe kept tail.path truncated) ranges (files ++ (tail ∷ []))
          tail.path (last_commit 0 sealed) (last_end 0 sealed) (safe ++ kept)
          (last_commit-append 0 sealed (safe ++ kept)) (last_end-append 0 sealed (safe ++ kept))
          restored in
      (
        w,
        after sealed safe kept tail.path truncated,
        kept,
        lost,
        rw (named, rotates, works, recovered, opened),
        split,
        tracks,
      )
