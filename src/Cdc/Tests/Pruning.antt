-- ===== src/Cdc/Tests/Pruning.antt =====
-- Pruning a small catalog: internal/cdc/maintenance.go.
use pgmigrate.Base.{◌≡◌, refl, true, List, [], ◌∷◌, none, some, arith}
use pgmigrate.Cdc.Segment.Catalog.{SegmentRange, has_path, remove_finalized}
use pgmigrate.Cdc.Segment.Ordered.{Ordered}
use pgmigrate.Cdc.Codec.Decode.{same_bytes}
use pgmigrate.Cdc.Maintenance.{
  Files, is_missing, eligible, find_changed, remove_files, forget, prune_unchanged,
  prune_candidates, prune_eligible, prune_listed, prune,
}
use pgmigrate.Cdc.Maintenance.Prunes.{Keeps, prune-Keeps}
use pgmigrate.Cdc.Tests.{checksum}

-- Three segments of 100 bytes.
abbrev three_ranges : List SegmentRange
three_ranges =
    record {
      path = 1 ∷ [];
      start_commit = 10;
      last_commit = 18;
      last_end = 19;
      validated_size = 100;
    }
    ∷ record {
      path = 2 ∷ [];
      start_commit = 20;
      last_commit = 28;
      last_end = 29;
      validated_size = 100;
    }
    ∷ record {
      path = 3 ∷ [];
      start_commit = 30;
      last_commit = 38;
      last_end = 39;
      validated_size = 100;
    }
    ∷ []

abbrev calm : Files
calm = record {
  listing = some ((1 ∷ []) ∷ (2 ∷ []) ∷ (3 ∷ []) ∷ []);
  stat = λ path. some (true, 100);
  contents = λ path. none;
  removes = λ path. true;
  syncs = true;
}

three-Ordered : Ordered three_ranges
three-Ordered = (
  record { start = omega arith; commit = omega arith; end = omega arith },
  (record { start = omega arith; commit = omega arith; end = omega arith }, tt),
)

-- The second segment is the safety segment.
pruned_oldest : (prune checksum calm 35 128 three_ranges).removed ≡ (1 ∷ []) ∷ []
unfolding prune prune_listed prune_eligible prune_candidates prune_unchanged forget remove_files
    find_changed eligible is_missing has_path same_bytes remove_finalized
pruned_oldest = refl

prune-Keeps_example :
    Ordered (prune checksum calm 35 128 three_ranges).catalog
    × Keeps 35 128 three_ranges (prune checksum calm 35 128 three_ranges).removed
prune-Keeps_example = prune-Keeps checksum calm 35 128 three_ranges three-Ordered
