-- ===== src/Replay/Hash.antt =====
-- The hashers of internal/cdc/replay_claim.go: a hasher is the bytes written to it. SHA-256 itself
-- is a parameter wherever a hash is finished.
use pgmigrate.Base.{ℕ, Bool, true, false, List, [], ◌++◌}
use pgmigrate.Base.Lists.{length}
use pgmigrate.Base.Bytes.{be_bytes, text_bytes}
use Prim.Native.String.{String}

-- A [sha256.Size]byte.
abbrev pub Digest : Type 0
Digest = List ℕ

abbrev pub Hasher : Type 0
Hasher = List ℕ

unfoldable pub write_replay_hash_bytes : Hasher → List ℕ → Hasher
write_replay_hash_bytes hasher value = hasher ++ be_bytes 8 (length value) ++ value

-- The argument is the int64's bit pattern.
unfoldable pub write_replay_hash_int : Hasher → ℕ → Hasher
write_replay_hash_int hasher value = hasher ++ be_bytes 8 value

unfoldable pub write_replay_hash_bool : Hasher → Bool → Hasher
write_replay_hash_bool hasher true = write_replay_hash_int hasher 1
write_replay_hash_bool hasher false = write_replay_hash_int hasher 0

unfoldable pub new_replay_claim_hasher : String → Hasher
new_replay_claim_hasher label = write_replay_hash_bytes [] (text_bytes label)
