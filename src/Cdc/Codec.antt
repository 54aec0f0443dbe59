-- ===== src/Cdc/Codec.antt =====
-- The transaction payload codec, internal/cdc/codec.go.
pub mod Size
pub mod Encode
pub mod Decode
pub mod Same
pub mod Layout
pub mod Encodes
pub mod Sizes
pub mod Decodes
pub mod RoundTrip
pub mod Write
pub mod Stream
pub mod Writes
pub mod Failing
pub mod Streams
