-- ===== src/Cdc.antt =====
-- Change data capture, internal/cdc.
pub mod Model
pub mod Codec
pub mod Spill
pub mod Segment
pub mod Persister
pub mod Decoder
pub mod EndPosition
pub mod Maintenance
mod Tests
