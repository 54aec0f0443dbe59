-- ===== src/Cdc/Segment.antt =====
-- Segment files, internal/cdc/segment.go.
pub mod Scan
pub mod Log
pub mod Recovers
pub mod Torn
pub mod Crash
pub mod Catalog
pub mod Ordered
pub mod Changed
pub mod Writer
pub mod Append
pub mod Frames
pub mod Accepts
pub mod Tracks
pub mod Syncs
pub mod Rotates
pub mod Works
pub mod Recovery
pub mod Restart
pub mod Open
pub mod Reopens
