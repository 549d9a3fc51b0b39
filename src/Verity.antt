-- ===== src/Verity.antt =====
-- dm-verity artifacts: mkosi/private/verity_metadata.py. An artifact is its bytes, and so is a
-- spool of digests.
pub mod Error
pub mod Geometry
pub mod Tree
pub mod Match
pub mod Slots
pub mod Counts
pub mod Verified
pub mod Project
pub mod Sound
pub mod Levels
