-- ===== src/Snapshot.antt =====
-- Staging of a Debian snapshot: mkosi/private/debian_snapshot.py. A file argument is the bytes that
-- it holds, and the output directory is a dictionary from relative paths to bytes.
pub mod Error
pub mod Indexes
pub mod Release
pub mod Packages
pub mod Metadata
pub mod Stage
pub mod Listed
pub mod Recorded
pub mod Locks
pub mod Complete
pub mod Files
pub mod Pairs
pub mod Pool
pub mod Authentic
