-- ===== src/Esp/Volume.antt =====
-- Files and directories of a FAT volume: `_FatVolume._next_cluster` to `_FatVolume._entries`, with
-- `_WalkLimits`.
pub mod Fat
pub mod Directory
