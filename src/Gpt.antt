-- ===== src/Gpt.antt =====
-- Validation of both GPT copies of a disk image: mkosi/private/partition_metadata.py and
-- mkosi/private/gpt_partitions.py.
pub mod Error
pub mod Header
pub mod Partitions
pub mod Canonical
