-- ===== src/Esp.antt =====
-- The reader of EFI system partitions: mkosi/private/esp_manifest/rules_mkosi_esp_manifest.py. A
-- disk image is its bytes.
pub mod Error
pub mod Image
pub mod Geometry
pub mod Names
pub mod Volume
pub mod Walk
pub mod Regions
pub mod Bounds
pub mod Only
pub mod Pigeonhole
pub mod Chains
pub mod Contents
pub mod Files
pub mod Budget
pub mod Ends
