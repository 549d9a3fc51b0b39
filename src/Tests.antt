-- ===== src/Tests.antt =====
-- Runs of the model and the theorems at concrete data.
mod Debian
mod Image
mod Verity
mod Control
mod ImageVersion
mod Esp
mod Runner
mod Extract
mod Records
mod Release
mod Snapshot
mod Generate
mod Specification
