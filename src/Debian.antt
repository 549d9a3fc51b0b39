-- ===== src/Debian.antt =====
-- The Debian snapshot lock generator: mkosi/debian/generate_lock.py.
pub mod Error
pub mod Version
pub mod Package
pub mod Relations
pub mod Records
pub mod Release
pub mod Lock
pub mod Generate
pub mod Specification
pub mod Universe
pub mod Closure
