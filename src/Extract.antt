-- ===== src/Extract.antt =====
-- The links of an archive of Debian tools: mkosi/debian/extract_tree.py.
pub mod Error
pub mod Member
pub mod Kinds
pub mod Components
pub mod Symlinks
pub mod Hardlinks
pub mod Visits
pub mod Linked
pub mod Links
pub mod Names
pub mod Resolved
