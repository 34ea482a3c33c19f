-- ===== src/Vcs.antt =====
-- The crate origin-vcs: version control.
pub mod Textmerge
