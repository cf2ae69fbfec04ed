-- ===== src/Archive.antt =====
-- app/core/archive.py: the extraction of uploaded archives.
pub mod Paths
pub mod Extract
mod Examples
