-- ===== src/Discovery.antt =====
-- semantic_engine/path_discovery.py: the search for paths from sources to sinks.
pub mod Graph
pub mod Bfs
pub mod Labels
pub mod Select
mod Examples
