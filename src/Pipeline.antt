-- ===== src/Pipeline.antt =====
-- semantic_engine/pipeline.py: what the static pipeline does with the findings of its engines.
pub mod Forest
pub mod Cluster
pub mod Findings
pub mod Report
pub mod Analyze
mod Examples
