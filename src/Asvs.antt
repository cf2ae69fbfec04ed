-- ===== src/Asvs.antt =====
-- app/services/asvs_service.py: the merge of all evidence sources into one verdict per control.
pub mod Types
pub mod Evidence
pub mod Basis
pub mod Config
pub mod Attest
pub mod Advisory
pub mod Static
pub mod Compute
pub mod Results
pub mod Compliance
mod Examples
