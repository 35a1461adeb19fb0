-- ===== src/Orchestrator.antt =====
-- The orchestrator: service/orchestrator.
pub mod Results
pub mod CloudService
pub mod Metrics
pub mod Toe
pub mod Certificates
pub mod Catalogs
