-- ===== src/Evaluation.antt =====
-- The evaluation service: service/evaluation/evaluation.go, with the messages of
-- api/evaluation/evaluation.proto and IsRelevantFor of api/orchestrator/orchestrator.go.
mod Tests
pub mod Model
pub mod Relevance
pub mod Status
pub mod Results
pub mod Controls
pub mod Run
pub mod Schedule
