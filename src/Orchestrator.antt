-- ===== src/Orchestrator.antt =====
-- The orchestrator: pkg/orchestrator.
pub mod Queue
pub mod Policy
pub mod Jobs
pub mod Expected
pub mod Lifecycle
mod Examples
