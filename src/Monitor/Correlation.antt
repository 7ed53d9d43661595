-- ===== src/Monitor/Correlation.antt =====
-- pkg/monitor/correlation.go: the behavioural correlation engine.
pub mod State
pub mod Nodes
pub mod Injection
pub mod Persistence
pub mod Dispatch
pub mod Raises
pub mod Notes
pub mod Valid
pub mod Confined
pub mod Exit
pub mod Pairs
pub mod Chain
pub mod Aftermath
pub mod Beacon
pub mod Order
pub mod Missed
