-- ===== src/Monitor.antt =====
-- pkg/monitor: events and their correlation.
pub mod Events
pub mod Correlation
pub mod Dga
mod Examples
