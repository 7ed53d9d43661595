-- ===== src/Storage.antt =====
-- The store: pkg/storage/sqlite.go.
pub mod Jobs
pub mod Events
mod Examples
