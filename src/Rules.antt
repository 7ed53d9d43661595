-- ===== src/Rules.antt =====
-- The detection rules: pkg/rules.
pub mod Hit
pub mod Severity
pub mod Sigma
pub mod Yara
pub mod Engine
mod Examples
