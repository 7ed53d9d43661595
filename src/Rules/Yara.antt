-- ===== src/Rules/Yara.antt =====
-- External YARA rules: pkg/rules/yara_loader.go.
pub mod Types
pub mod Match
pub mod Parse
pub mod Scan
pub mod Severities
