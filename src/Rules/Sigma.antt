-- ===== src/Rules/Sigma.antt =====
-- External Sigma rules: pkg/rules/sigma_loader.go.
pub mod Types
pub mod Sources
pub mod Fields
pub mod Eval
pub mod Scope
pub mod Condition
pub mod Compile
pub mod Load
pub mod Builtin
pub mod Severities
