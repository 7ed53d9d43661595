-- ===== src/Report.antt =====
-- The report: pkg/report/report.go.
pub mod Score
pub mod Generate
pub mod Verdict
