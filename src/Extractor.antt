-- ===== src/Extractor.antt =====
-- pkg/extractor: configuration extraction.
pub mod Utils
pub mod Procdump
mod Examples
