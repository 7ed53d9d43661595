-- ===== src/Api.antt =====
-- The REST daemon: pkg/middleware/auth.go.
pub mod Auth
