-- ===== src/HttpKit.antt =====
-- backend/internal/httpkit: the routes of the HTTP API.
pub mod Route
pub mod Errors
