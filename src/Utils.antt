-- ===== src/Utils.antt =====
-- The pure helpers of backend/internal/utils that other parts use: sanitize.go, int.go, lines.go,
-- format.go and size.go.
pub mod Sanitize
pub mod Format
pub mod Size
