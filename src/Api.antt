-- ===== src/Api.antt =====
-- backend/internal/api: the handlers that change the daemon's state.
pub mod ConfigPut
