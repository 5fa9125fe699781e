-- ===== src/Config.antt =====
-- backend/internal/config: the update of the configuration, its checks and its defaults.
pub mod Paths
pub mod Update
pub mod Proxy
pub mod Defaults
pub mod LogFile
