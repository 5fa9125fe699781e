-- ===== src/Daemon.antt =====
-- backend/internal/daemon: the workers of the daemon.
pub mod ExportRunner
pub mod ExportScheduler
pub mod StatsHistory
pub mod ResourceSaver
pub mod LogBroadcaster
pub mod Builds
pub mod RuntimeReady
pub mod StatsSampler
pub mod ResourceSnapshot
