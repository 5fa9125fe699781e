-- ===== src/VolumeExport.antt =====
-- backend/internal/volumeexport: export schedules, their timing, the names of exports, and the store
-- of schedules. Each child names the file that it models.
pub mod Time
pub mod Schedule
pub mod Timing
pub mod Names
pub mod Input
pub mod Store
