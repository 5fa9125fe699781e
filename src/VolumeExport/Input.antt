-- ===== src/VolumeExport/Input.antt =====
-- backend/internal/volumeexport/schedule_input.go: a schedule from what the API submits.
pub mod Accepted
use calf.Common.{
  ℕ, Bool, true, false, not, ◌&&◌, ◌||◌, List, [], ◌∷◌, if◌then◌else◌, ℤ, Result, ok, err, ◌>>=◌,
  ◌>>◌,
}
use calf.Strings.{Text, text_eq, is_empty, trim_space}
use calf.VolumeExport.Time.{Zone, Rfc3339}
use calf.VolumeExport.Schedule.{
  DayTimeSchedule, Schedule, ScheduleError, local_file, new_image, registry, normalize_schedule,
  validate_schedule_input,
}
use calf.VolumeExport.Timing.{compute_next_run}
use calf.VolumeExport.Names.{default_file_name_pattern, default_image_ref_pattern}

pub record DayTimeInput : Type 0 where
  pub day : ℤ
  pub times : List Text

pub record ScheduleInput : Type 0 where
  pub day_times : List DayTimeInput
  pub type : Text
  pub file_name : Text
  pub folder : Text
  pub image_ref : Text

unfoldable pub day_times_from_input : List DayTimeInput → List DayTimeSchedule
day_times_from_input [] = []
day_times_from_input (entry ∷ entries) =
    record { day = entry.day; times = entry.times } ∷ day_times_from_input entries

unfoldable pub day_times_to_input : List DayTimeSchedule → List DayTimeInput
day_times_to_input [] = []
day_times_to_input (entry ∷ entries) =
    record { day = entry.day; times = entry.times } ∷ day_times_to_input entries

-- The schedule that is built, before it is normalised and validated.
unfoldable pub schedule_of_input : Text → Text → Bool → ScheduleInput → Schedule
schedule_of_input volume_name schedule_id enabled input =
    let export_type = trim_space input.type in
    let file_name = trim_space input.file_name in
    let image_ref = trim_space input.image_ref in
    record {
      id = schedule_id;
      volume = volume_name;
      enabled = enabled;
      day_times = day_times_from_input input.day_times;
      type = export_type;
      file_name =
          if text_eq export_type local_file && is_empty file_name
          then default_file_name_pattern
          else file_name;
      folder = trim_space input.folder;
      image_ref =
          if (text_eq export_type new_image || text_eq export_type registry) && is_empty image_ref
          then default_image_ref_pattern
          else image_ref;
      created_at = [];
      last_run_at = [];
      next_run_at = [];
      last_status = [];
      last_error = [];
    }

unfoldable pub schedule_from_input :
    Zone → Rfc3339 → ℕ → Text → Text → Bool → ScheduleInput → Result ScheduleError Schedule
schedule_from_input z f now volume_name schedule_id enabled input =
    let s = normalize_schedule (schedule_of_input volume_name schedule_id enabled input) in
    do
      validate_schedule_input s
      if not enabled then ok (record s { next_run_at = [] }) else do
        next_run ← compute_next_run z s now
        ok (record s { next_run_at = f.format next_run })
