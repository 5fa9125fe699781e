-- ===== src/Daemon/ExportScheduler.antt =====
-- backend/internal/daemon/export_scheduler.go: one tick of the scheduler, and the schedule that a run
-- stores.
pub mod Progress
pub mod Missed
use calf.Common.{
  ℕ, Bool, true, false, not, ◌&&◌, ◌||◌, Option, none, some, List, [], ◌∷◌, if◌then◌else◌, Result,
  ok, err,
}
use calf.Strings.{Text, text}
use calf.VolumeExport.Time.{Zone, Rfc3339}
use calf.VolumeExport.Schedule.{Schedule, ScheduleError}
use calf.VolumeExport.Timing.{schedule_due, compute_next_run_after_run}
use calf.VolumeExport.Names.{CivilTime, resolve_scheduled_export_names}
use calf.VolumeExport.Store.{Disk, StoreError, save, list_all}
use calf.Daemon.ExportRunner.{VolumeExportRequest, job_completed, job_failed}

-- What the worker uses: the zone and the texts of instants, the civil time of an instant,
-- `unicode.ToLower`, the messages of errors, whether the stop channel is closed before a schedule, whether the runtime says
-- that it runs, the error of an export, and the time after it.
pub record Host : Type 0 where
  pub zone : Zone
  pub rfc3339 : Rfc3339
  pub civil : ℕ → CivilTime
  pub lower : ℕ → ℕ
  pub message : ScheduleError → Text
  pub stopped : Schedule → Bool
  pub running : Schedule → Bool
  pub export_error : Text → VolumeExportRequest → Option Text
  pub time_after : Schedule → ℕ

unfoldable pub export_request : Host → Schedule → ℕ → VolumeExportRequest
export_request host s tick_now =
    let names = resolve_scheduled_export_names host.lower s (host.civil tick_now) in
    record { type = s.type; file_name = names.0; folder = s.folder; image_ref = names.1 }

-- The next run where it can be computed; the old one stays where it cannot.
abbrev pub keep_next_run : Host → Schedule → Result ScheduleError ℕ → Schedule
keep_next_run host s (ok t) = record s { next_run_at = host.rfc3339.format t }
keep_next_run host s (err e) = s

-- The next run where it can be computed; the schedule is disabled where it cannot.
abbrev pub set_next_run : Host → Schedule → Result ScheduleError ℕ → Schedule
set_next_run host s (ok t) = record s { next_run_at = host.rfc3339.format t }
set_next_run host s (err e) = record s {
  enabled = false;
  last_status = job_failed;
  last_error = host.message e;
}

abbrev pub export_result : Option Text → Schedule → Schedule
export_result none s = record s { last_status = job_completed; last_error = [] }
export_result (some message) s = record s { last_status = job_failed; last_error = message }

-- The schedule that `runSchedule` stores while the runtime is not running.
unfoldable pub skipped_schedule : Host → Schedule → ℕ → Schedule
skipped_schedule host s tick_now =
    let failed = record s {
      last_status = job_failed;
      last_error = text "runtime is not running";
      last_run_at = host.rfc3339.format tick_now;
    } in
    keep_next_run host failed (compute_next_run_after_run host.zone failed (host.time_after s))

-- The schedule that `runSchedule` stores after an export.
unfoldable pub exported_schedule : Host → Schedule → ℕ → Schedule
exported_schedule host s tick_now =
    let run =
      export_result (host.export_error s.volume (export_request host s tick_now))
        (record s { last_run_at = host.rfc3339.format tick_now }) in
    set_next_run host run (compute_next_run_after_run host.zone run (host.time_after s))

unfoldable pub updated_schedule : Host → Schedule → ℕ → Schedule
updated_schedule host s tick_now =
    if not (host.running s)
    then skipped_schedule host s tick_now
    else exported_schedule host s tick_now

-- An error of the last save is only logged.
unfoldable pub run_schedule : Host → Disk → Schedule → ℕ → Disk
run_schedule host d s tick_now = (save d (updated_schedule host s tick_now)).0

-- The loop over the schedules.
unfoldable pub tick_from : Host → ℕ → List Schedule → Disk → Disk
tick_from host now [] d = d
tick_from host now (s ∷ ss) d =
    let go = tick_from host now ss d in
    let run = tick_from host now ss (run_schedule host d s now) in
    if host.stopped s
    then d
    else if not s.enabled
    then go
    else if not (schedule_due host.rfc3339 s.next_run_at now)
    then go
    else run

unfoldable pub tick : Host → Disk → ℕ → Disk
unfolding tick_from
tick host d now = tick_from host now (list_all d) d

-- The ticks of the worker, at the given times.
unfoldable pub ticks : Host → Disk → List ℕ → Disk
ticks host d [] = d
ticks host d (now ∷ later) = ticks host (tick host d now) later
