-- ===== src/VolumeExport/Timing.antt =====
-- backend/internal/volumeexport/schedule_timing.go: when a schedule runs next, and whether it is due.
pub mod Earliest
pub mod Total
pub mod Window
use calf.Common.{
  ℕ, zero, suc, ◌+◌, ◌%◌, Bool, true, false, not, ◌&&◌, ◌||◌, Option, none, some, List, [], ◌∷◌,
  ltb, leb, ◌==◌, if◌then◌else◌, Result, ok, err, ◌>>=◌, ◌>>◌,
}
use calf.Strings.{Text, is_empty, trim_space}
use calf.VolumeExport.Time.{Zone, Rfc3339, minute, truncate_minute}
use calf.VolumeExport.Schedule.{
  DayTimeSchedule, Schedule, ScheduleError, no_upcoming, parse_time_of_day, times_for_day,
  normalize_schedule, validate_schedule_input,
}

-- `constants.ScheduleRunGrace`
abbrev pub run_grace : ℕ
run_grace = minute

-- `!now.After(candidate.Add(grace))`
unfoldable pub slot_still_runnable : ℕ → ℕ → Bool
slot_still_runnable candidate now = not (ltb (candidate + run_grace) now)

unfoldable pub due_at : ℕ → ℕ → Bool
unfolding slot_still_runnable truncate_minute
due_at next_run now =
    if ltb (truncate_minute now) (truncate_minute next_run)
    then false
    else slot_still_runnable next_run now

abbrev pub due_parsed : Option ℕ → ℕ → Bool
due_parsed none now = false
due_parsed (some next_run) now = due_at next_run now

unfoldable pub schedule_due : Rfc3339 → Text → ℕ → Bool
schedule_due f next_run_at now =
    if is_empty (trim_space next_run_at) then false else due_parsed (f.parse next_run_at) now

-- What the loop does with one candidate: `next` is 0 while no slot is found.
unfoldable pub consider : Bool → ℕ → ℕ → ℕ → ℕ
unfolding slot_still_runnable
consider after_run now candidate next =
    let skip =
      if after_run then not (ltb now candidate) else not (slot_still_runnable candidate now) in
    if skip then next else if next == 0 || ltb candidate next then candidate else next

-- The loop over the times of one day.
unfoldable pub scan_times : Zone → Bool → ℕ → ℕ → List Text → ℕ → Result ScheduleError ℕ
scan_times z after_run now date [] next = ok next
scan_times z after_run now date (value ∷ times) next = do
  hm ← parse_time_of_day value
  scan_times z after_run now date times (consider after_run now (z.at date hm.0 hm.1) next)

-- The loop over the days, `rounds` of them from `offset` on.
unfoldable pub scan_days :
    Zone → Bool → ℕ → List DayTimeSchedule → ℕ → ℕ → ℕ → Result ScheduleError ℕ
scan_days z after_run now days zero offset next = ok next
scan_days z after_run now days (suc rounds) offset next = do
  let date = z.day_of (z.add_days now offset)
  found ← scan_times z after_run now date (times_for_day days (date % 7)) next
  scan_days z after_run now days rounds (offset + 1) found

abbrev pub scan_window : ℕ
scan_window = 14

abbrev pub found_or_error : ℕ → Result ScheduleError ℕ
found_or_error next = if next == 0 then err no_upcoming else ok next

unfoldable pub compute : Zone → Schedule → ℕ → Bool → Result ScheduleError ℕ
compute z schedule now after_run =
    let s = normalize_schedule schedule in
    if not s.enabled then ok 0 else do
      validate_schedule_input s
      next ← scan_days z after_run now s.day_times scan_window 0 0
      found_or_error next

unfoldable pub compute_next_run : Zone → Schedule → ℕ → Result ScheduleError ℕ
unfolding compute
compute_next_run z schedule now = compute z schedule now false

unfoldable pub compute_next_run_after_run : Zone → Schedule → ℕ → Result ScheduleError ℕ
unfolding compute
compute_next_run_after_run z schedule now = compute z schedule now true
