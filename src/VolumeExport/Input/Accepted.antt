-- ===== src/VolumeExport/Input/Accepted.antt =====
-- What schedule_input.go does with a valid request.
use calf.Common.{ℕ, ◌<◌, ◌≡◌, refl, ap, ◌∙◌, true, false, List, [], ◌∷◌, ok}
use calf.Strings.{Text}
use calf.VolumeExport.Time.{Zone, IsZone, Rfc3339}
use calf.VolumeExport.Schedule.{DayTimeSchedule, normalize_schedule, validate_schedule_input}
use calf.VolumeExport.Schedule.Normal.{normalize_schedule_idem}
use calf.VolumeExport.Timing.{run_grace, scan_window, compute_next_run}
use calf.VolumeExport.Timing.Earliest.{CanRun, IsSlot, compute_earliest}
use calf.VolumeExport.Timing.Total.{compute_total, validate-normalize, enabled-normalize}
use calf.VolumeExport.Input.{
  ScheduleInput, day_times_from_input, day_times_to_input, schedule_of_input, schedule_from_input,
}

-- A schedule goes to the API's form and back unchanged.
pub day_times_from_to_input :
    (ds : List DayTimeSchedule) → day_times_from_input (day_times_to_input ds) ≡ ds
unfolding day_times_from_input day_times_to_input
day_times_from_to_input [] = refl
day_times_from_to_input (d ∷ ds) = ap (λ es. d ∷ es) (day_times_from_to_input ds)

-- In a zone with no gap at midnight, and more than a minute behind the zero time: a valid request
-- to enable a schedule is accepted, and the schedule that is
-- stored is the normalised one with the text of a next run: a slot of the schedule, still to run or
-- within the grace time.
pub schedule_from_input_enabled :
    (z : Zone) (f : Rfc3339) (now : ℕ) (volume id : Text) (input : ScheduleInput)
    → IsZone z
    → run_grace < now
    → validate_schedule_input (schedule_of_input volume id true input) ≡ ok tt
    → (t : ℕ) × (schedule_from_input z f now volume id true input
        ≡ ok (record (normalize_schedule (schedule_of_input volume id true input)) {
          next_run_at = f.format t;
        }))
      × IsSlot z
          (normalize_schedule (schedule_of_input volume id true input)).day_times
          scan_window
          (z.day_of now)
          t
      × CanRun false now t
unfolding schedule_from_input compute_next_run
schedule_from_input_enabled z f now volume id input laws started accepted =
    let s = schedule_of_input volume id true input in
    let n = normalize_schedule s in
    let valid : validate_schedule_input n ≡ ok tt = validate-normalize s ∙ accepted in
    let on : n.enabled ≡ true = enabled-normalize s ∙ (unfold schedule_of_input in refl) in
    let (t, computed, _) = compute_total z n now false laws started on valid in
    let (slot, can_run, _) = compute_earliest z n now false t laws started on computed in
    (t, rw (valid, computed), rw (normalize_schedule_idem s) at slot, can_run)

-- A disabled schedule that is accepted has no next run.
pub schedule_from_input_disabled :
    (z : Zone) (f : Rfc3339) (now : ℕ) (volume id : Text) (input : ScheduleInput)
    → schedule_from_input z f now volume id false input
      ≡ ok (record (normalize_schedule (schedule_of_input volume id false input)) {
        next_run_at = [];
      })
unfolding schedule_from_input validate_schedule_input normalize_schedule schedule_of_input
schedule_from_input_disabled z f now volume id input = refl
