-- ===== src/Daemon/ExportScheduler/Progress.antt =====
-- What a run of export_scheduler.go stores for the schedule that it ran.
use calf.Common.{ℕ, ◌<◌, ◌≡◌, refl, ◌∙◌, subst, inl, inr, true, Option, none, some, Bool-cases, ok}
use calf.Strings.{Text}
use calf.VolumeExport.Time.{IsZone}
use calf.VolumeExport.Schedule.{
  Schedule, normalize_schedule, validate_target, validate_schedule_input,
}
use calf.VolumeExport.Timing.{run_grace, scan_window, compute_next_run_after_run}
use calf.VolumeExport.Timing.Earliest.{IsSlot, compute_earliest}
use calf.VolumeExport.Timing.Total.{compute_total}
use calf.Daemon.ExportRunner.{job_failed}
use calf.Daemon.ExportScheduler.{
  Host, keep_next_run, set_next_run, export_result, export_request, skipped_schedule,
  exported_schedule, updated_schedule,
}

-- The schedule goes on: it is enabled, its days are as before, and its next run is a slot behind the
-- time at which the run ended.
pub record GoesOn (host : Host) (s u : Schedule) : Type 0 where
  pub enabled : u.enabled ≡ true
  pub day_times : u.day_times ≡ s.day_times
  pub id : u.id ≡ s.id
  pub next : ℕ
  pub stored : u.next_run_at ≡ host.rfc3339.format next
  pub later : host.time_after s < next
  pub slot :
      IsSlot host.zone
        (normalize_schedule s).day_times
        scan_window
        (host.zone.day_of (host.time_after s))
        next

-- A schedule with the fields of `s` that decide when it runs.
record Alike (s u : Schedule) : Type 0 where
  enabled : u.enabled ≡ s.enabled
  day_times : u.day_times ≡ s.day_times
  id : u.id ≡ s.id
  valid : validate_schedule_input u ≡ validate_schedule_input s

normalize_same :
    (s u : Schedule)
    → u.day_times ≡ s.day_times
    → (normalize_schedule u).day_times ≡ (normalize_schedule s).day_times
unfolding normalize_schedule
normalize_same s u h = rw h refl

failed-Alike :
    (s : Schedule) (message at : Text)
    → Alike s (record s { last_status = job_failed; last_error = message; last_run_at = at })
unfolding validate_schedule_input normalize_schedule validate_target
failed-Alike s message at = record { enabled = refl; day_times = refl; id = refl; valid = refl }

ran-Alike :
    (s : Schedule) (fault : Option Text) (at : Text)
    → Alike s (export_result fault (record s { last_run_at = at }))
unfolding validate_schedule_input normalize_schedule validate_target
ran-Alike s none at = record { enabled = refl; day_times = refl; id = refl; valid = refl }
ran-Alike s (some message) at = record { enabled = refl; day_times = refl; id = refl; valid = refl }

module _ (host : Host) (s : Schedule) (laws : IsZone host.zone)
    (started : run_grace < host.time_after s) (on : s.enabled ≡ true)
    (valid : validate_schedule_input s ≡ ok tt) where
  -- The next run that is computed for a schedule like `s`.
  next_run :
      (u : Schedule)
      → Alike s u
      → (t : ℕ) × (compute_next_run_after_run host.zone u (host.time_after s) ≡ ok t)
        × (host.time_after s < t)
        × IsSlot host.zone
            (normalize_schedule s).day_times
            scan_window
            (host.zone.day_of (host.time_after s))
            t
  unfolding compute_next_run_after_run
  next_run u like =
      let now = host.time_after s in
      let (t, computed, _) =
        compute_total host.zone u now true laws started (like.enabled ∙ on) (like.valid ∙ valid) in
      let (slot, later, _) =
        compute_earliest host.zone u now true t laws started (like.enabled ∙ on) computed in
      (
        t,
        computed,
        later,
        subst (λ days. IsSlot host.zone days scan_window (host.zone.day_of now) t)
            (normalize_same s u like.day_times) slot,
      )

  kept-GoesOn :
      (u : Schedule)
      → Alike s u
      → GoesOn host s
          (keep_next_run host u (compute_next_run_after_run host.zone u (host.time_after s)))
  kept-GoesOn u like =
      let (t, computed, later, slot) = next_run u like in
      rw computed (record {
        enabled = like.enabled ∙ on;
        day_times = like.day_times;
        id = like.id;
        next = t;
        stored = refl;
        later = later;
        slot = slot;
      })

  set-GoesOn :
      (u : Schedule)
      → Alike s u
      → GoesOn host s
          (set_next_run host u (compute_next_run_after_run host.zone u (host.time_after s)))
  set-GoesOn u like =
      let (t, computed, later, slot) = next_run u like in
      rw computed (record {
        enabled = like.enabled ∙ on;
        day_times = like.day_times;
        id = like.id;
        next = t;
        stored = refl;
        later = later;
        slot = slot;
      })

  skipped-GoesOn : (tick_now : ℕ) → GoesOn host s (skipped_schedule host s tick_now)
  unfolding skipped_schedule
  skipped-GoesOn tick_now = kept-GoesOn _ (failed-Alike s _ (host.rfc3339.format tick_now))

  exported-GoesOn : (tick_now : ℕ) → GoesOn host s (exported_schedule host s tick_now)
  unfolding exported_schedule
  exported-GoesOn tick_now = set-GoesOn _ (
      ran-Alike s (host.export_error s.volume (export_request host s tick_now))
        (host.rfc3339.format tick_now))

-- In a zone with no gap at midnight, and for a run that ends more than a minute behind the zero
-- time: after a run of an enabled and accepted schedule, whether the runtime was down, the export failed or it succeeded,
-- the schedule that is stored is still enabled, with the same id and days, and its next run is one of
-- its slots, strictly behind the time at which the run ended.
pub updated_schedule-GoesOn :
    (host : Host) (s : Schedule) (tick_now : ℕ)
    → IsZone host.zone
    → run_grace < host.time_after s
    → s.enabled ≡ true
    → validate_schedule_input s ≡ ok tt
    → GoesOn host s (updated_schedule host s tick_now)
unfolding updated_schedule
updated_schedule-GoesOn host s tick_now laws started on valid =
    let skipped = skipped-GoesOn host s laws started on valid tick_now in
    let exported = exported-GoesOn host s laws started on valid tick_now in
    elim (Bool-cases (host.running s)) [ inl e ↦ rw e exported | inr e ↦ rw e skipped ]
