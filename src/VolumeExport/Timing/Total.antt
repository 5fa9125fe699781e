-- ===== src/VolumeExport/Timing/Total.antt =====
-- `computeNextRun` of schedule_timing.go finds a run for every schedule that is accepted.
use calf.Common.{
  ℕ, zero, suc, ◌+◌, ◌-◌, ◌%◌, ◌≤◌, ◌<◌, ◌≡◌, ◌≢◌, refl, sym, subst, ◌∙◌, inl, inr, Bool, true,
  false, List, [], ◌∷◌, arith, All, ok, Bool-cases, pos, eq_int, eq_int_refl,
}
use calf.Strings.{Text}
use calf.VolumeExport.Time.{Zone, IsZone}
use calf.VolumeExport.Schedule.{
  DayTimeSchedule, Schedule, times_for_day, normalize_schedule, validate_schedule_input,
}
use calf.VolumeExport.Schedule.Normal.{normalize_schedule_idem}
use calf.VolumeExport.Schedule.Valid.{IsTime, IsDay, validate_schedule_input-IsRunnable}
use calf.VolumeExport.Timing.{
  run_grace, consider, scan_times, scan_days, scan_window, found_or_error, compute,
}
use calf.VolumeExport.Timing.Earliest.{CanRun, IsDaySlot, IsSlot, window-Best, compute_enabled}

times_for_day-readable :
    (days : List DayTimeSchedule) (d : ℕ) → All IsDay days → All IsTime (times_for_day days d)
unfolding times_for_day
times_for_day-readable [] d h = tt
times_for_day-readable (entry ∷ days) d (p, h) = elim (Bool-cases (eq_int entry.day (pos d))) [
  | inl e ↦ rw e p.readable
  | inr e ↦ rw e (times_for_day-readable days d h)
]

module _ (z : Zone) (after_run : Bool) (now : ℕ) where
  scan_times_total :
      (date : ℕ) (times : List Text) (next : ℕ)
      → All IsTime times
      → (r : ℕ) × (scan_times z after_run now date times next ≡ ok r)
  unfolding scan_times
  scan_times_total date [] next h = (next, refl)
  scan_times_total date (value ∷ times) next ((hm, e), h) =
      let (r, p) =
        scan_times_total date times (consider after_run now (z.at date hm.0 hm.1) next) h in
      (r, rw e p)

  scan_days_total :
      (days : List DayTimeSchedule) (rounds offset next : ℕ)
      → All IsDay days
      → (r : ℕ) × (scan_days z after_run now days rounds offset next ≡ ok r)
  unfolding scan_days
  scan_days_total days zero offset next h = (next, refl)
  scan_days_total days (suc rounds) offset next h =
      let date = z.day_of (z.add_days now offset) in
      let (found, e) =
        scan_times_total date (times_for_day days (date % 7)) next
          (times_for_day-readable days (date % 7) h) in
      let (r, p) = scan_days_total days rounds (offset + 1) found h in (r, rw e p)

-- A slot of the k-th day is one of the slots of the window.
IsSlot_of_IsDaySlot :
    (z : Zone) (days : List DayTimeSchedule) (k rounds date t : ℕ)
    → k < rounds
    → IsDaySlot z (date + k) (times_for_day days ((date + k) % 7)) t
    → IsSlot z days rounds date t
IsSlot_of_IsDaySlot z days k zero date t p s = absurd (omega arith)
IsSlot_of_IsDaySlot z days zero (suc rounds) date t p s =
    let e : date + 0 ≡ date = omega arith in inl (rw e at s)
IsSlot_of_IsDaySlot z days (suc k) (suc rounds) date t p s =
    let e : date + suc k ≡ date + 1 + k = omega arith in
    inr (IsSlot_of_IsDaySlot z days k rounds (date + 1) t (omega arith) (rw e at s))

first_slot :
    (z : Zone) (date : ℕ) (times : List Text)
    → times ≢ []
    → All IsTime times
    → (t : ℕ) × IsDaySlot z date times t × (h : ℕ) × (m : ℕ) × (t ≡ z.at date h m)
first_slot z date [] ne h = absurd (ne refl)
first_slot z date (value ∷ times) ne ((hm, e), h) =
    (z.at date hm.0 hm.1, inl (hm, e, refl), hm.0, hm.1, refl)

times_of_first :
    (entry : DayTimeSchedule) (days : List DayTimeSchedule) (d : ℕ)
    → entry.day ≡ pos d
    → times_for_day (entry ∷ days) d ≡ entry.times
unfolding times_for_day
times_of_first entry days d e = ground (arith, eq_int_refl (pos d))

-- Every weekday comes on one of the seven days behind today.
abbrev days_until : ℕ → ℕ → ℕ
days_until date d = 1 + (d + 6 - date % 7) % 7

days_until-mod : (date d : ℕ) → d ≤ 6 → (date + days_until date d) % 7 ≡ d
days_until-mod date d h = omega arith

days_until-le : (date d : ℕ) → days_until date d < scan_window
days_until-le date d = omega arith

CanRun-later : (after_run : Bool) (now t : ℕ) → now < t → CanRun after_run now t
CanRun-later true now t h = h
CanRun-later false now t h = omega arith

module _ (z : Zone) (laws : IsZone z) (after_run : Bool) (now : ℕ) where
  -- A schedule with a valid day has a slot in the window that may run.
  runnable_slot :
      (days : List DayTimeSchedule)
      → days ≢ []
      → All IsDay days
      → (t : ℕ) × IsSlot z days scan_window (z.day_of now) t × CanRun after_run now t
  runnable_slot [] ne h = absurd (ne refl)
  runnable_slot (entry ∷ days) ne (p, h) =
      let (d, d_le, is_d) = p.weekday in
      let date = z.day_of now in
      let k = days_until date d in
      let (t, slot, hour, min, at) = first_slot z (date + k) entry.times p.some_time p.readable in
      let same : times_for_day (entry ∷ days) ((date + k) % 7) ≡ entry.times =
        rw (days_until-mod date d d_le) (times_of_first entry days d is_d) in
      (
        t,
        IsSlot_of_IsDaySlot z (entry ∷ days) k scan_window date t (days_until-le date d)
            (subst (λ ts. IsDaySlot z (date + k) ts t) (sym same) slot),
        CanRun-later after_run now t
            (subst (λ u. now < u) (sym at) (laws.later_day now (date + k) hour min (omega arith))),
      )

pub validate-normalize :
    (s : Schedule) → validate_schedule_input (normalize_schedule s) ≡ validate_schedule_input s
unfolding validate_schedule_input
validate-normalize s = rw normalize_schedule_idem

pub enabled-normalize : (s : Schedule) → (normalize_schedule s).enabled ≡ s.enabled
unfolding normalize_schedule
enabled-normalize s = refl

found_or_error-ne : (next : ℕ) → next ≢ 0 → found_or_error next ≡ ok next
found_or_error-ne next h = ground arith

-- In a zone with no gap at midnight, and more than a minute behind the zero time,
-- `computeNextRun` returns an instant that is not the zero time for every schedule that is enabled
-- and accepted.
pub compute_total :
    (z : Zone) (s : Schedule) (now : ℕ) (after_run : Bool)
    → IsZone z
    → run_grace < now
    → s.enabled ≡ true
    → validate_schedule_input s ≡ ok tt
    → (t : ℕ) × (compute z s now after_run ≡ ok t) × (t ≢ 0)
compute_total z s now after_run laws started on accepted =
    let n = normalize_schedule s in
    let valid : validate_schedule_input n ≡ ok tt = validate-normalize s ∙ accepted in
    let runnable = (validate_schedule_input-IsRunnable n (enabled-normalize s ∙ on) valid).0 in
    let (r, scanned) = scan_days_total z after_run now n.day_times scan_window 0 0 runnable.days in
    let (t, slot, can_run) =
      runnable_slot z laws after_run now n.day_times runnable.some_day runnable.days in
    let some_slot =
      ((window-Best after_run now started z laws n.day_times r scanned).first t slot can_run).0 in
    (
      r,
      compute_enabled z s now after_run on ∙ rw (valid, scanned) (found_or_error-ne r some_slot),
      some_slot,
    )
