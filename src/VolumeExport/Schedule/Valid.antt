-- ===== src/VolumeExport/Schedule/Valid.antt =====
-- What a schedule has that `validate_schedule_input` of schedule_timing.go accepts.
use calf.Common.{
  ℕ, ◌+◌, ◌-◌, ◌*◌, ◌≤◌, ◌<◌, ◌≡◌, ◌≢◌, refl, ap, Bool, true, false, not, ◌||◌, some, List, [], ◌∷◌,
  map, arith, All, any, ℤ, pos, negsuc, lt_int, sort_slice, All-of_sort_slice, ok, guard, >>=-eq-ok,
}
use calf.Strings.{Text, text_lt, text_eq, trim_space}
use calf.VolumeExport.Schedule.{
  DayTimeSchedule, Schedule, ScheduleError, sort_times, day_less, normalize_days,
  normalize_schedule, parse_hm, parse_minute, parse_colon, parse_time_of_day, validate_times,
  has_times, validate_days, validate_target, has_days, validate_schedule_input,
}

-- An export time that the scheduler can read: an hour below 24 and a minute below 60.
abbrev pub IsTime : Text → Type 0
IsTime t = (hm : ℕ × ℕ) × (parse_time_of_day t ≡ ok hm)

parse_minute_bounds :
    (h : ℕ) (s : Text) (hm : ℕ × ℕ)
    → h < 24
    → parse_minute h s ≡ some hm
    → (hm.0 < 24) × (hm.1 < 60)
unfolding parse_minute
parse_minute_bounds h [] hm p e = cc
parse_minute_bounds h (a ∷ []) hm p e = cc
parse_minute_bounds h (a ∷ b ∷ []) hm p e = ground arith
parse_minute_bounds h (a ∷ b ∷ c ∷ s) hm p e = cc

parse_colon_bounds :
    (h : ℕ) (s : Text) (hm : ℕ × ℕ) → parse_colon h s ≡ some hm → (hm.0 < 24) × (hm.1 < 60)
unfolding parse_colon
parse_colon_bounds h [] hm e = cc
parse_colon_bounds h (c ∷ s) hm e = ground (arith, parse_minute_bounds h s hm)

parse_hm_bounds : (s : Text) (hm : ℕ × ℕ) → parse_hm s ≡ some hm → (hm.0 < 24) × (hm.1 < 60)
unfolding parse_hm
parse_hm_bounds [] hm e = cc
parse_hm_bounds (a ∷ []) hm e = cc
parse_hm_bounds (a ∷ b ∷ s) hm e = ground (
  arith,
  parse_colon_bounds ((a - 48) * 10 + (b - 48)) s hm,
  parse_colon_bounds (a - 48) (b ∷ s) hm,
)

-- Every time that is read is a time of the day.
pub parse_time_of_day_bounds :
    (s : Text) (hm : ℕ × ℕ) → parse_time_of_day s ≡ ok hm → (hm.0 < 24) × (hm.1 < 60)
unfolding parse_time_of_day
parse_time_of_day_bounds s hm e = ground (arith, parse_hm_bounds (trim_space s) hm)

-- A day of the week with at least one readable time.
pub record IsDay (entry : DayTimeSchedule) : Type 0 where
  pub weekday : (d : ℕ) × (d ≤ 6) × (entry.day ≡ pos d)
  pub some_time : entry.times ≢ []
  pub readable : All IsTime entry.times

-- The schedule has a day, and every day is one.
pub record IsRunnable (s : Schedule) : Type 0 where
  pub some_day : s.day_times ≢ []
  pub days : All IsDay s.day_times

guard-ok : (b : Bool) (e : ScheduleError) {t : Unit {0}} → guard b e ≡ ok t → b ≡ true
guard-ok true e h = refl
guard-ok false e h = cc

validate_times-readable :
    (d : ℤ) (seen times : List Text) → validate_times d seen times ≡ ok tt → All IsTime times
unfolding validate_times
validate_times-readable d seen [] h = tt
validate_times-readable d seen (v ∷ vs) h =
    let p = >>=-eq-ok (parse_time_of_day v) _ h in
    let q =
      >>=-eq-ok
        (guard (not (any (text_eq (trim_space v)) seen))
          (ScheduleError.duplicate_time (trim_space v) d))
        _ p.2 in
    ((p.0, p.1), validate_times-readable d (trim_space v ∷ seen) vs q.2)

weekday_of :
    (d : ℤ) → not (lt_int d (pos 0) || lt_int (pos 6) d) ≡ true → (n : ℕ) × (n ≤ 6) × (d ≡ pos n)
weekday_of (pos n) h = (n, ground arith, refl)
weekday_of (negsuc n) h = cc

has_times-ne : (ts : List Text) → has_times ts ≡ true → ts ≢ []
unfolding has_times
has_times-ne [] h e = cc
has_times-ne (t ∷ ts) h e = cc

validate_days-IsDay : (days : List DayTimeSchedule) → validate_days days ≡ ok tt → All IsDay days
unfolding validate_days
validate_days-IsDay [] h = tt
validate_days-IsDay (entry ∷ days) h =
    let p =
      >>=-eq-ok
        (guard (not (lt_int entry.day (pos 0) || lt_int (pos 6) entry.day)) ScheduleError.bad_day) _
        h in
    let q = >>=-eq-ok (guard (has_times entry.times) (ScheduleError.no_times entry.day)) _ p.2 in
    let r = >>=-eq-ok (validate_times entry.day [] entry.times) _ q.2 in
    (
      record {
        weekday = weekday_of entry.day (guard-ok _ _ p.1);
        some_time = has_times-ne entry.times (guard-ok _ _ q.1);
        readable = validate_times-readable entry.day [] entry.times r.1;
      },
      validate_days-IsDay days r.2,
    )

module _ (entry : DayTimeSchedule) where
  sort_times-ne : (sort_times entry).times ≢ [] → entry.times ≢ []
  unfolding sort_slice
  sort_times-ne h e = h (ap (sort_slice text_lt) e)

  IsDay-of_sort_times : IsDay (sort_times entry) → IsDay entry
  IsDay-of_sort_times h = record {
    weekday = h.weekday;
    some_time = sort_times-ne h.some_time;
    readable = All-of_sort_slice text_lt IsTime entry.times h.readable;
  }

All-map_iff : (ds : List DayTimeSchedule) → All IsDay (map sort_times ds) → All IsDay ds
All-map_iff [] h = tt
All-map_iff (d ∷ ds) (p, h) = (IsDay-of_sort_times d p, All-map_iff ds h)

-- Normalising invents no valid day.
pub IsDay-of_normalize_days :
    (ds : List DayTimeSchedule) → All IsDay (normalize_days ds) → All IsDay ds
unfolding normalize_days
IsDay-of_normalize_days [] h = tt
IsDay-of_normalize_days (d ∷ ds) h = All-of_sort_slice day_less IsDay (d ∷ ds) (All-map_iff _ h)

has_days-normalize_days :
    (ds : List DayTimeSchedule) → has_days (normalize_days ds) ≡ true → ds ≢ []
unfolding normalize_days has_days
has_days-normalize_days [] h e = cc
has_days-normalize_days (d ∷ ds) h e = cc

module _ (s : Schedule) (on : s.enabled ≡ true) where
  -- An enabled schedule that is accepted has a day, every one of its days is a day of the week with
  -- times that can all be read, and its destination is accepted.
  pub validate_schedule_input-IsRunnable :
      validate_schedule_input s ≡ ok tt → IsRunnable s × (validate_target s ≡ ok tt)
  unfolding validate_schedule_input normalize_schedule validate_target
  validate_schedule_input-IsRunnable h =
      let p =
        >>=-eq-ok (guard (has_days (normalize_days s.day_times)) ScheduleError.no_days) _
          (rw on at h) in
      let q = >>=-eq-ok (validate_days (normalize_days s.day_times)) _ p.2 in
      (
        record {
          some_day = has_days-normalize_days s.day_times (guard-ok _ _ p.1);
          days = IsDay-of_normalize_days s.day_times (validate_days-IsDay _ q.1);
        },
        q.2,
      )
