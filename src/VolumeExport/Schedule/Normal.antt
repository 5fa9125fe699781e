-- ===== src/VolumeExport/Schedule/Normal.antt =====
-- Normalising a schedule, as schedule_timing.go does before it stores, compares or scans one.
use calf.Common.{
  ◌≡◌, refl, ap, ◌∙◌, false, List, [], ◌∷◌, map, All, lt_int_asym, lt_int_cotrans, sort_slice,
  IsSorted, sort_slice-IsSorted, sort_slice_of_IsSorted,
}
use calf.Strings.{Text, text_lt}
use calf.Strings.Laws.{text_lt_asym, text_lt_cotrans}
use calf.VolumeExport.Schedule.{
  DayTimeSchedule, Schedule, day_less, sort_times, normalize_days, normalize_schedule,
}

day_less-IsSorted : (ds : List DayTimeSchedule) → IsSorted day_less (sort_slice day_less ds)
day_less-IsSorted =
    sort_slice-IsSorted day_less (λ a b. lt_int_asym a.day b.day)
      (λ a b c. lt_int_cotrans a.day b.day c.day)

-- Sorting a sorted list of times changes nothing.
sort_times_idem : (d : DayTimeSchedule) → sort_times (sort_times d) ≡ sort_times d
sort_times_idem d =
    ap (λ (ts : List Text). record d { times = ts })
      (sort_slice_of_IsSorted text_lt (sort_slice text_lt d.times)
        (sort_slice-IsSorted text_lt text_lt_asym text_lt_cotrans d.times))

map-sort_times_idem :
    (ds : List DayTimeSchedule) → map sort_times (map sort_times ds) ≡ map sort_times ds
map-sort_times_idem [] = refl
map-sort_times_idem (d ∷ ds) = cc (sort_times_idem d, map-sort_times_idem ds)

-- Sorting the times of the days leaves the days in their order.
All-map-sort_times :
    (d : DayTimeSchedule) (ds : List DayTimeSchedule)
    → All (λ e. day_less e d ≡ false) ds
    → All (λ e. day_less e (sort_times d) ≡ false) (map sort_times ds)
All-map-sort_times d [] h = tt
All-map-sort_times d (e ∷ es) (p, h) = (p, All-map-sort_times d es h)

map-sort_times-IsSorted :
    (ds : List DayTimeSchedule) → IsSorted day_less ds → IsSorted day_less (map sort_times ds)
map-sort_times-IsSorted [] h = tt
map-sort_times-IsSorted (d ∷ ds) (p, h) = (All-map-sort_times d ds p, map-sort_times-IsSorted ds h)

normalize_days_cons :
    (d : DayTimeSchedule) (ds : List DayTimeSchedule)
    → IsSorted day_less (d ∷ ds)
    → normalize_days (map sort_times (d ∷ ds)) ≡ map sort_times (d ∷ ds)
unfolding normalize_days
normalize_days_cons d ds h =
    ap (map sort_times) (sort_slice_of_IsSorted day_less _ (map-sort_times-IsSorted (d ∷ ds) h))
    ∙ map-sort_times_idem (d ∷ ds)

normalize_days_of_map :
    (ds : List DayTimeSchedule)
    → IsSorted day_less ds
    → normalize_days (map sort_times ds) ≡ map sort_times ds
unfolding normalize_days
normalize_days_of_map [] h = refl
normalize_days_of_map (d ∷ ds) h = normalize_days_cons d ds h

normalize_days_idem :
    (ds : List DayTimeSchedule) → normalize_days (normalize_days ds) ≡ normalize_days ds
unfolding normalize_days
normalize_days_idem [] = refl
normalize_days_idem (d ∷ ds) =
    normalize_days_of_map (sort_slice day_less (d ∷ ds)) (day_less-IsSorted (d ∷ ds))

-- Normalising a second time changes nothing.
pub normalize_schedule_idem :
    (s : Schedule) → normalize_schedule (normalize_schedule s) ≡ normalize_schedule s
unfolding normalize_schedule
normalize_schedule_idem s =
    ap (λ (ds : List DayTimeSchedule). record s { day_times = ds })
      (normalize_days_idem s.day_times)
