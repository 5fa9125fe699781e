-- ===== src/VolumeExport/Schedule.antt =====
-- backend/internal/volumeexport/schedule.go (the records) and schedule_timing.go (normalising and
-- validating a schedule, and the time of day).
pub mod Valid
pub mod Normal
use calf.Common.{
  ℕ, zero, suc, ◌+◌, ◌-◌, ◌*◌, Bool, true, false, not, ◌&&◌, ◌||◌, Option, none, some, List, [],
  ◌∷◌, map, ltb, leb, ◌==◌, if◌then◌else◌, any, ℤ, pos, negsuc, lt_int, eq_int, sort_slice, Result,
  ok, err, ◌>>=◌, ◌>>◌, guard,
}
use calf.Strings.{Text, text, text_eq, text_lt, is_empty, trim_space}

pub record DayTimeSchedule : Type 0 where
  pub day : ℤ
  pub times : List Text

pub record Schedule : Type 0 where
  pub id : Text
  pub volume : Text
  pub enabled : Bool
  pub day_times : List DayTimeSchedule
  pub type : Text
  pub file_name : Text
  pub folder : Text
  pub image_ref : Text
  pub created_at : Text
  pub last_run_at : Text
  pub next_run_at : Text
  pub last_status : Text
  pub last_error : Text

-- The errors of the package, with the values that their messages show.
pub data ScheduleError : Type 0 where
  no_days bad_day time_required time_format folder_required image_ref_required no_upcoming :
      ScheduleError
  no_times : ℤ → ScheduleError
  duplicate_time : Text → ℤ → ScheduleError
  unsupported_type : Text → ScheduleError

-- constants.go
abbrev pub local_file : Text
local_file = text "local_file"

abbrev pub local_image : Text
local_image = text "local_image"

abbrev pub new_image : Text
new_image = text "new_image"

abbrev pub registry : Text
registry = text "registry"

abbrev pub day_less : DayTimeSchedule → DayTimeSchedule → Bool
day_less a b = lt_int a.day b.day

abbrev pub sort_times : DayTimeSchedule → DayTimeSchedule
sort_times entry = record entry { times = sort_slice text_lt entry.times }

unfoldable pub normalize_days : List DayTimeSchedule → List DayTimeSchedule
normalize_days [] = []
normalize_days (d ∷ ds) = map sort_times (sort_slice day_less (d ∷ ds))

unfoldable pub normalize_schedule : Schedule → Schedule
normalize_schedule s = record s { day_times = normalize_days s.day_times }

abbrev is_digit : ℕ → Bool
is_digit c = leb b'0' c && leb c b'9'

-- The minute of the layout "15:04": two digits, and nothing behind them.
unfoldable pub parse_minute : ℕ → Text → Option (ℕ × ℕ)
parse_minute h (a ∷ b ∷ []) =
    if is_digit a && is_digit b && ltb ((a - 48) * 10 + (b - 48)) 60
    then some (h, (a - 48) * 10 + (b - 48))
    else none
parse_minute h _ = none

unfoldable pub parse_colon : ℕ → Text → Option (ℕ × ℕ)
unfolding parse_minute
parse_colon h [] = none
parse_colon h (c ∷ s) = if ltb h 24 && c == b':' then parse_minute h s else none

-- `time.Parse("15:04", value)`: the hour has one digit or two.
unfoldable pub parse_hm : Text → Option (ℕ × ℕ)
unfolding parse_colon
parse_hm [] = none
parse_hm (a ∷ []) = none
parse_hm (a ∷ b ∷ s) =
    if not (is_digit a)
    then none
    else if is_digit b
    then parse_colon ((a - 48) * 10 + (b - 48)) s
    else parse_colon (a - 48) (b ∷ s)

abbrev pub or_time_format : Option (ℕ × ℕ) → Result ScheduleError (ℕ × ℕ)
or_time_format none = err time_format
or_time_format (some hm) = ok hm

unfoldable pub parse_time_of_day : Text → Result ScheduleError (ℕ × ℕ)
parse_time_of_day value =
    let v = trim_space value in
    if is_empty v then err time_required else or_time_format (parse_hm v)

-- The loop over the times of a day; `seen` holds the keys of the map `seenTimes`.
unfoldable pub validate_times : ℤ → List Text → List Text → Result ScheduleError (Unit {0})
validate_times day seen [] = ok tt
validate_times day seen (value ∷ times) = do
  parse_time_of_day value
  let key = trim_space value
  guard (not (any (text_eq key) seen)) (duplicate_time key day)
  validate_times day (key ∷ seen) times

unfoldable pub has_times : List Text → Bool
has_times [] = false
has_times (t ∷ ts) = true

unfoldable pub validate_days : List DayTimeSchedule → Result ScheduleError (Unit {0})
validate_days [] = ok tt
validate_days (entry ∷ days) = do
  guard (not (lt_int entry.day (pos 0) || lt_int (pos 6) entry.day)) bad_day
  guard (has_times entry.times) (no_times entry.day)
  validate_times entry.day [] entry.times
  validate_days days

-- The checks on the type and its destination.
unfoldable pub validate_target : Schedule → Result ScheduleError (Unit {0})
validate_target s =
    let export_type = trim_space s.type in
    if not (text_eq export_type local_file)
      && not (text_eq export_type local_image)
      && not (text_eq export_type new_image)
      && not (text_eq export_type registry)
    then err (unsupported_type export_type)
    else if text_eq export_type local_file
    then guard (not (is_empty (trim_space s.folder))) folder_required
    else guard (not (is_empty (trim_space s.image_ref))) image_ref_required

unfoldable pub has_days : List DayTimeSchedule → Bool
has_days [] = false
has_days (d ∷ ds) = true

unfoldable pub validate_schedule_input : Schedule → Result ScheduleError (Unit {0})
validate_schedule_input schedule =
    let s = normalize_schedule schedule in
    if not s.enabled
    then ok tt
    else do guard (has_days s.day_times) no_days; validate_days s.day_times; validate_target s

unfoldable pub times_for_day : List DayTimeSchedule → ℕ → List Text
times_for_day [] day = []
times_for_day (entry ∷ days) day =
    if eq_int entry.day (pos day) then entry.times else times_for_day days day
