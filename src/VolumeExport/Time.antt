-- ===== src/VolumeExport/Time.antt =====
-- Instants, as backend/internal/volumeexport uses Go's package `time`. An instant is the number of
-- nanoseconds since Go's zero time, so that `IsZero` is the test for 0.
use calf.Common.{ℕ, ◌+◌, ◌-◌, ◌*◌, ◌/◌, ◌%◌, ◌<◌, ◌≡◌, Bool, Option, some, arith}
use calf.Strings.{Text, is_empty, trim_space}

abbrev pub second : ℕ
second = 1_000_000_000

abbrev pub minute : ℕ
minute = 60 * second

abbrev pub day : ℕ
day = 86_400 * second

-- `Truncate(time.Minute)`
unfoldable pub truncate_minute : ℕ → ℕ
truncate_minute t = t - t % minute

-- `now.Location()`, from the time zone database: the calendar day of an instant, counted from a
-- Sunday, `time.Date` of a day, an hour and a minute, and `AddDate(0, 0, days)`. Where the clock that
-- the last two ask for is in a gap of the zone, Go takes an instant beside the gap, which for a gap
-- at midnight may be on the day before.
pub record Zone : Type 0 where
  pub day_of : ℕ → ℕ
  pub at : ℕ → ℕ → ℕ → ℕ
  pub add_days : ℕ → ℕ → ℕ

-- A zone that has no gap at midnight: as many days behind an instant the calendar is as many days on,
-- and a later calendar day begins later.
pub record IsZone (z : Zone) : Type 0 where
  pub day_of-add_days : (t days : ℕ) → z.day_of (z.add_days t days) ≡ z.day_of t + days
  pub later_day : (t d h m : ℕ) → z.day_of t < d → t < z.at d h m

-- UTC. The zero time is a Monday, day 1 of the count.
abbrev pub utc : Zone
utc = record {
  day_of = λ t. t / day + 1;
  at = λ d h m. (d - 1) * day + h * (3600 * second) + m * minute;
  add_days = λ t days. t + days * day;
}

utc-day_of-add_days : (t days : ℕ) → (t + days * day) / day + 1 ≡ t / day + 1 + days
utc-day_of-add_days t days = omega arith

utc-later_day :
    (t d h m : ℕ) → t / day + 1 < d → t < (d - 1) * day + h * (3600 * second) + m * minute
utc-later_day t d h m p = omega arith

pub utc-IsZone : IsZone utc
utc-IsZone = record { day_of-add_days = utc-day_of-add_days; later_day = utc-later_day }

-- `Format(time.RFC3339)` of an instant in UTC, and `Parse` of such a text. The format drops the
-- fraction of the second.
pub record Rfc3339 : Type 0 where
  pub format : ℕ → Text
  pub parse : Text → Option ℕ

pub record IsRfc3339 (f : Rfc3339) : Type 0 where
  pub parse-format : (t : ℕ) → f.parse (f.format t) ≡ some (t - t % second)
  pub format-trim_space : (t : ℕ) → is_empty (trim_space (f.format t)) ≡ Bool.false
