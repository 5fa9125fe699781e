-- ===== src/Tests/Exports.antt =====
-- Examples of VolumeExport: schedules, names and sizes.
use calf.Common.{
  ◌==◌, if◌then◌else◌, List, In, inl, ℕ, ◌*◌, ◌^◌, ◌<◌, ◌≡◌, ◌≢◌, ◌↔◌, refl, arith, true, false,
  none, [], ◌∷◌, pos, ok, sort_slice, sort_insert,
}
use calf.Strings.{
  text, text_eq, text_lt, is_empty, is_space, trim_space, trim_left, trim_right, trim_end,
  has_prefix,
}
use calf.Utils.Format.{Render, unit, format_bytes}
use calf.Utils.Format.Bounds.{format_bytes-total_iff}
use calf.VolumeExport.Time.{second, utc, utc-IsZone}
use calf.VolumeExport.Schedule.{
  normalize_schedule, normalize_days, validate_schedule_input, validate_days, validate_times,
  validate_target, has_days, has_times, parse_time_of_day, parse_hm, parse_colon, parse_minute,
  local_image,
}
use calf.VolumeExport.Schedule.Valid.{IsRunnable, validate_schedule_input-IsRunnable}
use calf.VolumeExport.Timing.{scan_window, compute, due_at}
use calf.VolumeExport.Timing.Earliest.{IsSlot, CanRun}
use calf.VolumeExport.Timing.Total.{compute_total}
use calf.VolumeExport.Timing.Window.{tick_hits_slot}
use calf.VolumeExport.Names.{resolve_scheduled_export_names}
use calf.VolumeExport.Names.Shape.{IsNames, IsLowering, resolve_scheduled_export_names_shape}
use calf.VolumeExport.Names.Tokens.{tokens, has_no_key}
use calf.VolumeExport.Input.{
  ScheduleInput, schedule_of_input, schedule_from_input, day_times_from_input,
}
use calf.VolumeExport.Input.Accepted.{schedule_from_input_enabled}
use calf.Tests.Data.{tuesdays, constant_clock, midnight}

pub tuesdays-valid : validate_schedule_input tuesdays ≡ ok tt
unfolding validate_schedule_input normalize_schedule normalize_days sort_slice sort_insert text_lt
    has_days validate_days validate_times has_times parse_time_of_day parse_hm parse_colon
    parse_minute trim_space trim_left trim_right trim_end is_space is_empty text_eq validate_target
tuesdays-valid = refl

compute_total_example : (t : ℕ) × (compute utc tuesdays (200 * second) true ≡ ok t) × (t ≢ 0)
compute_total_example =
    compute_total utc tuesdays (200 * second) true utc-IsZone (omega arith) refl tuesdays-valid

-- Ticks at 100, 155 and 210 seconds, and a slot at 120.
abbrev tick_times : List ℕ
tick_times = 155 * second ∷ 210 * second ∷ []

tick_hits_slot_example : (u : ℕ) × In u tick_times × (due_at (120 * second) u ≡ true)
tick_hits_slot_example =
    tick_hits_slot (120 * second) (100 * second) tick_times (155 * second)
      (omega arith, omega arith, (omega arith, omega arith, tt)) refl (omega arith) (inl refl)
      (omega arith)

validate_schedule_input-IsRunnable_example :
    IsRunnable tuesdays × (validate_target tuesdays ≡ ok tt)
validate_schedule_input-IsRunnable_example =
    validate_schedule_input-IsRunnable tuesdays refl tuesdays-valid

abbrev tuesday_input : ScheduleInput
tuesday_input = record {
  day_times = record { day = pos 2; times = text "09:30" ∷ [] } ∷ [];
  type = text "local_file";
  file_name = [];
  folder = text "/tmp";
  image_ref = [];
}

tuesday_input-valid :
    validate_schedule_input (schedule_of_input (text "data") (text "s1") true tuesday_input) ≡ ok tt
unfolding schedule_of_input day_times_from_input validate_schedule_input normalize_schedule
    normalize_days sort_slice sort_insert text_lt has_days validate_days validate_times has_times
    parse_time_of_day parse_hm parse_colon parse_minute trim_space trim_left trim_right trim_end
    is_space is_empty text_eq validate_target
tuesday_input-valid = refl

schedule_from_input_enabled_example :
    (t : ℕ) × (schedule_from_input utc constant_clock
        (200 * second)
        (text "data")
        (text "s1")
        true
        tuesday_input
      ≡ ok
          (record (normalize_schedule
            (schedule_of_input (text "data") (text "s1") true tuesday_input)) {
              next_run_at = constant_clock.format t;
            }))
    × IsSlot utc
        (normalize_schedule
          (schedule_of_input (text "data") (text "s1") true tuesday_input)).day_times
        scan_window
        (utc.day_of (200 * second))
        t
    × CanRun false (200 * second) t
schedule_from_input_enabled_example =
    schedule_from_input_enabled utc constant_clock (200 * second) (text "data") (text "s1")
      tuesday_input utc-IsZone (omega arith) tuesday_input-valid

-- Of the letters behind ASCII, the capital E with an acute accent.
abbrev lower_e_acute : ℕ → ℕ
lower_e_acute c = if c == 201 then 233 else c

lower_e_acute-IsLowering : IsLowering lower_e_acute
lower_e_acute-IsLowering = record { lowered = λ c h. (ground arith, λ k. ground arith) }

resolve_scheduled_export_names_shape_example :
    IsNames lower_e_acute
      (text_eq (trim_space tuesdays.type) local_image)
      (resolve_scheduled_export_names lower_e_acute tuesdays midnight)
resolve_scheduled_export_names_shape_example =
    resolve_scheduled_export_names_shape lower_e_acute tuesdays midnight lower_e_acute-IsLowering

-- Capital letters make no token.
capital_token-no_key : has_no_key tokens (trim_space (text "{TIMESTAMP}")) ≡ true
unfolding has_no_key trim_space trim_left trim_right trim_end is_space has_prefix
capital_token-no_key = refl

capital_token-some_text : is_empty (trim_space (text "{TIMESTAMP}")) ≡ false
unfolding trim_space trim_left trim_right trim_end is_space is_empty
capital_token-some_text = refl

abbrev plain : Render
plain = record { decimal = λ n. text "n"; tenths = λ n d. text "n.d" }

format_bytes-total_iff_example : (format_bytes plain (pos 3000) ≢ none) ↔ (3000 < unit ^ 5)
format_bytes-total_iff_example = format_bytes-total_iff plain 3000
