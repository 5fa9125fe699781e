-- ===== src/VolumeExport/Names.antt =====
-- backend/internal/volumeexport/name_pattern.go: the names of exports.
pub mod Shape
pub mod Tokens
use calf.Common.{
  ℕ, ◌+◌, ◌*◌, ◌/◌, ◌%◌, Bool, true, false, not, ◌&&◌, ◌||◌, List, [], ◌∷◌, ◌++◌, if◌then◌else◌,
}
use calf.Strings.{Text, text, text_eq, is_empty, trim_space, to_lower_by, contains, replace_all}
use calf.Utils.Sanitize.{sanitize_file_name, sanitize_export_file_name}
use calf.VolumeExport.Schedule.{Schedule, local_file, local_image, new_image, registry}

-- What `runTime.Format` shows.
pub record CivilTime : Type 0 where
  pub year : ℕ
  pub month : ℕ
  pub day : ℕ
  pub hour : ℕ
  pub minute : ℕ
  pub second : ℕ

abbrev digit : ℕ → ℕ
digit n = 48 + n % 10

abbrev two_digits : ℕ → Text
two_digits n = digit (n / 10) ∷ digit n ∷ []

abbrev four_digits : ℕ → Text
four_digits n = digit (n / 1000) ∷ digit (n / 100) ∷ digit (n / 10) ∷ digit n ∷ []

-- The layout "20060102-150405".
unfoldable pub format_timestamp : CivilTime → Text
format_timestamp t =
    four_digits t.year
    ++ two_digits t.month
    ++ two_digits t.day
    ++ text "-"
    ++ two_digits t.hour
    ++ two_digits t.minute
    ++ two_digits t.second

-- The layout "2006-01-02".
unfoldable pub format_date : CivilTime → Text
format_date t = four_digits t.year ++ text "-" ++ two_digits t.month ++ text "-" ++ two_digits t.day

-- The layout "15-04-05".
unfoldable pub format_time : CivilTime → Text
format_time t =
    two_digits t.hour ++ text "-" ++ two_digits t.minute ++ text "-" ++ two_digits t.second

-- `lower` is `unicode.ToLower` behind the ASCII characters, here and below.
unfoldable pub has_unique_name_token : (ℕ → ℕ) → Text → Bool
has_unique_name_token lower pattern =
    let p = to_lower_by lower (trim_space pattern) in
    if contains p (text "{timestamp}") || contains p (text "{datetime}")
    then true
    else contains p (text "{date}") && contains p (text "{time}")

abbrev pub default_file_name_pattern : Text
default_file_name_pattern = text "{volume}-{timestamp}.tar.gz"

abbrev pub default_image_ref_pattern : Text
default_image_ref_pattern = text "{volume}-backup:{timestamp}"

unfoldable pub sanitize_volume_token : Text → Text
sanitize_volume_token value = sanitize_file_name (trim_space value)

-- The pairs of the replacer, in the order of its arguments.
unfoldable pub token_pairs : Text → CivilTime → List (Text × Text)
token_pairs volume t =
    (text "{volume}", volume)
    ∷ (text "{timestamp}", format_timestamp t)
    ∷ (text "{datetime}", format_timestamp t)
    ∷ (text "{date}", format_date t)
    ∷ (text "{time}", format_time t)
    ∷ []

unfoldable pub expand_name_pattern : (ℕ → ℕ) → Text → Text → CivilTime → Bool → Text
expand_name_pattern lower pattern volume_name run_time for_file_export =
    let trimmed = trim_space pattern in
    let filled =
      if is_empty trimmed
      then (if for_file_export then default_file_name_pattern else default_image_ref_pattern)
      else trimmed in
    let token = sanitize_volume_token volume_name in
    let volume_token = if not for_file_export then to_lower_by lower token else token in
    let expanded = replace_all (token_pairs volume_token run_time) filled in
    if for_file_export
    then sanitize_export_file_name expanded
    else to_lower_by lower (trim_space expanded)

unfoldable pub expand_export_name_pattern : (ℕ → ℕ) → Text → Text → CivilTime → Text
unfolding expand_name_pattern
expand_export_name_pattern lower pattern volume_name run_time =
    expand_name_pattern lower pattern volume_name run_time true

unfoldable pub expand_export_image_ref_pattern : (ℕ → ℕ) → Text → Text → CivilTime → Text
unfolding expand_name_pattern
expand_export_image_ref_pattern lower pattern volume_name run_time =
    expand_name_pattern lower pattern volume_name run_time false

-- The file name and the image reference of a scheduled export.
unfoldable pub resolve_scheduled_export_names : (ℕ → ℕ) → Schedule → CivilTime → Text × Text
resolve_scheduled_export_names lower s run_time =
    let type = trim_space s.type in
    if text_eq type local_file
    then (
      expand_export_name_pattern lower
          (if is_empty (trim_space s.file_name) then default_file_name_pattern else s.file_name)
          s.volume run_time,
      [],
    )
    else if text_eq type local_image
    then ([], s.image_ref)
    else if text_eq type new_image || text_eq type registry
    then (
      [],
      expand_export_image_ref_pattern lower
          (if is_empty (trim_space s.image_ref) then default_image_ref_pattern else s.image_ref)
          s.volume run_time,
    )
    else ([], [])
