-- ===== src/Utils/Size.antt =====
-- backend/internal/utils/size.go
use calf.Common.{
  ℕ, ◌-◌, ◌||◌, Option, none, some, List, [], ◌∷◌, if◌then◌else◌, length, take, ℤ, pos,
}
use calf.Strings.{Text, text, text_eq, is_empty, trim_space, has_suffix}

-- `strings.TrimSuffix`
unfoldable pub trim_suffix : Text → Text → Text
unfolding has_suffix
trim_suffix s t = if has_suffix s t then take (length s - length t) s else s

-- `strconv.ParseFloat(number, 64)`, and the int64 of its product with a unit: Go's numbers.
pub record Floats : Type 0 where
  pub scaled_int64 : Text → ℕ → Option ℤ

abbrev pub docker_units : List (Text × ℕ)
docker_units =
    (text "GB", 1000000000)
    ∷ (text "MB", 1000000)
    ∷ (text "kB", 1000)
    ∷ (text "KB", 1000)
    ∷ (text "B", 1)
    ∷ []

module _ (floats : Floats) where
  -- The loop over the units: that of the first suffix counts.
  abbrev pub size_in_units : List (Text × ℕ) → Text → Option ℤ
  size_in_units [] value = none
  size_in_units ((suffix, mult) ∷ units) value =
      let rest = size_in_units units value in
      if has_suffix value suffix
      then floats.scaled_int64 (trim_space (trim_suffix value suffix)) mult
      else rest

  -- An error is none.
  unfoldable pub parse_docker_human_size : Text → Option ℤ
  unfolding trim_suffix
  parse_docker_human_size raw =
      let value = trim_space raw in
      if is_empty value || text_eq value (text "0") || text_eq value (text "0B")
      then some (pos 0)
      else size_in_units docker_units value
