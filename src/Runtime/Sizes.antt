-- ===== src/Runtime/Sizes.antt =====
-- The sizes that the engine prints: `parseResourceSize` and `systemDfReclaimable` of
-- backend/internal/runtime/prune.go, and backend/internal/runtime/system_df.go.
use calf.Common.{
  ℕ, Bool, not, ◌==◌, Option, none, some, List, [], ◌∷◌, if◌then◌else◌, any, keep, ℤ, pos, eq_int,
}
use calf.Strings.{Text, text, text_eq, is_empty, trim_space, to_lower, has_suffix, split}
use calf.Utils.Size.{Floats, trim_suffix, parse_docker_human_size}
use calf.Runtime.ContainerGhosts.{cut}
use calf.Runtime.Types.{DiskUsageRow}

abbrev pub or_zero : Option ℤ → ℤ
or_zero none = pos 0
or_zero (some n) = n

abbrev pub resource_units : List (Text × ℕ)
resource_units =
    (text "GiB", 0x40000000)
    ∷ (text "MiB", 0x100000)
    ∷ (text "KiB", 0x400)
    ∷ (text "GB", 1000000000)
    ∷ (text "MB", 1000000)
    ∷ (text "kB", 1000)
    ∷ (text "KB", 1000)
    ∷ (text "G", 0x40000000)
    ∷ (text "M", 0x100000)
    ∷ (text "K", 0x400)
    ∷ (text "B", 1)
    ∷ []

-- `strings.Cut` at a parenthesis: what stands before it, trimmed.
abbrev pub cut_label : Text → Option (Text × Text) → Text
cut_label raw none = raw
cut_label raw (some (before, after)) = trim_space before

module _ (floats : Floats) where
  abbrev pub size_of_unit : List (Text × ℕ) → Text → ℤ
  size_of_unit [] compact = pos 0
  size_of_unit ((suffix, mult) ∷ units) compact =
      let rest = size_of_unit units compact in
      if has_suffix compact suffix
      then or_zero (floats.scaled_int64 (trim_suffix compact suffix) mult)
      else rest

  -- Behind `ParseDockerHumanSize`: the second table, where that has failed.
  abbrev pub size_or_units : Text → Option ℤ → ℤ
  size_or_units value (some n) = n
  size_or_units value none = size_of_unit resource_units (keep (λ c. not (c == b' ')) value)

  -- `parseResourceSize`
  unfoldable pub parse_resource_size : Text → ℤ
  parse_resource_size raw =
      let value = trim_space raw in
      if is_empty value then pos 0 else size_or_units value (parse_docker_human_size floats value)

  -- `systemDfReclaimable`: the fields of a line are the type and its size.
  abbrev pub df_size : Text → ℤ × Text
  df_size field =
      let trimmed = trim_space field in
      let raw = cut_label trimmed (cut b'(' trimmed) in
      (
        elim (parse_docker_human_size floats raw) [ some n ↦ n | none ↦ parse_resource_size raw ],
        raw,
      )

  abbrev pub df_fields : Text → List Text → Option (ℤ × Text) → Option (ℤ × Text)
  df_fields type_name (kind ∷ size ∷ []) rest =
      if not (text_eq (to_lower kind) (to_lower type_name)) then rest else some (df_size size)
  df_fields type_name [] rest = rest
  df_fields type_name (kind ∷ []) rest = rest
  df_fields type_name (kind ∷ size ∷ more ∷ fields) rest = rest

  abbrev pub df_lines : Text → List Text → Option (ℤ × Text)
  df_lines type_name [] = none
  df_lines type_name (line ∷ lines) =
      df_fields type_name (split b'\t' (trim_space line)) (df_lines type_name lines)

  -- The output of the command; none is an error.
  unfoldable pub system_df_reclaimable : Option Text → Text → Option (ℤ × Text)
  unfolding split
  system_df_reclaimable none type_name = none
  system_df_reclaimable (some output) type_name = df_lines type_name (split b'\n' output)

  abbrev pub or_resource_size : Text → ℤ
  or_resource_size label =
      let n = or_zero (parse_docker_human_size floats label) in
      if eq_int n (pos 0) then parse_resource_size label else n

  abbrev pub df_row : Text → Text → Text → DiskUsageRow
  df_row type_name size_field reclaim_field =
      let size_label = trim_space size_field in
      let reclaim_raw = trim_space reclaim_field in
      let reclaim_label = cut_label reclaim_raw (cut b'(' reclaim_raw) in
      record {
        type_name = type_name;
        size = size_label;
        size_bytes = or_resource_size size_label;
        reclaimable = reclaim_label;
        reclaimable_bytes = or_resource_size reclaim_label;
      }

  unfoldable pub is_system_df_type : Text → Bool
  is_system_df_type type_name =
      any (text_eq type_name)
        (text "Images" ∷ text "Containers" ∷ text "Local Volumes" ∷ text "Build Cache" ∷ [])

  abbrev pub df_row_of : List Text → List DiskUsageRow → List DiskUsageRow
  df_row_of (kind ∷ size ∷ reclaim ∷ more) rest =
      let type_name = trim_space kind in
      if not (is_system_df_type type_name) then rest else df_row type_name size reclaim ∷ rest
  df_row_of [] rest = rest
  df_row_of (kind ∷ []) rest = rest
  df_row_of (kind ∷ size ∷ []) rest = rest

  abbrev pub df_rows : List Text → List DiskUsageRow
  df_rows [] = []
  df_rows (line ∷ lines) = df_row_of (split b'\t' (trim_space line)) (df_rows lines)

  -- `parseSystemDf`
  unfoldable pub parse_system_df : Text → List DiskUsageRow
  unfolding split is_system_df_type
  parse_system_df output = df_rows (split b'\n' output)
