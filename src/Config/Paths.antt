-- ===== src/Config/Paths.antt =====
-- backend/internal/config/paths.go: the paths that a configuration is made of.
use calf.Common.{Bool, Option, none, some, List, [], ◌∷◌, if◌then◌else◌}
use calf.Strings.{Text, text, text_eq, is_empty, trim_space, has_prefix, skip}

-- What the code takes from Go's os and path/filepath: the home directory, where there is one,
-- `filepath.Join` and `filepath.IsAbs`.
pub record Paths : Type 0 where
  pub home : Option Text
  pub join : List Text → Text
  pub is_abs : Text → Bool

abbrev pub home_or : Option Text → Text → Text
home_or none path = path
home_or (some home) path = home

abbrev pub join_home : Paths → Option Text → Text → Text
join_home p none path = path
join_home p (some home) path = p.join (home ∷ skip 2 path ∷ [])

unfoldable pub expand_home_path : Paths → Text → Text
expand_home_path p path =
    let trimmed = trim_space path in
    if is_empty trimmed
    then []
    else if text_eq trimmed (text "~")
    then home_or p.home trimmed
    else if has_prefix trimmed (text "~/")
    then join_home p p.home trimmed
    else trimmed

abbrev pub disk_image_in : Paths → Text → Option Text → Text
disk_image_in p vm_name none = []
disk_image_in p vm_name (some home) =
    let dir = p.join (home ∷ text ".config" ∷ text "calf" ∷ []) in
    p.join (dir ∷ text "guest" ∷ vm_name ∷ text "disk.raw" ∷ [])

unfoldable pub default_disk_image_path : Paths → Text → Text
default_disk_image_path p vm_name =
    disk_image_in p (if is_empty vm_name then text "calf" else vm_name) p.home
