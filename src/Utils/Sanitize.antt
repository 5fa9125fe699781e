-- ===== src/Utils/Sanitize.antt =====
-- backend/internal/utils/sanitize.go and lines.go
use calf.Common.{ℕ, ◌≢◌, Bool, not, List, [], ◌∷◌, arith, All, All-append, if◌then◌else◌}
use calf.Strings.{Text, text, is_empty, trim_space, split, replace_rune, replace_runes}

abbrev pub file_name_pairs : List (ℕ × Text)
file_name_pairs = (b'/', text "_") ∷ (b':', text "_") ∷ (b'\\', text "_") ∷ []

unfoldable pub sanitize_file_name : Text → Text
unfolding replace_runes
sanitize_file_name name = replace_runes file_name_pairs name

abbrev pub export_file_name_pairs : List (ℕ × Text)
export_file_name_pairs = (b'/', text "_") ∷ (b'\\', text "_") ∷ (b':', text "-") ∷ []

unfoldable pub sanitize_export_file_name : Text → Text
unfolding replace_runes trim_space
sanitize_export_file_name value = replace_runes export_file_name_pairs (trim_space value)

-- `keep` is the filter of the caller, which is the constant true where the source passes nil.
unfoldable pub keep_lines : (Text → Bool) → List Text → List Text
unfolding trim_space is_empty
keep_lines keep [] = []
keep_lines keep (line ∷ lines) =
    let item = trim_space line in
    let rest = keep_lines keep lines in
    if is_empty item then rest else if not (keep item) then rest else item ∷ rest

unfoldable pub parse_lines : Text → (Text → Bool) → List Text
unfolding keep_lines split
parse_lines output keep = keep_lines keep (split 10 output)

-- A character that no file system reads as a separator of path components.
abbrev pub IsFileRune : ℕ → Type 0
IsFileRune c = (c ≢ b'/') × (c ≢ b'\\') × (c ≢ b':')

All-replace_runes :
    (pairs : List (ℕ × Text))
    → ((c : ℕ) → All IsFileRune (replace_rune pairs c))
    → (s : Text) → All IsFileRune (replace_runes pairs s)
unfolding replace_runes
All-replace_runes pairs f [] = tt
All-replace_runes pairs f (c ∷ s) = All-append IsFileRune _ _ (f c) (All-replace_runes pairs f s)

pub sanitize_file_name-IsFileRune : (s : Text) → All IsFileRune (sanitize_file_name s)
unfolding sanitize_file_name
sanitize_file_name-IsFileRune s = All-replace_runes file_name_pairs runes s
  where
    runes : (c : ℕ) → All IsFileRune (replace_rune file_name_pairs c)
    runes c = ground arith

pub sanitize_export_file_name-IsFileRune : (s : Text) → All IsFileRune (sanitize_export_file_name s)
unfolding sanitize_export_file_name
sanitize_export_file_name-IsFileRune s =
    All-replace_runes export_file_name_pairs runes (trim_space s)
  where
    runes : (c : ℕ) → All IsFileRune (replace_rune export_file_name_pairs c)
    runes c = ground arith
