-- ===== src/VolumeExport/Names/Tokens.antt =====
-- Which patterns of name_pattern.go depend on the time of the run.
use calf.Common.{
  ℕ, ◌≡◌, refl, ap, Bool, true, false, not, ◌||◌, ◌&&◌, none, List, [], ◌∷◌, arith, &&-true,
}
use calf.Strings.{
  Text, text, is_empty, trim_space, has_prefix, match_key, replace_from, replace_all,
}
use calf.Utils.Sanitize.{sanitize_export_file_name}
use calf.VolumeExport.Names.{
  CivilTime, token_pairs, expand_export_name_pattern, sanitize_volume_token,
}

-- The keys of the replacer, as the source spells them.
abbrev pub tokens : List Text
tokens =
    text "{volume}" ∷ text "{timestamp}" ∷ text "{datetime}" ∷ text "{date}" ∷ text "{time}" ∷ []

abbrev starts_with_key : List Text → Text → Bool
starts_with_key [] s = false
starts_with_key (k ∷ keys) s = has_prefix s k || starts_with_key keys s

-- No key stands anywhere in the text.
unfoldable pub has_no_key : List Text → Text → Bool
unfolding has_prefix
has_no_key keys [] = true
has_no_key keys (c ∷ s) = not (starts_with_key keys (c ∷ s)) && has_no_key keys s

abbrev keys_of : List (Text × Text) → List Text
keys_of [] = []
keys_of ((old, new) ∷ pairs) = old ∷ keys_of pairs

match_key-none :
    (pairs : List (Text × Text)) (s : Text)
    → starts_with_key (keys_of pairs) s ≡ false
    → match_key pairs s ≡ none
unfolding match_key
match_key-none [] s h = refl
match_key-none ((old, new) ∷ pairs) s h = ground (arith, match_key-none pairs s)

not-true : (b : Bool) → not b ≡ true → b ≡ false
not-true b h = ground arith

replace_from_of_no_key :
    (pairs : List (Text × Text)) (s : Text)
    → has_no_key (keys_of pairs) s ≡ true
    → replace_from pairs 0 s ≡ s
unfolding replace_from
replace_from_of_no_key pairs [] h = refl
replace_from_of_no_key pairs (c ∷ s) h =
    let (here, later) =
      &&-true (not (starts_with_key (keys_of pairs) (c ∷ s))) (has_no_key (keys_of pairs) s)
        (unfold has_no_key in h) in
    rw (match_key-none pairs (c ∷ s) (not-true _ here), replace_from)
      (ap (λ t. c ∷ t) (replace_from_of_no_key pairs s later))

-- A pattern that is not blank and has none of the tokens as the source spells them, in small letters, gives the same
-- file name for every volume and at every time: it is the pattern itself, sanitized.
pub expand_export_name_pattern_of_no_key :
    (lower : ℕ → ℕ) (pattern volume : Text) (t : CivilTime)
    → is_empty (trim_space pattern) ≡ false
    → has_no_key tokens (trim_space pattern) ≡ true
    → expand_export_name_pattern lower pattern volume t
      ≡ sanitize_export_file_name (trim_space pattern)
unfolding expand_export_name_pattern token_pairs replace_all
expand_export_name_pattern_of_no_key lower pattern volume t some_text no_key = rw some_text (
    ap sanitize_export_file_name (
      replace_from_of_no_key (token_pairs (sanitize_volume_token volume) t) (trim_space pattern)
        no_key))
