-- ===== src/Strings.antt =====
-- Go's package `strings`, as far as backend/internal uses it. A text is the list of its code points.
-- `trim_space` removes the white space of `unicode.IsSpace`; `to_lower` is `ToLower` of an ASCII text
-- (states, types, host names and messages, which the code compares with ASCII words), and
-- `to_lower_by` that of any text, with `unicode.ToLower` as a parameter.
pub mod Laws
use Prim.Native.Char.{code}
use Prim.Native.String
use calf.Common.{
  ℕ, zero, suc, ◌+◌, ◌-◌, String, Bool, true, false, not, ◌&&◌, ◌||◌, Option, none, some, List, [],
  ◌∷◌, ◌++◌, map, ltb, leb, ◌==◌, if◌then◌else◌, length,
}

abbrev pub Text : Type 0
Text = List ℕ

-- A literal of the source.
abbrev pub text : String → Text
text String.[] = []
text (String.◌∷◌ c s) = code c ∷ text s

unfoldable pub text_eq : Text → Text → Bool
text_eq [] [] = true
text_eq [] (d ∷ t) = false
text_eq (c ∷ s) [] = false
text_eq (c ∷ s) (d ∷ t) = (c == d) && text_eq s t

-- The order of Go's `<` on strings.
unfoldable pub text_lt : Text → Text → Bool
text_lt [] [] = false
text_lt [] (d ∷ t) = true
text_lt (c ∷ s) [] = false
text_lt (c ∷ s) (d ∷ t) = ltb c d || ((c == d) && text_lt s t)

unfoldable pub is_empty : Text → Bool
is_empty [] = true
is_empty (c ∷ s) = false

-- `unicode.IsSpace`
unfoldable pub is_space : ℕ → Bool
is_space c =
    (leb 9 c && leb c 13)
    || (c == 0x20)
    || (c == 0x85)
    || (c == 0xa0)
    || (c == 0x1680)
    || (leb 0x2000 c && leb c 0x200a)
    || (c == 0x2028)
    || (c == 0x2029)
    || (c == 0x202f)
    || (c == 0x205f)
    || (c == 0x3000)

unfoldable pub trim_left : Text → Text
trim_left [] = []
trim_left (c ∷ s) = let rest = trim_left s in if is_space c then rest else c ∷ s

-- What is left of `c` and an already trimmed tail.
unfoldable pub trim_end : ℕ → Text → Text
trim_end c [] = if is_space c then [] else c ∷ []
trim_end c (d ∷ s) = c ∷ d ∷ s

unfoldable pub trim_right : Text → Text
unfolding trim_end
trim_right [] = []
trim_right (c ∷ s) = trim_end c (trim_right s)

unfoldable pub trim_space : Text → Text
unfolding trim_left trim_right is_space
trim_space s = trim_right (trim_left s)

unfoldable pub lower_rune : ℕ → ℕ
lower_rune c = if leb b'A' c && leb c b'Z' then c + 32 else c

unfoldable pub to_lower : Text → Text
unfolding lower_rune
to_lower s = map lower_rune s

-- `lower` is `unicode.ToLower` behind the ASCII characters.
unfoldable pub lower_rune_by : (ℕ → ℕ) → ℕ → ℕ
unfolding lower_rune
lower_rune_by lower c = if ltb c 128 then lower_rune c else lower c

unfoldable pub to_lower_by : (ℕ → ℕ) → Text → Text
unfolding lower_rune_by
to_lower_by lower s = map (lower_rune_by lower) s

unfoldable pub has_prefix : Text → Text → Bool
has_prefix s [] = true
has_prefix [] (d ∷ t) = false
has_prefix (c ∷ s) (d ∷ t) = (c == d) && has_prefix s t

unfoldable pub has_suffix : Text → Text → Bool
has_suffix [] t = text_eq [] t
has_suffix (c ∷ s) t = text_eq (c ∷ s) t || has_suffix s t

unfoldable pub contains : Text → Text → Bool
unfolding has_prefix
contains [] t = has_prefix [] t
contains (c ∷ s) t = has_prefix (c ∷ s) t || contains s t

-- The tail behind a prefix; the whole text where the prefix is not there.
unfoldable pub skip : ℕ → Text → Text
skip zero s = s
skip (suc n) [] = []
skip (suc n) (c ∷ s) = skip n s

unfoldable pub trim_prefix : Text → Text → Text
unfolding has_prefix skip
trim_prefix s t = if has_prefix s t then skip (length t) s else s

-- `strings.Split` at a separator of one character.
unfoldable pub glue : ℕ → List Text → List Text
glue c [] = (c ∷ []) ∷ []
glue c (w ∷ ws) = (c ∷ w) ∷ ws

unfoldable pub split : ℕ → Text → List Text
unfolding glue
split sep [] = [] ∷ []
split sep (c ∷ s) = let rest = split sep s in if c == sep then [] ∷ rest else glue c rest

-- `strings.NewReplacer` with keys of one character.
unfoldable pub replace_rune : List (ℕ × Text) → ℕ → Text
replace_rune [] c = c ∷ []
replace_rune ((old, new) ∷ pairs) c = if c == old then new else replace_rune pairs c

unfoldable pub replace_runes : List (ℕ × Text) → Text → Text
unfolding replace_rune
replace_runes pairs [] = []
replace_runes pairs (c ∷ s) = replace_rune pairs c ++ replace_runes pairs s

-- `strings.NewReplacer` with longer keys: at each place the first key that fits, in argument order.
unfoldable pub match_key : List (Text × Text) → Text → Option (ℕ × Text)
unfolding has_prefix
match_key [] s = none
match_key ((old, new) ∷ pairs) s =
    if has_prefix s old then some (length old, new) else match_key pairs s

-- The number counts the characters of the last key that are still to be passed over.
unfoldable pub replace_from : List (Text × Text) → ℕ → Text → Text
unfolding match_key
replace_from pairs n [] = []
replace_from pairs (suc n) (c ∷ s) = replace_from pairs n s
replace_from pairs zero (c ∷ s) = elim (match_key pairs (c ∷ s)) [
  | none ↦ c ∷ replace_from pairs 0 s
  | some (n, new) ↦ new ++ replace_from pairs (n - 1) s
]

unfoldable pub replace_all : List (Text × Text) → Text → Text
unfolding replace_from
replace_all pairs s = replace_from pairs 0 s
