-- ===== src/Utils/Format.antt =====
-- backend/internal/utils/format.go
pub mod Bounds
use calf.Common.{
  ℕ, zero, suc, ◌+◌, ◌*◌, ◌/◌, Bool, ◌&&◌, Option, none, some, List, [], ◌∷◌, ◌++◌, ltb, leb, ◌==◌,
  if◌then◌else◌, ℤ, pos, negsuc,
}
use calf.Strings.{Text, text}

abbrev pub unit : ℕ
unit = 1024

-- The loop of `FormatBytes` with its variables `div` and `exp`; every round divides the numerator, so
-- it is fuel enough.
unfoldable pub scale_from : ℕ → ℕ → ℕ → ℕ → ℕ × ℕ
scale_from zero numerator div exp = (div, exp)
scale_from (suc fuel) numerator div exp =
    let more = scale_from fuel (numerator / unit) (div * unit) (exp + 1) in
    if leb unit numerator then more else (div, exp)

unfoldable pub scale : ℕ → ℕ × ℕ
unfolding scale_from
scale size = scale_from (size / unit) (size / unit) unit 0

abbrev pub suffixes : List Text
suffixes = text "KB" ∷ text "MB" ∷ text "GB" ∷ text "TB" ∷ []

-- `none` is a panic: an index out of range.
abbrev pub suffix_at : List Text → ℕ → Option Text
suffix_at [] i = none
suffix_at (s ∷ ss) zero = some s
suffix_at (s ∷ ss) (suc i) = suffix_at ss i

-- `fmt.Sprintf("%d B", size)` and `"%.1f "` of the quotient of two integers.
pub record Render : Type 0 where
  pub decimal : ℕ → Text
  pub tenths : ℕ → ℕ → Text

abbrev pub scaled : Render → ℕ → ℕ × ℕ → Option Text → Option Text
scaled r size s none = none
scaled r size s (some suffix) = some (r.tenths size s.0 ++ text " " ++ suffix)

unfoldable pub format_bytes : Render → ℤ → Option Text
format_bytes r (negsuc n) = some (text "0 B")
format_bytes r (pos size) =
    if size == 0
    then some (text "0 B")
    else if ltb size unit
    then some (r.decimal size ++ text " B")
    else scaled r size (scale size) (suffix_at suffixes (scale size).1)

-- Whether `FormatBytes` returns for every one of the sizes.
abbrev pub is_shown : Option Text → Bool
is_shown none = Bool.false
is_shown (some size) = Bool.true

unfoldable pub all_format : Render → List ℤ → Bool
unfolding format_bytes
all_format r [] = Bool.true
all_format r (size ∷ sizes) = is_shown (format_bytes r size) && all_format r sizes
