-- ===== src/HttpKit/Route/Paths.antt =====
-- The segments that `PathParts` of route.go makes of a path.
use calf.Common.{
  ℕ, ◌≡◌, ◌≢◌, Bool, true, false, not, List, [], ◌∷◌, ◌++◌, ◌==◌, arith, All, keep, Bool-cases, inl,
  inr, if◌then◌else◌,
}
use calf.Strings.{Text, text, is_empty, trim_prefix, glue, split}
use calf.HttpKit.Route.{trim_slashes, trim_slash_suffix, path_parts}

abbrev pub NoRune : ℕ → Text → Type 0
NoRune c s = All (λ d. d ≢ c) s

glue-NoRune :
    (sep c : ℕ) (ws : List Text) → c ≢ sep → All (NoRune sep) ws → All (NoRune sep) (glue c ws)
unfolding glue
glue-NoRune sep c [] ne h = ((ne, tt), tt)
glue-NoRune sep c (w ∷ ws) ne (p, h) = ((ne, p), h)

pub split-NoRune : (sep : ℕ) (s : Text) → All (NoRune sep) (split sep s)
unfolding split
split-NoRune sep [] = (tt, tt)
split-NoRune sep (c ∷ s) = elim (Bool-cases (c == sep)) [
  | inl e ↦ rw e (tt, split-NoRune sep s)
  | inr e ↦ rw e (glue-NoRune sep c (split sep s) (ground arith) (split-NoRune sep s))
]

-- A segment: it is not empty, and has no slash.
abbrev pub IsSegment : Text → Type 0
IsSegment part = (is_empty part ≡ false) × NoRune b'/' part

kept-IsSegment :
    (parts : List Text)
    → All (NoRune b'/') parts
    → All IsSegment (keep (λ part. not (is_empty part)) parts)
kept-IsSegment [] h = tt
kept-IsSegment (part ∷ parts) (p, h) = elim (Bool-cases (is_empty part)) [
  | inl e ↦ rw e (kept-IsSegment parts h)
  | inr e ↦ rw e ((e, p), kept-IsSegment parts h)
]

-- The guards of the code, as Booleans.
parts-IsSegment :
    (outside bare blank : Bool) (parts : List Text)
    → All IsSegment parts
    → All IsSegment (if outside then [] else if bare then [] else if blank then [] else parts)
parts-IsSegment true bare blank parts h = tt
parts-IsSegment false true blank parts h = tt
parts-IsSegment false false true parts h = tt
parts-IsSegment false false false parts h = h

-- Every segment that a handler gets is not empty and has no slash, whatever the path is.
pub path_parts-IsSegment : (path prefix : Text) → All IsSegment (path_parts path prefix)
unfolding path_parts
path_parts-IsSegment path prefix =
    let base = trim_slash_suffix prefix in
    let rest = trim_slashes (trim_prefix path (base ++ text "/")) in
    parts-IsSegment _ _ (is_empty rest) _
      (kept-IsSegment (split b'/' rest) (split-NoRune b'/' rest))
