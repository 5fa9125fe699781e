-- ===== src/HttpKit/Route/Rounds.antt =====
-- A path that is put together from segments, and `PathParts` of route.go on it.
use calf.Common.{
  ℕ, ◌≡◌, ◌≢◌, refl, ap, ◌∙◌, Bool, true, false, not, ◌&&◌, ◌||◌, List, [], ◌∷◌, ◌++◌, ◌==◌, arith,
  All, keep, if◌then◌else◌, length,
}
use calf.Strings.{Text, text, text_eq, is_empty, has_prefix, trim_prefix, skip, glue, split}
use calf.HttpKit.Route.{
  trim_slashes, trim_slash_left, trim_slash_right, trim_slash_suffix, path_parts,
}
use calf.HttpKit.Route.Paths.{NoRune, IsSegment}

-- The segments with slashes between them.
abbrev pub join_segments : List Text → Text
join_segments [] = []
join_segments (s ∷ []) = s
join_segments (s ∷ t ∷ ss) = s ++ (b'/' ∷ join_segments (t ∷ ss))

has_prefix-append : (s t : Text) → has_prefix (s ++ t) s ≡ true
unfolding has_prefix
has_prefix-append [] [] = refl
has_prefix-append [] (c ∷ t) = refl
has_prefix-append (c ∷ s) t = ground (arith, has_prefix-append s t)

skip-append : (s t : Text) → skip (length s) (s ++ t) ≡ t
unfolding skip
skip-append [] t = refl
skip-append (c ∷ s) t = skip-append s t

trim_prefix-append : (s t : Text) → trim_prefix (s ++ t) s ≡ t
unfolding trim_prefix
trim_prefix-append s t = rw (has_prefix-append s t) (skip-append s t)

split_of_NoRune : (sep : ℕ) (s : Text) → NoRune sep s → split sep s ≡ s ∷ []
unfolding split glue
split_of_NoRune sep [] h = refl
split_of_NoRune sep (c ∷ s) (ne, h) =
    let e : (c == sep) ≡ false = ground arith in rw (e, split_of_NoRune sep s h) refl

split-append : (sep : ℕ) (s t : Text) → NoRune sep s → split sep (s ++ (sep ∷ t)) ≡ s ∷ split sep t
unfolding split glue
split-append sep [] t h = let e : (sep == sep) ≡ true = ground arith in rw e refl
split-append sep (c ∷ s) t (ne, h) =
    let e : (c == sep) ≡ false = ground arith in rw (e, split-append sep s t h) refl

split-join_segments :
    (s : Text) (ss : List Text)
    → All IsSegment (s ∷ ss)
    → split b'/' (join_segments (s ∷ ss)) ≡ s ∷ ss
split-join_segments s [] ((_, p), h) = split_of_NoRune b'/' s p
split-join_segments s (t ∷ ss) ((_, p), h) =
    split-append b'/' s (join_segments (t ∷ ss)) p ∙ ap (λ ts. s ∷ ts) (split-join_segments t ss h)

keep_segments : (ss : List Text) → All IsSegment ss → keep (λ part. not (is_empty part)) ss ≡ ss
keep_segments [] h = refl
keep_segments (s ∷ ss) ((e, _), h) = rw (e, keep_segments ss h) refl

-- A text that neither begins nor ends with a slash.
abbrev FirstIsNoSlash : Text → Type 0
FirstIsNoSlash [] = Unit
FirstIsNoSlash (c ∷ s) = c ≢ b'/'

abbrev LastIsNoSlash : Text → Type 0
LastIsNoSlash [] = Unit
LastIsNoSlash (c ∷ []) = c ≢ b'/'
LastIsNoSlash (c ∷ d ∷ s) = LastIsNoSlash (d ∷ s)

left_kept : (s : Text) → FirstIsNoSlash s → trim_slash_left s ≡ s
unfolding trim_slash_left
left_kept [] h = refl
left_kept (c ∷ s) h = let e : (c == b'/') ≡ false = ground arith in rw e refl

right_kept : (s : Text) → LastIsNoSlash s → trim_slash_right s ≡ s
unfolding trim_slash_right
right_kept [] h = refl
right_kept (c ∷ []) h = let e : (c == b'/') ≡ false = ground arith in rw e refl
right_kept (c ∷ d ∷ s) h = rw (right_kept (d ∷ s) h) refl

join-FirstIsNoSlash :
    (s : Text) (ss : List Text) → IsSegment s → FirstIsNoSlash (join_segments (s ∷ ss))
unfolding is_empty
join-FirstIsNoSlash [] ss (e, p) = absurd cc
join-FirstIsNoSlash (c ∷ s) [] (e, (ne, p)) = ne
join-FirstIsNoSlash (c ∷ s) (t ∷ ss) (e, (ne, p)) = ne

segment-LastIsNoSlash : (s : Text) → NoRune b'/' s → LastIsNoSlash s
segment-LastIsNoSlash [] h = tt
segment-LastIsNoSlash (c ∷ []) (ne, h) = ne
segment-LastIsNoSlash (c ∷ d ∷ s) (ne, h) = segment-LastIsNoSlash (d ∷ s) h

-- A text behind another keeps its end, where it is not empty.
append-LastIsNoSlash :
    (s : Text) (c : ℕ) (t : Text) → LastIsNoSlash (c ∷ t) → LastIsNoSlash (s ++ (c ∷ t))
append-LastIsNoSlash [] c t h = h
append-LastIsNoSlash (d ∷ []) c t h = h
append-LastIsNoSlash (d ∷ e ∷ s) c t h = append-LastIsNoSlash (e ∷ s) c t h

join-some : (s : Text) (ss : List Text) → IsSegment s → is_empty (join_segments (s ∷ ss)) ≡ false
unfolding is_empty
join-some [] ss (e, p) = absurd cc
join-some (c ∷ s) [] h = refl
join-some (c ∷ s) (t ∷ ss) h = refl

behind_slash : (s : Text) → is_empty s ≡ false → LastIsNoSlash s → LastIsNoSlash (b'/' ∷ s)
unfolding is_empty
behind_slash [] e h = absurd cc
behind_slash (c ∷ s) e h = h

join-LastIsNoSlash :
    (s : Text) (ss : List Text) → All IsSegment (s ∷ ss) → LastIsNoSlash (join_segments (s ∷ ss))
join-LastIsNoSlash s [] ((_, p), h) = segment-LastIsNoSlash s p
join-LastIsNoSlash s (t ∷ ss) (_, h) =
    append-LastIsNoSlash s b'/' (join_segments (t ∷ ss))
      (behind_slash (join_segments (t ∷ ss)) (join-some t ss h.0) (join-LastIsNoSlash t ss h))

trim_slashes-join :
    (s : Text) (ss : List Text)
    → All IsSegment (s ∷ ss)
    → trim_slashes (join_segments (s ∷ ss)) ≡ join_segments (s ∷ ss)
unfolding trim_slashes
trim_slashes-join s ss h =
    rw (left_kept (join_segments (s ∷ ss)) (join-FirstIsNoSlash s ss h.0))
      (right_kept (join_segments (s ∷ ss)) (join-LastIsNoSlash s ss h))

-- A text is not equal to a longer one.
longer : (s t : Text) → is_empty t ≡ false → text_eq (s ++ t) s ≡ false
unfolding text_eq is_empty
longer [] [] h = cc
longer [] (c ∷ t) h = refl
longer (c ∷ s) t h = ground (arith, longer s t h)

longer_still : (s : Text) (c : ℕ) (t u : Text) → text_eq ((s ++ (c ∷ t)) ++ u) s ≡ false
unfolding text_eq
longer_still [] c t u = refl
longer_still (d ∷ s) c t u = ground (arith, longer_still s c t u)

-- The guards of the code, as Booleans.
behind_guards :
    (bare same blank : Bool) (parts : List Text)
    → bare ≡ false
    → same ≡ false
    → blank ≡ false
    → (if not bare && not true
        then []
        else if bare || same
        then []
        else if blank
        then []
        else parts)
      ≡ parts
behind_guards bare same blank parts p q r = rw (p, q, r) refl

-- A path that consists of the prefix, less a slash at its end, a slash, and one or more segments with
-- slashes between them, each not empty and without a slash, is taken apart into these segments.
pub path_parts-join_segments :
    (prefix s : Text) (ss : List Text)
    → All IsSegment (s ∷ ss)
    → path_parts ((trim_slash_suffix prefix ++ text "/") ++ join_segments (s ∷ ss)) prefix ≡ s ∷ ss
unfolding path_parts
path_parts-join_segments prefix s ss h =
    let base = trim_slash_suffix prefix in
    let rest = join_segments (s ∷ ss) in
    let some_rest = join-some s ss h.0 in
    rw
      (
        has_prefix-append (base ++ text "/") rest,
        trim_prefix-append (base ++ text "/") rest,
        trim_slashes-join s ss h,
      )
      (behind_guards _ _ _ _ (longer_still base b'/' [] rest)
          (longer (base ++ text "/") rest some_rest) some_rest
        ∙ (ap (keep (λ part. not (is_empty part))) (split-join_segments s ss h)
            ∙ keep_segments (s ∷ ss) h))
