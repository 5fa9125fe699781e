-- ===== src/HttpKit/Route.antt =====
-- backend/internal/httpkit/route.go: the segments of a path, and the handler that a request goes to.
-- A handler is whatever the caller of the model passes: `H` is the type of handlers.
pub mod Paths
pub mod Dispatch
pub mod Rounds
use calf.Common.{
  ℕ, Bool, true, false, not, ◌&&◌, ◌||◌, Option, none, some, List, [], ◌∷◌, ◌++◌, ◌==◌,
  if◌then◌else◌, keep, find,
}
use calf.Strings.{Text, text, text_eq, is_empty, has_prefix, has_suffix, trim_prefix, split}

-- `strings.Trim` and `strings.TrimSuffix` at a slash.
unfoldable pub trim_slash_left : Text → Text
trim_slash_left [] = []
trim_slash_left (c ∷ s) = let rest = trim_slash_left s in if c == b'/' then rest else c ∷ s

abbrev pub trim_slash_end : ℕ → Text → Text
trim_slash_end c [] = if c == b'/' then [] else c ∷ []
trim_slash_end c (d ∷ s) = c ∷ d ∷ s

unfoldable pub trim_slash_right : Text → Text
trim_slash_right [] = []
trim_slash_right (c ∷ s) = trim_slash_end c (trim_slash_right s)

unfoldable pub trim_slashes : Text → Text
unfolding trim_slash_left trim_slash_right
trim_slashes s = trim_slash_right (trim_slash_left s)

unfoldable pub trim_slash_suffix : Text → Text
trim_slash_suffix [] = []
trim_slash_suffix (c ∷ []) = if c == b'/' then [] else c ∷ []
trim_slash_suffix (c ∷ d ∷ s) = c ∷ trim_slash_suffix (d ∷ s)

-- `nil` is the empty list: the callers only ask for the length.
unfoldable pub path_parts : Text → Text → List Text
path_parts path prefix =
    let base = trim_slash_suffix prefix in
    if not (text_eq path base) && not (has_prefix path (base ++ text "/"))
    then []
    else if text_eq path base || text_eq path (base ++ text "/")
    then []
    else let rest = trim_slashes (trim_prefix path (base ++ text "/")) in
      if is_empty rest then [] else keep (λ part. not (is_empty part)) (split b'/' rest)

unfoldable pub match_segments : List Text → List Text → Bool
match_segments [] [] = true
match_segments [] (expected ∷ pattern) = false
match_segments (part ∷ actual) [] = false
match_segments (part ∷ actual) (expected ∷ pattern) =
    (text_eq expected (text "*") || text_eq expected part) && match_segments actual pattern

pub record Route {ℓ} (H : Type ℓ) : Type ℓ where
  pub segments : List Text
  pub method : Text
  pub handler : H

-- The answer to a request.
pub data Answer {ℓ} (H : Type ℓ) : Type ℓ where
  no_content not_found method_not_allowed : Answer H
  handled : H → List Text → Answer H

module _ {ℓ} {H : Type ℓ} where
  abbrev pub takes : Text → List Text → Route H → Bool
  takes method tail route =
      match_segments tail route.segments && (is_empty route.method || text_eq route.method method)

  abbrev pub lookup_method : Text → List (Text × H) → Option H
  lookup_method method [] = none
  lookup_method method ((m, handler) ∷ handlers) =
      if text_eq m method then some handler else lookup_method method handlers

  -- Behind the routes: the fallback where only the resource is named.
  abbrev pub or_fallback : Option H → List Text → Answer H
  or_fallback none parts = method_not_allowed
  or_fallback (some handler) parts = handled handler parts

  abbrev pub fall_back : Text → List (Text × H) → List Text → List Text → Answer H
  fall_back method fallback parts [] = or_fallback (lookup_method method fallback) parts
  fall_back method fallback parts (t ∷ tail) = method_not_allowed

  abbrev pub serve_route :
      Text → List (Text × H) → List Text → List Text → Option (Route H) → Answer H
  serve_route method fallback parts tail none = fall_back method fallback parts tail
  serve_route method fallback parts tail (some route) = handled route.handler parts

  abbrev pub serve_parts : Text → List (Route H) → List (Text × H) → List Text → Answer H
  serve_parts method routes fallback [] = not_found
  serve_parts method routes fallback (id ∷ tail) =
      if is_empty id
      then not_found
      else serve_route method fallback (id ∷ tail) tail (find (takes method tail) routes)

  unfoldable pub serve_routes : Text → Text → Text → List (Route H) → List (Text × H) → Answer H
  serve_routes prefix method path routes fallback =
      if text_eq method (text "OPTIONS")
      then no_content
      else serve_parts method routes fallback (path_parts path prefix)
