-- ===== src/HttpKit/Route/Dispatch.antt =====
-- The route that `ServeRoutes` of route.go takes.
use calf.Common.{
  ||-left, ||-right, ◌≡◌, ◌≢◌, refl, ap, Bool-cases, Bool, true, false, ◌||◌, some, List, [], ◌∷◌,
  ◌++◌, All, find, subst, ◌↔◌, ◌⊎◌, inl, inr, ||-true, &&-true,
}
use calf.Strings.{Text, text, text_eq, is_empty}
use calf.Strings.Laws.{text_eq_iff, text_eq→eq}
use calf.HttpKit.Route.{Route, handled, takes, path_parts, match_segments, serve_routes}
use calf.HttpKit.Route.Paths.{IsSegment, path_parts-IsSegment}

-- The pattern fits, segment by segment.
abbrev pub FitsPattern : List Text → List Text → Type 0
FitsPattern [] [] = Unit
FitsPattern [] (expected ∷ pattern) = ⊥
FitsPattern (part ∷ actual) [] = ⊥
FitsPattern (part ∷ actual) (expected ∷ pattern) =
    ((expected ≡ text "*") ⊎ (expected ≡ part)) × FitsPattern actual pattern

is_empty→eq : (s : Text) → is_empty s ≡ true → s ≡ []
unfolding is_empty
is_empty→eq [] h = refl
is_empty→eq (c ∷ s) h = cc

segment_iff :
    (expected part : Text)
    → ((text_eq expected (text "*") || text_eq expected part) ≡ true)
      ↔ ((expected ≡ text "*") ⊎ (expected ≡ part))
segment_iff expected part = (
  λ h. elim (||-true (text_eq expected (text "*")) (text_eq expected part) h) [
    | inl e ↦ inl (text_eq→eq expected (text "*") e)
    | inr e ↦ inr (text_eq→eq expected part e)
  ],
  λ f. elim f [
    | inl e ↦ ||-left _ _ ((text_eq_iff expected (text "*")).1 e)
    | inr e ↦ ||-right _ _ ((text_eq_iff expected part).1 e)
  ],
)

-- The test on the segments holds exactly where there are as many as in the pattern, and each is the
-- one in the pattern, or the pattern has a star there.
pub match_segments_iff :
    (actual pattern : List Text)
    → (match_segments actual pattern ≡ true) ↔ FitsPattern actual pattern
unfolding match_segments
match_segments_iff [] [] = (λ h. tt, λ h. refl)
match_segments_iff [] (expected ∷ pattern) = (λ h. cc, λ h. absurd h)
match_segments_iff (part ∷ actual) [] = (λ h. cc, λ h. absurd h)
match_segments_iff (part ∷ actual) (expected ∷ pattern) =
    let (sound, complete) = segment_iff expected part in
    let (rest_sound, rest_complete) = match_segments_iff actual pattern in
    (
      λ h.
          let (p, q) = &&-true (text_eq expected (text "*") || text_eq expected part) _ h in
          (sound p, rest_sound q),
      λ f. rw (complete f.0) (rest_complete f.1),
    )

module _ {ℓ} {H : Type ℓ} where
  find_first :
      (p : Route H → Bool) (before after : List (Route H)) (route : Route H)
      → All (λ r. p r ≡ false) before
      → p route ≡ true
      → find p (before ++ (route ∷ after)) ≡ some route
  find_first p [] after route h taken = rw taken refl
  find_first p (r ∷ before) after route (refused, h) taken =
      rw refused (find_first p before after route h taken)

  -- The route has the request's method, or no method, and fits the segments.
  abbrev pub IsTaken : Text → List Text → Route H → Type 0
  IsTaken method tail route =
      FitsPattern tail route.segments × ((route.method ≡ []) ⊎ (route.method ≡ method))

  takes_of_IsTaken :
      (method : Text) (tail : List Text) (route : Route H)
      → IsTaken method tail route
      → takes method tail route ≡ true
  unfolding is_empty
  takes_of_IsTaken method tail route (fits, right) =
      let segments = (match_segments_iff tail route.segments).1 fits in
      let named : (is_empty route.method || text_eq route.method method) ≡ true = elim right [
        | inl e ↦ ||-left (is_empty route.method) _ (ap is_empty e)
        | inr e ↦ ||-right (is_empty route.method) _ ((text_eq_iff route.method method).1 e)
      ] in
      rw (segments, named) refl

  takes-IsTaken :
      (method : Text) (tail : List Text) (route : Route H)
      → takes method tail route ≡ true
      → IsTaken method tail route
  takes-IsTaken method tail route h =
      let (segments, named) = &&-true (match_segments tail route.segments) _ h in
      (
        (match_segments_iff tail route.segments).0 segments,
        elim (||-true (is_empty route.method) _ named) [
          | inl e ↦ inl (is_empty→eq route.method e)
          | inr e ↦ inr (text_eq→eq route.method method e)
        ],
      )

  refused :
      (method : Text) (tail : List Text) (routes : List (Route H))
      → All (λ r. ¬ IsTaken method tail r) routes
      → All (λ r. takes method tail r ≡ false) routes
  refused method tail [] h = tt
  refused method tail (r ∷ routes) (no_route, h) = (
    elim (Bool-cases (takes method tail r)) [
      | inl e ↦ absurd (no_route (takes-IsTaken method tail r e))
      | inr e ↦ e
    ],
    refused method tail routes h,
  )

  -- A request that is not OPTIONS, and whose path has segments behind the prefix, goes to the first
  -- route whose pattern fits the segments behind the first and that has the request's method or none;
  -- no later route matters.
  pub serve_routes-first :
      (prefix method path id : Text) (tail : List Text) (before after : List (Route H))
      (route : Route H) (fallback : List (Text × H))
      → method ≢ text "OPTIONS"
      → path_parts path prefix ≡ id ∷ tail
      → All (λ r. ¬ IsTaken method tail r) before
      → IsTaken method tail route
      → serve_routes prefix method path (before ++ (route ∷ after)) fallback
        ≡ handled route.handler (id ∷ tail)
  unfolding serve_routes
  serve_routes-first prefix method path id tail before after route fallback not_options parts
        earlier taken =
      let segments : All IsSegment (id ∷ tail) =
        subst (All IsSegment) parts (path_parts-IsSegment path prefix) in
      let other : text_eq method (text "OPTIONS") ≡ false =
        elim (Bool-cases (text_eq method (text "OPTIONS"))) [
          | inl e ↦ absurd (not_options (text_eq→eq method (text "OPTIONS") e))
          | inr e ↦ e
        ] in
      rw
        (
          other,
          parts,
          segments.0.0,
          find_first (takes method tail) before after route (refused method tail before earlier)
              (takes_of_IsTaken method tail route taken),
        )
        refl
