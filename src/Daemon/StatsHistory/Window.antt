-- ===== src/Daemon/StatsHistory/Window.antt =====
-- The samples that stats_history.go keeps.
use calf.Common.{
  Bool, not, keep, ||-false, ℕ, ◌≤◌, ◌≡◌, refl, ◌⊎◌, inl, inr, true, false, ◌||◌, List, [], ◌∷◌,
  any, find, Bool-cases,
}
use calf.Strings.{Text, text_eq, is_empty, trim_space, has_prefix}
use calf.Daemon.StatsHistory.{
  forget, StatsSample, StatsHistory, container_id_match, samples_at, has_key, key_or_empty,
  resolve_key_locked, samples,
}

-- The samples are in the order of their times, and every two of them are no further apart than the
-- window.
abbrev pub InOrder : ℕ → List StatsSample → Type 0
InOrder low [] = Unit
InOrder low (s ∷ ss) = (low ≤ s.t) × InOrder s.t ss

-- The three facts about an id that no key matches.
abbrev Unknown : List (Text × List StatsSample) → Text → Type 0
Unknown entries id =
    (has_key entries id ≡ false)
    × (key_or_empty (find (λ entry. container_id_match entry.0 id) entries) ≡ [])
    × (samples_at entries id ≡ [])

match-false→ne : (k id : Text) → container_id_match k id ≡ false → text_eq k id ≡ false
unfolding container_id_match
match-false→ne k id h =
    (||-false (text_eq k id) (has_prefix k id)
      (||-false (text_eq k id || has_prefix k id) (has_prefix id k) h).0).0

no_match :
    (entries : List (Text × List StatsSample)) (id : Text)
    → any (λ entry. container_id_match entry.0 id) entries ≡ false
    → Unknown entries id
unfolding has_key samples_at
no_match [] id h = (refl, refl, refl)
no_match ((k, old) ∷ entries) id h =
    let (e, rest) = ||-false (container_id_match k id) _ h in
    let ne = match-false→ne k id e in
    let (a, b, c) = no_match entries id rest in (rw (ne, a) refl, rw e b, rw ne c)

-- The id is a key of the history, or it matches none: the order of the map does not matter.
abbrev pub Settled : StatsHistory → Text → Type 0
Settled h id =
    (has_key h.by_id id ≡ true) ⊎ (any (λ entry. container_id_match entry.0 id) h.by_id ≡ false)

any-keep-not {ℓ} :
    {A : Type ℓ} (p : A → Bool) (xs : List A) → any p (keep (λ x. not (p x)) xs) ≡ false
any-keep-not p [] = refl
any-keep-not p (x ∷ xs) = elim (Bool-cases (p x)) [
  | inl e ↦ rw e (any-keep-not p xs)
  | inr e ↦ rw (e, e) (any-keep-not p xs)
]

-- Behind a `Forget` of an id that is not blank there are no samples for this id, neither its own nor
-- those of an id that is a prefix of it or that it is a prefix of.
pub samples-forget :
    (h : StatsHistory) (raw_id : Text)
    → is_empty (trim_space raw_id) ≡ false
    → samples (forget h raw_id) raw_id ≡ []
unfolding forget samples resolve_key_locked is_empty
samples-forget h raw_id some_id =
    let id = trim_space raw_id in
    let kept = keep (λ entry. not (container_id_match entry.0 id)) h.by_id in
    let (a, b, c) =
      no_match kept id (any-keep-not (λ entry. container_id_match entry.0 id) h.by_id) in
    rw (some_id, a, b) refl
