-- ===== src/Config/Proxy/Domain.antt =====
-- What `isValidDomain` of validate_proxy.go accepts.
use calf.Common.{
  ℕ, ◌≤◌, ◌≡◌, ◌≢◌, ◌↔◌, refl, ◌⊎◌, true, false, ◌||◌, List, [], ◌∷◌, arith, length, all, All, ltb,
  &&-true, if◌then◌else◌,
}
use calf.Strings.{Text, is_empty, split}
use calf.Config.Proxy.{is_domain_rune, is_label_from, is_label, is_valid_domain}

-- A letter, a digit, a hyphen or an underscore.
abbrev pub IsDomainRune : ℕ → Type 0
IsDomainRune r =
    (b'a' ≤ r × r ≤ b'z') ⊎ (b'A' ≤ r × r ≤ b'Z') ⊎ (b'0' ≤ r × r ≤ b'9') ⊎ (r ≡ b'-') ⊎ (r ≡ b'_')

abbrev pub FirstIsNo : ℕ → Text → Type 0
FirstIsNo c [] = Unit
FirstIsNo c (r ∷ s) = r ≢ c

abbrev pub LastIsNo : ℕ → Text → Type 0
LastIsNo c [] = Unit
LastIsNo c (r ∷ []) = r ≢ c
LastIsNo c (r ∷ q ∷ s) = LastIsNo c (q ∷ s)

-- A label of a host name.
abbrev pub IsLabel : Text → Type 0
IsLabel s =
    (1 ≤ length s) × (length s ≤ 63) × All IsDomainRune s × FirstIsNo b'-' s × LastIsNo b'-' s

is_domain_rune_iff : (r : ℕ) → (is_domain_rune r ≡ true) ↔ IsDomainRune r
is_domain_rune_iff r = ground arith

tail_sound : (s : Text) → is_label_from false s ≡ true → All IsDomainRune s × LastIsNo b'-' s
unfolding is_label_from
tail_sound [] h = (tt, tt)
tail_sound (r ∷ []) h = ((ground arith, tt), ground arith)
tail_sound (r ∷ q ∷ s) h =
    let rest : is_label_from false (q ∷ s) ≡ true = ground arith in
    let (runes, last) = tail_sound (q ∷ s) rest in ((ground arith, runes), last)

tail_complete : (s : Text) → All IsDomainRune s → LastIsNo b'-' s → is_label_from false s ≡ true
unfolding is_label_from
tail_complete [] h k = refl
tail_complete (r ∷ []) (p, h) k = ground arith
tail_complete (r ∷ q ∷ s) (p, h) k = ground (arith, tail_complete (q ∷ s) h k)

is_label_sound : (s : Text) → is_label s ≡ true → IsLabel s
unfolding is_label is_label_from is_empty
is_label_sound [] h = absurd cc
is_label_sound (r ∷ []) h =
    (omega arith, ground arith, (ground arith, tt), ground arith, ground arith)
is_label_sound (r ∷ q ∷ s) h =
    let rest : is_label_from false (q ∷ s) ≡ true = ground arith in
    let (runes, last) = tail_sound (q ∷ s) rest in
    (omega arith, ground arith, (ground arith, runes), ground arith, last)

is_label_complete : (s : Text) → IsLabel s → is_label s ≡ true
unfolding is_label is_label_from is_empty
is_label_complete [] (some_rune, _, _, _, _) = absurd (omega arith)
is_label_complete (r ∷ []) (_, len, (p, _), first, last) = ground arith
is_label_complete (r ∷ q ∷ s) (_, len, (p, runes), first, last) =
    ground (arith, tail_complete (q ∷ s) runes last)

labels_sound : (hosts : List Text) → all is_label hosts ≡ true → All IsLabel hosts
labels_sound [] h = tt
labels_sound (s ∷ hosts) h =
    let (p, q) = &&-true (is_label s) (all is_label hosts) h in
    (is_label_sound s p, labels_sound hosts q)

labels_complete : (hosts : List Text) → All IsLabel hosts → all is_label hosts ≡ true
labels_complete [] h = refl
labels_complete (s ∷ hosts) (p, h) = rw (is_label_complete s p) (labels_complete hosts h)

domain_sound :
    (host : Text) (labels : List Text)
    → (if is_empty host || ltb 253 (length host) then false else all is_label labels) ≡ true
    → (1 ≤ length host) × (length host ≤ 253) × All IsLabel labels
unfolding is_empty
domain_sound [] labels h = absurd cc
domain_sound (c ∷ s) labels h =
    let rest : all is_label labels ≡ true = ground arith in
    (omega arith, ground arith, labels_sound labels rest)

domain_complete :
    (host : Text) (labels : List Text)
    → (1 ≤ length host) × (length host ≤ 253) × All IsLabel labels
    → (if is_empty host || ltb 253 (length host) then false else all is_label labels) ≡ true
unfolding is_empty
domain_complete [] labels (some_rune, _, _) = absurd (omega arith)
domain_complete (c ∷ s) labels (_, len, h) = ground (arith, labels_complete labels h)

-- The code accepts exactly the host names of 1 to 253 characters of which every label, between the
-- dots, has 1 to 63 letters, digits, hyphens and underscores, and no hyphen at either end.
pub is_valid_domain_iff :
    (host : Text)
    → (is_valid_domain host ≡ true)
      ↔ ((1 ≤ length host) × (length host ≤ 253) × All IsLabel (split b'.' host))
unfolding is_valid_domain
is_valid_domain_iff host =
    (domain_sound host (split b'.' host), domain_complete host (split b'.' host))
