-- ===== src/Utils/Format/Bounds.antt =====
-- The loop of `FormatBytes` of format.go, and the sizes for which it has no unit.
use native.Mathlib.Nat.{pow-suc, pow-le-pow_right, mul-le-mul_right}
use native.Mathlib.Decide.{dec_lt}
use calf.Common.{
  ℕ, zero, suc, ◌+◌, ◌*◌, ◌/◌, ◌^◌, ◌≤◌, ◌<◌, ◌≡◌, ◌≢◌, ◌↔◌, inl, inr, refl, sym, ap, ◌∙◌, false,
  Option, none, some, arith, Bool-cases, leb, leb→le, ltb→lt, ℤ, pos, negsuc, lt_int, true, List,
  [], ◌∷◌, All, Option-cases,
}
use calf.Strings.{Text, text}
use calf.Utils.Format.{
  unit, scale_from, scale, suffixes, suffix_at, Render, scaled, format_bytes, all_format,
}

-- The quotient that the loop holds is the size in units of `div`.
abbrev IsQuotient : ℕ → ℕ → ℕ → Type 0
IsQuotient size q div = (q * div ≤ size) × (size < (q + 1) * div) × (0 < q)

-- Dividing the quotient by the unit divides the size by a unit that is as much larger.
next_low : (size q div : ℕ) → q * div ≤ size → (q / unit) * (div * unit) ≤ size
next_low size q div h =
    let e : (q / unit) * unit ≤ q = omega arith in
    let m : (q / unit) * unit * div ≤ q * div = mul-le-mul_right div e in omega arith

next_high : (size q div : ℕ) → size < (q + 1) * div → size < (q / unit + 1) * (div * unit)
next_high size q div h =
    let e : q + 1 ≤ (q / unit + 1) * unit = omega arith in
    let m : (q + 1) * div ≤ (q / unit + 1) * unit * div = mul-le-mul_right div e in omega arith

next_power : (div exp : ℕ) → div ≡ unit ^ (exp + 1) → div * unit ≡ unit ^ (exp + 1 + 1)
next_power div exp h =
    let e : exp + 1 + 1 ≡ suc (exp + 1) = omega arith in
    ap (λ (t : ℕ). t * unit) h ∙ sym (pow-suc unit (exp + 1)) ∙ ap (λ (k : ℕ). unit ^ k) (sym e)

last_low : (size q div : ℕ) → IsQuotient size q div → div ≤ size
last_low size q div (lo, hi, p) = let m : 1 * div ≤ q * div = grind arith in omega arith

last_high : (size q div : ℕ) → leb unit q ≡ false → IsQuotient size q div → size < unit * div
last_high size q div e (lo, hi, p) =
    let f : q + 1 ≤ unit = ground arith in
    let m : (q + 1) * div ≤ unit * div = grind arith in omega arith

scale_from-lem :
    (fuel size q div exp : ℕ)
    → q ≤ fuel
    → IsQuotient size q div
    → div ≡ unit ^ (exp + 1)
    → let s = scale_from fuel q div exp in
      (s.0 ≡ unit ^ (s.1 + 1)) × (s.0 ≤ size) × (size < unit * s.0)
unfolding scale_from
scale_from-lem zero size q div exp enough quotient power = absurd (omega arith)
scale_from-lem (suc fuel) size q div exp enough quotient power = elim (Bool-cases (leb unit q)) [
  | inl e ↦
      let big = leb→le unit q e in
      rw e (
        scale_from-lem fuel size (q / unit) (div * unit) (exp + 1) (omega arith)
          (next_low size q div quotient.0, next_high size q div quotient.1, omega arith)
          (next_power div exp power))
  | inr e ↦ rw e (power, last_low size q div quotient, last_high size q div e quotient)
]

-- For a size of at least 1 KB the loop ends with the largest power of 1024 that is not above the
-- size, and `exp` is its exponent, less one.
pub scale_lem :
    (size : ℕ)
    → unit ≤ size
    → let s = scale size in (s.0 ≡ unit ^ (s.1 + 1)) × (s.0 ≤ size) × (size < unit * s.0)
unfolding scale
scale_lem size h =
    scale_from-lem (size / unit) size (size / unit) unit 0 (omega arith) (omega arith) (omega arith)

suffix_found : (i : ℕ) → (suffix_at suffixes i ≢ none) ↔ (i < 4)
suffix_found zero = (λ h. omega arith, λ h e. cc)
suffix_found (suc zero) = (λ h. omega arith, λ h e. cc)
suffix_found (suc (suc zero)) = (λ h. omega arith, λ h e. cc)
suffix_found (suc (suc (suc zero))) = (λ h. omega arith, λ h e. cc)
suffix_found (suc (suc (suc (suc i)))) = (λ h. absurd (h refl), λ h. absurd (omega arith))

exponent_bound :
    (size div exp : ℕ)
    → div ≡ unit ^ (exp + 1)
    → div ≤ size
    → size < unit * div
    → (exp < 4) ↔ (size < unit ^ 5)
exponent_bound size div exp e lo hi = (small, large)
  where
    small : exp < 4 → size < unit ^ 5
    small h =
        let m : unit ^ (exp + 1) ≤ unit ^ 4 =
          pow-le-pow_right (omega arith) {i = exp + 1} {j = 4} (omega arith) in
        omega arith

    large : size < unit ^ 5 → exp < 4
    large h = elim (dec_lt exp 4) [
      | yes p ↦ p
      | no p ↦
          let m : unit ^ 5 ≤ unit ^ (exp + 1) =
            pow-le-pow_right (omega arith) {i = 5} {j = exp + 1} (omega arith) in
          absurd (omega arith)
    ]

large_format :
    (r : Render) (size : ℕ)
    → unit ≤ size
    → format_bytes r (pos size) ≡ scaled r size (scale size) (suffix_at suffixes (scale size).1)
unfolding format_bytes
large_format r size h = ground arith

small_format : (r : Render) (size : ℕ) → size < unit → format_bytes r (pos size) ≢ none
unfolding format_bytes
small_format r size h = ground arith

scaled-none :
    (r : Render) (size : ℕ) (s : ℕ × ℕ) (o : Option Text) → (scaled r size s o ≢ none) ↔ (o ≢ none)
scaled-none r size s none = (λ h. h, λ h. h)
scaled-none r size s (some x) = (λ h e. cc, λ h e. cc)

-- `FormatBytes` returns exactly for the sizes below 1 PB; from there on it has no unit, and panics.
pub format_bytes-total_iff :
    (r : Render) (size : ℕ) → (format_bytes r (pos size) ≢ none) ↔ (size < unit ^ 5)
format_bytes-total_iff r size = elim (dec_lt size unit) [
  | yes h ↦ (λ _. omega arith, λ _. small_format r size h)
  | no h ↦
      let (power, lo, hi) = scale_lem size (omega arith) in
      let bound = exponent_bound size (scale size).0 (scale size).1 power lo hi in
      let found = suffix_found (scale size).1 in
      let shown = scaled-none r size (scale size) (suffix_at suffixes (scale size).1) in
      rw (large_format r size (omega arith))
        (λ k. bound.0 (found.0 (shown.0 k)), λ k. shown.1 (found.1 (bound.1 k)))
]

-- A size below 1 PB, or below 0.
abbrev pub IsShort : ℤ → Type 0
IsShort size = lt_int size (pos (unit ^ 5)) ≡ true

pub format_bytes_shown :
    (r : Render) (size : ℤ) → IsShort size → (t : Text) × (format_bytes r size ≡ some t)
unfolding format_bytes
format_bytes_shown r (negsuc n) h = (text "0 B", refl)
format_bytes_shown r (pos n) h = elim (Option-cases (format_bytes r (pos n))) [
  | inl e ↦ absurd ((format_bytes-total_iff r n).1 (ltb→lt n (unit ^ 5) h) e)
  | inr e ↦ e
]

pub all_format_of_All :
    (r : Render) (sizes : List ℤ) → All IsShort sizes → all_format r sizes ≡ true
unfolding all_format
all_format_of_All r [] h = refl
all_format_of_All r (size ∷ sizes) (p, h) =
    rw (format_bytes_shown r size p).1 (all_format_of_All r sizes h)
