-- ===== src/Strings/Laws.antt =====
-- Laws of the text functions that the components share.
use calf.Common.{ℕ, ◌≡◌, ◌≢◌, ◌↔◌, inl, inr, refl, true, false, [], ◌∷◌, arith, Bool-cases}
use calf.Strings.{Text, text_eq, text_lt, is_space, trim_left, trim_end, trim_right, trim_space}

pub text_eq_refl : (s : Text) → text_eq s s ≡ true
unfolding text_eq
text_eq_refl [] = refl
text_eq_refl (c ∷ s) = ground (arith, text_eq_refl s)

pub text_eq→eq : (s t : Text) → text_eq s t ≡ true → s ≡ t
unfolding text_eq
text_eq→eq [] [] h = refl
text_eq→eq [] (d ∷ t) h = cc
text_eq→eq (c ∷ s) [] h = cc
text_eq→eq (c ∷ s) (d ∷ t) h = ground (arith, text_eq→eq s t)

-- The test decides equality.
pub text_eq_iff : (s t : Text) → (text_eq s t ≡ true) ↔ (s ≡ t)
text_eq_iff s t = (text_eq→eq s t, λ e. rw e (text_eq_refl t))

pub text_eq-false→ne : (s t : Text) → text_eq s t ≡ false → s ≢ t
text_eq-false→ne s t h e = cc ((text_eq_iff s t).1 e)

pub text_lt_asym : (s t : Text) → text_lt s t ≡ true → text_lt t s ≡ false
unfolding text_lt
text_lt_asym [] [] h = refl
text_lt_asym [] (d ∷ t) h = refl
text_lt_asym (c ∷ s) [] h = cc
text_lt_asym (c ∷ s) (d ∷ t) h = ground (arith, text_lt_asym s t)

text_lt-nil : (s : Text) → text_lt s [] ≡ false
unfolding text_lt
text_lt-nil [] = refl
text_lt-nil (c ∷ s) = refl

pub text_lt_cotrans :
    (s t u : Text) → text_lt t s ≡ false → text_lt u t ≡ false → text_lt u s ≡ false
unfolding text_lt
text_lt_cotrans s [] [] h k = h
text_lt_cotrans [] [] (d ∷ u) h k = refl
text_lt_cotrans (c ∷ s) [] (d ∷ u) h k = cc
text_lt_cotrans [] (c ∷ t) u h k = text_lt-nil u
text_lt_cotrans (c ∷ s) (d ∷ t) [] h k = cc
text_lt_cotrans (c ∷ s) (d ∷ t) (e ∷ u) h k = ground (arith, text_lt_cotrans s t u)

-- A text that neither begins nor ends with white space.
abbrev pub NoSpaceFront : Text → Type 0
NoSpaceFront [] = Unit
NoSpaceFront (c ∷ s) = is_space c ≡ false

trim_left_of_NoSpaceFront : (s : Text) → NoSpaceFront s → trim_left s ≡ s
unfolding trim_left
trim_left_of_NoSpaceFront [] h = refl
trim_left_of_NoSpaceFront (c ∷ s) h = rw h

trim_left-NoSpaceFront : (s : Text) → NoSpaceFront (trim_left s)
unfolding trim_left
trim_left-NoSpaceFront [] = tt
trim_left-NoSpaceFront (c ∷ s) = elim (Bool-cases (is_space c)) [
  | inl e ↦ rw e (trim_left-NoSpaceFront s)
  | inr e ↦ rw e e
]

trim_end-NoSpaceFront : (c : ℕ) (s : Text) → is_space c ≡ false → NoSpaceFront (trim_end c s)
unfolding trim_end
trim_end-NoSpaceFront c [] h = rw h h
trim_end-NoSpaceFront c (d ∷ s) h = h

trim_right-NoSpaceFront : (s : Text) → NoSpaceFront s → NoSpaceFront (trim_right s)
unfolding trim_right
trim_right-NoSpaceFront [] h = tt
trim_right-NoSpaceFront (c ∷ s) h = trim_end-NoSpaceFront c (trim_right s) h

trim_end_idem : (c : ℕ) (s : Text) → trim_right s ≡ s → trim_right (trim_end c s) ≡ trim_end c s
unfolding trim_right
trim_end_idem c [] h = elim (Bool-cases (is_space c)) [ inl e ↦ rw e | inr e ↦ rw (e, e) ]
trim_end_idem c (d ∷ s) h = rw h

trim_right_idem : (s : Text) → trim_right (trim_right s) ≡ trim_right s
unfolding trim_right
trim_right_idem [] = refl
trim_right_idem (c ∷ s) = trim_end_idem c (trim_right s) (trim_right_idem s)

-- Trimming twice changes nothing.
pub trim_space_idem : (s : Text) → trim_space (trim_space s) ≡ trim_space s
unfolding trim_space
trim_space_idem s =
    rw (trim_left_of_NoSpaceFront _ (trim_right-NoSpaceFront _ (trim_left-NoSpaceFront s)))
      (trim_right_idem (trim_left s))
