-- ===== src/Common/Sort.antt =====
-- Sorting by a Boolean `less`, as Go's `sort.Slice` is given one. Insertion from the right end is
-- stable; Go's own sort leaves the order of equal elements open, so no theorem rests on it.
use Prim.Native.Nat.{suc}
use mathlib.Core.Path.{◌≡◌, refl, ap, ◌∙◌}
use mathlib.Core.Logic.{◌↔◌, ◌⊎◌, inl, inr}
use mathlib.Core.Bool.{Bool, true, false}
use mathlib.Core.List.{List, [], ◌∷◌}
use native.Mathlib.Omega.{arith}
use calf.Common.Tests.{if◌then◌else◌, Bool-cases}
use calf.Common.Lists.{All, All-map, All-In, All-of_In, In, length}

module _ {ℓ} {A : Type ℓ} where
  unfoldable pub sort_insert : (A → A → Bool) → A → List A → List A
  sort_insert less x [] = x ∷ []
  sort_insert less x (y ∷ ys) = if less y x then y ∷ sort_insert less x ys else x ∷ y ∷ ys

  unfoldable pub sort_slice : (A → A → Bool) → List A → List A
  unfolding sort_insert
  sort_slice less [] = []
  sort_slice less (x ∷ xs) = sort_insert less x (sort_slice less xs)

module _ {ℓ} {A : Type ℓ} where
  -- Nothing later in the list is less than an element.
  abbrev pub IsSorted : (A → A → Bool) → List A → Type 0
  IsSorted less [] = Unit
  IsSorted less (x ∷ xs) = All (λ y. less y x ≡ false) xs × IsSorted less xs

  module _ {κ} (P : A → Type κ) (less : A → A → Bool) where
    pub All-sort_insert : (x : A) (ys : List A) → P x → All P ys → All P (sort_insert less x ys)
    unfolding sort_insert
    All-sort_insert x [] p h = (p, tt)
    All-sort_insert x (y ∷ ys) p (q, h) = elim (Bool-cases (less y x)) [
      | inl e ↦ rw e (q, All-sort_insert x ys p h)
      | inr e ↦ rw e (p, (q, h))
    ]

    pub All-sort_slice : (xs : List A) → All P xs → All P (sort_slice less xs)
    unfolding sort_slice
    All-sort_slice [] h = tt
    All-sort_slice (x ∷ xs) (p, h) = All-sort_insert x (sort_slice less xs) p (All-sort_slice xs h)

  length-sort_insert :
      (less : A → A → Bool) (x : A) (ys : List A) → length (sort_insert less x ys) ≡ suc (length ys)
  unfolding sort_insert
  length-sort_insert less x [] = refl
  length-sort_insert less x (y ∷ ys) = ground (arith, length-sort_insert less x ys)

  pub length-sort_slice :
      (less : A → A → Bool) (xs : List A) → length (sort_slice less xs) ≡ length xs
  unfolding sort_slice
  length-sort_slice less [] = refl
  length-sort_slice less (x ∷ xs) =
      omega (arith, length-sort_insert less x (sort_slice less xs), length-sort_slice less xs)

  sort_insert_first :
      (less : A → A → Bool) (x : A) (ys : List A)
      → All (λ y. less y x ≡ false) ys
      → sort_insert less x ys ≡ x ∷ ys
  unfolding sort_insert
  sort_insert_first less x [] h = refl
  sort_insert_first less x (y ∷ ys) (p, h) = rw p

  -- A sorted list is left as it is.
  pub sort_slice_of_IsSorted :
      (less : A → A → Bool) (xs : List A) → IsSorted less xs → sort_slice less xs ≡ xs
  unfolding sort_slice
  sort_slice_of_IsSorted less [] h = refl
  sort_slice_of_IsSorted less (x ∷ xs) (p, h) =
      ap (sort_insert less x) (sort_slice_of_IsSorted less xs h) ∙ sort_insert_first less x xs p

  module _ (less : A → A → Bool) (asym : (x y : A) → less x y ≡ true → less y x ≡ false)
      (cotrans : (x y z : A) → less y x ≡ false → less z y ≡ false → less z x ≡ false) where
    sort_insert-IsSorted :
        (x : A) (ys : List A) → IsSorted less ys → IsSorted less (sort_insert less x ys)
    unfolding sort_insert
    sort_insert-IsSorted x [] h = (tt, tt)
    sort_insert-IsSorted x (y ∷ ys) (low, h) = elim (Bool-cases (less y x)) [
      | inl e ↦ rw e (
        All-sort_insert (λ z. less z y ≡ false) less x ys (asym y x e) low,
        sort_insert-IsSorted x ys h,
      )
      | inr e ↦ rw e ((e, All-map _ _ (λ z k. cotrans x y z e k) ys low), (low, h))
    ]

    pub sort_slice-IsSorted : (xs : List A) → IsSorted less (sort_slice less xs)
    unfolding sort_slice
    sort_slice-IsSorted [] = tt
    sort_slice-IsSorted (x ∷ xs) =
        sort_insert-IsSorted x (sort_slice less xs) (sort_slice-IsSorted xs)

module _ {A : Type 0} (less : A → A → Bool) where
  In-sort_insert : (a x : A) (ys : List A) → In a (sort_insert less x ys) → (a ≡ x) ⊎ In a ys
  unfolding sort_insert
  In-sort_insert a x [] h = h
  In-sort_insert a x (y ∷ ys) h = ground (arith, In-sort_insert a x ys)

  sort_insert-In : (a x : A) (ys : List A) → (a ≡ x) ⊎ In a ys → In a (sort_insert less x ys)
  unfolding sort_insert
  sort_insert-In a x [] h = h
  sort_insert-In a x (y ∷ ys) h = ground (arith, sort_insert-In a x ys)

  -- Sorting keeps exactly the elements.
  pub In-sort_slice : (a : A) (xs : List A) → In a (sort_slice less xs) ↔ In a xs
  unfolding sort_slice
  In-sort_slice a [] = (λ h. h, λ h. h)
  In-sort_slice a (x ∷ xs) = (
    λ h. elim (In-sort_insert a x (sort_slice less xs) h) [
      | inl e ↦ inl e
      | inr k ↦ inr ((In-sort_slice a xs).0 k)
    ],
    λ h.
        sort_insert-In a x (sort_slice less xs)
          (elim h [ inl e ↦ inl e | inr k ↦ inr ((In-sort_slice a xs).1 k) ]),
  )

  pub All-of_sort_slice {κ} : (P : A → Type κ) (xs : List A) → All P (sort_slice less xs) → All P xs
  All-of_sort_slice P xs h =
      All-of_In P xs (λ a k. All-In P (sort_slice less xs) h a ((In-sort_slice a xs).1 k))
