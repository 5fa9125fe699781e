-- ===== src/BuildHistory/Merge.antt =====
-- Which rows `MergeRows` of history.go imports.
use calf.Common.{
  ◌≡◌, refl, sym, subst, ◌⊎◌, inl, inr, true, false, List, [], ◌∷◌, any, All, Bool-cases, arith,
}
use calf.Strings.{Text, text_eq, is_empty}
use calf.Strings.Laws.{text_eq_refl}
use calf.BuildHistory.{Row, history_id, merge_rows}

-- The rows are new: each has an id, which is not one of `refs`, nor that of an earlier row.
abbrev pub AreNew : List Text → List Row → Type 0
AreNew refs [] = Unit
AreNew refs (row ∷ rows) =
    (is_empty (history_id row) ≡ false)
    × (any (text_eq (history_id row)) refs ≡ false)
    × AreNew (history_id row ∷ refs) rows

-- The row has no id, or its id is one of `refs`.
abbrev pub IsKnown : List Text → Row → Type 0
IsKnown refs row = (is_empty (history_id row) ≡ true) ⊎ (any (text_eq (history_id row)) refs ≡ true)

merge_rows-AreNew : (refs : List Text) (rows : List Row) → AreNew refs (merge_rows refs rows).0
unfolding merge_rows
merge_rows-AreNew refs [] = tt
merge_rows-AreNew refs (row ∷ rows) = elim (Bool-cases (is_empty (history_id row))) [
  | inl e ↦ rw e (merge_rows-AreNew refs rows)
  | inr e ↦ elim (Bool-cases (any (text_eq (history_id row)) refs)) [
    | inl f ↦ rw (e, f) (merge_rows-AreNew refs rows)
    | inr f ↦ rw (e, f) (e, f, merge_rows-AreNew (history_id row ∷ refs) rows)
  ]
]

-- The map only grows.
merge_rows-keeps :
    (refs : List Text) (rows : List Row) (id : Text)
    → any (text_eq id) refs ≡ true
    → any (text_eq id) (merge_rows refs rows).1 ≡ true
unfolding merge_rows
merge_rows-keeps refs [] id h = h
merge_rows-keeps refs (row ∷ rows) id h = elim (Bool-cases (is_empty (history_id row))) [
  | inl e ↦ rw e (merge_rows-keeps refs rows id h)
  | inr e ↦ elim (Bool-cases (any (text_eq (history_id row)) refs)) [
    | inl f ↦ rw (e, f) (merge_rows-keeps refs rows id h)
    | inr f ↦ rw (e, f) (merge_rows-keeps (history_id row ∷ refs) rows id (ground (arith, h)))
  ]
]

knows-subst :
    (row : Row) (rows : List Row) {refs more : List Text}
    → refs ≡ more
    → IsKnown more row × All (IsKnown more) rows
    → IsKnown refs row × All (IsKnown refs) rows
knows-subst row rows e h = subst (λ m. IsKnown m row × All (IsKnown m) rows) (sym e) h

own_known : (id : Text) (refs : List Text) → any (text_eq id) (id ∷ refs) ≡ true
own_known id refs = rw (text_eq_refl id) refl

merge_rows-knows :
    (refs : List Text) (rows : List Row) → All (IsKnown (merge_rows refs rows).1) rows
unfolding merge_rows
merge_rows-knows refs [] = tt
merge_rows-knows refs (row ∷ rows) = elim (Bool-cases (is_empty (history_id row))) [
  | inl e ↦
      let same : (merge_rows refs (row ∷ rows)).1 ≡ (merge_rows refs rows).1 = rw e refl in
      knows-subst row rows same (inl e, merge_rows-knows refs rows)
  | inr e ↦ elim (Bool-cases (any (text_eq (history_id row)) refs)) [
    | inl f ↦
        let same : (merge_rows refs (row ∷ rows)).1 ≡ (merge_rows refs rows).1 = rw (e, f) refl in
        knows-subst row rows same
          (inr (merge_rows-keeps refs rows (history_id row) f), merge_rows-knows refs rows)
    | inr f ↦
        let same : (merge_rows refs (row ∷ rows)).1 ≡ (merge_rows (history_id row ∷ refs) rows).1 =
          rw (e, f) refl in
        knows-subst row rows same (
          inr (
              merge_rows-keeps (history_id row ∷ refs) rows (history_id row)
                (own_known (history_id row) refs)),
          merge_rows-knows (history_id row ∷ refs) rows,
        )
  ]
]

merge_rows-none :
    (refs : List Text) (rows : List Row)
    → All (IsKnown refs) rows
    → merge_rows refs rows ≡ ([], refs)
unfolding merge_rows
merge_rows-none refs [] h = refl
merge_rows-none refs (row ∷ rows) (inl e, h) = rw e (merge_rows-none refs rows h)
merge_rows-none refs (row ∷ rows) (inr f, h) = elim (Bool-cases (is_empty (history_id row))) [
  | inl e ↦ rw e (merge_rows-none refs rows h)
  | inr e ↦ rw (e, f) (merge_rows-none refs rows h)
]

-- The rows that are imported have ids, all different and none of them known before; and an import of
-- the same rows with the map that the first one leaves imports nothing and leaves the map as it is.
pub merge_rows-once :
    (refs : List Text) (rows : List Row)
    → AreNew refs (merge_rows refs rows).0
      × (merge_rows (merge_rows refs rows).1 rows ≡ ([], (merge_rows refs rows).1))
merge_rows-once refs rows = (
  merge_rows-AreNew refs rows,
  merge_rows-none (merge_rows refs rows).1 rows (merge_rows-knows refs rows),
)
