-- ===== src/Runtime/Prune/Unused.antt =====
-- The images that prune.go counts as used, and those that it offers for removal.
use calf.Common.{
  ◌≡◌, ◌⊎◌, refl, sym, subst, true, false, not, List, [], ◌∷◌, ◌++◌, if◌then◌else◌, any, In, inl,
  inr, Bool-cases, ||-left, ||-right, ||-true, if-rule,
}
use calf.Strings.{Text, text_eq, is_empty, trim_space}
use calf.Strings.Laws.{text_eq_refl, text_eq→eq}
use calf.Utils.Size.{Floats}
use calf.Runtime.Types.{Container, Image}
use calf.Runtime.Prune.{
  PruneItem, image_matches_ref, image_keys, matched_keys, used_image_keys, is_used_key,
  image_is_used, image_reference, image_items, short_image_id, unused_image_prune_items,
}

-- The key is one of the set.
abbrev pub Has : List Text → Text → Type 0
Has keys k = any (text_eq k) keys ≡ true

-- An image has an ID, with no space around it.
abbrev pub IsIdentified : Image → Type 0
IsIdentified image = (trim_space image.id ≡ image.id) × (is_empty image.id ≡ false)

pub Has-left : (xs ys : List Text) (k : Text) → Has xs k → Has (xs ++ ys) k
Has-left [] ys k h = cc
Has-left (x ∷ xs) ys k h = elim (||-true (text_eq k x) _ h) [
  | inl e ↦ ||-left _ _ e
  | inr e ↦ ||-right (text_eq k x) _ (Has-left xs ys k e)
]

pub Has-right : (xs ys : List Text) (k : Text) → Has ys k → Has (xs ++ ys) k
Has-right [] ys k h = h
Has-right (x ∷ xs) ys k h = ||-right (text_eq k x) _ (Has-right xs ys k h)

pub Has-cases : (xs ys : List Text) (k : Text) → Has (xs ++ ys) k → Has xs k ⊎ Has ys k
Has-cases [] ys k h = inr h
Has-cases (x ∷ xs) ys k h = elim (||-true (text_eq k x) _ h) [
  | inl e ↦ inl (||-left _ _ e)
  | inr e ↦ elim (Has-cases xs ys k e) [ inl f ↦ inl (||-right (text_eq k x) _ f) | inr f ↦ inr f ]
]

-- The ID of an identified image is the first of its keys, and its first candidate.
pub image_keys-Has : (image : Image) → IsIdentified image → Has (image_keys image) image.id
image_keys-Has image (trimmed, full) =
    if-rule (λ keys. Has keys image.id) (not (is_empty image.id)) _ _
      (λ e. ||-left _ _ (text_eq_refl image.id)) (λ e. cc)

is_used_key_of_Has :
    (used : List Text) (k : Text)
    → trim_space k ≡ k
    → is_empty k ≡ false
    → Has used k
    → is_used_key used k ≡ true
is_used_key_of_Has used k trimmed full h = rw (trimmed, full) h

pub image_is_used_of_Has :
    (used : List Text) (image : Image)
    → IsIdentified image
    → Has used image.id
    → image_is_used image used ≡ true
unfolding image_is_used
image_is_used_of_Has used image (trimmed, full) h =
    ||-left _ _ (is_used_key_of_Has used image.id trimmed full h)

matched_keys-Has :
    (ref : Text) (images : List Image) (image : Image)
    → In image images
    → image_matches_ref image ref ≡ true
    → IsIdentified image
    → Has (matched_keys ref images) image.id
matched_keys-Has ref [] image h matches identified = elim h [ ]
matched_keys-Has ref (i ∷ images) image h matches identified =
    if-rule (λ keys. Has keys image.id) (image_matches_ref i ref) _ _
      (λ e. elim h [
        | inl same ↦
            Has-left (image_keys i) _ image.id
              (subst (λ j. Has (image_keys j) image.id) same (image_keys-Has image identified))
        | inr k ↦
            Has-right (image_keys i) _ image.id
              (matched_keys-Has ref images image k matches identified)
      ])
      (λ e. elim h [
        | inl same ↦ cc
        | inr k ↦ matched_keys-Has ref images image k matches identified
      ])

used_image_keys-Has :
    (containers : List Container) (images : List Image) (container : Container) (image : Image)
    → In container containers
    → In image images
    → is_empty (trim_space container.image) ≡ false
    → image_matches_ref image (trim_space container.image) ≡ true
    → IsIdentified image
    → Has (used_image_keys containers images) image.id
unfolding used_image_keys
used_image_keys-Has [] images container image h k full matches identified = elim h [ ]
used_image_keys-Has (c ∷ containers) images container image (inl same) k full matches identified =
    let full_c = subst (λ (x : Container). is_empty (trim_space x.image) ≡ false) same full in
    let matches_c =
      subst (λ (x : Container). image_matches_ref image (trim_space x.image) ≡ true) same matches in
    let ref = trim_space c.image in
    if-rule (λ keys. Has keys image.id) (is_empty ref) _ _ (λ e. cc)
      (λ e. Has-left (ref ∷ short_image_id ref ∷ matched_keys ref images) _ image.id (
        Has-right (ref ∷ short_image_id ref ∷ []) _ image.id
          (matched_keys-Has ref images image k matches_c identified)))
used_image_keys-Has (c ∷ containers) images container image (inr h) k full matches identified =
    let rest = used_image_keys-Has containers images container image h k full matches identified in
    let ref = trim_space c.image in
    if-rule (λ keys. Has keys image.id) (is_empty ref) _ _ (λ e. rest)
      (λ e. Has-right (ref ∷ short_image_id ref ∷ matched_keys ref images) _ image.id rest)

-- An image that is not used has another ID than one that is.
unused-other :
    (used : List Text) (i image : Image)
    → IsIdentified image
    → Has used image.id
    → image_is_used i used ≡ false
    → text_eq i.id image.id ≡ false
unused-other used i image (trimmed, full) h unused = elim (Bool-cases (text_eq i.id image.id)) [
  | inr e ↦ e
  | inl e ↦
      let same = sym (text_eq→eq i.id image.id e) in
      let identified : IsIdentified i = (
        subst (λ id. trim_space id ≡ id) same trimmed,
        subst (λ id. is_empty id ≡ false) same full,
      ) in
      let kept = image_is_used_of_Has used i identified (subst (Has used) same h) in cc
]

-- No item has the ID of an image whose ID is a used key.
image_items-Lacks :
    (floats : Floats) (used seen : List Text) (images : List Image) (image : Image)
    → IsIdentified image
    → Has used image.id
    → any (λ item. text_eq item.id image.id) (image_items floats used seen images) ≡ false
image_items-Lacks floats used seen [] image identified h = refl
image_items-Lacks floats used seen (i ∷ images) image identified h =
    let Lacks : List PruneItem → Type 0 =
      λ items. any (λ item. text_eq item.id image.id) items ≡ false in
    if-rule Lacks (any (text_eq _) seen) _ _
      (λ e. image_items-Lacks floats used seen images image identified h)
      (λ e.
        if-rule Lacks (image_is_used i used) _ _
          (λ f. image_items-Lacks floats used seen images image identified h)
          (λ f. rw (unused-other used i image identified h f) (
            image_items-Lacks floats used
              ((if is_empty i.id then image_reference i else i.id) ∷ seen) images image identified
              h)))

-- An image that a container refers to, by its trimmed reference, is not offered for removal, and no
-- other image of its ID is. The image has an ID with no space around it.
pub unused_image_prune_items-Lacks :
    (floats : Floats) (containers : List Container) (images : List Image) (container : Container)
    (image : Image)
    → In container containers
    → In image images
    → is_empty (trim_space container.image) ≡ false
    → image_matches_ref image (trim_space container.image) ≡ true
    → IsIdentified image
    → any (λ item. text_eq item.id image.id) (unused_image_prune_items floats containers images)
      ≡ false
unfolding unused_image_prune_items
unused_image_prune_items-Lacks floats containers images container image h k full matches
      identified =
    image_items-Lacks floats (used_image_keys containers images) [] images image identified
      (used_image_keys-Has containers images container image h k full matches identified)
