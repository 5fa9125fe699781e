-- ===== src/Runtime/Mock/Pruned/Images.antt =====
-- backend/internal/runtime/mock.go: the images that `Prune` keeps are all used by what is left.
use calf.Common.{
  ◌≡◌, refl, Bool, true, false, List, [], ◌∷◌, ◌++◌, if◌then◌else◌, any, keep, All, inl, inr,
  Bool-cases, ||-left, ||-right, ||-true, if-rule,
}
use calf.Strings.{Text, text_eq, is_empty, trim_space}
use calf.Utils.Size.{Floats}
use calf.Runtime.Types.{Container, Image}
use calf.Runtime.Prune.{
  PruneItem, image_matches_ref, image_keys, matched_keys, used_image_keys, is_used_key,
  image_is_used, image_candidates, image_items, short_image_id, unused_image_prune_items,
}
use calf.Runtime.Prune.Unused.{
  Has, IsIdentified, Has-left, Has-right, Has-cases, image_keys-Has, image_is_used_of_Has,
}

-- The images: the keys of those that are kept are all the keys.
abbrev Within : List Text → List Text → Type 0
Within xs ys = (k : Text) → Has xs k → Has ys k

Within-parts : (xs ys zs : List Text) → Within xs zs → Within ys zs → Within (xs ++ ys) zs
Within-parts xs ys zs f g k h = elim (Has-cases xs ys k h) [ inl e ↦ f k e | inr e ↦ g k e ]

is_used_key-Within :
    (xs ys : List Text) (k : Text)
    → Within xs ys
    → is_used_key xs k ≡ true
    → is_used_key ys k ≡ true
is_used_key-Within xs ys k f h = elim (Bool-cases (is_empty (trim_space k))) [
  | inl e ↦ rw e (rw e at h)
  | inr e ↦ rw e (f (trim_space k) (rw e at h))
]

any-Within :
    (xs ys : List Text) (ks : List Text)
    → Within xs ys
    → any (is_used_key xs) ks ≡ true
    → any (is_used_key ys) ks ≡ true
any-Within xs ys [] f h = cc
any-Within xs ys (k ∷ ks) f h = elim (||-true (is_used_key xs k) _ h) [
  | inl e ↦ ||-left _ _ (is_used_key-Within xs ys k f e)
  | inr e ↦ ||-right (is_used_key ys k) _ (any-Within xs ys ks f e)
]

tail-Within :
    (b : Bool) (xs ys zs : List Text) → Within (if b then xs ++ ys else ys) zs → Within ys zs
tail-Within true xs ys zs f k h = f k (Has-right xs ys k h)
tail-Within false xs ys zs f k h = f k h

head-Has :
    (b : Bool) (xs ys : List Text) (k : Text)
    → b ≡ true
    → Has xs k
    → Has (if b then xs ++ ys else ys) k
head-Has true xs ys k e h = Has-left xs ys k h
head-Has false xs ys k e h = cc

rest-Within :
    (b : Bool) (xs ys zs : List Text) → Within (if b then ys else xs ++ ys) zs → Within ys zs
rest-Within true xs ys zs f k h = f k h
rest-Within false xs ys zs f k h = f k (Has-right xs ys k h)

middle-Within :
    (b : Bool) (ws xs ys zs : List Text)
    → b ≡ false
    → Within (if b then ys else (ws ++ xs) ++ ys) zs
    → Within xs zs
middle-Within true ws xs ys zs e f k h = cc
middle-Within false ws xs ys zs e f k h = f k (Has-left (ws ++ xs) ys k (Has-right ws xs k h))

append-Within_both :
    (xs xs' ys ys' : List Text) → Within xs xs' → Within ys ys' → Within (xs ++ ys) (xs' ++ ys')
append-Within_both xs xs' ys ys' f g k h = elim (Has-cases xs ys k h) [
  | inl e ↦ Has-left xs' ys' k (f k e)
  | inr e ↦ Has-right xs' ys' k (g k e)
]

-- More behind a common part.
append-Within : (xs ys zs : List Text) → Within ys zs → Within (xs ++ ys) (xs ++ zs)
append-Within xs ys zs f k h = elim (Has-cases xs ys k h) [
  | inl e ↦ Has-left xs zs k e
  | inr e ↦ Has-right xs zs k (f k e)
]

if-Within :
    (b : Bool) (xs xs' ys ys' : List Text)
    → (b ≡ true → Within xs ys)
    → (b ≡ false → Within xs' ys')
    → Within (if b then xs else xs') (if b then ys else ys')
if-Within true xs xs' ys ys' f g = f refl
if-Within false xs xs' ys ys' f g = g refl

matched_keys-kept :
    (used : List Text) (ref : Text) (images : List Image)
    → All IsIdentified images
    → Within (matched_keys ref images) used
    → Within
        (matched_keys ref images)
        (matched_keys ref (keep (λ image. image_is_used image used) images))
matched_keys-kept used ref [] identified within = λ k h. h
matched_keys-kept used ref (i ∷ images) (id, identified) within =
    let all_kept = keep (λ image. image_is_used image used) images in
    let rest =
      matched_keys-kept used ref images identified
        (tail-Within (image_matches_ref i ref) (image_keys i) _ used within) in
    let Target : List Image → Type 0 =
      λ kept. Within (matched_keys ref (i ∷ images)) (matched_keys ref kept) in
    if-rule Target (image_is_used i used) (i ∷ all_kept) all_kept
      (λ e.
        if-Within (image_matches_ref i ref) _ _ _ _ (λ f. append-Within (image_keys i) _ _ rest)
          (λ f. rest))
      (λ e. elim (Bool-cases (image_matches_ref i ref)) [
        | inl f ↦
            let own =
              within i.id (
                head-Has (image_matches_ref i ref) (image_keys i) _ i.id f (image_keys-Has i id)) in
            let used_too = image_is_used_of_Has used i id own in cc
        | inr f ↦ rw f rest
      ])

used_image_keys-kept :
    (used : List Text) (containers : List Container) (images : List Image)
    → All IsIdentified images
    → Within (used_image_keys containers images) used
    → Within
        (used_image_keys containers images)
        (used_image_keys containers (keep (λ image. image_is_used image used) images))
unfolding used_image_keys
used_image_keys-kept used [] images identified within = λ k h. h
used_image_keys-kept used (c ∷ containers) images identified within =
    let ref = trim_space c.image in
    let named = ref ∷ short_image_id ref ∷ [] in
    let kept = keep (λ image. image_is_used image used) images in
    let rest =
      used_image_keys-kept used containers images identified
        (rest-Within (is_empty ref) (named ++ matched_keys ref images) _ used within) in
    if-Within (is_empty ref) _ _ _ _ (λ e. rest)
      (λ e.
        append-Within_both (named ++ matched_keys ref images) (named ++ matched_keys ref kept) _ _
          (append-Within named _ _ (
            matched_keys-kept used ref images identified
              (middle-Within (is_empty ref) named (matched_keys ref images) _ used e within)))
          rest)

image_items-All_used :
    (floats : Floats) (used seen : List Text) (images : List Image)
    → All (λ image. image_is_used image used ≡ true) images
    → image_items floats used seen images ≡ []
image_items-All_used floats used seen [] h = refl
image_items-All_used floats used seen (i ∷ images) (e, h) =
    let IsNone : List PruneItem → Type 0 = λ items. items ≡ [] in
    if-rule IsNone (any (text_eq _) seen) _ _ (λ f. image_items-All_used floats used seen images h)
      (λ f. rw e (image_items-All_used floats used seen images h))

keep-All_used :
    (used more : List Text) (images : List Image)
    → Within used more
    → All
        (λ image. image_is_used image more ≡ true)
        (keep (λ image. image_is_used image used) images)
unfolding image_is_used
keep-All_used used more [] f = tt
keep-All_used used more (i ∷ images) f =
    let AllUsed : List Image → Type 0 = All (λ image. image_is_used image more ≡ true) in
    if-rule AllUsed (image_is_used i used) _ _
      (λ e. (any-Within used more (image_candidates i) f e, keep-All_used used more images f))
      (λ e. keep-All_used used more images f)

pub unused_image_prune_items_kept :
    (floats : Floats) (containers : List Container) (images : List Image)
    → All IsIdentified images
    → unused_image_prune_items floats containers
        (keep (λ image. image_is_used image (used_image_keys containers images)) images)
      ≡ []
unfolding unused_image_prune_items
unused_image_prune_items_kept floats containers images identified =
    let used = used_image_keys containers images in
    let kept = keep (λ image. image_is_used image used) images in
    image_items-All_used floats (used_image_keys containers kept) [] kept (
      keep-All_used used _ images
        (used_image_keys-kept used containers images identified (λ k h. h)))
