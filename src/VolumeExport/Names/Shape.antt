-- ===== src/VolumeExport/Names/Shape.antt =====
-- What every expanded name of name_pattern.go looks like.
use calf.Common.{
  ℕ, ◌<◌, ◌≤◌, ltb, ltb→lt, ltb-false→le, if-rule, ◌≡◌, refl, ◌⊎◌, inl, inr, Bool, true, false,
  ◌||◌, [], ◌∷◌, arith, All, if◌then◌else◌,
}
use calf.Strings.{Text, text_eq, trim_space, lower_rune, lower_rune_by, to_lower_by}
use calf.Utils.Sanitize.{IsFileRune, sanitize_export_file_name-IsFileRune}
use calf.VolumeExport.Schedule.{Schedule, local_file, local_image, new_image, registry}
use calf.VolumeExport.Names.{
  CivilTime, expand_export_name_pattern, expand_export_image_ref_pattern,
  resolve_scheduled_export_names,
}

-- An expanded file name names a file in the destination folder: it holds no separator of path
-- components, whatever the pattern, the volume and the time.
pub expand_export_name_pattern-IsFileRune :
    (lower : ℕ → ℕ) (pattern volume : Text) (t : CivilTime)
    → All IsFileRune (expand_export_name_pattern lower pattern volume t)
unfolding expand_export_name_pattern
expand_export_name_pattern-IsFileRune lower pattern volume t =
    sanitize_export_file_name-IsFileRune _

-- No capital letter: `lower` is `unicode.ToLower` behind the ASCII characters.
abbrev pub IsLower : (ℕ → ℕ) → ℕ → Type 0
IsLower lower c = ((c < b'A') ⊎ (b'Z' < c)) × (128 ≤ c → lower c ≡ c)

-- What Go lowers is lower.
pub record IsLowering (lower : ℕ → ℕ) : Type 0 where
  pub lowered : (c : ℕ) → 128 ≤ c → IsLower lower (lower c)

lower_rune-small : (c : ℕ) → c < 128 → lower_rune c < 128
unfolding lower_rune
lower_rune-small c h = ground arith

lower_rune-no_capital : (c : ℕ) → (lower_rune c < b'A') ⊎ (b'Z' < lower_rune c)
unfolding lower_rune
lower_rune-no_capital c = ground arith

ascii-IsLower : (lower : ℕ → ℕ) (c : ℕ) → c < 128 → IsLower lower (lower_rune c)
ascii-IsLower lower c h =
    (lower_rune-no_capital c, λ k. absurd (omega (arith, lower_rune-small c h, k)))

module _ (lower : ℕ → ℕ) (laws : IsLowering lower) where
  lower_rune_by-IsLower : (c : ℕ) → IsLower lower (lower_rune_by lower c)
  unfolding lower_rune_by
  lower_rune_by-IsLower c =
      if-rule (IsLower lower) (ltb c 128) (lower_rune c) (lower c)
        (λ h. ascii-IsLower lower c (ltb→lt c 128 h)) (λ h. laws.lowered c (ltb-false→le c 128 h))

  pub to_lower_by-IsLower : (s : Text) → All (IsLower lower) (to_lower_by lower s)
  unfolding to_lower_by
  to_lower_by-IsLower [] = tt
  to_lower_by-IsLower (c ∷ s) = (lower_rune_by-IsLower c, to_lower_by-IsLower s)

  -- An expanded image reference has no capital letter, as registries require.
  pub expand_export_image_ref_pattern-IsLower :
      (pattern volume : Text) (t : CivilTime)
      → All (IsLower lower) (expand_export_image_ref_pattern lower pattern volume t)
  unfolding expand_export_image_ref_pattern
  expand_export_image_ref_pattern-IsLower pattern volume t = to_lower_by-IsLower _

-- The names of an export that is given a local image (`tagged`) or not.
abbrev pub IsNames : (ℕ → ℕ) → Bool → Text × Text → Type 0
IsNames lower tagged names =
    All IsFileRune names.0
    × ((names.0 ≡ []) ⊎ (names.1 ≡ []))
    × (tagged ≡ false → All (IsLower lower) names.1)

IsNames-by_type :
    (lower : ℕ → ℕ) (file tagged image : Bool) (f given ref : Text)
    → All IsFileRune f
    → All (IsLower lower) ref
    → IsNames lower tagged (
        if file
        then (f, [])
        else if tagged
        then ([], given)
        else if image
        then ([], ref)
        else ([], []))
IsNames-by_type lower true tagged image f given ref p q = (p, inr refl, λ _. tt)
IsNames-by_type lower false true image f given ref p q = (tt, inl refl, λ h. cc)
IsNames-by_type lower false false true f given ref p q = (tt, inl refl, λ _. q)
IsNames-by_type lower false false false f given ref p q = (tt, inl refl, λ _. tt)

-- Where `unicode.ToLower` gives characters that it keeps and that are no ASCII capitals: a scheduled
-- export has at most one of the two names. Its file name never holds a separator of path components,
-- and its image reference holds no ASCII capital and no other character that `ToLower` changes, unless
-- the type is a local image, whose reference is used as it stands.
pub resolve_scheduled_export_names_shape :
    (lower : ℕ → ℕ) (s : Schedule) (t : CivilTime)
    → IsLowering lower
    → IsNames lower
        (text_eq (trim_space s.type) local_image)
        (resolve_scheduled_export_names lower s t)
unfolding resolve_scheduled_export_names
resolve_scheduled_export_names_shape lower s t laws =
    IsNames-by_type lower (text_eq (trim_space s.type) local_file)
      (text_eq (trim_space s.type) local_image)
      (text_eq (trim_space s.type) new_image || text_eq (trim_space s.type) registry) _ s.image_ref
      _ (expand_export_name_pattern-IsFileRune lower _ s.volume t)
      (expand_export_image_ref_pattern-IsLower lower laws _ s.volume t)
