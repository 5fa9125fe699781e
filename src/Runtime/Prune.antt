-- ===== src/Runtime/Prune.antt =====
-- backend/internal/runtime/prune.go: what the prune commands would remove, with the engine's listings as
-- parameters.
pub mod Preview
pub mod Run
pub mod Unused
pub mod Selected
pub mod Runs
use calf.Common.{
  ℕ, Bool, true, false, not, ◌&&◌, ◌||◌, Option, List, [], ◌∷◌, ◌++◌, ltb, if◌then◌else◌, any, take,
  length, keep, ℤ, pos, add_int64,
}
use calf.Strings.{Text, text, text_eq, is_empty, trim_space, to_lower, has_prefix, trim_prefix}
use calf.Utils.Format.{Render, format_bytes}
use calf.Utils.Size.{Floats}
use calf.Runtime.Types.{Container, Image, Volume, Network}
use calf.Runtime.Sizes.{parse_resource_size}

pub record PruneItem : Type 0 where
  pub id : Text
  pub name : Text
  pub size : Text
  pub size_bytes : ℤ

-- The size is none where `FormatBytes` panics, and with it the call that asks for the category.
pub record PruneCategoryPreview : Type 0 where
  pub items : List PruneItem
  pub reclaimable_bytes : ℤ
  pub reclaimable_size : Option Text

-- `containerKeptAlive`
unfoldable pub container_kept_alive : Text → Bool
container_kept_alive state =
    any (text_eq (to_lower (trim_space state)))
      (text "running" ∷ text "restarting" ∷ text "paused" ∷ text "removing" ∷ [])

-- `isDefaultNetwork`
unfoldable pub is_default_network : Text → Bool
is_default_network name =
    any (text_eq (to_lower (trim_space name))) (text "bridge" ∷ text "host" ∷ text "none" ∷ [])

-- `shortImageID`; an id is ASCII, so that a character is a byte.
unfoldable pub short_image_id : Text → Text
short_image_id raw =
    let id = trim_prefix (trim_space raw) (text "sha256:") in
    if ltb 12 (length id) then take 12 id else id

abbrev pub is_unnamed : Text → Bool
is_unnamed s = is_empty s || text_eq s (text "<none>")

-- `imageReference`
unfoldable pub image_reference : Image → Text
image_reference image =
    let repo = trim_space image.repository in
    let tag = trim_space image.tag in
    if is_unnamed repo then [] else if is_unnamed tag then repo else repo ++ text ":" ++ tag

-- `imageMatchesRef`
unfoldable pub image_matches_ref : Image → Text → Bool
image_matches_ref image raw =
    let ref = trim_space raw in
    if is_empty ref
    then false
    else if text_eq image.id ref || text_eq (short_image_id image.id) (short_image_id ref)
    then true
    else if text_eq (image_reference image) ref
    then true
    else if not (is_empty image.repository)
        && (text_eq image.repository ref || text_eq (image.repository ++ text ":latest") ref)
    then true
    else has_prefix image.id ref || has_prefix ref (short_image_id image.id)

-- `usedImageKeys`: the keys of the map.
abbrev pub image_keys : Image → List Text
image_keys image =
    let reference = image_reference image ∷ [] in
    if not (is_empty image.id) then image.id ∷ short_image_id image.id ∷ reference else reference

abbrev pub matched_keys : Text → List Image → List Text
matched_keys ref [] = []
matched_keys ref (image ∷ images) =
    let rest = matched_keys ref images in
    if image_matches_ref image ref then image_keys image ++ rest else rest

unfoldable pub used_image_keys : List Container → List Image → List Text
used_image_keys [] images = []
used_image_keys (container ∷ containers) images =
    let ref = trim_space container.image in
    let rest = used_image_keys containers images in
    if is_empty ref then rest else (ref ∷ short_image_id ref ∷ matched_keys ref images) ++ rest

abbrev pub image_candidates : Image → List Text
image_candidates image =
    let tagged =
      if not (is_unnamed image.tag) then (image.repository ++ text ":" ++ image.tag) ∷ [] else [] in
    let named = if not (is_unnamed image.repository) then image.repository ∷ tagged else [] in
    image.id ∷ short_image_id image.id ∷ image_reference image ∷ named

abbrev pub is_used_key : List Text → Text → Bool
is_used_key used raw =
    let candidate = trim_space raw in
    if is_empty candidate then false else any (text_eq candidate) used

-- `imageIsUsed`
unfoldable pub image_is_used : Image → List Text → Bool
image_is_used image used = any (is_used_key used) (image_candidates image)

abbrev pub or_name : Text → Text → Text
or_name name id = if is_empty name then id else name

abbrev pub container_item : Container → PruneItem
container_item container = record {
  id = container.id;
  name = or_name (trim_space container.name) container.id;
  size = [];
  size_bytes = pos 0;
}

unfoldable pub stopped_container_prune_items : List Container → List PruneItem
stopped_container_prune_items [] = []
stopped_container_prune_items (container ∷ containers) =
    let rest = stopped_container_prune_items containers in
    if container_kept_alive container.state then rest else container_item container ∷ rest

abbrev pub network_item : Network → PruneItem
network_item network = record {
  id = network.id;
  name = network.name;
  size = [];
  size_bytes = pos 0;
}

unfoldable pub unused_network_prune_items : List Network → List PruneItem
unused_network_prune_items [] = []
unused_network_prune_items (network ∷ networks) =
    let rest = unused_network_prune_items networks in
    if is_default_network network.name then rest else network_item network ∷ rest

module _ (floats : Floats) where
  abbrev pub image_name : Image → Text
  image_name image =
      let name = image_reference image in
      if is_empty name || text_eq name (text ":") then image.id else name

  abbrev pub image_item : Image → PruneItem
  image_item image = record {
    id = image.id;
    name = image_name image;
    size = image.size;
    size_bytes = parse_resource_size floats image.size;
  }

  -- The loop of `unusedImagePruneItems`; `seen` holds the keys of its map.
  abbrev pub image_items : List Text → List Text → List Image → List PruneItem
  image_items used seen [] = []
  image_items used seen (image ∷ images) =
      let key = if is_empty image.id then image_reference image else image.id in
      let passed = image_items used seen images in
      let listed = image_items used (key ∷ seen) images in
      if any (text_eq key) seen
      then passed
      else if image_is_used image used
      then passed
      else image_item image ∷ listed

  unfoldable pub unused_image_prune_items : List Container → List Image → List PruneItem
  unfolding used_image_keys image_is_used
  unused_image_prune_items containers images =
      image_items (used_image_keys containers images) [] images

  abbrev pub volume_item : Volume → PruneItem
  volume_item volume = record {
    id = volume.name;
    name = volume.name;
    size = volume.size;
    size_bytes = parse_resource_size floats volume.size;
  }

  unfoldable pub unused_volume_prune_items : List Volume → List PruneItem
  unused_volume_prune_items [] = []
  unused_volume_prune_items (volume ∷ volumes) =
      let rest = unused_volume_prune_items volumes in
      if volume.in_use then rest else volume_item volume ∷ rest

-- The loop of `categoryFromItems`.
abbrev pub sum_items : ℤ → List PruneItem → ℤ
sum_items total [] = total
sum_items total (item ∷ items) = sum_items (add_int64 total item.size_bytes) items

unfoldable pub category_from_items : Render → List PruneItem → PruneCategoryPreview
unfolding format_bytes
category_from_items r items =
    let total = sum_items (pos 0) items in
    record { items = items; reclaimable_bytes = total; reclaimable_size = format_bytes r total }
