-- ===== src/Runtime/Mock/Pruned.antt =====
-- backend/internal/runtime/mock.go: what is left to prune behind `Prune`.
pub mod Images
pub mod Sections
use calf.Common.{
  ◌≡◌, ◌⊎◌, refl, sym, ap, ap₂, subst, ◌∙◌, Bool, true, false, not, ◌||◌, List, [], ◌∷◌, ◌++◌,
  if◌then◌else◌, any, keep, map, All, inl, inr, Bool-cases, ||-left, ||-right, ||-true, if-rule,
  Option, some, ok, Result, ℤ, pos, if-not-true,
}
use calf.Strings.{Text, text_eq, is_empty, trim_space}
use calf.Utils.Format.{Render, all_format}
use calf.Utils.Format.Bounds.{IsShort, all_format_of_All}
use calf.Utils.Size.{Floats}
use calf.Runtime.Types.{Container, Image, Volume, Network, Status}
use calf.Runtime.Prune.{
  PruneItem, image_matches_ref, image_keys, matched_keys, used_image_keys, is_used_key,
  image_is_used, image_candidates, image_items, short_image_id, unused_image_prune_items,
  unused_volume_prune_items, category_from_items, stopped_container_prune_items,
  unused_network_prune_items, container_kept_alive, is_default_network,
}
use calf.Runtime.Prune.Preview.{PruneOptions, PruneResult, PrunePreview, no_category}
use calf.Runtime.Prune.Unused.{
  Has, IsIdentified, Has-left, Has-right, Has-cases, image_keys-Has, image_is_used_of_Has,
}
use calf.Runtime.Mock.{Mock, MockError, is_running, runtime_state_running}
use calf.Runtime.Mock.Lists.{has_any}
use calf.Runtime.Mock.Prune.{
  mock_prune, mock_prune_preview, prune_sections, prune_containers, prune_images, prune_volumes,
  prune_networks, prune_cache, preview_running, preview_volume, cache_preview, pruned_result,
  preview_bytes, unless_panic,
}
use calf.Runtime.Mock.Pruned.Sections.{
  cache_left, networks_left, volumes_left, images_left, when_selected, stopped_cleared,
  images_cleared, volumes_cleared, networks_cleared, cache_cleared,
}

-- The stages of `Prune`, and what the last of them has of each.
module _ (floats : Floats) (r : Render) (opts : PruneOptions) (m : Mock) where
  abbrev stage_images : Mock × ℤ
  stage_images = prune_images floats opts.images (prune_containers floats opts.containers m, pos 0)

  abbrev stage_volumes : Mock × ℤ
  stage_volumes = prune_volumes floats opts.volumes stage_images

  abbrev stage_networks : Mock × ℤ
  stage_networks = prune_networks floats opts.networks stage_volumes

  abbrev last_stage : Mock
  last_stage = (prune_cache floats opts.build_cache stage_networks).0

  containers_of_last :
      last_stage.containers ≡ (prune_containers floats opts.containers m).containers
  containers_of_last =
      (cache_left floats opts.build_cache stage_networks).0.0
      ∙ ((networks_left floats opts.networks stage_volumes).0.0
          ∙ ((volumes_left floats opts.volumes stage_images).0.0
              ∙ (images_left floats opts.images
                  (prune_containers floats opts.containers m, pos 0)).0))

  images_of_last : last_stage.images ≡ stage_images.0.images
  images_of_last =
      (cache_left floats opts.build_cache stage_networks).1
      ∙ ((networks_left floats opts.networks stage_volumes).1
          ∙ (volumes_left floats opts.volumes stage_images).1)

  volumes_of_last : last_stage.volumes ≡ stage_volumes.0.volumes
  volumes_of_last =
      (cache_left floats opts.build_cache stage_networks).2
      ∙ (networks_left floats opts.networks stage_volumes).2

  containers_of_volumes : last_stage.containers ≡ stage_images.0.containers
  containers_of_volumes =
      (cache_left floats opts.build_cache stage_networks).0.0
      ∙ ((networks_left floats opts.networks stage_volumes).0.0
          ∙ (volumes_left floats opts.volumes stage_images).0.0)

  status_of_last :
      last_stage.status_value ≡ (prune_containers floats opts.containers m).status_value
  status_of_last =
      (cache_left floats opts.build_cache stage_networks).0.1
      ∙ ((networks_left floats opts.networks stage_volumes).0.1
          ∙ ((volumes_left floats opts.volumes stage_images).0.1
              ∙ (images_left floats opts.images
                  (prune_containers floats opts.containers m, pos 0)).1))

  stopped_of_last :
      opts.containers ≡ true → stopped_container_prune_items last_stage.containers ≡ []
  stopped_of_last e =
      ap stopped_container_prune_items containers_of_last
      ∙ stopped_cleared floats m opts.containers e

  unused_images_of_last :
      All IsIdentified (prune_containers floats opts.containers m).images
      → opts.images ≡ true
      → unused_image_prune_items floats last_stage.containers last_stage.images ≡ []
  unused_images_of_last identified e =
      ap₂ (unused_image_prune_items floats) containers_of_last images_of_last
      ∙ images_cleared floats opts.images (prune_containers floats opts.containers m, pos 0)
          identified e

  unused_volumes_of_last :
      opts.volumes ≡ true
      → unused_volume_prune_items floats
          (map (preview_volume (has_any last_stage.containers)) last_stage.volumes)
        ≡ []
  unused_volumes_of_last e =
      ap₂
        (λ (cs : List Container) (vs : List Volume).
          unused_volume_prune_items floats (map (preview_volume (has_any cs)) vs))
        containers_of_volumes volumes_of_last
      ∙ volumes_cleared floats opts.volumes stage_images e

  unused_networks_of_last :
      opts.networks ≡ true → unused_network_prune_items last_stage.networks ≡ []
  unused_networks_of_last e =
      ap unused_network_prune_items (cache_left floats opts.build_cache stage_networks).3
      ∙ networks_cleared floats opts.networks stage_volumes e

containers_left :
    (floats : Floats) (b : Bool) (m : Mock)
    → ((prune_containers floats b m).images ≡ m.images)
      × ((prune_containers floats b m).status_value ≡ m.status_value)
containers_left floats true m = (refl, refl)
containers_left floats false m = (refl, refl)

pruned_state : (r : Render) (opts : PruneOptions) (s : Mock × ℤ) → (pruned_result r opts s).0 ≡ s.0
unfolding pruned_result
pruned_state r opts (n, total) = refl

mock_prune_state :
    (floats : Floats) (r : Render) (opts : PruneOptions) (m : Mock)
    → is_running m ≡ true
    → no_category opts ≡ false
    → (mock_prune floats r opts m).0 ≡ last_stage floats r opts m
unfolding mock_prune prune_sections
mock_prune_state floats r opts m running chosen =
    ap (λ (x : Mock × Option (Result MockError PruneResult)). x.0)
      (if-not-true (is_running m) _ _ running)
    ∙ rw chosen (pruned_state r opts (prune_sections floats opts m))

-- Behind a prune of a mock that runs, with a category selected and an ID for every image, and where the
-- sizes that the preview formats are below 1 PB: the preview is there, and lists nothing in any of the
-- categories that were selected.
pub mock_prune-clears :
    (floats : Floats) (r : Render) (opts : PruneOptions) (m : Mock)
    → is_running m ≡ true
    → no_category opts ≡ false
    → All IsIdentified m.images
    → All IsShort (preview_bytes floats r (mock_prune floats r opts m).0)
    → (preview : PrunePreview) × (mock_prune_preview floats r (mock_prune floats r opts m).0
        ≡ some (ok preview))
      × ((if opts.containers then preview.containers.items else []) ≡ [])
      × ((if opts.images then preview.images.items else []) ≡ [])
      × ((if opts.volumes then preview.volumes.items else []) ≡ [])
      × ((if opts.networks then preview.networks.items else []) ≡ [])
      × ((if opts.build_cache then preview.build_cache.items else []) ≡ [])
unfolding category_from_items is_running mock_prune_preview unless_panic
mock_prune-clears floats r opts m running chosen identified short =
    let n = last_stage floats r opts m in
    let same = mock_prune_state floats r opts m running chosen in
    let status = status_of_last floats r opts m ∙ (containers_left floats opts.containers m).1 in
    let still : is_running n ≡ true =
      ap (λ (s : Status). text_eq s.state runtime_state_running) status ∙ running in
    let shown : all_format r (preview_bytes floats r n) ≡ true =
      all_format_of_All r (preview_bytes floats r n)
        (subst (λ x. All IsShort (preview_bytes floats r x)) same short) in
    let still_identified =
      subst (All IsIdentified) (sym (containers_left floats opts.containers m).0) identified in
    (
      preview_running floats r n,
      ap (mock_prune_preview floats r) same
          ∙ (if-not-true (is_running n) _ _ still ∙ rw shown refl),
      when_selected opts.containers _ (stopped_of_last floats r opts m),
      when_selected opts.images _ (unused_images_of_last floats r opts m still_identified),
      when_selected opts.volumes _ (unused_volumes_of_last floats r opts m),
      when_selected opts.networks _ (unused_networks_of_last floats r opts m),
      when_selected opts.build_cache _ (cache_cleared floats r opts.build_cache _),
    )
