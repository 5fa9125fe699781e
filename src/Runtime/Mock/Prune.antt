-- ===== src/Runtime/Mock/Prune.antt =====
-- backend/internal/runtime/mock.go: `PrunePreview`, `Prune` and `SystemDiskUsage` of the mock.
use calf.Common.{
  ◌+◌, ◌-◌, ◌/◌, Bool, not, Option, none, some, List, [], ◌∷◌, ◌++◌, if◌then◌else◌, ltb, keep, map,
  ℤ, pos, negsuc, lt_int, eq_int, add_int64, Result, ok, err,
}
use calf.Strings.{Text, text, is_empty}
use calf.Utils.Format.{Render, format_bytes, all_format}
use calf.Utils.Size.{Floats}
use calf.Runtime.Types.{Image, Volume, DiskUsageRow}
use calf.Runtime.Sizes.{parse_resource_size}
use calf.Runtime.Prune.{
  PruneCategoryPreview, category_from_items, stopped_container_prune_items,
  unused_image_prune_items, unused_volume_prune_items, unused_network_prune_items,
  container_kept_alive, is_default_network, image_is_used, used_image_keys,
}
use calf.Runtime.Prune.Preview.{
  PruneOptions, PruneResult, PrunePreview, no_category, empty_category, cache_category, preview_of,
  formatted_bytes,
}
use calf.Runtime.Mock.{Mock, MockError, runtime_not_running, prune_category_required, is_running}
use calf.Runtime.Mock.Lists.{has_any}

-- A size in words; where `FormatBytes` panics, the call is none, and this text is not seen.
abbrev pub or_text : Option Text → Text
or_text none = []
or_text (some s) = s

-- `/ 2` on an int64, which rounds to 0.
abbrev pub half_int : ℤ → ℤ
half_int (pos n) = pos (n / 2)
half_int (negsuc n) = if ltb n 1 then pos 0 else negsuc ((n + 1) / 2 - 1)

-- The volumes of the preview: in use with any container, and 88 bytes where no size is known.
abbrev pub preview_volume : Bool → Volume → Volume
preview_volume in_use volume = record volume {
  in_use = in_use;
  size = if is_empty volume.size then text "88 B" else volume.size;
}

-- The value, where `FormatBytes` returns for the sizes that were formatted on the way.
unfoldable pub unless_panic : {A : Type 0} → Render → List ℤ → A → Option (Result MockError A)
unfolding all_format
unless_panic r sizes value = if all_format r sizes then some (ok value) else none

module _ (floats : Floats) where
  -- The size of a volume, where one of no bytes counts 88.
  abbrev pub volume_size : Volume → ℤ
  volume_size volume =
      let size = parse_resource_size floats volume.size in
      if eq_int size (pos 0) then pos 88 else size

  abbrev pub sum_images : ℤ → List Image → ℤ
  sum_images total [] = total
  sum_images total (image ∷ images) =
      sum_images (add_int64 total (parse_resource_size floats image.size)) images

  abbrev pub sum_volumes : ℤ → List Volume → ℤ
  sum_volumes total [] = total
  sum_volumes total (volume ∷ volumes) = sum_volumes (add_int64 total (volume_size volume)) volumes

  module _ (r : Render) where
    abbrev pub usage_row : Text → ℤ → ℤ → DiskUsageRow
    usage_row type_name size reclaimable = record {
      type_name = type_name;
      size = or_text (format_bytes r size);
      size_bytes = size;
      reclaimable = or_text (format_bytes r reclaimable);
      reclaimable_bytes = reclaimable;
    }

    -- `systemDiskUsageLocked`
    unfoldable pub system_disk_usage_locked : Mock → List DiskUsageRow
    unfolding format_bytes parse_resource_size
    system_disk_usage_locked m =
        let image_bytes = sum_images (pos 0) m.images in
        let volume_bytes = sum_volumes (pos 0) m.volumes in
        usage_row (text "Images") image_bytes (half_int image_bytes)
        ∷ record {
          type_name = text "Containers";
          size = text "0 B";
          size_bytes = pos 0;
          reclaimable = text "0 B";
          reclaimable_bytes = pos 0;
        }
        ∷ usage_row (text "Local Volumes") volume_bytes volume_bytes
        ∷ usage_row (text "Build Cache") m.build_cache_bytes m.build_cache_bytes
        ∷ []

    -- The sizes that it formats.
    unfoldable pub usage_bytes : Mock → List ℤ
    unfolding parse_resource_size
    usage_bytes m =
        let image_bytes = sum_images (pos 0) m.images in
        let volume_bytes = sum_volumes (pos 0) m.volumes in
        image_bytes ∷ half_int image_bytes ∷ volume_bytes ∷ m.build_cache_bytes ∷ []

    -- `SystemDiskUsage`; a panic is none.
    unfoldable pub system_disk_usage : Mock → Option (Result MockError (List DiskUsageRow))
    unfolding system_disk_usage_locked usage_bytes is_running unless_panic
    system_disk_usage m =
        if not (is_running m)
        then some (err runtime_not_running)
        else unless_panic r (usage_bytes m) (system_disk_usage_locked m)

    abbrev pub cache_preview : ℤ → PruneCategoryPreview
    cache_preview bytes =
        if lt_int (pos 0) bytes
        then cache_category r bytes (or_text (format_bytes r bytes))
        else empty_category r

    abbrev pub preview_running : Mock → PrunePreview
    preview_running m =
        preview_of r (category_from_items r (stopped_container_prune_items m.containers))
          (category_from_items r (unused_image_prune_items floats m.containers m.images))
          (category_from_items r (
            unused_volume_prune_items floats
              (map (preview_volume (has_any m.containers)) m.volumes)))
          (category_from_items r (unused_network_prune_items m.networks))
          (cache_preview m.build_cache_bytes) (system_disk_usage_locked m)

    -- The sizes that the preview formats, with those of the disk usage.
    unfoldable pub preview_bytes : Mock → List ℤ
    unfolding usage_bytes
    preview_bytes m = formatted_bytes r (preview_running m) ++ usage_bytes m

    -- `PrunePreview`; a panic is none.
    unfoldable pub mock_prune_preview : Mock → Option (Result MockError PrunePreview)
    unfolding system_disk_usage_locked preview_bytes is_running unless_panic
    mock_prune_preview m =
        if not (is_running m)
        then some (err runtime_not_running)
        else unless_panic r (preview_bytes m) (preview_running m)

  -- The sections of `Prune`: each is the mock and the bytes behind it.
  abbrev pub prune_containers : Bool → Mock → Mock
  prune_containers selected m =
      if selected
      then record m {
        containers = keep (λ container. container_kept_alive container.state) m.containers;
      }
      else m

  abbrev pub sum_unused : List Text → ℤ → List Image → ℤ
  sum_unused used total [] = total
  sum_unused used total (image ∷ images) =
      if image_is_used image used
      then sum_unused used total images
      else sum_unused used (add_int64 total (parse_resource_size floats image.size)) images

  abbrev pub prune_images : Bool → Mock × ℤ → Mock × ℤ
  prune_images selected (m, total) =
      let used = used_image_keys m.containers m.images in
      if selected
      then (
        record m { images = keep (λ image. image_is_used image used) m.images },
        sum_unused used total m.images,
      )
      else (m, total)

  abbrev pub prune_volumes : Bool → Mock × ℤ → Mock × ℤ
  prune_volumes selected (m, total) =
      if selected
      then (if has_any m.containers
          then (m, total)
          else (record m { volumes = [] }, sum_volumes total m.volumes))
      else (m, total)

  abbrev pub prune_networks : Bool → Mock × ℤ → Mock × ℤ
  prune_networks selected (m, total) =
      if selected
      then (
        record m { networks = keep (λ network. is_default_network network.name) m.networks },
        total,
      )
      else (m, total)

  abbrev pub prune_cache : Bool → Mock × ℤ → Mock × ℤ
  prune_cache selected (m, total) =
      if selected
      then (record m { build_cache_bytes = pos 0 }, add_int64 total m.build_cache_bytes)
      else (m, total)

  unfoldable pub prune_sections : PruneOptions → Mock → Mock × ℤ
  unfolding parse_resource_size container_kept_alive is_default_network image_is_used
      used_image_keys
  prune_sections opts m = prune_cache opts.build_cache (
      prune_networks opts.networks (
        prune_volumes opts.volumes
          (prune_images opts.images (prune_containers opts.containers m, pos 0))))

abbrev pub result_with : PruneOptions → ℤ → Option Text → Option (Result MockError PruneResult)
result_with opts total none = none
result_with opts total (some size) = some (
    ok record {
      containers = opts.containers;
      images = opts.images;
      volumes = opts.volumes;
      networks = opts.networks;
      build_cache = opts.build_cache;
      reclaimed_bytes = total;
      reclaimed_size = size;
    })

unfoldable pub pruned_result :
    Render → PruneOptions → Mock × ℤ → Mock × Option (Result MockError PruneResult)
unfolding format_bytes
pruned_result r opts (m, total) = (m, result_with opts total (format_bytes r total))

-- `Prune`; a panic is none, and comes behind the changes.
unfoldable pub mock_prune :
    Floats → Render → PruneOptions → Mock → Mock × Option (Result MockError PruneResult)
unfolding prune_sections no_category is_running pruned_result
mock_prune floats r opts m =
    if not (is_running m)
    then (m, some (err runtime_not_running))
    else if no_category opts
    then (m, some (err prune_category_required))
    else pruned_result r opts (prune_sections floats opts m)
