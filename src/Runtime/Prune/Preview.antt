-- ===== src/Runtime/Prune/Preview.antt =====
-- backend/internal/runtime/prune.go: the preview of all categories, and `prune`. The engine is a
-- parameter: what it lists, and whether each of its commands fails.
use calf.Common.{
  Bool, not, ◌&&◌, Option, none, some, List, [], ◌∷◌, if◌then◌else◌, ℤ, pos, add_int64, lt_int,
  Result, ok, err, ◌>>=◌,
}
use calf.Strings.{Text, text, is_empty}
use calf.Utils.Format.{Render, format_bytes, all_format}
use calf.Utils.Size.{Floats}
use calf.Runtime.Types.{Container, Image, Volume, Network, DiskUsageRow}
use calf.Runtime.Sizes.{system_df_reclaimable, parse_system_df}
use calf.Runtime.Prune.{
  PruneCategoryPreview, category_from_items, stopped_container_prune_items,
  unused_image_prune_items, unused_volume_prune_items, unused_network_prune_items,
}

pub record PruneOptions : Type 0 where
  pub containers : Bool
  pub images : Bool
  pub volumes : Bool
  pub networks : Bool
  pub build_cache : Bool

pub record PrunePreview : Type 0 where
  pub containers : PruneCategoryPreview
  pub images : PruneCategoryPreview
  pub volumes : PruneCategoryPreview
  pub networks : PruneCategoryPreview
  pub build_cache : PruneCategoryPreview
  pub disk_usage : List DiskUsageRow
  pub total_reclaimable_bytes : ℤ
  pub total_reclaimable_size : Option Text

pub record PruneResult : Type 0 where
  pub containers : Bool
  pub images : Bool
  pub volumes : Bool
  pub networks : Bool
  pub build_cache : Bool
  pub reclaimed_bytes : ℤ
  pub reclaimed_size : Text

-- `ErrPruneCategoryRequired`, the panic of `FormatBytes`, which is no error of Go but ends the call as
-- well, and the errors that wrap one of the engine's.
pub data PruneError : Type 0 where
  category_required panicked : PruneError
  list_failed prune_failed : Text → Text → PruneError

pub data Command : Type 0 where
  container_prune network_prune image_prune volume_prune builder_prune buildx_prune : Command

-- What the engine answers: its listings, the outputs of `system df` (none is an error), and the
-- error of a command behind those that were run before.
pub record Engine : Type 0 where
  pub list_containers : Result Text (List Container)
  pub list_images : Result Text (List Image)
  pub list_volumes : Result Text (List Volume)
  pub enrich_volumes_in_use : List Volume → Result Text (List Volume)
  pub list_networks : Result Text (List Network)
  pub df_reclaimable : Option Text
  pub df_rows : Option Text
  pub run : List Command → Command → Option Text

abbrev pub wrap : {A : Type 0} → Text → Result Text A → Result PruneError A
wrap what (ok a) = ok a
wrap what (err cause) = err (list_failed what cause)

unfoldable pub no_category : PruneOptions → Bool
no_category opts =
    not opts.containers
    && not opts.images
    && not opts.volumes
    && not opts.networks
    && not opts.build_cache

abbrev pub df_usage : Floats → Option Text → List DiskUsageRow
df_usage floats none = []
df_usage floats (some output) = parse_system_df floats output

-- The sum of `TotalReclaimableBytes`.
unfoldable pub total_bytes : ℤ → ℤ → ℤ → ℤ → ℤ → ℤ
total_bytes containers images volumes networks cache =
    add_int64 (add_int64 (add_int64 (add_int64 containers images) volumes) networks) cache

module _ (r : Render) where
  abbrev pub empty_category : PruneCategoryPreview
  empty_category = record {
    items = [];
    reclaimable_bytes = pos 0;
    reclaimable_size = format_bytes r (pos 0);
  }

  -- The category of a build cache with bytes to reclaim.
  abbrev pub cache_category : ℤ → Text → PruneCategoryPreview
  cache_category bytes label = record {
    items =
        record {
          id = text "build-cache";
          name = text "Build cache";
          size = label;
          size_bytes = bytes;
        }
        ∷ [];
    reclaimable_bytes = bytes;
    reclaimable_size = format_bytes r bytes;
  }

  -- Where `FormatBytes` panics, the size of the category is none too, and `or_panic` ends the call.
  abbrev pub label_or_bytes : Text → Option Text → Text
  label_or_bytes label none = label
  label_or_bytes label (some bytes) = if is_empty label then bytes else label

  -- `buildCachePruneCategory`, from what `systemDfReclaimable` returns.
  unfoldable pub build_cache_prune_category : Option (ℤ × Text) → PruneCategoryPreview
  unfolding format_bytes
  build_cache_prune_category none = empty_category
  build_cache_prune_category (some (reclaimable, size_label)) =
      if not (lt_int (pos 0) reclaimable)
      then empty_category
      else cache_category reclaimable (label_or_bytes size_label (format_bytes r reclaimable))

  -- The preview of the five categories.
  abbrev pub preview_of :
      PruneCategoryPreview
      → PruneCategoryPreview
      → PruneCategoryPreview
      → PruneCategoryPreview
      → PruneCategoryPreview
      → List DiskUsageRow
      → PrunePreview
  preview_of containers images volumes networks build_cache usage =
      let total =
        total_bytes containers.reclaimable_bytes images.reclaimable_bytes volumes.reclaimable_bytes
          networks.reclaimable_bytes build_cache.reclaimable_bytes in
      record {
        containers = containers;
        images = images;
        volumes = volumes;
        networks = networks;
        build_cache = build_cache;
        disk_usage = usage;
        total_reclaimable_bytes = total;
        total_reclaimable_size = format_bytes r total;
      }

  -- The sizes that a preview formats.
  abbrev pub formatted_bytes : PrunePreview → List ℤ
  formatted_bytes p =
      p.containers.reclaimable_bytes ∷ p.images.reclaimable_bytes ∷ p.volumes.reclaimable_bytes
      ∷ p.networks.reclaimable_bytes ∷ p.build_cache.reclaimable_bytes ∷ p.total_reclaimable_bytes
      ∷ []

  unfoldable pub or_panic : PrunePreview → Result PruneError PrunePreview
  unfolding all_format
  or_panic p = if all_format r (formatted_bytes p) then ok p else err panicked

  -- `prunePreview`
  unfoldable pub prune_preview : Floats → Engine → Result PruneError PrunePreview
  unfolding total_bytes or_panic
  prune_preview floats e = wrap (text "containers") e.list_containers >>= λ containers.
      wrap (text "images") e.list_images >>= λ images.
      wrap (text "volumes") e.list_volumes >>= λ listed.
      wrap (text "volumes in use") (e.enrich_volumes_in_use listed) >>= λ volumes.
      wrap (text "networks") e.list_networks >>= λ networks. or_panic (
        preview_of (category_from_items r (stopped_container_prune_items containers))
          (category_from_items r (unused_image_prune_items floats containers images))
          (category_from_items r (unused_volume_prune_items floats volumes))
          (category_from_items r (unused_network_prune_items networks))
          (build_cache_prune_category
            (system_df_reclaimable floats e.df_reclaimable (text "Build Cache")))
          (df_usage floats e.df_rows))
