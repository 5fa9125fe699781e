-- ===== src/Tests/Engine.antt =====
-- Examples of the engine: the prune of an engine and of the mock.
use calf.Common.{
  All, ◌≡◌, refl, true, false, none, some, [], ◌∷◌, ◌++◌, any, pos, ok, err, inl, add_int64, List,
  Option,
}
use calf.Strings.{
  Text, text, text_eq, is_empty, is_space, trim_space, trim_left, trim_right, trim_end, has_prefix,
  trim_prefix, skip, to_lower,
}
use calf.Utils.Format.{Render, format_bytes, all_format}
use calf.Utils.Format.Bounds.{IsShort}
use calf.Utils.Size.{Floats, parse_docker_human_size, trim_suffix}
use calf.Runtime.Types.{Container, Image}
use calf.Runtime.Sizes.{system_df_reclaimable, parse_resource_size}
use calf.Runtime.Prune.{
  PruneCategoryPreview, category_from_items, stopped_container_prune_items, container_kept_alive,
  unused_volume_prune_items, unused_network_prune_items, unused_image_prune_items, short_image_id,
  image_reference, image_matches_ref, is_default_network, image_is_used, used_image_keys,
}
use calf.Runtime.Prune.Run.{prune, prune_selected, prune_category, prune_build_cache, result_of}
use calf.Runtime.Prune.Preview.{
  PruneOptions, PrunePreview, PruneResult, Engine, Command, no_category, prune_preview,
  builder_prune, buildx_prune, container_prune, build_cache_prune_category, total_bytes, preview_of,
  empty_category, or_panic,
}
use calf.Runtime.Prune.Unused.{unused_image_prune_items-Lacks}
use calf.Runtime.Prune.Selected.{
  flags_of, selected_bytes, resource_commands, cache_commands, prune-ok,
}
use calf.Runtime.Prune.Runs.{prune-runs}
use calf.Runtime.Mock.{new_mock, is_running, clone_volume, volume_not_found, find_volume}
use calf.Runtime.CommandError.{strip_from, strip_ansi, format_command_error}
use calf.Runtime.CommandError.Message.{format_command_error-full}
use calf.Runtime.Mock.Prune.{
  mock_prune, mock_prune_preview, preview_bytes, usage_bytes, prune_sections, pruned_result,
}
use calf.Runtime.Mock.Pruned.{mock_prune-clears}
use calf.Runtime.Mock.Calls.{serve, to_clone_volume, serve_unchanged}

abbrev seven : Floats
seven = record { scaled_int64 = λ number mult. some (pos 7) }

abbrev plain : Render
plain = record { decimal = λ n. text "n"; tenths = λ n d. text "n.n" }

abbrev everything : PruneOptions
everything = record {
  containers = true;
  images = true;
  volumes = true;
  networks = true;
  build_cache = true;
}

everything-chosen : no_category everything ≡ false
unfolding no_category
everything-chosen = refl

new_mock-running : is_running new_mock ≡ true
unfolding is_running new_mock text_eq
new_mock-running = refl

pruned-IsShort :
    All IsShort (preview_bytes seven plain (mock_prune seven plain everything new_mock).0)
unfolding preview_bytes usage_bytes mock_prune prune_sections pruned_result new_mock is_running
    no_category category_from_items stopped_container_prune_items unused_image_prune_items
    unused_volume_prune_items unused_network_prune_items container_kept_alive is_default_network
    image_is_used used_image_keys parse_resource_size total_bytes text_eq trim_space trim_left
    trim_right trim_end is_space is_empty to_lower add_int64 image_matches_ref image_reference
    short_image_id trim_prefix has_prefix skip parse_docker_human_size trim_suffix
pruned-IsShort = (refl, (refl, (refl, (refl, (refl, (refl, (refl, (refl, (refl, (refl, tt))))))))))

mock_prune-clears_example :
    (preview : PrunePreview) × (mock_prune_preview seven plain
        (mock_prune seven plain everything new_mock).0
      ≡ some (ok preview))
    × (preview.containers.items ≡ [])
    × (preview.images.items ≡ [])
    × (preview.volumes.items ≡ [])
    × (preview.networks.items ≡ [])
    × (preview.build_cache.items ≡ [])
unfolding new_mock trim_space trim_left trim_right trim_end is_space is_empty
mock_prune-clears_example =
    mock_prune-clears seven plain everything new_mock new_mock-running everything-chosen
      ((refl, refl), tt) pruned-IsShort

missing :
    (serve seven plain (to_clone_volume (text "other") (text "copy")) new_mock).1
    ≡ some (err (volume_not_found (text "other")))
unfolding serve clone_volume find_volume new_mock text_eq
missing = refl

serve_unchanged_example :
    (serve seven plain (to_clone_volume (text "other") (text "copy")) new_mock).0 ≡ new_mock
serve_unchanged_example =
    serve_unchanged seven plain (to_clone_volume (text "other") (text "copy")) new_mock
      (volume_not_found (text "other")) missing

abbrev shell : Container
shell = record {
  id = text "c1";
  name = text "shell";
  image = text " alpine ";
  state = text "exited";
  status = [];
  ports = [];
  created = [];
  compose_project = [];
  compose_service = [];
}

abbrev alpine : Image
alpine = record {
  id = text "sha256:0123456789abcdef";
  repository = text "alpine";
  tag = text "latest";
  size = text "7B";
  created = [];
}

alpine-matches : image_matches_ref alpine (trim_space shell.image) ≡ true
unfolding image_matches_ref image_reference short_image_id trim_prefix has_prefix skip text_eq
    is_empty trim_space trim_left trim_right trim_end is_space
alpine-matches = refl

unused_image_prune_items-Lacks_example :
    any
      (λ item. text_eq item.id alpine.id)
      (unused_image_prune_items seven (shell ∷ []) (alpine ∷ []))
    ≡ false
unfolding trim_space trim_left trim_right trim_end is_space is_empty
unused_image_prune_items-Lacks_example =
    unused_image_prune_items-Lacks seven (shell ∷ []) (alpine ∷ []) shell alpine (inl refl)
      (inl refl) refl alpine-matches (refl, refl)

-- An engine with one stopped container, whose builder prune fails.
abbrev fails_builder : Command → Option Text
fails_builder Command.container_prune = none
fails_builder Command.network_prune = none
fails_builder Command.image_prune = none
fails_builder Command.volume_prune = none
fails_builder Command.builder_prune = some (text "unknown command")
fails_builder Command.buildx_prune = none

abbrev old_builder : Engine
old_builder = record {
  list_containers = ok (shell ∷ []);
  list_images = ok [];
  list_volumes = ok [];
  enrich_volumes_in_use = λ volumes. ok volumes;
  list_networks = ok [];
  df_reclaimable = none;
  df_rows = none;
  run = λ before command. fails_builder command;
}

abbrev two : PruneOptions
two = record {
  containers = true;
  images = false;
  volumes = false;
  networks = false;
  build_cache = true;
}

abbrev two_result : PruneResult
two_result = record {
  containers = true;
  images = false;
  volumes = false;
  networks = false;
  build_cache = true;
  reclaimed_bytes = pos 0;
  reclaimed_size = text "0 B";
}

two-ran :
    prune plain seven old_builder two
    ≡ ok ((container_prune ∷ builder_prune ∷ buildx_prune ∷ []), two_result)
unfolding prune no_category prune_preview prune_selected prune_category prune_build_cache
    system_df_reclaimable format_bytes category_from_items stopped_container_prune_items
    container_kept_alive build_cache_prune_category trim_space trim_left trim_right trim_end
    is_space text_eq to_lower total_bytes add_int64 or_panic all_format result_of
    unused_image_prune_items unused_volume_prune_items unused_network_prune_items
two-ran = refl

prune-ok_example :
    (preview : PrunePreview) × (prune_preview plain seven old_builder ≡ ok preview)
    × (no_category two ≡ false)
    × (flags_of two_result ≡ two)
    × (pos 0 ≡ selected_bytes two preview)
    × ((container_prune ∷ builder_prune ∷ buildx_prune ∷ [])
        ≡ resource_commands two ++ cache_commands old_builder true (resource_commands two))
prune-ok_example =
    prune-ok plain seven old_builder two (container_prune ∷ builder_prune ∷ buildx_prune ∷ [])
      two_result two-ran

-- An engine with nothing to list.
abbrev idle_engine : Engine
idle_engine = record {
  list_containers = ok [];
  list_images = ok [];
  list_volumes = ok [];
  enrich_volumes_in_use = λ volumes. ok volumes;
  list_networks = ok [];
  df_reclaimable = none;
  df_rows = none;
  run = λ before command. none;
}

abbrev nothing : PruneCategoryPreview
nothing = category_from_items plain []

idle-listed :
    prune_preview plain seven idle_engine
    ≡ ok (preview_of plain nothing nothing nothing nothing (empty_category plain) [])
unfolding prune_preview system_df_reclaimable stopped_container_prune_items unused_image_prune_items
    unused_volume_prune_items unused_network_prune_items build_cache_prune_category or_panic
    all_format format_bytes category_from_items add_int64
idle-listed = refl

prune-runs_example :
    (out : List Command × PruneResult) × (prune plain seven idle_engine everything ≡ ok out)
unfolding add_int64 category_from_items
prune-runs_example =
    prune-runs plain seven idle_engine everything
      (preview_of plain nothing nothing nothing nothing (empty_category plain) []) idle-listed
      everything-chosen (λ before command. refl) refl

abbrev failed_output : Text
failed_output = text "\nwaiting\n"

failed_output-full : is_empty (trim_space (strip_ansi failed_output)) ≡ false
unfolding is_empty trim_space trim_left trim_right trim_end is_space strip_ansi strip_from
failed_output-full = refl

format_command_error-full_example : is_empty (format_command_error failed_output) ≡ false
format_command_error-full_example = format_command_error-full failed_output failed_output-full
