-- ===== src/Runtime/Prune/Run.antt =====
-- backend/internal/runtime/prune.go: `prune`, with the commands that it runs.
use calf.Common.{
  Bool, true, false, Option, none, some, List, [], ◌∷◌, ◌++◌, if◌then◌else◌, ℤ, pos, add_int64,
  Result, ok, err, ◌>>=◌,
}
use calf.Strings.{Text, text}
use calf.Utils.Format.{Render, format_bytes}
use calf.Utils.Size.{Floats}
use calf.Runtime.Prune.{PruneCategoryPreview}
use calf.Runtime.Prune.Preview.{
  PruneOptions, PrunePreview, PruneResult, PruneError, Command, Engine, no_category, prune_preview,
  category_required, panicked, prune_failed, container_prune, network_prune, image_prune,
  volume_prune, builder_prune, buildx_prune,
}

-- How far `prune` has come: the commands that were run, the result's flags, and the sum.
pub record Progress : Type 0 where
  pub commands : List Command
  pub done : PruneOptions
  pub reclaimed : ℤ

abbrev pub none_done : PruneOptions
none_done = record {
  containers = false;
  images = false;
  volumes = false;
  networks = false;
  build_cache = false;
}

abbrev pub count : PruneCategoryPreview → Progress → Progress
count category p = record p { reclaimed = add_int64 p.reclaimed category.reclaimable_bytes }

abbrev pub issue : Command → Progress → Progress
issue c p = record p { commands = p.commands ++ (c ∷ []) }

-- The error comes with the commands that were run.
abbrev pub finish_command :
    {A : Type 0} → Option Text → Text → List Command → A → Result (List Command × PruneError) A
finish_command none what commands value = ok value
finish_command (some cause) what commands value = err (commands, prune_failed what cause)

-- `pruneBuildCache`: builder prune, and buildx prune where that fails; the error is the first.
abbrev pub behind_fallback :
    Option Text → Text → Progress → Result (List Command × PruneError) Progress
behind_fallback none cause p = ok p
behind_fallback (some other) cause p = err (p.commands, prune_failed (text "build cache") cause)

abbrev pub cache_fallback :
    Engine → Option Text → Progress → Result (List Command × PruneError) Progress
cache_fallback e none p = ok p
cache_fallback e (some cause) p =
    behind_fallback (e.run p.commands buildx_prune) cause (issue buildx_prune p)

unfoldable pub prune_build_cache : Engine → Progress → Result (List Command × PruneError) Progress
prune_build_cache e p = cache_fallback e (e.run p.commands builder_prune) (issue builder_prune p)

-- One of the first four categories: its command, its flag, and its bytes.
unfoldable pub prune_category :
    Engine
    → Bool
    → Command
    → Text
    → (PruneOptions → PruneOptions)
    → PruneCategoryPreview
    → Progress
    → Result (List Command × PruneError) Progress
prune_category e selected command what mark category p =
    let q = issue command p in
    if selected
    then finish_command (e.run p.commands command) what q.commands
        (count category (record q { done = mark q.done }))
    else ok p

abbrev pub mark_containers : PruneOptions → PruneOptions
mark_containers done = record done { containers = true }

abbrev pub mark_networks : PruneOptions → PruneOptions
mark_networks done = record done { networks = true }

abbrev pub mark_images : PruneOptions → PruneOptions
mark_images done = record done { images = true }

abbrev pub mark_volumes : PruneOptions → PruneOptions
mark_volumes done = record done { volumes = true }

abbrev pub mark_build_cache : PruneOptions → PruneOptions
mark_build_cache done = record done { build_cache = true }

abbrev pub prune_cache_category :
    Engine → Bool → PruneCategoryPreview → Progress → Result (List Command × PruneError) Progress
prune_cache_category e selected category p =
    if selected
    then (prune_build_cache e p >>= λ q.
        ok (count category (record q { done = mark_build_cache q.done })))
    else ok p

unfoldable pub prune_selected :
    Engine → PruneOptions → PrunePreview → Result (List Command × PruneError) Progress
unfolding prune_category prune_build_cache
prune_selected e opts preview =
    prune_category e opts.containers container_prune (text "containers") mark_containers
      preview.containers (record { commands = []; done = none_done; reclaimed = pos 0 })
    >>= prune_category e opts.networks network_prune (text "networks") mark_networks
        preview.networks
    >>= prune_category e opts.images image_prune (text "images") mark_images preview.images
    >>= prune_category e opts.volumes volume_prune (text "volumes") mark_volumes preview.volumes
    >>= prune_cache_category e opts.build_cache preview.build_cache

-- The result, where `FormatBytes` returns for the sum.
abbrev pub result_with :
    Progress → Option Text → Result (List Command × PruneError) (List Command × PruneResult)
result_with p none = err (p.commands, panicked)
result_with p (some size) = ok (
  p.commands,
  record {
    containers = p.done.containers;
    images = p.done.images;
    volumes = p.done.volumes;
    networks = p.done.networks;
    build_cache = p.done.build_cache;
    reclaimed_bytes = p.reclaimed;
    reclaimed_size = size;
  },
)

unfoldable pub result_of :
    Render → Progress → Result (List Command × PruneError) (List Command × PruneResult)
unfolding format_bytes
result_of r p = result_with p (format_bytes r p.reclaimed)

abbrev pub behind_preview :
    Render
    → Engine
    → PruneOptions
    → Result PruneError PrunePreview
    → Result (List Command × PruneError) (List Command × PruneResult)
behind_preview r e opts (err fault) = err ([], fault)
behind_preview r e opts (ok preview) = prune_selected e opts preview >>= result_of r

-- `prune`, with the commands that it has run.
unfoldable pub prune :
    Render
    → Floats
    → Engine
    → PruneOptions
    → Result (List Command × PruneError) (List Command × PruneResult)
unfolding no_category prune_selected prune_preview
prune r floats e opts =
    if no_category opts
    then err ([], category_required)
    else behind_preview r e opts (prune_preview r floats e)
