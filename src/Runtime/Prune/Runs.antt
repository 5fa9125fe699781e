-- ===== src/Runtime/Prune/Runs.antt =====
-- backend/internal/runtime/prune.go: `prune` has a result where the engine fails at nothing.

use calf.Common.{
  ◌≡◌, refl, sym, ap, subst, ◌∙◌, Bool, true, false, Option, none, some, List, Result, ok, err,
  ◌>>=◌,
}
use calf.Strings.{Text}
use calf.Utils.Format.{Render, format_bytes}
use calf.Utils.Format.Bounds.{IsShort, format_bytes_shown}
use calf.Utils.Size.{Floats}
use calf.Runtime.Prune.{PruneCategoryPreview}
use calf.Runtime.Prune.Run.{
  Progress, finish_command, cache_fallback, prune_build_cache, prune_category, mark_containers,
  mark_networks, mark_images, mark_volumes, prune_cache_category, prune_selected, result_with,
  result_of, behind_preview, prune,
}
use calf.Runtime.Prune.Selected.{selected_bytes, prune_selected-ok}
use calf.Runtime.Prune.Preview.{
  PruneOptions, PrunePreview, PruneResult, PruneError, Command, container_prune, network_prune,
  image_prune, volume_prune, builder_prune, Engine, no_category, prune_preview,
}

-- Where no command fails, each step is there.
bind-runs :
    {E A B : Type 0} (first : Result E A) (next : A → Result E B)
    → ((a : A) × (first ≡ ok a))
    → ((a : A) → (b : B) × (next a ≡ ok b))
    → (b : B) × ((first >>= next) ≡ ok b)
bind-runs (ok a) next h k = k a
bind-runs (err fault) next (a, h) k = cc

finish_command-runs :
    {A : Type 0} (o : Option Text) (what : Text) (commands : List Command) (value : A)
    → o ≡ none
    → (b : A) × (finish_command o what commands value ≡ ok b)
finish_command-runs none what commands value h = (value, refl)
finish_command-runs (some cause) what commands value h = cc

prune_category-runs :
    (e : Engine)
    → ((before : List Command) (command : Command) → e.run before command ≡ none)
    → (selected : Bool) (command : Command) (what : Text) (mark : PruneOptions → PruneOptions)
      (category : PruneCategoryPreview) (p : Progress)
    → (q : Progress) × (prune_category e selected command what mark category p ≡ ok q)
unfolding prune_category
prune_category-runs e runs true command what mark category p =
    finish_command-runs (e.run p.commands command) what _ _ (runs p.commands command)
prune_category-runs e runs false command what mark category p = (p, refl)

cache_fallback-runs :
    (e : Engine) (o : Option Text) (p : Progress)
    → o ≡ none
    → (q : Progress) × (cache_fallback e o p ≡ ok q)
cache_fallback-runs e none p h = (p, refl)
cache_fallback-runs e (some cause) p h = cc

prune_cache_category-runs :
    (e : Engine)
    → ((before : List Command) (command : Command) → e.run before command ≡ none)
    → (selected : Bool) (category : PruneCategoryPreview) (p : Progress)
    → (q : Progress) × (prune_cache_category e selected category p ≡ ok q)
unfolding prune_build_cache
prune_cache_category-runs e runs true category p =
    bind-runs (prune_build_cache e p) _
      (cache_fallback-runs e (e.run p.commands builder_prune) _ (runs p.commands builder_prune))
      (λ q. (_, refl))
prune_cache_category-runs e runs false category p = (p, refl)

result_with-runs :
    (p : Progress) (o : Option Text)
    → ((t : Text) × (o ≡ some t))
    → (out : List Command × PruneResult) × (result_with p o ≡ ok out)
result_with-runs p none (t, h) = cc
result_with-runs p (some size) h = (_, refl)

-- The five sections.
prune_selected-runs :
    (e : Engine)
    → ((before : List Command) (command : Command) → e.run before command ≡ none)
    → (opts : PruneOptions) (preview : PrunePreview)
    → (q : Progress) × (prune_selected e opts preview ≡ ok q)
unfolding prune_selected
prune_selected-runs e runs opts preview =
    let category = prune_category-runs e runs in
    bind-runs _ _
      (bind-runs _ _
        (bind-runs _ _
          (bind-runs _ _
            (category opts.containers container_prune _ mark_containers preview.containers _)
            (category opts.networks network_prune _ mark_networks preview.networks))
          (category opts.images image_prune _ mark_images preview.images))
        (category opts.volumes volume_prune _ mark_volumes preview.volumes))
      (prune_cache_category-runs e runs opts.build_cache preview.build_cache)

-- Where the engine lists what the preview asks for and the preview is there, no command fails, a
-- category is selected, and the bytes of the selected categories in the preview are below 1 PB,
-- `prune` has a result.
pub prune-runs :
    (r : Render) (floats : Floats) (e : Engine) (opts : PruneOptions) (preview : PrunePreview)
    → prune_preview r floats e ≡ ok preview
    → no_category opts ≡ false
    → ((before : List Command) (command : Command) → e.run before command ≡ none)
    → IsShort (selected_bytes opts preview)
    → (out : List Command × PruneResult) × (prune r floats e opts ≡ ok out)
unfolding prune result_of
prune-runs r floats e opts preview listed chosen runs short =
    let (q, selected) = prune_selected-runs e runs opts preview in
    let (_, _, reclaimed) = prune_selected-ok e opts preview q selected in
    let (out, h) =
      result_with-runs q (format_bytes r q.reclaimed)
        (format_bytes_shown r q.reclaimed (subst IsShort (sym reclaimed) short)) in
    let whole : behind_preview r e opts (prune_preview r floats e) ≡ ok out =
      ap (behind_preview r e opts) listed
      ∙ ap (λ (x : Result (List Command × PruneError) Progress). x >>= result_of r) selected
      ∙ h in
    (out, rw chosen whole)
