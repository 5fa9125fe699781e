-- ===== src/Runtime/Prune/Selected.antt =====
-- backend/internal/runtime/prune.go: what `prune` runs and reports.
use mathlib.Core.List.{append-nil}
use calf.Common.{
  ◌≡◌, refl, sym, ap, ◌∙◌, Bool, true, false, Option, none, some, List, [], ◌∷◌, ◌++◌,
  if◌then◌else◌, ℤ, pos, add_int64, ok, ◌>>=◌, ok_inj, >>=-eq-ok, Bool-cases, inl, inr,
  Result-cases,
}
use calf.Strings.{Text}
use calf.Utils.Format.{Render}
use calf.Utils.Size.{Floats}
use calf.Runtime.Prune.{PruneCategoryPreview}
use calf.Runtime.Prune.Run.{
  Progress, none_done, issue, finish_command, behind_fallback, cache_fallback, prune_build_cache,
  prune_category, mark_containers, mark_networks, mark_images, mark_volumes, mark_build_cache,
  prune_cache_category, prune_selected, result_with, result_of, prune,
}
use calf.Runtime.Prune.Preview.{
  PruneOptions, PrunePreview, PruneResult, Command, container_prune, network_prune, image_prune,
  volume_prune, builder_prune, buildx_prune, Engine, no_category, prune_preview,
}

-- The sum of the bytes of the categories that are selected.
abbrev pub add_if : Bool → PruneCategoryPreview → ℤ → ℤ
add_if selected category total =
    if selected then add_int64 total category.reclaimable_bytes else total

abbrev pub selected_bytes : PruneOptions → PrunePreview → ℤ
selected_bytes opts p = add_if opts.build_cache p.build_cache (
    add_if opts.volumes p.volumes (
      add_if opts.images p.images
        (add_if opts.networks p.networks (add_if opts.containers p.containers (pos 0)))))

abbrev pub one_if : Bool → Command → List Command
one_if selected command = if selected then command ∷ [] else []

-- The commands of the first four categories, and those of the build cache behind them: buildx is
-- called where builder prune has failed.
abbrev pub resource_commands : PruneOptions → List Command
resource_commands opts =
    (((one_if opts.containers container_prune ++ one_if opts.networks network_prune)
        ++ one_if opts.images image_prune)
      ++ one_if opts.volumes volume_prune)

abbrev pub fallback_commands : Option Text → List Command
fallback_commands none = builder_prune ∷ []
fallback_commands (some cause) = builder_prune ∷ buildx_prune ∷ []

abbrev pub cache_commands : Engine → Bool → List Command → List Command
cache_commands e selected before =
    if selected then fallback_commands (e.run before builder_prune) else []

-- One category: the progress behind it.
finish_command-ok :
    {A : Type 0} (o : Option Text) (what : Text) (commands : List Command) (value result : A)
    → finish_command o what commands value ≡ ok result
    → result ≡ value
finish_command-ok none what commands value result h = sym (ok_inj h)
finish_command-ok (some cause) what commands value result h = cc

prune_category-ok :
    (e : Engine) (selected : Bool) (command : Command) (what : Text)
    (mark : PruneOptions → PruneOptions) (category : PruneCategoryPreview) (p q : Progress)
    → prune_category e selected command what mark category p ≡ ok q
    → (q.commands ≡ p.commands ++ one_if selected command)
      × (q.done ≡ (if selected then mark p.done else p.done))
      × (q.reclaimed ≡ add_if selected category p.reclaimed)
unfolding prune_category
prune_category-ok e true command what mark category p q h =
    let same = finish_command-ok (e.run p.commands command) what _ _ q h in
    (
      ap (λ (x : Progress). x.commands) same,
      ap (λ (x : Progress). x.done) same,
      ap (λ (x : Progress). x.reclaimed) same,
    )
prune_category-ok e false command what mark category p q h =
    let same = sym (ok_inj h) in
    (
      ap (λ (x : Progress). x.commands) same ∙ sym (append-nil p.commands),
      ap (λ (x : Progress). x.done) same,
      ap (λ (x : Progress). x.reclaimed) same,
    )

two-append : (xs : List Command) (x y : Command) → (xs ++ (x ∷ [])) ++ (y ∷ []) ≡ xs ++ (x ∷ y ∷ [])
two-append [] x y = refl
two-append (z ∷ xs) x y = ap (λ zs. z ∷ zs) (two-append xs x y)

IsFallback : Option Text → Progress → Progress → Type 0
IsFallback o p q =
    (q.commands ≡ p.commands ++ fallback_commands o)
    × (q.done ≡ p.done)
    × (q.reclaimed ≡ p.reclaimed)

behind_fallback-ok :
    (o : Option Text) (cause : Text) (p q : Progress) → behind_fallback o cause p ≡ ok q → q ≡ p
behind_fallback-ok none cause p q h = sym (ok_inj h)
behind_fallback-ok (some other) cause p q h = cc

cache_fallback-ok :
    (e : Engine) (o : Option Text) (p q : Progress)
    → cache_fallback e o (issue builder_prune p) ≡ ok q
    → IsFallback o p q
unfolding IsFallback
cache_fallback-ok e none p q h =
    let same = sym (ok_inj h) in
    (
      ap (λ (x : Progress). x.commands) same,
      ap (λ (x : Progress). x.done) same,
      ap (λ (x : Progress). x.reclaimed) same,
    )
cache_fallback-ok e (some cause) p q h =
    let same =
      behind_fallback-ok (e.run (p.commands ++ (builder_prune ∷ [])) buildx_prune) cause _ q h in
    (
      ap (λ (x : Progress). x.commands) same ∙ two-append p.commands builder_prune buildx_prune,
      ap (λ (x : Progress). x.done) same,
      ap (λ (x : Progress). x.reclaimed) same,
    )

prune_cache_category-ok :
    (e : Engine) (selected : Bool) (category : PruneCategoryPreview) (p q : Progress)
    → prune_cache_category e selected category p ≡ ok q
    → (q.commands ≡ p.commands ++ cache_commands e selected p.commands)
      × (q.done ≡ (if selected then mark_build_cache p.done else p.done))
      × (q.reclaimed ≡ add_if selected category p.reclaimed)
unfolding prune_build_cache IsFallback
prune_cache_category-ok e true category p q h =
    let (b, f, g) = >>=-eq-ok (prune_build_cache e p) _ h in
    let (commands, done, reclaimed) = cache_fallback-ok e (e.run p.commands builder_prune) p b f in
    let same = sym (ok_inj g) in
    (
      ap (λ (x : Progress). x.commands) same ∙ commands,
      ap (λ (x : Progress). x.done) same ∙ ap mark_build_cache done,
      ap (λ (x : Progress). x.reclaimed) same
          ∙ ap (λ n. add_int64 n category.reclaimable_bytes) reclaimed,
    )
prune_cache_category-ok e false category p q h =
    let same = sym (ok_inj h) in
    (
      ap (λ (x : Progress). x.commands) same ∙ sym (append-nil p.commands),
      ap (λ (x : Progress). x.done) same,
      ap (λ (x : Progress). x.reclaimed) same,
    )

-- The flags that five sections leave.
abbrev flags : Bool → Bool → Bool → Bool → Bool → PruneOptions
flags c i v n b = record { containers = c; images = i; volumes = v; networks = n; build_cache = b }

abbrev pub flags_of : PruneResult → PruneOptions
flags_of result =
    flags result.containers result.images result.volumes result.networks result.build_cache

abbrev apply_if : Bool → (PruneOptions → PruneOptions) → PruneOptions → PruneOptions
apply_if selected mark done = if selected then mark done else done

apply_containers :
    (c : Bool) → apply_if c mark_containers none_done ≡ flags c false false false false
apply_containers true = refl
apply_containers false = refl

apply_networks :
    (c n : Bool)
    → apply_if n mark_networks (flags c false false false false) ≡ flags c false false n false
apply_networks c true = refl
apply_networks c false = refl

apply_images :
    (c n i : Bool) → apply_if i mark_images (flags c false false n false) ≡ flags c i false n false
apply_images c n true = refl
apply_images c n false = refl

apply_volumes :
    (c n i v : Bool) → apply_if v mark_volumes (flags c i false n false) ≡ flags c i v n false
apply_volumes c n i true = refl
apply_volumes c n i false = refl

apply_build_cache :
    (c n i v b : Bool) → apply_if b mark_build_cache (flags c i v n false) ≡ flags c i v n b
apply_build_cache c n i v true = refl
apply_build_cache c n i v false = refl

-- The five sections in a row.
pub prune_selected-ok :
    (e : Engine) (opts : PruneOptions) (preview : PrunePreview) (q : Progress)
    → prune_selected e opts preview ≡ ok q
    → (q.commands
        ≡ resource_commands opts ++ cache_commands e opts.build_cache (resource_commands opts))
      × (q.done ≡ opts)
      × (q.reclaimed ≡ selected_bytes opts preview)
unfolding prune_selected
prune_selected-ok e opts preview q h =
    let (p4, h4, k5) = >>=-eq-ok _ _ h in
    let (p3, h3, k4) = >>=-eq-ok _ _ h4 in
    let (p2, h2, k3) = >>=-eq-ok _ _ h3 in
    let (p1, h1, k2) = >>=-eq-ok _ _ h2 in
    let (c1, d1, r1) =
      prune_category-ok e opts.containers container_prune _ mark_containers preview.containers _ p1
        h1 in
    let (c2, d2, r2) =
      prune_category-ok e opts.networks network_prune _ mark_networks preview.networks p1 p2 k2 in
    let (c3, d3, r3) =
      prune_category-ok e opts.images image_prune _ mark_images preview.images p2 p3 k3 in
    let (c4, d4, r4) =
      prune_category-ok e opts.volumes volume_prune _ mark_volumes preview.volumes p3 p4 k4 in
    let (c5, d5, r5) = prune_cache_category-ok e opts.build_cache preview.build_cache p4 q k5 in
    let commands : p4.commands ≡ resource_commands opts =
      c4
      ∙ ap (λ xs. xs ++ one_if opts.volumes volume_prune)
          (c3
            ∙ ap (λ xs. xs ++ one_if opts.images image_prune)
                (c2 ∙ ap (λ xs. xs ++ one_if opts.networks network_prune) c1)) in
    let done : q.done ≡ opts =
      d5
      ∙ (ap (apply_if opts.build_cache mark_build_cache) (
            d4
            ∙ (ap (apply_if opts.volumes mark_volumes) (
                  d3
                  ∙ (ap (apply_if opts.images mark_images) (
                        d2
                        ∙ (ap (apply_if opts.networks mark_networks)
                              (d1 ∙ apply_containers opts.containers)
                            ∙ apply_networks opts.containers opts.networks))
                      ∙ apply_images opts.containers opts.networks opts.images))
                ∙ apply_volumes opts.containers opts.networks opts.images opts.volumes))
          ∙ apply_build_cache opts.containers opts.networks opts.images opts.volumes
              opts.build_cache) in
    let reclaimed : q.reclaimed ≡ selected_bytes opts preview =
      r5
      ∙ ap (add_if opts.build_cache preview.build_cache) (
          r4
          ∙ ap (add_if opts.volumes preview.volumes) (
              r3
              ∙ ap (add_if opts.images preview.images)
                  (r2 ∙ ap (add_if opts.networks preview.networks) r1))) in
    (c5 ∙ ap (λ xs. xs ++ cache_commands e opts.build_cache xs) commands, done, reclaimed)

-- A result is that of the progress.
result_with-ok :
    (p : Progress) (o : Option Text) (commands : List Command) (result : PruneResult)
    → result_with p o ≡ ok (commands, result)
    → (commands ≡ p.commands) × (flags_of result ≡ p.done) × (result.reclaimed_bytes ≡ p.reclaimed)
result_with-ok p none commands result h = cc
result_with-ok p (some size) commands result h =
    let pair = sym (ok_inj h) in
    (
      ap (λ (x : List Command × PruneResult). x.0) pair,
      ap (λ (x : List Command × PruneResult). flags_of x.1) pair,
      ap (λ (x : List Command × PruneResult). x.1.reclaimed_bytes) pair,
    )

-- A prune that succeeds has had a category selected, and a preview; it reports the categories that
-- were selected, and the sum of their bytes in the preview; and its commands are those of these
-- categories, in the order containers, networks, images, volumes, build cache, and for the last
-- builder prune, with buildx prune behind it where that has failed.
pub prune-ok :
    (r : Render) (floats : Floats) (e : Engine) (opts : PruneOptions) (commands : List Command)
    (result : PruneResult)
    → prune r floats e opts ≡ ok (commands, result)
    → (preview : PrunePreview) × (prune_preview r floats e ≡ ok preview)
      × (no_category opts ≡ false)
      × (flags_of result ≡ opts)
      × (result.reclaimed_bytes ≡ selected_bytes opts preview)
      × (commands
          ≡ resource_commands opts ++ cache_commands e opts.build_cache (resource_commands opts))
unfolding prune result_of
prune-ok r floats e opts commands result h = elim (Bool-cases (no_category opts)) [
  | inl f ↦ cc (rw f at h)
  | inr f ↦ elim (Result-cases (prune_preview r floats e)) [
    | inr (fault, g) ↦ cc (rw (f, g) at h)
    | inl (preview, g) ↦
        let behind : (prune_selected e opts preview >>= result_of r) ≡ ok (commands, result) =
          rw (f, g) at h in
        let (p, chosen, same) = >>=-eq-ok (prune_selected e opts preview) _ behind in
        let (issued, done, reclaimed) = result_with-ok p _ commands result same in
        let (c, d, n) = prune_selected-ok e opts preview p chosen in
        (preview, g, f, done ∙ d, reclaimed ∙ n, issued ∙ c)
  ]
]
