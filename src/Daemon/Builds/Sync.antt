-- ===== src/Daemon/Builds/Sync.antt =====
-- backend/internal/daemon/build_sync.go, and `EnrichHistoryBuildIfNeeded` of builds.go. What the commands
-- of buildkit answer is a parameter.
use calf.Common.{
  ℕ, ◌+◌, Bool, true, false, not, ◌&&◌, ◌||◌, Option, none, some, List, [], ◌∷◌, ◌++◌,
  if◌then◌else◌, keep, map, eq_int,
}
use calf.Strings.{Text, text, text_eq, is_empty}
use calf.BuildHistory.{Row, merge_rows, row_by_history_id}
use calf.Runtime.Build.{
  BuildStep, BuildDependency, BuildArtifact, BuildTag, Build, is_none, is_resolvable,
  dependencies_need_digest,
}
use calf.Daemon.Builds.{
  Core, persist_builds_locked, timing_equal, apply_build_enrichment, change_first, get_build,
}
use calf.Daemon.Builds.Enrich.{
  enrich_history_build, base_build_from_history_row, apply_history_row, History,
}

-- The equalities of the Go code on slices.
abbrev pub list_equal {ℓ} : {A : Type ℓ} → (A → A → Bool) → List A → List A → Bool
list_equal eq [] [] = true
list_equal eq [] (y ∷ ys) = false
list_equal eq (x ∷ xs) [] = false
list_equal eq (x ∷ xs) (y ∷ ys) = eq x y && list_equal eq xs ys

abbrev pub bool_equal : Bool → Bool → Bool
bool_equal true b = b
bool_equal false b = not b

abbrev pub step_equal : BuildStep → BuildStep → Bool
step_equal l r =
    eq_int l.index r.index
    && eq_int l.total r.total
    && text_eq l.name r.name
    && bool_equal l.cached r.cached
    && eq_int l.duration_ms r.duration_ms
    && text_eq l.log r.log

abbrev pub dependency_equal : BuildDependency → BuildDependency → Bool
dependency_equal l r =
    text_eq l.source r.source && text_eq l.platform r.platform && text_eq l.digest r.digest

abbrev pub artifact_equal : BuildArtifact → BuildArtifact → Bool
artifact_equal l r =
    text_eq l.name r.name
    && text_eq l.platform r.platform
    && text_eq l.digest r.digest
    && text_eq l.size r.size

abbrev pub tag_equal : BuildTag → BuildTag → Bool
tag_equal l r = text_eq l.tag r.tag && text_eq l.digest r.digest

-- `buildsEqual`
unfoldable pub builds_equal : Build → Build → Bool
unfolding timing_equal
builds_equal l r =
    text_eq l.tag r.tag
    && text_eq l.status r.status
    && text_eq l.created_at r.created_at
    && text_eq l.finished_at r.finished_at
    && eq_int l.duration_ms r.duration_ms
    && eq_int l.cached_steps r.cached_steps
    && eq_int l.total_steps r.total_steps
    && text_eq l.build_context r.build_context
    && text_eq l.dockerfile r.dockerfile
    && list_equal step_equal l.steps r.steps
    && text_eq l.raw_log r.raw_log
    && list_equal dependency_equal l.dependencies r.dependencies
    && list_equal artifact_equal l.results r.results
    && list_equal tag_equal l.tags r.tags
    && timing_equal l.timing r.timing

-- The builds of the history, and their references.
abbrev pub sync_items : List Build → List Build
sync_items builds = keep (λ build. not (is_empty build.history_ref)) builds

abbrev pub known_refs : List Build → List Text
known_refs builds = map (λ (build : Build). build.history_ref) (sync_items builds)

-- A lookup in a map, whose list has a later entry in front.
abbrev pub lookup {ℓ} : {A : Type ℓ} → Text → List (Text × A) → Option A
lookup key [] = none
lookup key ((k, value) ∷ entries) =
    let rest = lookup key entries in if text_eq key k then some value else rest

module _ (h : History) where
  -- The loop that enriches the known builds: the map `enrichedByID`.
  abbrev pub add_enriched :
      Build → Build × List Text → List (Text × Build) → List (Text × Build) × List Text
  add_enriched build (updated, skipped) enriched = (
    if not (builds_equal updated build) then (build.id, updated) ∷ enriched else enriched,
    skipped,
  )

  abbrev pub enrich_item :
      Build → Option Row → List (Text × Build) → List Text → List (Text × Build) × List Text
  enrich_item build none enriched skipped = (enriched, skipped)
  enrich_item build (some row) enriched skipped =
      add_enriched build (enrich_history_build h (apply_history_row h build row) skipped) enriched

  abbrev pub enrich_items :
      List Build
      → List (Text × Row)
      → List (Text × Build)
      → List Text
      → List (Text × Build) × List Text
  enrich_items [] by_id enriched skipped = (enriched, skipped)
  enrich_items (build ∷ builds) by_id enriched skipped =
      let next = enrich_item build (lookup build.history_ref by_id) enriched skipped in
      enrich_items builds by_id next.0 next.1

  -- The loop over the rows that are imported.
  abbrev pub import_builds : List Row → List Text → List Build × List Text
  import_builds [] skipped = ([], skipped)
  import_builds (row ∷ rows) skipped =
      let next = enrich_history_build h (base_build_from_history_row h row) skipped in
      let rest = import_builds rows next.1 in (next.0 ∷ rest.0, rest.1)

  -- The loops under the lock.
  abbrev pub or_build : Option Build → Build → Build
  or_build none build = build
  or_build (some updated) build = updated

  abbrev pub write_enriched : List (Text × Build) → List Build → List Build
  write_enriched enriched [] = []
  write_enriched enriched (build ∷ builds) =
      or_build (lookup build.id enriched) build ∷ write_enriched enriched builds

  abbrev pub number_builds : ℕ → List Build → List Build × ℕ
  number_builds seq [] = ([], seq)
  number_builds seq (build ∷ builds) =
      let rest = number_builds (seq + 1) builds in
      (record build { id = text "history-" ++ h.decimal (seq + 1) } ∷ rest.0, rest.1)

  abbrev pub any_changed : List (Text × Build) → List Build → Bool
  any_changed enriched [] = false
  any_changed enriched (build ∷ builds) =
      let rest = any_changed enriched builds in
      elim (lookup build.id enriched) [ none ↦ rest | some updated ↦ true ]

  abbrev pub store_synced : List (Text × Build) → List Build → Core → Core
  store_synced enriched imported s =
      let numbered = number_builds s.build_seq imported in
      let t = record s {
        builds = numbered.0 ++ write_enriched enriched s.builds;
        build_seq = numbered.1;
      } in
      if any_changed enriched s.builds || not (is_none imported) then persist_builds_locked t else t

  -- `syncBuildHistory`, from the rows that buildkit lists on; nothing else changes the builds between
  -- its two locked sections.
  unfoldable pub sync_build_history : List Row → Core → Core
  unfolding merge_rows row_by_history_id enrich_history_build base_build_from_history_row
      apply_history_row builds_equal persist_builds_locked
  sync_build_history rows s =
      let items = enrich_items (sync_items s.builds) (row_by_history_id rows) [] s.skipped in
      let imported = import_builds (merge_rows (known_refs s.builds) rows).0 items.1 in
      if is_none rows
      then s
      else store_synced items.0 imported.0 (record s { skipped = imported.1 })

  -- Its guards: the socket's path, whether it is there, the engine's state and the rows, where an
  -- error is none.
  abbrev pub sync_rows : Option (List Row) → Core → Core
  sync_rows none s = s
  sync_rows (some rows) s = sync_build_history rows s

  abbrev pub sync_state : Option Text → Option (List Row) → Core → Core
  sync_state none rows s = s
  sync_state (some state) rows s = if text_eq state (text "running") then sync_rows rows s else s

  unfoldable pub sync_guarded : Text → Bool → Option Text → Option (List Row) → Core → Core
  unfolding sync_build_history
  sync_guarded socket socket_exists state rows s =
      if is_empty socket then s else if not socket_exists then s else sync_state state rows s

  -- `EnrichHistoryBuildIfNeeded`, with a socket.
  abbrev pub needs_enrichment : Build → Bool
  needs_enrichment build =
      not (is_resolvable h.contexts build.build_context)
      || (is_empty build.raw_log && is_none build.steps)
      || is_none build.dependencies
      || dependencies_need_digest build.dependencies
      || is_none build.results
      || is_none build.tags

  abbrev pub merge_enriched : Build → Build → Option Build → Core → Core × Build
  merge_enriched build enriched none s = (s, enriched)
  merge_enriched build enriched (some candidate) s =
      let merged = apply_build_enrichment h.contexts candidate enriched in
      if builds_equal merged candidate then (s, merged) else (
        elim (change_first build.id (λ (c : Build). merged) s.builds) [
          | none ↦ s
          | some builds ↦ persist_builds_locked (record s { builds = builds })
        ],
        merged,
      )

  abbrev pub merge_unless_equal : Build → Build × List Text → Core → Core × Build
  merge_unless_equal build (enriched, skipped) s =
      let t = record s { skipped = skipped } in
      if builds_equal build enriched
      then (t, build)
      else merge_enriched build enriched (get_build build.id t) t

  unfoldable pub enrich_history_build_if_needed : Build → Core → Core × Build
  unfolding enrich_history_build builds_equal apply_build_enrichment persist_builds_locked
      is_resolvable dependencies_need_digest get_build
  enrich_history_build_if_needed build s =
      if is_empty build.history_ref
      then (s, build)
      else if not (needs_enrichment build)
      then (s, build)
      else merge_unless_equal build (enrich_history_build h build s.skipped) s
