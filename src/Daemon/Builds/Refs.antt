-- ===== src/Daemon/Builds/Refs.antt =====
-- backend/internal/daemon/build_sync.go: what `syncBuildHistory` does to the references to buildkit's
-- history.
use calf.Common.{
  ◌≡◌, refl, sym, ap₂, ◌∙◌, true, not, ◌&&◌, ◌||◌, Option, none, some, List, [], ◌∷◌, any, map, All,
  In, if-rule,
}
use calf.Strings.{Text, text_eq, is_empty}
use calf.BuildHistory.{Row}
use calf.Runtime.Build.{
  Build, BuildArtifact, Contexts, is_none, is_resolvable, apply_build_logs, enrich_synced_build,
}
use calf.Daemon.Builds.Enrich.{
  History, with_git, with_detail, with_logs, with_artifacts, inspected, logged, fetched,
  enrich_history_build, apply_history_row, is_terminal_build_status,
}
use calf.Daemon.Builds.Sync.{
  lookup, builds_equal, enrich_item, enrich_items, or_build, write_enriched,
}

-- The references of the builds, and that no reference is there twice.
abbrev pub refs : List Build → List Text
refs builds = map (λ (build : Build). build.history_ref) builds

abbrev pub NoRepeat : List Text → Type 0
NoRepeat [] = Unit
NoRepeat (ref ∷ more) = ((is_empty ref || not (any (text_eq ref) more)) ≡ true) × NoRepeat more

-- Builds of one ID have one reference.
abbrev pub IsKeyed : List Build → Type 0
IsKeyed builds =
    (b c : Build)
    → In b builds
    → In c builds
    → text_eq b.id c.id ≡ true
    → b.history_ref ≡ c.history_ref

-- The enrichment of a build keeps its reference.
abbrev Has : Text → Build → Type 0
Has ref build = build.history_ref ≡ ref

with_git-Has :
    (h : History) (git : Text × Text) (build : Build) → Has build.history_ref (with_git h git build)
with_git-Has h (revision, remote) build =
    if-rule (Has build.history_ref) (not (is_empty revision) || not (is_empty remote)) _ _
      (λ e. refl) (λ e. refl)

with_detail-Has :
    (h : History) (detail : Option (Text × Text)) (build : Build)
    → Has build.history_ref (with_detail h detail build)
with_detail-Has h none build = refl
with_detail-Has h (some (path, dockerfile)) build = with_git-Has h (h.git path) _

with_logs-Has :
    (h : History) (logs : Option Text) (build : Build)
    → Has build.history_ref (with_logs h logs build)
unfolding apply_build_logs
with_logs-Has h none build = refl
with_logs-Has h (some logs) build =
    if-rule (Has build.history_ref) (is_empty _) _ _ (λ e. refl) (λ e. refl)

with_artifacts-Has :
    (h : History) (artifacts : Option (List BuildArtifact)) (build : Build) (skipped : List Text)
    → Has build.history_ref (with_artifacts h artifacts build skipped).0
with_artifacts-Has h none build skipped = refl
with_artifacts-Has h (some []) build skipped = refl
with_artifacts-Has h (some (a ∷ more)) build skipped = refl

enrich_synced_build-Has :
    (x : Contexts) (build : Build) → Has build.history_ref (enrich_synced_build x build)
unfolding enrich_synced_build
enrich_synced_build-Has x build =
    if-rule (Has build.history_ref) (not (is_resolvable x build.build_context)) _ _ (λ e. refl)
      (λ e. refl)

inspected-Has : (h : History) (build : Build) → Has build.history_ref (inspected h build)
inspected-Has h build =
    if-rule (Has build.history_ref) (not (is_resolvable h.contexts build.build_context)) _ _
      (λ e. with_detail-Has h _ build) (λ e. refl)

logged-Has : (h : History) (build : Build) → Has build.history_ref (logged h build)
logged-Has h build =
    if-rule (Has build.history_ref)
      (is_terminal_build_status build.status && is_empty build.raw_log && is_none build.steps)
      (with_logs h (h.logs build.history_ref) build) build
      (λ e. with_logs-Has h (h.logs build.history_ref) build) (λ e. refl)

fetched-Has :
    (h : History) (build : Build) (skipped : List Text)
    → Has build.history_ref (fetched h build skipped).0
fetched-Has h build skipped =
    if-rule (λ (x : Build × List Text). Has build.history_ref x.0)
      (is_none build.results && not (any (text_eq build.history_ref) skipped))
      (with_artifacts h (h.artifacts build.history_ref build.platform) build skipped)
      (build, skipped)
      (λ e. with_artifacts-Has h (h.artifacts build.history_ref build.platform) build skipped)
      (λ e. refl)

pub enrich_history_build-Has :
    (h : History) (build : Build) (skipped : List Text)
    → Has build.history_ref (enrich_history_build h build skipped).0
unfolding enrich_history_build
enrich_history_build-Has h build skipped =
    if-rule (λ (x : Build × List Text). Has build.history_ref x.0) (is_empty build.history_ref) _ _
      (λ e. refl)
      (λ e.
        fetched-Has h (enrich_synced_build h.contexts (logged h (inspected h build))) skipped
        ∙ (enrich_synced_build-Has h.contexts (logged h (inspected h build))
            ∙ (logged-Has h (inspected h build) ∙ inspected-Has h build)))

-- The map of the enriched builds: an entry has the reference of the builds of its ID.
abbrev pub Fits : List Build → Text × Build → Type 0
Fits builds entry =
    (b : Build) → In b builds → text_eq b.id entry.0 ≡ true → b.history_ref ≡ entry.1.history_ref

enrich_item-Fits :
    (h : History) (all_builds : List Build) (build : Build) (row : Option Row)
    (enriched : List (Text × Build)) (skipped : List Text)
    → IsKeyed all_builds
    → In build all_builds
    → All (Fits all_builds) enriched
    → All (Fits all_builds) (enrich_item h build row enriched skipped).0
unfolding apply_history_row
enrich_item-Fits h all_builds build none enriched skipped keyed i k = k
enrich_item-Fits h all_builds build (some row) enriched skipped keyed i k =
    let updated = enrich_history_build h (apply_history_row h build row) skipped in
    if-rule (All (Fits all_builds)) (not (builds_equal updated.0 build)) _ _
      (λ e. (
        λ b j same.
            keyed b build j i same
            ∙ sym (enrich_history_build-Has h (apply_history_row h build row) skipped),
        k,
      ))
      (λ e. k)

pub enrich_items-Fits :
    (h : History) (all_builds builds : List Build) (by_id : List (Text × Row))
    (enriched : List (Text × Build)) (skipped : List Text)
    → IsKeyed all_builds
    → All (λ b. In b all_builds) builds
    → All (Fits all_builds) enriched
    → All (Fits all_builds) (enrich_items h builds by_id enriched skipped).0
enrich_items-Fits h all_builds [] by_id enriched skipped keyed i k = k
enrich_items-Fits h all_builds (build ∷ builds) by_id enriched skipped keyed (i, is) k =
    let next = enrich_item h build (lookup build.history_ref by_id) enriched skipped in
    enrich_items-Fits h all_builds builds by_id next.0 next.1 keyed is (
      enrich_item-Fits h all_builds build (lookup build.history_ref by_id) enriched skipped keyed i
        k)

or_build-Has :
    (h : History) (all_builds : List Build) (build : Build) (enriched : List (Text × Build))
    → In build all_builds
    → All (Fits all_builds) enriched
    → Has build.history_ref (or_build h (lookup build.id enriched) build)
or_build-Has h all_builds build [] i k = refl
or_build-Has h all_builds build ((id, updated) ∷ enriched) i (fits, k) =
    if-rule (λ (o : Option Build). Has build.history_ref (or_build h o build)) (text_eq build.id id)
      _ _ (λ e. sym (fits build i e)) (λ e. or_build-Has h all_builds build enriched i k)

pub refs-write_enriched :
    (h : History) (all_builds builds : List Build) (enriched : List (Text × Build))
    → All (λ b. In b all_builds) builds
    → All (Fits all_builds) enriched
    → refs (write_enriched h enriched builds) ≡ refs builds
refs-write_enriched h all_builds [] enriched i k = refl
refs-write_enriched h all_builds (build ∷ builds) enriched (i, is) k =
    ap₂ (λ (x : Text) (xs : List Text). x ∷ xs) (or_build-Has h all_builds build enriched i k)
      (refs-write_enriched h all_builds builds enriched is k)
