-- ===== src/Daemon/Builds.antt =====
-- backend/internal/daemon/builds.go, with the file of backend/internal/buildstore/store.go: the list of
-- builds, newest first. Each function holds the lock of the list, and is one step.
pub mod Enrich
pub mod Sync
pub mod Refs
pub mod Once
use calf.Common.{
  ℕ, ◌+◌, Bool, true, false, not, ◌&&◌, ◌||◌, Option, none, some, List, [], ◌∷◌, ◌++◌,
  if◌then◌else◌, take, length, leb, find, ℤ, pos, lt_int, eq_int,
}
use calf.Strings.{Text, text, text_eq, is_empty, trim_space, trim_prefix}
use calf.Runtime.Build.{
  BuildStep, BuildDependency, BuildArtifact, BuildTag, BuildTiming, Build, BuildResult, no_timing,
  is_none, Contexts, is_resolvable, dependencies_need_digest,
}

abbrev pub max_builds : ℕ
max_builds = 200

-- `File` of store.go.
pub record File : Type 0 where
  pub builds : List Build
  pub seq : ℕ

-- The part of `Core` that the builds live in: the list, the counter, the file, whether writing it
-- works, and the keys of `historyArtifactSkip`.
pub record Core : Type 0 where
  pub builds : List Build
  pub build_seq : ℕ
  pub file : Option File
  pub can_write : Bool
  pub skipped : List Text

-- `trimBuilds`
unfoldable pub trim_builds : List Build → List Build
trim_builds builds = if leb (length builds) max_builds then builds else take max_builds builds

-- `persistBuildsLocked`, with the `Save` of store.go.
unfoldable pub persist_builds_locked : Core → Core
unfolding trim_builds
persist_builds_locked s = record s {
  file =
      if s.can_write
      then some (record { builds = trim_builds s.builds; seq = s.build_seq })
      else s.file;
  builds = trim_builds s.builds;
}

-- `loadBuilds`: the outer none is an error, the inner none a file that is not there.
abbrev pub load_builds : Option (Option File) → Core → Core
load_builds none s = s
load_builds (some none) s = record s { builds = []; build_seq = 0 }
load_builds (some (some file)) s = record s { builds = file.builds; build_seq = file.seq }

abbrev pub or_dockerfile : Text → Text
or_dockerfile dockerfile = if is_empty dockerfile then text "Dockerfile" else dockerfile

-- The build that `NewBuild` makes of its arguments.
abbrev pub fresh_build : Text → Text → Text → Text → Text → Text → Text → Build
fresh_build id path tag dockerfile platform status now = record {
  id = id;
  history_ref = [];
  tag = tag;
  build_context = path;
  dockerfile = or_dockerfile dockerfile;
  platform = platform;
  status = status;
  created_at = now;
  finished_at = [];
  duration_ms = pos 0;
  error = [];
  builder = text "default";
  cached_steps = pos 0;
  total_steps = pos 0;
  steps = [];
  dependencies = [];
  results = [];
  tags = [];
  timing = no_timing;
  source_revision = [];
  remote_source = [];
  raw_log = [];
}

-- The decimal digits and the time of the call are Go's.
unfoldable pub new_build :
    (ℕ → Text) → Text → Text → Text → Text → Text → Text → Core → Core × Build
unfolding persist_builds_locked
new_build decimal now path tag dockerfile platform status s =
    let build =
      fresh_build (text "build-" ++ decimal (s.build_seq + 1)) path tag dockerfile platform status
        now in
    (
      persist_builds_locked (record s { builds = build ∷ s.builds; build_seq = s.build_seq + 1 }),
      build,
    )

unfoldable pub add_migrated_build : (ℕ → Text) → Build → Core → Core
unfolding persist_builds_locked
add_migrated_build decimal build s =
    let migrated = record build {
      id = text "migrated-" ++ decimal (s.build_seq + 1);
      builder = if is_empty build.builder then text "default" else build.builder;
    } in
    persist_builds_locked (record s { builds = migrated ∷ s.builds; build_seq = s.build_seq + 1 })

unfoldable pub get_build : Text → Core → Option Build
get_build id s = find (λ build. text_eq build.id id) s.builds

-- A change of the first build of an id; none where there is none.
abbrev pub change_first : Text → (Build → Build) → List Build → Option (List Build)
change_first id change [] = none
change_first id change (build ∷ builds) =
    let rest = change_first id change builds in
    if not (text_eq build.id id)
    then elim rest [ none ↦ none | some changed ↦ some (build ∷ changed) ]
    else some (change build ∷ builds)

abbrev pub persist_changed : Core → Option (List Build) → Core
persist_changed s none = s
persist_changed s (some builds) = persist_builds_locked (record s { builds = builds })

unfoldable pub update_build_source_paths : Text → Text → Text → Core → Core
unfolding persist_builds_locked
update_build_source_paths id path dockerfile s = persist_changed s (
    change_first id (λ build. record build { build_context = path; dockerfile = dockerfile })
      s.builds)

-- How `RunBuild` ends, and how its context stands then.
pub data JobEnd : Type 0 where
  succeeded timed_out canceled : JobEnd
  failed : Text → JobEnd

abbrev pub job_error : JobEnd → Text → Text
job_error succeeded error = error
job_error timed_out error = text "build timed out"
job_error canceled error = text "build canceled"
job_error (failed message) error = message

abbrev pub job_status : JobEnd → Text
job_status succeeded = text "success"
job_status timed_out = text "failed"
job_status canceled = text "failed"
job_status (failed message) = text "failed"

abbrev pub finished_build : BuildResult → JobEnd → Text → ℤ → Text → Text → Build → Build
finished_build result job finished_at duration_ms revision remote build = record build {
  finished_at = finished_at;
  duration_ms = duration_ms;
  source_revision = revision;
  remote_source = remote;
  steps = result.steps;
  timing = result.timing;
  cached_steps = result.cached_steps;
  total_steps = result.total_steps;
  dependencies = result.dependencies;
  results = result.results;
  tags = result.tags;
  raw_log = result.raw_log;
  status = job_status job;
  error = job_error job build.error;
}

-- `RunBuildJob`, behind the build itself.
unfoldable pub run_build_job : BuildResult → JobEnd → Text → ℤ → Text → Text → Text → Core → Core
unfolding persist_builds_locked
run_build_job result job finished_at duration_ms revision remote id s =
    persist_changed s
      (change_first id (finished_build result job finished_at duration_ms revision remote) s.builds)

abbrev pub or_text : Text → Text → Text
or_text current enriched = if not (is_empty enriched) && is_empty current then enriched else current

abbrev pub or_list {ℓ} : {A : Type ℓ} → List A → List A → List A
or_list current enriched = if not (is_none enriched) && is_none current then enriched else current

abbrev pub or_count : ℤ → ℤ → ℤ
or_count current enriched =
    if lt_int (pos 0) enriched && eq_int current (pos 0) then enriched else current

abbrev pub is_default_dockerfile : Text → Bool
is_default_dockerfile dockerfile = is_empty dockerfile || text_eq dockerfile (text "Dockerfile")

-- `timingEqual`, and Go's `==` on the timings.
unfoldable pub timing_equal : BuildTiming → BuildTiming → Bool
timing_equal l r =
    eq_int l.image_pulls_ms r.image_pulls_ms
    && eq_int l.local_transfers_ms r.local_transfers_ms
    && eq_int l.executions_ms r.executions_ms
    && eq_int l.file_operations_ms r.file_operations_ms
    && eq_int l.result_exports_ms r.result_exports_ms
    && eq_int l.idle_ms r.idle_ms

-- `applyBuildEnrichment`
unfoldable pub apply_build_enrichment : Contexts → Build → Build → Build
unfolding is_resolvable dependencies_need_digest timing_equal
apply_build_enrichment x current enriched = record current {
  build_context =
      if not (is_empty enriched.build_context) && not (is_resolvable x current.build_context)
      then enriched.build_context
      else current.build_context;
  dockerfile =
      if not (is_default_dockerfile enriched.dockerfile) && is_default_dockerfile current.dockerfile
      then enriched.dockerfile
      else current.dockerfile;
  source_revision = or_text current.source_revision enriched.source_revision;
  remote_source = or_text current.remote_source enriched.remote_source;
  raw_log = or_text current.raw_log enriched.raw_log;
  steps = or_list current.steps enriched.steps;
  dependencies =
      if not (is_none enriched.dependencies)
        && (is_none current.dependencies || dependencies_need_digest current.dependencies)
      then enriched.dependencies
      else current.dependencies;
  results = or_list current.results enriched.results;
  tags = or_list current.tags enriched.tags;
  timing =
      if not (timing_equal enriched.timing no_timing) && timing_equal current.timing no_timing
      then enriched.timing
      else current.timing;
  cached_steps = or_count current.cached_steps enriched.cached_steps;
  total_steps = or_count current.total_steps enriched.total_steps;
}

-- `artifactDownloadFileName`
unfoldable pub artifact_download_file_name : Text → Text
unfolding trim_prefix
artifact_download_file_name digest =
    let hash = trim_prefix digest (text "sha256:") in
    text "sha256_" ++ (if is_empty hash then text "artifact" else hash) ++ text ".json"
