-- ===== src/Runtime/Build.antt =====
-- backend/internal/runtime/build.go, and the functions of build_parser.go and build_enrich.go that change
-- a build. A nil slice and an empty one are the same list.
use calf.Common.{
  Bool, true, false, not, ◌&&◌, ◌||◌, List, [], ◌∷◌, if◌then◌else◌, any, ℤ, pos, lt_int,
}
use calf.Strings.{Text, text, text_eq, is_empty, trim_space}

pub record BuildStep : Type 0 where
  pub index : ℤ
  pub total : ℤ
  pub name : Text
  pub cached : Bool
  pub duration_ms : ℤ
  pub log : Text

pub record BuildDependency : Type 0 where
  pub source : Text
  pub platform : Text
  pub digest : Text

pub record BuildArtifact : Type 0 where
  pub name : Text
  pub platform : Text
  pub digest : Text
  pub size : Text

pub record BuildTag : Type 0 where
  pub tag : Text
  pub digest : Text

pub record BuildTiming : Type 0 where
  pub image_pulls_ms : ℤ
  pub local_transfers_ms : ℤ
  pub executions_ms : ℤ
  pub file_operations_ms : ℤ
  pub result_exports_ms : ℤ
  pub idle_ms : ℤ

pub record Build : Type 0 where
  pub id : Text
  pub history_ref : Text
  pub tag : Text
  pub build_context : Text
  pub dockerfile : Text
  pub platform : Text
  pub status : Text
  pub created_at : Text
  pub finished_at : Text
  pub duration_ms : ℤ
  pub error : Text
  pub builder : Text
  pub cached_steps : ℤ
  pub total_steps : ℤ
  pub steps : List BuildStep
  pub dependencies : List BuildDependency
  pub results : List BuildArtifact
  pub tags : List BuildTag
  pub timing : BuildTiming
  pub source_revision : Text
  pub remote_source : Text
  pub raw_log : Text

pub record BuildResult : Type 0 where
  pub raw_log : Text
  pub steps : List BuildStep
  pub timing : BuildTiming
  pub cached_steps : ℤ
  pub total_steps : ℤ
  pub dependencies : List BuildDependency
  pub results : List BuildArtifact
  pub tags : List BuildTag

abbrev pub no_timing : BuildTiming
no_timing = record {
  image_pulls_ms = pos 0;
  local_transfers_ms = pos 0;
  executions_ms = pos 0;
  file_operations_ms = pos 0;
  result_exports_ms = pos 0;
  idle_ms = pos 0;
}

-- `len(xs) == 0`
abbrev pub is_none {ℓ} : {A : Type ℓ} → List A → Bool
is_none [] = true
is_none (x ∷ xs) = false

-- The system under a build context, and the parsers and commands behind `ParseBuildOutput`,
-- `enrichBuildResult` and `NormalizeDockerfilePath`.
pub record Contexts : Type 0 where
  pub is_abs : Text → Bool
  pub exists : Text → Bool
  pub normalize_dockerfile : Text → Text → Text
  pub parse_output : Text → BuildResult
  pub enrich_result : Build → BuildResult

-- `IsResolvableBuildContext`
unfoldable pub is_resolvable : Contexts → Text → Bool
is_resolvable x path =
    if is_empty path || text_eq path (text "docker-cli")
    then false
    else if not (x.is_abs path)
    then false
    else x.exists path

-- `dependenciesNeedDigest`, and `dependenciesMissingDigest` of build_enrich.go, the same loop.
unfoldable pub dependencies_need_digest : List BuildDependency → Bool
dependencies_need_digest dependencies =
    any (λ dependency. is_empty (trim_space dependency.digest)) dependencies

-- `ApplyBuildLogs`
unfoldable pub apply_build_logs : Contexts → Build → Text → Build
apply_build_logs x build logs =
    let parsed = x.parse_output logs in
    if is_empty (trim_space logs) then build else record build {
      steps = parsed.steps;
      timing = parsed.timing;
      raw_log = parsed.raw_log;
      cached_steps =
          if lt_int (pos 0) parsed.cached_steps then parsed.cached_steps else build.cached_steps;
      total_steps =
          if lt_int (pos 0) parsed.total_steps then parsed.total_steps else build.total_steps;
    }

-- `EnrichSyncedBuild`, with a socket.
unfoldable pub enrich_synced_build : Contexts → Build → Build
unfolding is_resolvable dependencies_need_digest
enrich_synced_build x original =
    let build = record original {
      dockerfile = x.normalize_dockerfile original.build_context original.dockerfile;
    } in
    let enriched = x.enrich_result build in
    if not (is_resolvable x build.build_context) then build else record build {
      dependencies =
          if not (is_none enriched.dependencies)
            && (is_none build.dependencies || dependencies_need_digest build.dependencies)
          then enriched.dependencies
          else build.dependencies;
      results =
          if is_none build.results && not (is_none enriched.results)
          then enriched.results
          else build.results;
      tags =
          if is_none build.tags && not (is_none enriched.tags) then enriched.tags else build.tags;
    }
