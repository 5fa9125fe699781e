-- ===== src/Daemon/Builds/Enrich.antt =====
-- backend/internal/daemon/build_sync.go: the enrichment of a build from buildkit's history. What its
-- commands answer is a parameter.
use calf.Common.{
  ℕ, Bool, not, ◌&&◌, ◌||◌, Option, none, some, List, [], ◌∷◌, if◌then◌else◌, any, pos, lt_int,
}
use calf.Strings.{Text, text, text_eq, is_empty}
use calf.BuildHistory.{
  Row, Clock, history_id, build_name, build_status, build_created_at, build_duration_ms,
  normalize_status, normalize_tag,
}
use calf.Runtime.Build.{
  BuildArtifact, Build, no_timing, is_none, Contexts, is_resolvable, apply_build_logs,
  enrich_synced_build,
}

-- The answers of `buildhistory.Inspect`, `Logs` and `BuildArtifacts` (none is an error), git's, and the
-- clock.
pub record History : Type 0 where
  pub contexts : Contexts
  pub inspect : Text → Option (Text × Text)
  pub logs : Text → Option Text
  pub artifacts : Text → Text → Option (List BuildArtifact)
  pub git : Text → Text × Text
  pub clock : Clock
  pub now : Text
  pub platform : Text
  pub decimal : ℕ → Text

abbrev pub is_terminal_build_status : Text → Bool
is_terminal_build_status status = text_eq status (text "success") || text_eq status (text "failed")

module _ (h : History) where
  -- The parts of `enrichHistoryBuild`: the inspection, the logs and the artifacts.
  abbrev pub with_git : Text × Text → Build → Build
  with_git (revision, remote) build =
      if not (is_empty revision) || not (is_empty remote)
      then record build { source_revision = revision; remote_source = remote }
      else build

  abbrev pub with_detail : Option (Text × Text) → Build → Build
  with_detail none build = build
  with_detail (some (path, dockerfile)) build = with_git (h.git path) (record build {
    build_context = path;
    dockerfile =
        if not (is_empty dockerfile)
        then h.contexts.normalize_dockerfile path dockerfile
        else build.dockerfile;
  })

  abbrev pub with_logs : Option Text → Build → Build
  with_logs none build = build
  with_logs (some logs) build = apply_build_logs h.contexts build logs

  abbrev pub mark_skip : Text → List Text → List Text
  mark_skip ref skipped = if is_empty ref then skipped else ref ∷ skipped

  abbrev pub with_artifacts : Option (List BuildArtifact) → Build → List Text → Build × List Text
  with_artifacts none build skipped = (build, mark_skip build.history_ref skipped)
  with_artifacts (some []) build skipped = (build, mark_skip build.history_ref skipped)
  with_artifacts (some (a ∷ more)) build skipped = (record build { results = a ∷ more }, skipped)

  abbrev pub inspected : Build → Build
  inspected build =
      if not (is_resolvable h.contexts build.build_context)
      then with_detail (h.inspect build.history_ref) build
      else build

  abbrev pub logged : Build → Build
  logged build =
      if is_terminal_build_status build.status && is_empty build.raw_log && is_none build.steps
      then with_logs (h.logs build.history_ref) build
      else build

  abbrev pub fetched : Build → List Text → Build × List Text
  fetched build skipped =
      if is_none build.results && not (any (text_eq build.history_ref) skipped)
      then with_artifacts (h.artifacts build.history_ref build.platform) build skipped
      else (build, skipped)

  -- `enrichHistoryBuild`; the skipped references are those of the map.
  unfoldable pub enrich_history_build : Build → List Text → Build × List Text
  unfolding is_resolvable apply_build_logs enrich_synced_build
  enrich_history_build build skipped =
      if is_empty build.history_ref
      then (build, skipped)
      else fetched (enrich_synced_build h.contexts (logged (inspected build))) skipped

  -- `baseBuildFromHistoryRow`
  unfoldable pub base_build_from_history_row : Row → Build
  unfolding history_id build_name build_status build_created_at build_duration_ms normalize_status
      normalize_tag
  base_build_from_history_row row = record {
    id = [];
    history_ref = history_id row;
    tag = normalize_tag (build_name row);
    build_context = [];
    dockerfile = text "Dockerfile";
    platform = h.platform;
    status = normalize_status (build_status row);
    created_at = if is_empty (build_created_at row) then h.now else build_created_at row;
    finished_at = row.completed_at;
    duration_ms = build_duration_ms h.clock row;
    error = [];
    builder = text "default";
    cached_steps = row.cached_steps;
    total_steps = row.total_steps;
    steps = [];
    dependencies = [];
    results = [];
    tags = [];
    timing = no_timing;
    source_revision = [];
    remote_source = [];
    raw_log = [];
  }

  -- `applyHistoryRow`
  unfoldable pub apply_history_row : Build → Row → Build
  unfolding build_name build_status build_created_at build_duration_ms normalize_status
      normalize_tag
  apply_history_row build row =
      let created_at = build_created_at row in
      let duration_ms = build_duration_ms h.clock row in
      record build {
        tag = normalize_tag (build_name row);
        status = normalize_status (build_status row);
        created_at = if not (is_empty created_at) then created_at else build.created_at;
        finished_at =
            if not (is_empty row.completed_at) then row.completed_at else build.finished_at;
        duration_ms = if lt_int (pos 0) duration_ms then duration_ms else build.duration_ms;
        cached_steps =
            if lt_int (pos 0) row.cached_steps then row.cached_steps else build.cached_steps;
        total_steps = if lt_int (pos 0) row.total_steps then row.total_steps else build.total_steps;
      }
