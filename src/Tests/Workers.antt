-- ===== src/Tests/Workers.antt =====
-- Examples of the daemon's workers.
use calf.Common.{
  sym, ap, ◌∙◌, inr, ℕ, ◌-◌, ◌*◌, ◌≤◌, ◌≡◌, refl, arith, true, false, none, some, [], ◌∷◌, inl, inr,
  pos, ok, All,
}
use calf.Strings.{text, text_eq, is_empty, has_suffix}
use calf.Utils.Format.{Render}
use calf.VolumeExport.Time.{second, utc-IsZone}
use calf.VolumeExport.Schedule.{normalize_schedule, local_file}
use calf.VolumeExport.Store.{collect, list_all}
use calf.Daemon.ExportRunner.{VolumeExportRequest, Answers, Outcome, execute_volume_export}
use calf.Daemon.ExportRunner.Records.{IsSettled, execute_volume_export-IsSettled}
use calf.Daemon.ExportScheduler.{updated_schedule, ticks}
use calf.Daemon.ExportScheduler.Progress.{GoesOn, updated_schedule-GoesOn}
use calf.Daemon.ExportScheduler.Missed.{IsMissed, ticks_missed}
use calf.Daemon.ResourceSaver.{
  ResourceSaver, Reading, has_running_container, timeout_of, enter_resource_saver, tick_idle, tick,
}
use calf.Daemon.ResourceSaver.Idle.{IdleSince, IsQuiet, started, ticked, tick_stops-IdleSince}
use calf.Daemon.StatsHistory.{ContainerStats, StatsHistory}
use calf.Daemon.LogBroadcaster.{
  SharedLogStream, new_stream, log_tail_line_count, Round, from_history, run_stream,
}
use calf.Daemon.LogBroadcaster.Lines.{publish_all, last_lines, publish_all_lem}
use calf.Daemon.LogBroadcaster.Retry.{AreCalls, run_stream-AreCalls}
use calf.BuildHistory.{Row}
use calf.Runtime.Build.{Build, BuildResult, no_timing}
use calf.Daemon.Builds.{Core, fresh_build}
use calf.Daemon.Builds.Enrich.{History}
use calf.Daemon.Builds.Sync.{sync_build_history}
use calf.Daemon.Builds.Refs.{NoRepeat, refs}
use calf.Daemon.Builds.Once.{sync_build_history-NoRepeat}
use calf.Tests.Data.{tuesdays, store, host, constant_clock}
use calf.Tests.Exports.{tuesdays-valid}

updated_schedule-GoesOn_example :
    GoesOn host tuesdays (updated_schedule host tuesdays (100 * second))
updated_schedule-GoesOn_example =
    updated_schedule-GoesOn host tuesdays (100 * second) utc-IsZone (omega arith) refl
      tuesdays-valid

store-IsMissed : All (IsMissed constant_clock (100 * second)) (list_all store)
unfolding list_all collect has_suffix text_eq normalize_schedule
store-IsMissed = (inr (5, refl, omega arith), tt)

ticks_missed_example : ticks host store (100 * second ∷ 130 * second ∷ []) ≡ store
ticks_missed_example =
    ticks_missed host (100 * second) store (100 * second ∷ 130 * second ∷ []) store-IsMissed
      (omega arith, (omega arith, tt))

abbrev plain : Render
plain = record { decimal = λ n. text "n"; tenths = λ n d. text "n.d" }

-- Everything succeeds; the archive has 100 bytes.
abbrev answers : Answers
answers = record {
  store_error = none;
  dir_error = none;
  first_save = none;
  export_volume = ok (text "/tmp/data.tar.gz");
  archive_size = some (pos 100);
  last_save = none;
}

abbrev request : VolumeExportRequest
request = record {
  type = local_file;
  file_name = text "data.tar.gz";
  folder = text "/tmp";
  image_ref = [];
}

execute_volume_export-IsSettled_example :
    (o : Outcome) × (execute_volume_export plain answers
        (text "e1")
        (text "now")
        (text "data")
        request
      ≡ some o)
    × IsSettled local_file o
execute_volume_export-IsSettled_example =
    execute_volume_export-IsSettled plain answers (text "e1") (text "now") (text "data") request
      refl (omega arith)

abbrev quiet : Reading
quiet = record {
  enabled = true;
  timeout_sec = pos 60;
  state = some (text "running");
  containers = some [];
  now = 100 * second;
  stop_fails = false;
}

abbrev later : Reading
later = record quiet { now = 161 * second }

abbrev fresh : ResourceSaver
fresh = record { active = false; idle_at = 0 }

later-stops : (tick (tick fresh quiet).0 later).1 ≡ true
unfolding tick tick_idle has_running_container enter_resource_saver timeout_of text_eq
later-stops = refl

tick_stops-IdleSince_example :
    (t : ℕ) × IdleSince t (quiet ∷ [])
    × IsQuiet later
    × (30 * second ≤ 161 * second - t)
    × (timeout_of (pos 60) * second ≤ 161 * second - t)
tick_stops-IdleSince_example =
    tick_stops-IdleSince (tick fresh quiet).0 (quiet ∷ []) later (ticked quiet started) later-stops

abbrev stats : ContainerStats
stats = record {
  cpu_perc = text "1%";
  mem_usage = [];
  mem_perc = [];
  net_io = [];
  block_io = [];
  pids = text "3";
}

abbrev history : StatsHistory
history = record {
  by_id =
      (text "abc", record { t = 10; stats = stats } ∷ record { t = 900; stats = stats } ∷ []) ∷ [];
  retain = 500;
}

abbrev log_stream : SharedLogStream
log_stream = record (new_stream (text "c1")) { subscribers = 1 ∷ 2 ∷ []; history = text "old" ∷ [] }

publish_all_lem_example :
    ((publish_all log_stream (λ c. []) (text "a" ∷ text "b" ∷ [])).0.history
      ≡ last_lines log_tail_line_count (text "old" ∷ text "a" ∷ text "b" ∷ []))
    × ((publish_all log_stream (λ c. []) (text "a" ∷ text "b" ∷ [])).1 2 ≡ text "a" ∷ text "b" ∷ [])
publish_all_lem_example =
    publish_all_lem log_stream (λ c. []) (text "a" ∷ text "b" ∷ []) 2 (omega arith)
      (refl, (refl, tt))

abbrev failing : Round
failing = record {
  cancelled_before = false;
  subscribed = true;
  fails = true;
  cancelled_behind = false;
  cancelled_waiting = false;
}

run_stream-AreCalls_example : AreCalls from_history (run_stream (failing ∷ failing ∷ []))
run_stream-AreCalls_example = run_stream-AreCalls (failing ∷ failing ∷ [])

abbrev no_result : BuildResult
no_result = record {
  raw_log = [];
  steps = [];
  timing = no_timing;
  cached_steps = pos 0;
  total_steps = pos 0;
  dependencies = [];
  results = [];
  tags = [];
}

-- A history that enriches nothing.
abbrev silent : History
silent = record {
  contexts = record {
    is_abs = λ path. false;
    exists = λ path. false;
    normalize_dockerfile = λ path dockerfile. dockerfile;
    parse_output = λ logs. no_result;
    enrich_result = λ build. no_result;
  };
  inspect = λ ref. none;
  logs = λ ref. none;
  artifacts = λ ref platform. none;
  git = λ path. ([], []);
  clock = record { parse_duration = λ value. none; between = λ from to. none };
  now = text "2026-01-06T00:00:00Z";
  platform = text "linux/arm64";
  decimal = λ n. text "9";
}

abbrev core : Core
core = record {
  builds =
      record (fresh_build (text "history-1") [] (text "app") [] [] [] []) {
        history_ref = text "b1";
      }
      ∷ [];
  build_seq = 1;
  file = none;
  can_write = true;
  skipped = [];
}

abbrev listed : Row
listed = record {
  id = [];
  ref = text "default/default/b2";
  name = text "app";
  name_lower = [];
  status = text "Completed";
  status_lower = [];
  created_at = [];
  created_at_lower = [];
  completed_at = [];
  duration = [];
  cached_steps = pos 0;
  total_steps = pos 0;
}

sync_build_history-NoRepeat_example :
    NoRepeat (refs (sync_build_history silent (listed ∷ []) core).builds)
unfolding is_empty
sync_build_history-NoRepeat_example =
    sync_build_history-NoRepeat silent (listed ∷ []) core (refl, tt)
      (λ b c i j same. elim i [
        | inl e ↦ elim j [
          | inl f ↦ ap (λ (x : Build). x.history_ref) (e ∙ sym f)
          | inr f ↦ elim f [ ]
        ]
        | inr e ↦ elim e [ ]
      ])
