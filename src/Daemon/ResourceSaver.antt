-- ===== src/Daemon/ResourceSaver.antt =====
-- backend/internal/daemon/resource_saver.go: the worker that stops the engine when it is idle, and
-- `EnterResourceSaver` of resource_snapshot.go.
pub mod Idle
use calf.Common.{
  ℕ, ◌+◌, ◌-◌, ◌*◌, Bool, true, false, not, ◌&&◌, ◌||◌, Option, none, some, List, [], ◌∷◌, ltb, leb,
  ◌==◌, any, if◌then◌else◌, ℤ, pos, negsuc, lt_int,
}
use calf.Strings.{Text, text, text_eq, trim_space, to_lower, has_prefix}
use calf.VolumeExport.Time.{second}

-- `runtime.Container`, as far as the worker reads it.
pub record Container : Type 0 where
  pub state : Text
  pub status : Text

-- `idle_at` is 0 for Go's zero time.
pub record ResourceSaver : Type 0 where
  pub active : Bool
  pub idle_at : ℕ

-- What one tick reads: the configuration, the state of the runtime and its containers, none where the
-- call fails, the time, and whether the engine cannot be stopped.
pub record Reading : Type 0 where
  pub enabled : Bool
  pub timeout_sec : ℤ
  pub state : Option Text
  pub containers : Option (List Container)
  pub now : ℕ
  pub stop_fails : Bool

unfoldable pub clear : ResourceSaver → ResourceSaver
clear r = record { active = false; idle_at = 0 }

unfoldable pub mark_active : ResourceSaver → ResourceSaver
mark_active r = record { active = true; idle_at = 0 }

abbrev pub is_running : Container → Bool
is_running c =
    text_eq (to_lower (trim_space c.state)) (text "running")
    || has_prefix (to_lower (trim_space c.status)) (text "up")

unfoldable pub has_running_container : List Container → Bool
has_running_container containers = any is_running containers

-- The idle time that is asked for, in seconds.
unfoldable pub timeout_of : ℤ → ℕ
timeout_of (pos n) = if ltb n 30 then 30 else n
timeout_of (negsuc n) = 30

-- `EnterResourceSaver`, behind the snapshot of the lists; the Boolean says whether the engine stopped.
unfoldable pub enter_resource_saver : ResourceSaver → Bool → ResourceSaver × Bool
unfolding clear mark_active
enter_resource_saver r stop_fails =
    let marked = mark_active r in if stop_fails then (clear marked, false) else (marked, true)

-- The tick where the engine runs and no container does.
unfoldable pub tick_idle : ResourceSaver → Reading → ResourceSaver × Bool
unfolding timeout_of
tick_idle r x =
    if r.idle_at == 0
    then (record r { idle_at = x.now }, false)
    else if r.active || ltb (x.now - r.idle_at) (timeout_of x.timeout_sec * second)
    then (r, false)
    else enter_resource_saver r x.stop_fails

abbrev pub tick_containers :
    ResourceSaver → Reading → Option (List Container) → ResourceSaver × Bool
tick_containers r x none = (r, false)
tick_containers r x (some containers) =
    if has_running_container containers
    then (record r { idle_at = 0; active = false }, false)
    else tick_idle r x

abbrev pub tick_state : ResourceSaver → Reading → Option Text → ResourceSaver × Bool
tick_state r x none = (r, false)
tick_state r x (some state) =
    if not (text_eq state (text "running"))
    then (record r { idle_at = 0 }, false)
    else tick_containers r x x.containers

-- `tick`, and whether it has stopped the engine.
unfoldable pub tick : ResourceSaver → Reading → ResourceSaver × Bool
tick r x = if not x.enabled then (record r { idle_at = 0 }, false) else tick_state r x x.state
