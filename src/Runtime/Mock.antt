-- ===== src/Runtime/Mock.antt =====
-- backend/internal/runtime/mock.go: the engine of the tests, a state machine. Each call holds the lock,
-- or runs alone; an error value is its message.
pub mod Calls
pub mod Lists
pub mod Resources
pub mod Prune
pub mod Pruned
use calf.Common.{
  ℕ, suc, Bool, true, false, not, ◌||◌, Option, none, some, List, [], ◌∷◌, ◌++◌, if◌then◌else◌,
  keep, find, map, ℤ, pos, Result, ok, err,
}
use calf.Strings.{Text, text, text_eq, is_empty}
use calf.Runtime.Types.{Container, Image, Volume, Network, Status}

pub record Mock : Type 0 where
  pub status_value : Status
  pub containers : List Container
  pub images : List Image
  pub volumes : List Volume
  pub networks : List Network
  pub start_err : Option Text
  pub stop_err : Option Text
  pub status_err : Option Text
  pub containers_err : Option Text
  pub images_err : Option Text
  pub container_err : Option Text
  pub export_volume_err : Option Text
  pub image_err : Option Text
  pub networks_err : Option Text
  pub network_err : Option Text
  pub log_lines : List Text
  pub started : Bool
  pub registry_logged_in : Bool
  pub build_cache_bytes : ℤ
  pub apply_proxy_calls : ℕ

-- The configured errors, and those of the calls themselves.
pub data MockError : Type 0 where
  fault : Text → MockError
  runtime_not_running network_not_found prune_category_required : MockError
  volume_not_found volume_exists unsupported_export_type : Text → MockError
  folder_required image_ref_required credentials_required : MockError

-- `constants.RuntimeStateRunning` and `RuntimeStateStopped`.
abbrev pub runtime_state_running : Text
runtime_state_running = text "running"

abbrev pub runtime_state_stopped : Text
runtime_state_stopped = text "stopped"

unfoldable pub new_mock : Mock
new_mock = record {
  status_value = record {
    mode = text "vm";
    state = runtime_state_running;
    docker_socket = text "/tmp/calf-test.sock";
    rootless = false;
    vm_name = text "calf";
    port_conflicts = [];
    log = [];
  };
  containers =
      record {
        id = text "abc123";
        name = text "hello";
        image = text "hello-world";
        state = text "running";
        status = text "Up 1 minute";
        ports = [];
        created = [];
        compose_project = [];
        compose_service = [];
      }
      ∷ [];
  images =
      record {
        id = text "def456";
        repository = text "hello-world";
        tag = text "latest";
        size = text "10MB";
        created = [];
      }
      ∷ [];
  volumes =
      record {
        name = text "calf-data";
        driver = text "local";
        in_use = false;
        size = [];
        created = [];
      }
      ∷ [];
  networks =
      record {
        id = text "9d1ce4c80488";
        name = text "bridge";
        driver = text "bridge";
        scope = text "local";
        subnet = text "192.168.215.0/24";
        created = text "9 months ago";
      }
      ∷ [];
  start_err = none;
  stop_err = none;
  status_err = none;
  containers_err = none;
  images_err = none;
  container_err = none;
  export_volume_err = none;
  image_err = none;
  networks_err = none;
  network_err = none;
  log_lines = text "hello" ∷ text "world" ∷ [];
  started = false;
  registry_logged_in = false;
  build_cache_bytes = pos 0;
  apply_proxy_calls = 0;
}

unfoldable pub is_running : Mock → Bool
is_running m = text_eq m.status_value.state runtime_state_running

-- A call that changes the mock: its state behind the call, and the error.
abbrev pub Outcome : Type 0
Outcome = Mock × Result MockError Unit

-- `if m.SomeErr != nil { return m.SomeErr }`
abbrev pub unless : Option Text → Mock → Mock → Outcome
unless none before after = (after, ok tt)
unless (some message) before after = (before, err (fault message))

-- `if the runtime does not run { return ErrRuntimeNotRunning }`
abbrev pub when_running : Mock → Outcome → Outcome
when_running m next = if not (is_running m) then (m, err runtime_not_running) else next

abbrev pub set_state : Mock → Bool → Text → Mock
set_state m started state = record m {
  started = started;
  status_value = record m.status_value { state = state };
}

-- How the wait on `StartHold` ends: there is none, it is released, or the context ends with an error.
pub data Hold : Type 0 where
  no_hold released : Hold
  context_done : Text → Hold

abbrev pub behind_hold : Hold → Mock → Outcome
behind_hold no_hold m = (set_state m true runtime_state_running, ok tt)
behind_hold released m = (set_state m true runtime_state_running, ok tt)
behind_hold (context_done message) m = (m, err (fault message))

-- The error is read before the wait.
abbrev pub start_from : Option Text → Hold → Mock → Outcome
start_from (some message) hold m = (m, err (fault message))
start_from none hold m = behind_hold hold m

unfoldable pub start : Hold → Mock → Outcome
start hold m = start_from m.start_err hold m

unfoldable pub stop : Mock → Outcome
stop m = unless m.stop_err m (set_state m false runtime_state_stopped)

unfoldable pub force_stop : Mock → Outcome
unfolding stop
force_stop m = stop m

abbrev pub local_volume : Text → Text → Volume
local_volume name driver = record {
  name = name;
  driver = driver;
  in_use = false;
  size = [];
  created = [];
}

unfoldable pub create_volume : Text → Mock → Outcome
create_volume name m =
    unless m.container_err m
      (record m { volumes = m.volumes ++ (local_volume name (text "local") ∷ []) })

-- The first volume of a name.
unfoldable pub find_volume : Text → List Volume → Option Volume
find_volume name volumes = find (λ volume. text_eq volume.name name) volumes

abbrev pub clone_from : Option Volume → Option Volume → Text → Text → Mock → Outcome
clone_from none other source dest m = (m, err (volume_not_found source))
clone_from (some volume) (some other) source dest m = (m, err (volume_exists dest))
clone_from (some volume) none source dest m =
    (record m { volumes = m.volumes ++ (local_volume dest volume.driver ∷ []) }, ok tt)

abbrev pub clone_unless : Option Text → Text → Text → Mock → Outcome
clone_unless (some message) source dest m = (m, err (fault message))
clone_unless none source dest m =
    clone_from (find_volume source m.volumes) (find_volume dest m.volumes) source dest m

unfoldable pub clone_volume : Text → Text → Mock → Outcome
unfolding find_volume
clone_volume source dest m = clone_unless m.container_err source dest m

unfoldable pub remove_volume : Text → Mock → Outcome
remove_volume name m =
    unless m.container_err m
      (record m { volumes = keep (λ volume. not (text_eq volume.name name)) m.volumes })
