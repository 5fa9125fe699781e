-- ===== src/Api/ConfigPut.antt =====
-- backend/internal/api/config.go: the update of the configuration by PUT /v1/config, and `Save` of
-- backend/internal/config/config.go.
pub mod Saved
use calf.Common.{
  ℕ, Bool, true, false, not, ◌&&◌, ◌||◌, Option, none, some, List, [], ◌∷◌, if◌then◌else◌, ℤ, pos,
  lt_int, Result, ok, err, ◌>>=◌, ◌>>◌, guard,
}
use calf.Strings.{Text, text, text_eq, is_empty, trim_space, to_lower}
use calf.Config.Paths.{Paths, expand_home_path, default_disk_image_path}
use calf.Config.Update.{
  UpdateRequest, Config, ResourceError, proxy_update_changed, validate_resource_update,
}
use calf.Config.Proxy.{Net, ProxyField, ProxyError, validate_proxy_update}
use calf.Config.Defaults.{with_defaults}

-- What the handler asks of the host: its paths, the texts that Go's net reads, the capacities,
-- whether the runtime is the native one, the error of writing the file, and the values of config.yaml.
pub record Host : Type 0 where
  pub paths : Paths
  pub net : Net
  pub host_cpus : ℤ
  pub host_memory_gb : ℤ
  pub host_disk_gb : ℤ
  pub is_native : Bool
  pub write_error : Option Text
  pub defaults : Config

-- The configuration of the daemon, and the one in the file.
pub record Stored : Type 0 where
  pub cfg : Config
  pub file : Config

-- The errors of the handler: 400 for the first three, 409 and 500.
pub data PutError : Type 0 where
  bad_proxy : ProxyField × ProxyError → PutError
  bad_log_level rootless_conflict : PutError
  bad_resource : ResourceError → PutError
  save_failed : Text → PutError

unfoldable pub normalize_log_level : Text → Option Text
normalize_log_level level =
    let l = to_lower (trim_space level) in
    if text_eq l (text "debug")
    then some (text "debug")
    else if text_eq l (text "info")
    then some (text "info")
    else if text_eq l (text "warn") || text_eq l (text "warning")
    then some (text "warn")
    else if text_eq l (text "error")
    then some (text "error")
    else none

abbrev pub set_or {ℓ} : {A : Type ℓ} → Option A → A → A
set_or none old = old
set_or (some new) old = new

abbrev pub set_trimmed : Option Text → Text → Text
set_trimmed none old = old
set_trimmed (some new) old = trim_space new

abbrev pub set_disk_image : Paths → Text → Option Text → Text → Text
set_disk_image p vm_name none old = old
set_disk_image p vm_name (some v) old =
    let path = trim_space v in
    let expanded = expand_home_path p path in
    if is_empty path
    then []
    else if text_eq expanded (default_disk_image_path p vm_name)
    then []
    else expanded

-- The fields in front of the log level.
unfoldable pub merge_update : Paths → UpdateRequest → Config → Config
merge_update p req c = record c {
  cpus = set_or req.cpus c.cpus;
  memory_gb = set_or req.memory_gb c.memory_gb;
  memory_swap_gb = set_or req.memory_swap_gb c.memory_swap_gb;
  disk_gb = set_or req.disk_gb c.disk_gb;
  disk_image = set_disk_image p c.vm_name req.disk_image c.disk_image;
  docker_context_managed = set_or req.docker_context_managed c.docker_context_managed;
  rootless = set_or req.rootless c.rootless;
  http_proxy = set_trimmed req.http_proxy c.http_proxy;
  https_proxy = set_trimmed req.https_proxy c.https_proxy;
  no_proxy = set_trimmed req.no_proxy c.no_proxy;
  resource_saver_enabled = set_or req.resource_saver_enabled c.resource_saver_enabled;
  resource_saver_timeout_sec = set_or req.resource_saver_timeout_sec c.resource_saver_timeout_sec;
}

-- `config.Save`: what is written is the configuration with its defaults filled in.
abbrev pub save_config :
    Config → Option Text → Stored → Config → Stored × Result PutError (Unit {0})
save_config defaults none d c = (record d { cfg = c; file = with_defaults defaults c }, ok tt)
save_config defaults (some fault) d c = (record d { cfg = c }, err (save_failed fault))

abbrev pub set_level : Host → Stored → Config → Option Text → Stored × Result PutError (Unit {0})
set_level h d c none = (record d { cfg = c }, err bad_log_level)
set_level h d c (some level) =
    save_config h.defaults h.write_error d (record c { log_level = level })

abbrev pub with_level : Host → Stored → Config → Option Text → Stored × Result PutError (Unit {0})
with_level h d c none = save_config h.defaults h.write_error d c
with_level h d c (some level) = set_level h d c (normalize_log_level level)

unfoldable pub apply_config_update :
    Host → UpdateRequest → Stored → Stored × Result PutError (Unit {0})
unfolding normalize_log_level
apply_config_update h req d = with_level h d (merge_update h.paths req d.cfg) req.log_level

abbrev pub check_level : Option Text → Result PutError (Unit {0})
check_level none = ok tt
check_level (some level) = elim (normalize_log_level level) [
  | none ↦ err bad_log_level
  | some l ↦ ok tt
]

abbrev pub check_rootless : Host → Bool → Option Bool → Result PutError (Unit {0})
check_rootless h current none = ok tt
check_rootless h current (some wanted) =
    let same = (wanted && current) || (not wanted && not current) in
    guard (same || not h.is_native) rootless_conflict

abbrev pub as_proxy : Result (ProxyField × ProxyError) (Unit {0}) → Result PutError (Unit {0})
as_proxy (ok u) = ok u
as_proxy (err e) = err (bad_proxy e)

abbrev pub as_resource : Result ResourceError (Unit {0}) → Result PutError (Unit {0})
as_resource (ok u) = ok u
as_resource (err e) = err (bad_resource e)

-- The checks of the handler, in its order; a disk that is larger than the host's stays right.
unfoldable pub check_put : Host → UpdateRequest → Config → Result PutError (Unit {0})
unfolding normalize_log_level
check_put h req c = do
  as_proxy (validate_proxy_update h.net req)
  check_level req.log_level
  let disk = if lt_int h.host_disk_gb c.disk_gb then c.disk_gb else h.host_disk_gb
  as_resource (validate_resource_update h.paths req h.host_cpus h.host_memory_gb disk)
  check_rootless h c.rootless req.rootless

abbrev pub put_checked :
    Host → UpdateRequest → Stored → Result PutError (Unit {0}) → Stored × Result PutError (Unit {0})
put_checked h req d (ok u) = apply_config_update h req d
put_checked h req d (err e) = (d, err e)

-- The handler behind the decoded request, up to the answer. The proxies are applied to the runtime in
-- the background afterwards, where `proxy_update_changed` says so.
unfoldable pub handle_config_put :
    Host → UpdateRequest → Stored → Stored × Result PutError (Unit {0})
handle_config_put h req d = put_checked h req d (check_put h req d.cfg)
