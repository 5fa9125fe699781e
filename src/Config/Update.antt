-- ===== src/Config/Update.antt =====
-- backend/internal/config/validate_proxy.go: the update request, and the checks on its resources.
pub mod Ranges
use calf.Common.{
  ℕ, Bool, true, false, not, ◌&&◌, ◌||◌, Option, none, some, List, [], ◌∷◌, if◌then◌else◌, ℤ, pos,
  negsuc, lt_int, eq_int, Result, ok, err, ◌>>=◌, ◌>>◌, guard,
}
use calf.Config.Paths.{Paths, expand_home_path}
use calf.Strings.{Text, text, text_eq, is_empty, trim_space}

pub record UpdateRequest : Type 0 where
  pub cpus : Option ℤ
  pub memory_gb : Option ℤ
  pub memory_swap_gb : Option ℤ
  pub disk_gb : Option ℤ
  pub disk_image : Option Text
  pub docker_context_managed : Option Bool
  pub rootless : Option Bool
  pub http_proxy : Option Text
  pub https_proxy : Option Text
  pub no_proxy : Option Text
  pub resource_saver_enabled : Option Bool
  pub resource_saver_timeout_sec : Option ℤ
  pub log_level : Option Text

pub record Config : Type 0 where
  pub listen_addr : Text
  pub log_level : Text
  pub vm_name : Text
  pub docker_socket : Text
  pub poll_interval_ms : ℤ
  pub docker_context_managed : Bool
  pub cpus : ℤ
  pub memory_gb : ℤ
  pub memory_swap_gb : ℤ
  pub disk_gb : ℤ
  pub disk_image : Text
  pub http_proxy : Text
  pub https_proxy : Text
  pub no_proxy : Text
  pub vm_keep_alive : Bool
  pub rootless : Bool
  pub resource_saver_enabled : Bool
  pub resource_saver_timeout_sec : ℤ

-- constants.go
abbrev pub resource_saver_timeout_min_sec : ℤ
resource_saver_timeout_min_sec = pos 30

abbrev pub resource_saver_timeout_max_sec : ℤ
resource_saver_timeout_max_sec = pos 3600

-- The field of the request and the range that the message names.
pub data ResourceError : Type 0 where
  cpus memory_gb memory_swap_gb disk_gb timeout : ℤ → ℤ → ResourceError
  disk_image : ResourceError

abbrev pub proxy_changed : Option Text → Text → Bool
proxy_changed none current = false
proxy_changed (some v) current = not (text_eq (trim_space v) current)

unfoldable pub proxy_update_changed : UpdateRequest → Config → Bool
proxy_update_changed req current =
    proxy_changed req.http_proxy current.http_proxy
    || proxy_changed req.https_proxy current.https_proxy
    || proxy_changed req.no_proxy current.no_proxy

abbrev pub at_least_one : ℤ → ℤ
at_least_one n = if lt_int n (pos 1) then pos 1 else n

-- The check of one number: no number in the request is right.
abbrev pub check_range :
    (ℤ → ℤ → ResourceError) → ℤ → ℤ → Option ℤ → Result ResourceError (Unit {0})
check_range e low high none = ok tt
check_range e low high (some n) = guard (not (lt_int n low || lt_int high n)) (e low high)

abbrev pub check_disk_image : Paths → Option Text → Result ResourceError (Unit {0})
check_disk_image paths none = ok tt
check_disk_image paths (some v) =
    let path = trim_space v in
    guard (is_empty path || paths.is_abs (expand_home_path paths path)) disk_image

unfoldable pub validate_resource_update :
    Paths → UpdateRequest → ℤ → ℤ → ℤ → Result ResourceError (Unit {0})
validate_resource_update paths req host_cpus host_memory_gb host_disk_gb = do
  check_range cpus (pos 1) (at_least_one host_cpus) req.cpus
  check_range memory_gb (pos 1) (at_least_one host_memory_gb) req.memory_gb
  check_range memory_swap_gb (pos 0) (at_least_one host_memory_gb) req.memory_swap_gb
  check_range disk_gb (pos 1) (at_least_one host_disk_gb) req.disk_gb
  check_disk_image paths req.disk_image
  check_range timeout resource_saver_timeout_min_sec resource_saver_timeout_max_sec
      req.resource_saver_timeout_sec
