-- ===== src/Config/Defaults.antt =====
-- backend/internal/config/config.go: the defaults that are filled in when the configuration is read
-- and when it is saved; config.yaml: their values.
pub mod Stable
use calf.Common.{ℕ, Bool, true, false, not, ◌||◌, if◌then◌else◌, [], ℤ, pos, negsuc, lt_int}
use calf.Strings.{Text, text, text_eq, is_empty}
use calf.Config.Update.{Config, resource_saver_timeout_min_sec, resource_saver_timeout_max_sec}

abbrev pub default_listen_addr : Text
default_listen_addr = text "127.0.0.1:8765"

-- A number that is 0 or less is not set.
abbrev pub or_default : ℤ → ℤ → ℤ
or_default n d = if lt_int (pos 0) n then n else d

abbrev pub or_default_text : Text → Text → Text
or_default_text s d = if is_empty s then d else s

unfoldable pub default_addr : Text → Text
default_addr addr =
    let set = or_default_text addr default_listen_addr in
    if text_eq set (text ":8765") || text_eq set (text "0.0.0.0:8765")
    then default_listen_addr
    else set

unfoldable pub clamp_timeout : ℤ → ℤ
clamp_timeout n =
    let low =
      if lt_int n resource_saver_timeout_min_sec then resource_saver_timeout_min_sec else n in
    if lt_int resource_saver_timeout_max_sec low then resource_saver_timeout_max_sec else low

-- `defaults` is what `defaultFromYAML` reads.
unfoldable pub with_defaults : Config → Config → Config
unfolding default_addr clamp_timeout
with_defaults defaults cfg = record cfg {
  listen_addr = default_addr cfg.listen_addr;
  log_level = or_default_text cfg.log_level defaults.log_level;
  vm_name = or_default_text cfg.vm_name (text "calf");
  poll_interval_ms = or_default cfg.poll_interval_ms (pos 3000);
  cpus = or_default cfg.cpus defaults.cpus;
  memory_gb = or_default cfg.memory_gb defaults.memory_gb;
  memory_swap_gb = or_default cfg.memory_swap_gb defaults.memory_swap_gb;
  disk_gb = or_default cfg.disk_gb defaults.disk_gb;
  resource_saver_timeout_sec =
      clamp_timeout (or_default cfg.resource_saver_timeout_sec defaults.resource_saver_timeout_sec);
}

-- config.yaml
abbrev pub default_from_yaml : Config
default_from_yaml = record {
  listen_addr = text "127.0.0.1:8765";
  log_level = text "info";
  vm_name = text "calf";
  docker_socket = [];
  poll_interval_ms = pos 3000;
  docker_context_managed = true;
  cpus = pos 4;
  memory_gb = pos 4;
  memory_swap_gb = pos 1;
  disk_gb = pos 100;
  disk_image = [];
  http_proxy = [];
  https_proxy = [];
  no_proxy = [];
  vm_keep_alive = true;
  rootless = true;
  resource_saver_enabled = true;
  resource_saver_timeout_sec = pos 300;
}
