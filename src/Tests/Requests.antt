-- ===== src/Tests/Requests.antt =====
-- Examples of the handlers of requests, and of what they parse.
use calf.Common.{
  arith, inl, inr, length, ◌+◌, ◌<◌, ℕ, ◌≤◌, ◌≡◌, ◌↔◌, refl, true, false, none, some, List, [], ◌∷◌,
  ◌++◌, pos, ok, All, keep,
}
use calf.Config.LogFile.{write, or_new, daemon_log_max_bytes}
use calf.Config.LogFile.Bounds.{no_faults, opened, write_lem}
use calf.Strings.{Text, text, text_eq, is_empty, trim_prefix, has_prefix, skip, split, glue}
use calf.Config.Paths.{Paths}
use calf.Config.Update.{UpdateRequest, validate_resource_update}
use calf.Config.Update.Ranges.{Fits, validate_resource_update_iff}
use calf.Config.Proxy.{Net, is_valid_domain, validate_proxy_update}
use calf.Config.Proxy.Domain.{IsLabel, is_valid_domain_iff}
use calf.Config.Defaults.{default_from_yaml}
use calf.Api.ConfigPut.{Host, Stored, check_put, handle_config_put}
use calf.Api.ConfigPut.Saved.{IsSaved, handle_config_put-IsSaved, handle_config_put-swap_zero}
use calf.BuildHistory.{Row, merge_rows}
use calf.BuildHistory.Merge.{AreNew, merge_rows-once}
use calf.HttpKit.Route.{
  Route, handled, path_parts, serve_routes, trim_slashes, trim_slash_left, trim_slash_right,
  trim_slash_suffix,
}
use calf.HttpKit.Route.Paths.{IsSegment}
use calf.HttpKit.Route.Rounds.{join_segments, path_parts-join_segments}
use calf.HttpKit.Route.Dispatch.{IsTaken, serve_routes-first}
use calf.Runtime.ContainerGhosts.{
  is_docker_container_id, corrupt_container_wipe_script, collect_empty_name_container_ids,
  script_end,
}
use calf.Runtime.ContainerGhosts.Safe.{
  IsContainerId, Fresh, wipe_texts, corrupt_container_wipe_script-IsContainerId,
  collect_empty_name_container_ids-Fresh,
}

abbrev paths : Paths
paths = record { home = none; join = λ parts. []; is_abs = λ path. true }

-- A request that asks for two processors and no swap memory.
abbrev update : UpdateRequest
update = record {
  cpus = some (pos 2);
  memory_gb = none;
  memory_swap_gb = some (pos 0);
  disk_gb = none;
  disk_image = none;
  docker_context_managed = none;
  rootless = none;
  http_proxy = none;
  https_proxy = none;
  no_proxy = none;
  resource_saver_enabled = none;
  resource_saver_timeout_sec = none;
  log_level = none;
}

abbrev net : Net
net = record {
  parse_url = λ s. none;
  parse_cidr = λ s. false;
  parse_ip = λ s. false;
  split_host_port = λ s. none;
}

abbrev host : Host
host = record {
  paths = paths;
  net = net;
  host_cpus = pos 8;
  host_memory_gb = pos 16;
  host_disk_gb = pos 500;
  is_native = false;
  write_error = none;
  defaults = default_from_yaml;
}

abbrev stored : Stored
stored = record { cfg = default_from_yaml; file = default_from_yaml }

update-accepted : check_put host update default_from_yaml ≡ ok tt
unfolding check_put validate_proxy_update validate_resource_update
update-accepted = refl

handle_config_put-IsSaved_example : IsSaved host update (handle_config_put host update stored)
handle_config_put-IsSaved_example =
    handle_config_put-IsSaved host update stored refl update-accepted

handle_config_put-swap_zero_example :
    ((handle_config_put host update stored).0.cfg.memory_swap_gb ≡ pos 0)
    × ((handle_config_put host update stored).0.file.memory_swap_gb ≡ pos 1)
handle_config_put-swap_zero_example =
    handle_config_put-swap_zero host update stored refl update-accepted refl

validate_resource_update_iff_example :
    (validate_resource_update paths update (pos 8) (pos 16) (pos 500) ≡ ok tt)
    ↔ Fits paths update (pos 8) (pos 16) (pos 500)
validate_resource_update_iff_example =
    validate_resource_update_iff paths update (pos 8) (pos 16) (pos 500)

is_valid_domain_iff_example :
    (is_valid_domain (text "my-host.local") ≡ true)
    ↔ ((1 ≤ 13) × (13 ≤ 253) × All IsLabel (split b'.' (text "my-host.local")))
is_valid_domain_iff_example = is_valid_domain_iff (text "my-host.local")

abbrev logs : Route ℕ
logs = record { segments = text "logs" ∷ []; method = text "GET"; handler = 1 }

abbrev anything : Route ℕ
anything = record { segments = text "*" ∷ []; method = []; handler = 2 }

abbrev get_method : Text
get_method = text "GET"

stats-parts :
    path_parts (text "/v1/containers/c1/stats") (text "/v1/containers/")
    ≡ text "c1" ∷ text "stats" ∷ []
unfolding path_parts trim_slashes trim_slash_left trim_slash_right trim_slash_suffix text_eq
    has_prefix trim_prefix skip is_empty split glue
stats-parts = refl

logs-not-IsTaken : ¬ IsTaken get_method (text "stats" ∷ []) logs
logs-not-IsTaken ((inl e, rest), right) = cc
logs-not-IsTaken ((inr e, rest), right) = cc

serve_routes-first_example :
    serve_routes
      (text "/v1/containers/")
      get_method
      (text "/v1/containers/c1/stats")
      (logs ∷ anything ∷ [])
      []
    ≡ handled 2 (text "c1" ∷ text "stats" ∷ [])
serve_routes-first_example =
    serve_routes-first (text "/v1/containers/") get_method (text "/v1/containers/c1/stats")
      (text "c1") (text "stats" ∷ []) (logs ∷ []) [] anything [] (λ e. cc) stats-parts
      (logs-not-IsTaken, tt) ((inl refl, tt), inl refl)

abbrev built : Row
built = record {
  id = [];
  ref = text "default/default/b1";
  name = text "app";
  name_lower = [];
  status = [];
  status_lower = [];
  created_at = [];
  created_at_lower = [];
  completed_at = [];
  duration = [];
  cached_steps = pos 0;
  total_steps = pos 3;
}

merge_rows-once_example :
    AreNew (text "b0" ∷ []) (merge_rows (text "b0" ∷ []) (built ∷ built ∷ [])).0
    × (merge_rows (merge_rows (text "b0" ∷ []) (built ∷ built ∷ [])).1 (built ∷ built ∷ [])
        ≡ ([], (merge_rows (text "b0" ∷ []) (built ∷ built ∷ [])).1))
merge_rows-once_example = merge_rows-once (text "b0" ∷ []) (built ∷ built ∷ [])

abbrev ghosts : List Text
ghosts = text "0123456789ab" ∷ text "x; rm -rf /" ∷ []

corrupt_container_wipe_script-IsContainerId_example :
    (corrupt_container_wipe_script ghosts
      ≡ text "set +e\n" ++ wipe_texts (keep is_docker_container_id ghosts) ++ script_end)
    × All IsContainerId (keep is_docker_container_id ghosts)
corrupt_container_wipe_script-IsContainerId_example =
    corrupt_container_wipe_script-IsContainerId ghosts

collect_empty_name_container_ids-Fresh_example :
    Fresh [] (
      collect_empty_name_container_ids (text "0123456789ab\t\n0123456789ab\t\nfedcba987654\tweb\n"))
collect_empty_name_container_ids-Fresh_example =
    collect_empty_name_container_ids-Fresh
      (text "0123456789ab\t\n0123456789ab\t\nfedcba987654\tweb\n")

c1-IsSegment : IsSegment (text "c1")
unfolding is_empty
c1-IsSegment = (refl, (omega arith, (omega arith, tt)))

logs-IsSegment : IsSegment (text "logs")
unfolding is_empty
logs-IsSegment = (refl, (omega arith, (omega arith, (omega arith, (omega arith, tt)))))

path_parts-join_segments_example :
    path_parts
      ((trim_slash_suffix (text "/v1/containers/") ++ text "/")
        ++ join_segments (text "c1" ∷ text "logs" ∷ []))
      (text "/v1/containers/")
    ≡ text "c1" ∷ text "logs" ∷ []
path_parts-join_segments_example =
    path_parts-join_segments (text "/v1/containers/") (text "c1") (text "logs" ∷ [])
      (c1-IsSegment, (logs-IsSegment, tt))

write_lem_example :
    (write no_faults (b'l' ∷ 10 ∷ []) (opened (b'o' ∷ 10 ∷ []) none)
      ≡ (opened (b'o' ∷ 10 ∷ b'l' ∷ 10 ∷ []) none, ok tt))
    × (length (or_new (write no_faults (b'l' ∷ 10 ∷ []) (opened (b'o' ∷ 10 ∷ []) none)).0.current)
        < daemon_log_max_bytes + 2)
write_lem_example = write_lem (b'o' ∷ 10 ∷ []) none (b'l' ∷ 10 ∷ []) (omega arith)
