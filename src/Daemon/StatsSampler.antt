-- ===== src/Daemon/StatsSampler.antt =====
-- backend/internal/daemon/stats_sampler.go: one round of samples. The engine's answers are parameters: its
-- state and its list are none behind an error, and so are the stats of a container.
use calf.Common.{ℕ, not, Option, none, some, List, [], ◌∷◌, if◌then◌else◌}
use calf.Strings.{Text, text, text_eq, is_empty, trim_space, to_lower}
use calf.Runtime.Types.{Container}
use calf.Daemon.StatsHistory.{StatsHistory, ContainerStats, append, retain_only}

abbrev pub append_stats : Text → Option ContainerStats → ℕ → StatsHistory → StatsHistory
append_stats id none now history = history
append_stats id (some stats) now history = append history id stats now

-- The loop over the containers, and the keys of its map.
abbrev pub sample_containers :
    (Text → Option ContainerStats) → ℕ → List Container → StatsHistory → StatsHistory
sample_containers stats_of now [] history = history
sample_containers stats_of now (container ∷ containers) history =
    let id = trim_space container.id in
    let skip = sample_containers stats_of now containers history in
    let sampled =
      sample_containers stats_of now containers (append_stats id (stats_of id) now history) in
    if is_empty id
    then skip
    else if not (text_eq (to_lower (trim_space container.state)) (text "running"))
    then skip
    else sampled

abbrev pub listed_ids : List Container → List Text
listed_ids [] = []
listed_ids (container ∷ containers) =
    let id = trim_space container.id in
    let rest = listed_ids containers in if is_empty id then rest else id ∷ rest

abbrev pub sample_listed :
    (Text → Option ContainerStats) → ℕ → Option (List Container) → StatsHistory → StatsHistory
sample_listed stats_of now none history = history
sample_listed stats_of now (some containers) history =
    retain_only (sample_containers stats_of now containers history) (listed_ids containers)

abbrev pub sample_state :
    Option Text
    → Option (List Container)
    → (Text → Option ContainerStats)
    → ℕ
    → StatsHistory
    → StatsHistory
sample_state none listed stats_of now history = history
sample_state (some state) listed stats_of now history =
    if text_eq state (text "running") then sample_listed stats_of now listed history else history

-- `sampleContainerStats`
unfoldable pub sample_container_stats :
    Option Text
    → Option (List Container)
    → (Text → Option ContainerStats)
    → ℕ
    → StatsHistory
    → StatsHistory
unfolding append retain_only
sample_container_stats state listed stats_of now history =
    sample_state state listed stats_of now history
