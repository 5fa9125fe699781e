-- ===== src/Daemon/ResourceSnapshot.antt =====
-- backend/internal/daemon/resource_snapshot.go: the lists that are served while the engine is stopped by
-- the Resource Saver. An error is its message.
pub mod Last
use calf.Common.{
  Bool, true, false, not, Option, none, some, List, [], if◌then◌else◌, Result, ok, err,
}
use calf.Strings.{Text, text, text_eq}
use calf.Runtime.Types.{Container, Image, Volume, Network}

pub record ResourceSnapshot : Type 0 where
  pub containers : List Container
  pub images : List Image
  pub volumes : List Volume
  pub networks : List Network

-- What the engine lists.
pub record Lists : Type 0 where
  pub containers : Result Text (List Container)
  pub images : Result Text (List Image)
  pub volumes : Result Text (List Volume)
  pub networks : Result Text (List Network)

-- An error leaves the list as it was.
abbrev pub replace_unless : {A : Type 0} → Result Text (List A) → List A → List A
replace_unless (ok items) cached = items
replace_unless (err message) cached = cached

unfoldable pub capture_resource_snapshot : Lists → ResourceSnapshot → ResourceSnapshot
capture_resource_snapshot live s = record {
  containers = replace_unless live.containers s.containers;
  images = replace_unless live.images s.images;
  volumes = replace_unless live.volumes s.volumes;
  networks = replace_unless live.networks s.networks;
}

abbrev pub clear_resource_snapshot : ResourceSnapshot
clear_resource_snapshot = record { containers = []; images = []; volumes = []; networks = [] }

-- The state of the engine, none behind an error.
abbrev pub is_not_running : Option Text → Bool
is_not_running none = true
is_not_running (some state) = not (text_eq state (text "running"))

unfoldable pub serve_resource_snapshot : Bool → Option Text → Bool
serve_resource_snapshot active state = if not active then false else is_not_running state

-- A call of `listSnapshot`: whether the saver is active, the engine's state, and its list.
pub record Request (A : Type 0) : Type 0 where
  pub active : Bool
  pub state : Option Text
  pub live : Result Text (List A)

abbrev pub store_live : {A : Type 0} → Result Text (List A) → List A → List A × Result Text (List A)
store_live (ok items) cached = (items, ok items)
store_live (err message) cached = (cached, err message)

-- `listSnapshot`, on the list that its two functions read and write.
unfoldable pub list_snapshot : {A : Type 0} → Request A → List A → List A × Result Text (List A)
unfolding serve_resource_snapshot
list_snapshot x cached =
    if serve_resource_snapshot x.active x.state
    then (cached, ok cached)
    else store_live x.live cached

-- `ListContainers`, `ListImages`, `ListVolumes` and `ListNetworks`.
unfoldable pub snapshot_containers :
    Request Container → ResourceSnapshot → ResourceSnapshot × Result Text (List Container)
unfolding list_snapshot
snapshot_containers x s =
    let (cached, result) = list_snapshot x s.containers in
    (record s { containers = cached }, result)

unfoldable pub snapshot_images :
    Request Image → ResourceSnapshot → ResourceSnapshot × Result Text (List Image)
unfolding list_snapshot
snapshot_images x s =
    let (cached, result) = list_snapshot x s.images in (record s { images = cached }, result)

unfoldable pub snapshot_volumes :
    Request Volume → ResourceSnapshot → ResourceSnapshot × Result Text (List Volume)
unfolding list_snapshot
snapshot_volumes x s =
    let (cached, result) = list_snapshot x s.volumes in (record s { volumes = cached }, result)

unfoldable pub snapshot_networks :
    Request Network → ResourceSnapshot → ResourceSnapshot × Result Text (List Network)
unfolding list_snapshot
snapshot_networks x s =
    let (cached, result) = list_snapshot x s.networks in (record s { networks = cached }, result)
