-- ===== src/Runtime/Mock/Lists.antt =====
-- backend/internal/runtime/mock.go: the calls that read the mock, and change nothing.
use calf.Common.{
  ℕ, Bool, true, false, not, Option, none, some, List, [], ◌∷◌, ◌++◌, if◌then◌else◌, find, map, any,
  pos, Result, ok, err,
}
use calf.Strings.{Text, text, text_eq, is_empty}
use calf.Runtime.Registry.{default_registry_server}
use calf.Runtime.Types.{
  Container, Image, Volume, Network, Status, VolumeDetail, VolumeContainerUsage, NetworkDetail,
  ContainerFileEntry, ImageLayer, RegistryStatus,
}
use calf.Runtime.Ports.{extract_host_tcp_port}
use calf.Runtime.Mock.{
  Mock, MockError, fault, runtime_not_running, network_not_found, volume_not_found,
  unsupported_export_type, folder_required, image_ref_required, is_running, find_volume,
}

-- `if err != nil { return err }` before a result.
abbrev pub unless_fault : {A : Type 0} → Option Text → Result MockError A → Result MockError A
unless_fault (some message) next = err (fault message)
unless_fault none next = next

abbrev pub or_not_running : {A : Type 0} → Mock → Result MockError A → Result MockError A
or_not_running m next = if not (is_running m) then err runtime_not_running else next

abbrev pub docker_socket : Mock → Text
docker_socket m = m.status_value.docker_socket

unfoldable pub status : Mock → Result MockError Status
status m = unless_fault m.status_err (ok m.status_value)

unfoldable pub list_containers : Mock → Result MockError (List Container)
unfolding is_running
list_containers m =
    unless_fault m.containers_err (if not (is_running m) then ok [] else ok m.containers)

unfoldable pub list_images : Mock → Result MockError (List Image)
unfolding is_running
list_images m = unless_fault m.images_err (if not (is_running m) then ok [] else ok m.images)

abbrev pub layer : ℕ → Text → Text → Text → ImageLayer
layer index created_by size created = record {
  index = index;
  created_by = created_by;
  size = size;
  created = created;
}

unfoldable pub image_history : Mock → Result MockError (List ImageLayer)
unfolding is_running
image_history m = unless_fault m.images_err (
    or_not_running m (
      ok (
        layer 0 (text "# debian.sh --arch 'arm64'") (text "104.3 MiB") (text "6 months ago")
        ∷ layer 1 (text "RUN apt-get update && apt-get install -y coturn") (text "31.7 MiB")
            (text "5 months ago")
        ∷ layer 2 (text "CMD [\"--log-file=stdout\"]") (text "0 B") (text "5 months ago")
        ∷ [])))

abbrev pub has_any : List Container → Bool
has_any [] = false
has_any (container ∷ containers) = true

unfoldable pub list_volumes : Mock → List Volume
unfolding is_running
list_volumes m =
    if not (is_running m)
    then []
    else map
        (λ (volume : Volume). record volume {
          in_use = has_any m.containers;
          size = text "88 B";
          created = text "9 months ago";
        })
        m.volumes

abbrev pub detail_of : Text → Bool → Option Volume → Result MockError VolumeDetail
detail_of name in_use none = err (volume_not_found name)
detail_of name in_use (some volume) = ok record {
  name = volume.name;
  driver = volume.driver;
  created = text "9 months ago";
  in_use = in_use;
  mountpoint = text "/var/lib/mock/volumes/" ++ volume.name ++ text "/_data";
}

unfoldable pub inspect_volume : Text → Mock → Result MockError VolumeDetail
unfolding is_running find_volume
inspect_volume name m =
    or_not_running m (detail_of name (has_any m.containers) (find_volume name m.volumes))

abbrev pub entry : Text → Text → Bool → ℕ → Text → Text → Text → ContainerFileEntry
entry name path is_dir size mode modified note = record {
  name = name;
  path = path;
  is_dir = is_dir;
  size = pos size;
  mode = mode;
  modified = modified;
  note = note;
}

abbrev pub or_root : Text → Text
or_root path = if is_empty path then text "/" else path

abbrev pub volume_files : Text → List ContainerFileEntry
volume_files path =
    if text_eq path (text "/")
    then entry (text "app") (text "/app") true 0 (text "drwxr-xr-x") (text "5 months ago") []
      ∷ entry (text "dump.rdb") (text "/dump.rdb") false 88 (text "-rw-------")
          (text "7 months ago") []
      ∷ []
    else if text_eq path (text "/app")
    then entry (text "data.txt") (text "/app/data.txt") false 12 (text "-rw-r--r--")
        (text "2 days ago") []
      ∷ []
    else []

abbrev pub if_volume : {A : Type 0} → Text → Option Volume → A → Result MockError A
if_volume name none value = err (volume_not_found name)
if_volume name (some volume) value = ok value

unfoldable pub list_volume_files : Text → Text → Mock → Result MockError (List ContainerFileEntry)
unfolding is_running find_volume
list_volume_files name path m =
    or_not_running m (if_volume name (find_volume name m.volumes) (volume_files (or_root path)))

abbrev pub usages : List Container → List VolumeContainerUsage
usages [] = []
usages (container ∷ containers) =
    record {
      id = container.id;
      name = container.name;
      image = container.image;
      port = extract_host_tcp_port container.ports;
      target = text "/data";
    }
    ∷ []

unfoldable pub volume_containers : Text → Mock → Result MockError (List VolumeContainerUsage)
unfolding is_running find_volume extract_host_tcp_port
volume_containers name m =
    or_not_running m (if_volume name (find_volume name m.volumes) (usages m.containers))

-- The options of `ExportVolume` that the mock reads; `join` is `filepath.Join`.
unfoldable pub export_volume :
    (Text → Text → Text) → Text → Text → Text → Text → Mock → Result MockError Text
export_volume join kind file_name folder image_ref m = unless_fault m.export_volume_err (
    if text_eq kind (text "local_file")
    then (if is_empty folder then err folder_required else ok (join folder file_name))
    else if any (text_eq kind) (text "local_image" ∷ text "new_image" ∷ text "registry" ∷ [])
    then (if is_empty image_ref then err image_ref_required else ok image_ref)
    else err (unsupported_export_type kind))

unfoldable pub run_image : Mock → Result MockError Text
unfolding is_running
run_image m = unless_fault m.image_err (or_not_running m (ok (text "mock-container-id")))

-- The lines that `StreamLogs` sends.
abbrev pub stream_logs : Mock → List Text
stream_logs m = m.log_lines

-- `pathJoin`
unfoldable pub path_join : Text → Text → Text
path_join base name = if text_eq base (text "/") then text "/" ++ name else base ++ text "/" ++ name

abbrev pub container_files : Text → List ContainerFileEntry
container_files path =
    entry (text "app") (path_join path (text "app")) true 0 (text "drwxr-xr-x")
      (text "5 months ago") []
    ∷ entry (text ".dockerenv") (path_join path (text ".dockerenv")) false 0 (text "-rw-r--r--")
        (text "13 seconds ago") []
    ∷ entry (text "bin") (path_join path (text "bin")) true 0 (text "drwxr-xr-x")
        (text "2 years ago") (text "usr/bin")
    ∷ []

unfoldable pub list_container_files : Text → Mock → Result MockError (List ContainerFileEntry)
unfolding path_join
list_container_files path m = unless_fault m.container_err (ok (container_files (or_root path)))

unfoldable pub exec_container : Text → Mock → Result MockError Text
exec_container command m =
    unless_fault m.container_err (ok (text "# " ++ command ++ text "\nmock output"))

abbrev pub signed_in : Bool → Text → RegistryStatus
signed_in logged_in username = record {
  logged_in = logged_in;
  server = default_registry_server;
  username = username;
}

unfoldable pub registry_status : Mock → RegistryStatus
unfolding is_running
registry_status m =
    if not (is_running m)
    then signed_in false []
    else if m.registry_logged_in
    then signed_in true (text "demo")
    else signed_in false []

unfoldable pub list_networks : Mock → Result MockError (List Network)
unfolding is_running
list_networks m = if not (is_running m) then ok [] else unless_fault m.networks_err (ok m.networks)

abbrev pub network_detail : Option Network → Result MockError NetworkDetail
network_detail none = err network_not_found
network_detail (some network) = ok record {
  id = network.id;
  name = network.name;
  driver = network.driver;
  scope = network.scope;
  subnet = network.subnet;
  gateway = text "192.168.215.1";
  created = network.created;
  options = (text "com.docker.network.bridge.default_bridge", text "true") ∷ [];
}

unfoldable pub inspect_network : Text → Mock → Result MockError NetworkDetail
unfolding is_running
inspect_network name m = or_not_running m (
    unless_fault m.network_err
      (network_detail (find (λ network. text_eq network.name name) m.networks)))
