-- ===== src/Runtime/Network.antt =====
-- backend/internal/runtime/network.go: the lists of networks and their removal. The runner of
-- commands, encoding/json and bufio's scanner are parameters.
pub mod Merge
use calf.Common.{
  Bool, ◌||◌, Option, none, some, List, [], ◌∷◌, ◌++◌, take, if◌then◌else◌, Result, ok, err, ◌>>=◌,
  sort_slice,
}
use calf.Strings.{Text, text, text_eq, text_lt, is_empty, trim_space, to_lower}
use calf.Runtime.Types.{Network}
use calf.Runtime.Registry.{Runner, error_of}

pub record NetworkLine : Type 0 where
  pub id : Text
  pub name : Text
  pub driver : Text

abbrev pub default_network_scope : Text
default_network_scope = text "local"

unfoldable pub is_pseudo_network : Text → Bool
is_pseudo_network given =
    let name = to_lower (trim_space given) in
    text_eq name (text "host") || text_eq name (text "none") || text_eq name (text "null")

-- An id of ASCII characters, so that a byte is a character.
unfoldable pub short_network_id : Text → Text
short_network_id value = take 12 (trim_space value)

abbrev pub network_of_line : NetworkLine → Network
unfolding short_network_id
network_of_line row = record {
  id = short_network_id row.id;
  name = row.name;
  driver = row.driver;
  scope = default_network_scope;
  subnet = [];
  created = [];
}

unfoldable pub add_row : Option NetworkLine → List Network → List Network
unfolding is_pseudo_network
add_row none networks = networks
add_row (some row) networks =
    if is_empty row.name || is_pseudo_network row.name
    then networks
    else network_of_line row ∷ networks

-- `unmarshal` is what json.Unmarshal makes of a line, none on an error.
unfoldable pub parse_lines : (Text → Option NetworkLine) → List Text → List Network
unfolding add_row
parse_lines unmarshal [] = []
parse_lines unmarshal (given ∷ lines) =
    let line = trim_space given in
    let rest = parse_lines unmarshal lines in
    if is_empty line then rest else add_row (unmarshal line) rest

-- What the parser of a list takes from Go's library: the lines of the scanner, or its error, and the
-- decoder.
pub record Parsers : Type 0 where
  pub scan : Text → Result Text (List Text)
  pub unmarshal : Text → Option NetworkLine

abbrev pub before : Network → Network → Bool
before a b = text_lt a.name b.name

-- Networks with one name, which Go's sort leaves in any order, keep the order of the output.
unfoldable pub parse_network_lines : Parsers → Text → Result Text (List Network)
unfolding parse_lines
parse_network_lines parsers output =
    parsers.scan output >>= λ lines. ok (sort_slice before (parse_lines parsers.unmarshal lines))

abbrev pub list_arguments : List Text
list_arguments = text "network" ∷ text "ls" ∷ text "--format" ∷ text "{{json .}}" ∷ []

unfoldable pub query_nerdctl_networks : Parsers → Runner → Result Text (List Network)
unfolding parse_network_lines
query_nerdctl_networks parsers run =
    run (text "nerdctl") list_arguments >>= parse_network_lines parsers

unfoldable pub query_docker_networks : Parsers → Runner → Result Text (List Network)
unfolding parse_network_lines
query_docker_networks parsers run =
    run (text "docker") list_arguments >>= parse_network_lines parsers

unfoldable pub find_network : Text → List Network → Option Network
find_network name [] = none
find_network name (network ∷ networks) =
    let rest = find_network name networks in
    if text_eq name network.name then some network else rest

abbrev pub unless_seen : Option Network → Network → List Network → List Network
unless_seen none network result = result ++ (network ∷ [])
unless_seen (some seen) network result = result

-- `mergeNetworksByName`: the map of seen names is that of the result.
unfoldable pub merge_networks_by_name : List Network → List Network → List Network
unfolding find_network
merge_networks_by_name result [] = result
merge_networks_by_name result (network ∷ docker_networks) =
    merge_networks_by_name (unless_seen (find_network network.name result) network result)
      docker_networks

-- The networks of `listNetworks`, before the metadata.
unfoldable pub merged : List Network → Result Text (List Network) → List Network
unfolding merge_networks_by_name
merged networks (err fault) = networks
merged networks (ok extra) = merge_networks_by_name networks extra

unfoldable pub or_docker :
    Result Text (List Network) → Result Text (List Network) → Result Text (List Network)
unfolding merged
or_docker (ok networks) docker = ok (merged networks docker)
or_docker (err fault) (ok networks) = ok networks
or_docker (err fault) (err docker_fault) = err fault

unfoldable pub query_networks : Parsers → Runner → Result Text (List Network)
unfolding query_nerdctl_networks query_docker_networks or_docker
query_networks parsers run =
    or_docker (query_nerdctl_networks parsers run) (query_docker_networks parsers run)

-- `networkDriverFromList`
abbrev pub or_no_driver : Option Network → Result Text Text → Result Text Text
or_no_driver none rest = rest
or_no_driver (some network) rest = ok network.driver

abbrev pub driver_from_docker : Text → Result Text (List Network) → Result Text Text
unfolding find_network
driver_from_docker name (err fault) = err (text "network " ++ name ++ text " not found")
driver_from_docker name (ok networks) =
    or_no_driver (find_network name networks) (err (text "network " ++ name ++ text " not found"))

unfoldable pub network_driver_from_list : Parsers → Runner → Text → Result Text Text
unfolding query_nerdctl_networks query_docker_networks find_network driver_from_docker
network_driver_from_list parsers run name = query_nerdctl_networks parsers run >>= λ networks.
    or_no_driver (find_network name networks)
      (driver_from_docker name (query_docker_networks parsers run))

-- `removeNetwork`; `quote` is the %q of fmt, and an error of none is nil.
abbrev pub or_remove_by_docker : Result Text Text → Result Text Text → Option Text
unfolding error_of
or_remove_by_docker (ok output) docker = none
or_remove_by_docker (err fault) docker = error_of docker

unfoldable pub remove_by_engine : (Text → Text) → Runner → Text → Option Text
unfolding is_pseudo_network or_remove_by_docker
remove_by_engine quote run name =
    let arguments = text "network" ∷ text "rm" ∷ name ∷ [] in
    if is_pseudo_network name
    then some (text "built-in network " ++ quote name ++ text " cannot be removed")
    else or_remove_by_docker (run (text "nerdctl") arguments) (run (text "docker") arguments)
