-- ===== src/Runtime/Registry.antt =====
-- backend/internal/runtime/registry.go: the login of a registry, and what Docker's config says of it.
-- The runners of commands, encoding/json and encoding/base64 are parameters.
pub mod Helpers
use calf.Common.{
  ℕ, Bool, true, false, not, ◌&&◌, ◌||◌, Option, none, some, List, [], ◌∷◌, ◌++◌, leb, ◌==◌,
  if◌then◌else◌, Result, ok, err,
}
use calf.Strings.{Text, text, text_eq, is_empty, trim_space, to_lower, contains}
use calf.Runtime.Types.{RegistryStatus}

-- `commandRunner` and `stdinCommandRunner`: the second takes what the command reads first.
abbrev pub Runner : Type 0
Runner = Text → List Text → Result Text Text

abbrev pub StdinRunner : Type 0
StdinRunner = Text → Text → List Text → Result Text Text

-- The maps are in the order of a `range`; a missing `auth` is the empty text.
pub record DockerConfigFile : Type 0 where
  pub auths : List (Text × Text)
  pub creds_store : Text
  pub cred_helpers : List (Text × Text)

abbrev pub default_registry_server : Text
default_registry_server = text "docker.io"

abbrev pub docker_hub_registry_keys : List Text
docker_hub_registry_keys =
    text "https://index.docker.io/v1/"
    ∷ text "index.docker.io"
    ∷ text "docker.io"
    ∷ text "registry-1.docker.io"
    ∷ text "https://registry-1.docker.io/v2/"
    ∷ []

unfoldable pub is_hub_key : Text → List Text → Bool
is_hub_key server [] = false
is_hub_key server (key ∷ keys) = text_eq server (to_lower key) || is_hub_key server keys

unfoldable pub is_docker_hub_registry : Text → Bool
unfolding is_hub_key
is_docker_hub_registry given =
    let server = to_lower (trim_space given) in
    is_empty server
    || is_hub_key server docker_hub_registry_keys
    || contains server (text "docker.io")

-- The server, when it is not Docker Hub.
unfoldable pub server_argument : Text → List Text
server_argument server =
    if not (is_empty server) && not (is_docker_hub_registry server) then server ∷ [] else []

unfoldable pub error_of : Result Text Text → Option Text
error_of (ok output) = none
error_of (err fault) = some fault

-- An error of none is nil.
unfoldable pub nerdctl_login : StdinRunner → Text → Text → Text → Option Text
unfolding server_argument error_of
nerdctl_login run_with_stdin server username password =
    if is_empty (trim_space username)
    then some (text "username is required")
    else if is_empty (trim_space password)
    then some (text "password or token is required")
    else error_of (
        run_with_stdin password (text "nerdctl") (
          (text "login" ∷ text "--username" ∷ username ∷ text "--password-stdin" ∷ [])
          ++ server_argument (trim_space server)))

unfoldable pub nerdctl_logout : Runner → Text → Option Text
unfolding server_argument error_of
nerdctl_logout run server =
    error_of (run (text "nerdctl") (text "logout" ∷ server_argument (trim_space server)))

abbrev pub signed_out_status : RegistryStatus
signed_out_status = record { logged_in = false; server = default_registry_server; username = [] }

abbrev pub status_of_username : Option Text → RegistryStatus
status_of_username none = signed_out_status
status_of_username (some username) = record {
  logged_in = true;
  server = default_registry_server;
  username = username;
}

-- The value of a key of a map.
unfoldable pub value_of : Text → List (Text × Text) → Option Text
value_of key [] = none
value_of key ((k, value) ∷ entries) =
    let rest = value_of key entries in if text_eq key k then some value else rest

abbrev pub or_empty : Option Text → Text
or_empty none = []
or_empty (some value) = value

unfoldable pub before_colon : Text → Text
before_colon [] = []
before_colon (c ∷ s) = let rest = before_colon s in if c == b':' then [] else c ∷ rest

abbrev pub decoded_username : Option Text → Text
unfolding before_colon
decoded_username none = []
decoded_username (some decoded) = before_colon decoded

-- The username of an auth that is there, which is empty when it cannot be read.
unfoldable pub docker_config_auth_username : (Text → Option Text) → Text → Option Text
docker_config_auth_username decode auth =
    if is_empty (trim_space auth) then none else some (decoded_username (decode auth))

abbrev pub or_else : Option Text → Option Text → Option Text
or_else none second = second
or_else (some username) second = some username

unfoldable pub username_of_keys :
    (Text → Option Text) → List (Text × Text) → List Text → Option Text
unfolding value_of docker_config_auth_username
username_of_keys decode auths [] = none
username_of_keys decode auths (key ∷ keys) =
    or_else (docker_config_auth_username decode (or_empty (value_of key auths)))
      (username_of_keys decode auths keys)

unfoldable pub username_of_auths : (Text → Option Text) → List (Text × Text) → Option Text
unfolding docker_config_auth_username
username_of_auths decode [] = none
username_of_auths decode ((key, auth) ∷ auths) =
    let rest = username_of_auths decode auths in
    if contains key default_registry_server
    then or_else (docker_config_auth_username decode auth) rest
    else rest

-- `config` is what json.Unmarshal makes of the file, none on an error.
unfoldable pub docker_config_credentials :
    (Text → Option Text) → Option DockerConfigFile → Option Text
unfolding username_of_keys username_of_auths
docker_config_credentials decode none = none
docker_config_credentials decode (some config) =
    or_else (username_of_keys decode config.auths docker_hub_registry_keys)
      (username_of_auths decode config.auths)

unfoldable pub registry_status_from_config :
    (Text → Option Text) → Option DockerConfigFile → RegistryStatus
unfolding docker_config_credentials
registry_status_from_config decode config =
    status_of_username (docker_config_credentials decode config)
