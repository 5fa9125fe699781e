-- ===== src/Runtime/Registry/Helpers.antt =====
-- backend/internal/runtime/registry.go: the credential helpers, and the status of a registry.
use calf.Common.{
  ℕ, Bool, true, false, not, ◌&&◌, ◌||◌, Option, none, some, List, [], ◌∷◌, ◌++◌, leb, ◌==◌, ◌≡◌,
  ◌≢◌, ◌≤◌, ◌⊎◌, All, arith, &&-true, refl, ap, ap₂, if◌then◌else◌, Result, ok, err,
}
use calf.Strings.{Text, text, is_empty, trim_space}
use calf.Runtime.Types.{RegistryStatus}
use calf.Runtime.Registry.{
  Runner, StdinRunner, DockerConfigFile, docker_hub_registry_keys, signed_out_status,
  status_of_username, value_of, registry_status_from_config,
}

abbrev pub is_helper_rune : ℕ → Bool
is_helper_rune r =
    (leb b'a' r && leb r b'z')
    || (leb b'A' r && leb r b'Z')
    || (leb b'0' r && leb r b'9')
    || (r == b'-')
    || (r == b'_')

unfoldable pub are_helper_runes : Text → Bool
are_helper_runes [] = true
are_helper_runes (r ∷ name) = is_helper_rune r && are_helper_runes name

unfoldable pub is_safe_credential_helper_name : Text → Bool
unfolding are_helper_runes
is_safe_credential_helper_name name = not (is_empty name) && are_helper_runes name

abbrev pub username_of_payload : Option Text → Option Text
username_of_payload none = none
username_of_payload (some given) =
    let username = trim_space given in if is_empty username then none else some username

-- `unmarshal` is what json.Unmarshal reads as the username of the output, none on an error.
unfoldable pub parse_credential_helper_username : (Text → Option Text) → Text → Option Text
parse_credential_helper_username unmarshal output = username_of_payload (unmarshal output)

unfoldable pub username_of_output : (Text → Option Text) → Result Text Text → Option Text
unfolding parse_credential_helper_username
username_of_output unmarshal (err fault) = none
username_of_output unmarshal (ok output) = parse_credential_helper_username unmarshal output

abbrev pub helper_program : Text → Text
helper_program name = text "docker-credential-" ++ name

abbrev pub run_helper : StdinRunner → Text → Text → Result Text Text
run_helper run_with_stdin name server_url =
    run_with_stdin (server_url ++ text "\n") (helper_program name) (text "get" ∷ [])

unfoldable pub lookup_credential_username :
    (Text → Option Text) → StdinRunner → Text → Text → Option Text
unfolding is_safe_credential_helper_name username_of_output
lookup_credential_username unmarshal run_with_stdin given server_url =
    let helper = trim_space given in
    if is_safe_credential_helper_name helper
    then username_of_output unmarshal (run_helper run_with_stdin helper server_url)
    else none

-- The helper of the store, for a registry that has an auth.
abbrev pub helper_of_store : Option Text → Text → Text
helper_of_store none store = []
helper_of_store (some auth) store = trim_space store

abbrev pub helper_or_store : Option Text → Text → Text
helper_or_store none of_store = of_store
helper_or_store (some given) of_store =
    let helper = trim_space given in if is_empty helper then of_store else helper

unfoldable pub credential_helper_for : DockerConfigFile → Text → Text
unfolding value_of
credential_helper_for config key =
    helper_or_store (value_of key config.cred_helpers)
      (helper_of_store (value_of key config.auths) config.creds_store)

abbrev pub or_status : Option Text → RegistryStatus → RegistryStatus
or_status none rest = rest
or_status (some username) rest = status_of_username (some username)

unfoldable pub status_of_keys :
    (Text → Text → Option Text) → DockerConfigFile → List Text → RegistryStatus
unfolding credential_helper_for
status_of_keys lookup config [] = signed_out_status
status_of_keys lookup config (key ∷ keys) =
    let rest = status_of_keys lookup config keys in
    let helper = credential_helper_for config key in
    if is_empty helper then rest else or_status (lookup helper key) rest

unfoldable pub registry_status_from_credential_helpers :
    (Text → Text → Option Text) → Option DockerConfigFile → RegistryStatus
unfolding status_of_keys
registry_status_from_credential_helpers lookup none = signed_out_status
registry_status_from_credential_helpers lookup (some config) =
    status_of_keys lookup config docker_hub_registry_keys

-- What json.Unmarshal and base64 read: the config of a file, the username of a helper's output, and
-- an auth.
pub record Readers : Type 0 where
  pub config : Text → Option DockerConfigFile
  pub payload : Text → Option Text
  pub decode : Text → Option Text

abbrev pub if_logged_in : RegistryStatus → RegistryStatus → RegistryStatus
if_logged_in parsed rest = if parsed.logged_in then parsed else rest

unfoldable pub status_of_file :
    Readers → StdinRunner → Result Text Text → RegistryStatus → RegistryStatus
unfolding registry_status_from_config registry_status_from_credential_helpers
status_of_file readers run_with_stdin (err fault) rest = rest
status_of_file readers run_with_stdin (ok output) rest =
    if_logged_in (registry_status_from_config readers.decode (readers.config output)) (
      if_logged_in
        (registry_status_from_credential_helpers
          (lookup_credential_username readers.payload run_with_stdin) (readers.config output))
        rest)

-- `registryStatus`, with a runner for the helpers.
unfoldable pub status_of_paths : Readers → Runner → StdinRunner → List Text → RegistryStatus
unfolding status_of_file
status_of_paths readers run run_with_stdin [] = signed_out_status
status_of_paths readers run run_with_stdin (path ∷ paths) =
    status_of_file readers run_with_stdin (run (text "cat") (path ∷ []))
      (status_of_paths readers run run_with_stdin paths)

-- A letter, a digit, a dash or an underscore.
abbrev pub IsHelperRune : ℕ → Type 0
IsHelperRune r =
    ((b'a' ≤ r) × (r ≤ b'z'))
    ⊎ ((b'A' ≤ r) × (r ≤ b'Z'))
    ⊎ ((b'0' ≤ r) × (r ≤ b'9'))
    ⊎ (r ≡ b'-')
    ⊎ (r ≡ b'_')

abbrev pub IsHelperName : Text → Type 0
IsHelperName name = (name ≢ []) × All IsHelperRune name

is_helper_rune-IsHelperRune : (r : ℕ) → is_helper_rune r ≡ true → IsHelperRune r
is_helper_rune-IsHelperRune r h = ground arith

are_helper_runes-IsHelperRune : (name : Text) → are_helper_runes name ≡ true → All IsHelperRune name
unfolding are_helper_runes
are_helper_runes-IsHelperRune [] h = tt
are_helper_runes-IsHelperRune (r ∷ name) h =
    let (p, q) = &&-true (is_helper_rune r) (are_helper_runes name) h in
    (is_helper_rune-IsHelperRune r p, are_helper_runes-IsHelperRune name q)

is_safe_credential_helper_name-IsHelperName :
    (name : Text) → is_safe_credential_helper_name name ≡ true → IsHelperName name
unfolding is_safe_credential_helper_name is_empty
is_safe_credential_helper_name-IsHelperName [] h = cc
is_safe_credential_helper_name-IsHelperName (r ∷ name) h =
    (λ e. cc, are_helper_runes-IsHelperRune (r ∷ name) h)

IsHelperRune-is_helper_rune : (r : ℕ) → IsHelperRune r → is_helper_rune r ≡ true
IsHelperRune-is_helper_rune r h = ground arith

-- The test on the characters holds for every such name.
pub are_helper_runes_of_All : (name : Text) → All IsHelperRune name → are_helper_runes name ≡ true
unfolding are_helper_runes
are_helper_runes_of_All [] h = refl
are_helper_runes_of_All (r ∷ name) (p, q) =
    rw (IsHelperRune-is_helper_rune r p) (are_helper_runes_of_All name q)

-- Two runners that answer alike wherever the helper has such a name.
unfoldable pub AgreeOnHelpers : StdinRunner → StdinRunner → Type 0
AgreeOnHelpers first second =
    (name server_url : Text)
    → IsHelperName name
    → run_helper first name server_url ≡ run_helper second name server_url

if_safe :
    {A : Type 0} (b : Bool) (x y z : A)
    → (b ≡ true → x ≡ y)
    → (if b then x else z) ≡ (if b then y else z)
if_safe true x y z h = h refl
if_safe false x y z h = refl

module _ (readers : Readers) (first second : StdinRunner) (same : AgreeOnHelpers first second) where
  lookup-safe :
      (helper server_url : Text)
      → lookup_credential_username readers.payload first helper server_url
        ≡ lookup_credential_username readers.payload second helper server_url
  unfolding lookup_credential_username AgreeOnHelpers
  lookup-safe helper server_url =
      if_safe (is_safe_credential_helper_name (trim_space helper))
        (username_of_output readers.payload (run_helper first (trim_space helper) server_url))
        (username_of_output readers.payload (run_helper second (trim_space helper) server_url)) none
        λ h. ap (username_of_output readers.payload) (
          same (trim_space helper) server_url
            (is_safe_credential_helper_name-IsHelperName (trim_space helper) h))

  keys-safe :
      (config : DockerConfigFile) (keys : List Text)
      → status_of_keys (lookup_credential_username readers.payload first) config keys
        ≡ status_of_keys (lookup_credential_username readers.payload second) config keys
  unfolding status_of_keys
  keys-safe config [] = refl
  keys-safe config (key ∷ keys) =
      ap₂
        (λ (o : Option Text) (rest : RegistryStatus).
          if is_empty (credential_helper_for config key) then rest else or_status o rest)
        (lookup-safe (credential_helper_for config key) key) (keys-safe config keys)

  helpers-safe :
      (config : Option DockerConfigFile)
      → registry_status_from_credential_helpers
          (lookup_credential_username readers.payload first)
          config
        ≡ registry_status_from_credential_helpers
            (lookup_credential_username readers.payload second)
            config
  unfolding registry_status_from_credential_helpers
  helpers-safe none = refl
  helpers-safe (some config) = keys-safe config docker_hub_registry_keys

  file-safe :
      (answer : Result Text Text) (rest rest' : RegistryStatus)
      → rest ≡ rest'
      → status_of_file readers first answer rest ≡ status_of_file readers second answer rest'
  unfolding status_of_file
  file-safe (err fault) rest rest' h = h
  file-safe (ok output) rest rest' h =
      ap₂
        (λ (parsed more : RegistryStatus).
          if_logged_in (registry_status_from_config readers.decode (readers.config output))
            (if_logged_in parsed more))
        (helpers-safe (readers.config output)) h

  -- The status of a registry asks only credential helpers with safe names, which are not empty and
  -- have only letters, digits, dashes and underscores: with two runners that agree on the helpers of
  -- such names the status is the same, whatever either runner does with any other program.
  pub status_of_paths-safe :
      (run : Runner) (paths : List Text)
      → status_of_paths readers run first paths ≡ status_of_paths readers run second paths
  unfolding status_of_paths
  status_of_paths-safe run [] = refl
  status_of_paths-safe run (path ∷ paths) =
      file-safe (run (text "cat") (path ∷ [])) (status_of_paths readers run first paths)
        (status_of_paths readers run second paths) (status_of_paths-safe run paths)
