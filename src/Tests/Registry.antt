-- ===== src/Tests/Registry.antt =====
-- Examples of a registry's login.
use calf.Common.{◌≡◌, refl, sym, ap, Bool, true, false, none, some, [], ◌∷◌, ok, err, Result}
use calf.Strings.{
  Text, text, text_eq, is_empty, trim_space, trim_left, trim_right, trim_end, is_space,
}
use calf.Runtime.Registry.{
  Runner, StdinRunner, DockerConfigFile, status_of_username, value_of, registry_status_from_config,
  docker_config_credentials, username_of_keys, username_of_auths, docker_config_auth_username,
  nerdctl_login,
}
use calf.Runtime.Registry.Helpers.{
  Readers, AgreeOnHelpers, are_helper_runes_of_All, are_helper_runes,
  is_safe_credential_helper_name, status_of_paths, status_of_file, status_of_keys,
  credential_helper_for, registry_status_from_credential_helpers, lookup_credential_username,
  username_of_output, parse_credential_helper_username, status_of_paths-safe,
}

-- A config with a helper for each of two keys, the first with a name that is not safe.
abbrev helpers_config : DockerConfigFile
helpers_config = record {
  auths = [];
  creds_store = [];
  cred_helpers =
      (text "index.docker.io", text "../sh") ∷ (text "docker.io", text " osxkeychain ") ∷ [];
}

abbrev test_readers : Readers
test_readers = record {
  config = λ output. some helpers_config;
  payload = λ output. some output;
  decode = λ auth. none;
}

abbrev cat_config : Runner
cat_config program args = ok (text "{}")

abbrev any_helper : StdinRunner
any_helper input program args = ok (text "alice")

abbrev if_safe_program : Bool → Result Text Text
if_safe_program true = ok (text "alice")
if_safe_program false = err (text "not found")

abbrev safe_helper : StdinRunner
unfolding are_helper_runes
safe_helper input program args = if_safe_program (are_helper_runes program)

any_helper_agrees : AgreeOnHelpers any_helper safe_helper
unfolding AgreeOnHelpers are_helper_runes safe_helper
any_helper_agrees name server_url h = ap if_safe_program (sym (are_helper_runes_of_All name h.1))

status_of_paths_example :
    status_of_paths test_readers cat_config safe_helper (text "config.json" ∷ [])
    ≡ status_of_username (some (text "alice"))
unfolding status_of_paths status_of_file registry_status_from_config docker_config_credentials
    username_of_keys username_of_auths docker_config_auth_username value_of
    registry_status_from_credential_helpers status_of_keys credential_helper_for
    lookup_credential_username is_safe_credential_helper_name are_helper_runes username_of_output
    parse_credential_helper_username safe_helper text_eq is_empty trim_space trim_left trim_right
    trim_end is_space
status_of_paths_example = refl

nerdctl_login_example :
    nerdctl_login any_helper (text "ghcr.io") (text " ") (text "secret")
    ≡ some (text "username is required")
unfolding nerdctl_login is_empty trim_space trim_left trim_right trim_end is_space
nerdctl_login_example = refl

status_of_paths-safe_example :
    status_of_paths test_readers cat_config any_helper (text "config.json" ∷ [])
    ≡ status_of_paths test_readers cat_config safe_helper (text "config.json" ∷ [])
status_of_paths-safe_example =
    status_of_paths-safe test_readers any_helper safe_helper any_helper_agrees cat_config
      (text "config.json" ∷ [])
