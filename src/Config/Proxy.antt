-- ===== src/Config/Proxy.antt =====
-- backend/internal/config/validate_proxy.go: the checks on the proxies of an update.
pub mod Domain
use calf.Common.{
  ℕ, Bool, true, false, not, ◌&&◌, ◌||◌, Option, none, some, List, [], ◌∷◌, if◌then◌else◌, any, all,
  length, ltb, leb, ◌==◌, Result, ok, err, ◌>>=◌, ◌>>◌, guard,
}
use calf.Strings.{Text, text, text_eq, is_empty, trim_space, trim_prefix, contains, split}
use calf.Config.Update.{UpdateRequest}

-- What the code takes from Go's net and net/url: the scheme and the host of a URL that can be read,
-- and the host in front of a port.
pub record Net : Type 0 where
  pub parse_url : Text → Option (Text × Text)
  pub parse_cidr : Text → Bool
  pub parse_ip : Text → Bool
  pub split_host_port : Text → Option Text

pub data ProxyError : Type 0 where
  invalid_url missing_scheme missing_host invalid_no_proxy path_in_no_proxy : Text → ProxyError
  unsupported_scheme : Text → Text → ProxyError

pub data ProxyField : Type 0 where
  http_proxy https_proxy no_proxy : ProxyField

abbrev pub is_domain_rune : ℕ → Bool
is_domain_rune r =
    (leb b'a' r && leb r b'z')
    || (leb b'A' r && leb r b'Z')
    || (leb b'0' r && leb r b'9')
    || r == b'-'
    || r == b'_'

abbrev pub is_last : Text → Bool
is_last [] = true
is_last (c ∷ s) = false

-- The loop over the characters of one label; the first one may not be a hyphen.
unfoldable pub is_label_from : Bool → Text → Bool
is_label_from first [] = true
is_label_from first (r ∷ s) =
    not (first && r == b'-')
    && not (is_last s && r == b'-')
    && is_domain_rune r
    && is_label_from false s

unfoldable pub is_label : Text → Bool
is_label part = not (is_empty part || ltb 63 (length part)) && is_label_from true part

unfoldable pub is_valid_domain : Text → Bool
is_valid_domain host =
    if is_empty host || ltb 253 (length host) then false else all is_label (split b'.' host)

abbrev pub check_url : Text → List Text → Option (Text × Text) → Result ProxyError (Unit {0})
check_url raw allowed none = err (invalid_url raw)
check_url raw allowed (some (scheme, host)) = do
  guard (not (is_empty scheme)) (missing_scheme raw)
  guard (any (text_eq scheme) allowed) (unsupported_scheme scheme raw)
  guard (not (is_empty host)) (missing_host raw)

unfoldable pub validate_proxy_url : Net → Text → List Text → Result ProxyError (Unit {0})
validate_proxy_url n raw allowed_schemes = check_url raw allowed_schemes (n.parse_url raw)

abbrev pub check_domain : Text → Text → Result ProxyError (Unit {0})
check_domain entry host = guard (is_valid_domain host) (invalid_no_proxy entry)

abbrev pub check_host_port : Net → Text → Text → Option Text → Result ProxyError (Unit {0})
check_host_port n entry host none = check_domain entry host
check_host_port n entry host (some h) = if n.parse_ip h then ok tt else check_domain entry h

unfoldable pub validate_no_proxy_entry : Net → Text → Result ProxyError (Unit {0})
validate_no_proxy_entry n entry =
    let host = trim_prefix entry (text ".") in
    if contains entry (text "/")
    then if n.parse_cidr entry then ok tt else err (path_in_no_proxy entry)
    else if n.parse_ip host
    then ok tt
    else check_host_port n entry host (n.split_host_port host)

-- The name of the field stands before the message.
abbrev pub in_field :
    ProxyField → Result ProxyError (Unit {0}) → Result (ProxyField × ProxyError) (Unit {0})
in_field f (ok u) = ok u
in_field f (err e) = err (f, e)

-- A proxy of the request: nothing to check where it is not there or blank.
abbrev pub check_proxy :
    (Text → Result ProxyError (Unit {0})) → Option Text → Result ProxyError (Unit {0})
check_proxy check none = ok tt
check_proxy check (some v) = if is_empty (trim_space v) then ok tt else check (trim_space v)

-- The loop over the entries of no_proxy.
unfoldable pub validate_entries : Net → List Text → Result ProxyError (Unit {0})
validate_entries n [] = ok tt
validate_entries n (e ∷ es) = do
  let entry = trim_space e
  if is_empty entry then ok tt else validate_no_proxy_entry n entry
  validate_entries n es

unfoldable pub validate_proxy_update :
    Net → UpdateRequest → Result (ProxyField × ProxyError) (Unit {0})
validate_proxy_update n req = do
  in_field http_proxy (check_proxy (λ v. validate_proxy_url n v (text "http" ∷ [])) req.http_proxy)
  in_field https_proxy
      (check_proxy (λ v. validate_proxy_url n v (text "http" ∷ text "https" ∷ [])) req.https_proxy)
  in_field no_proxy (check_proxy (λ v. validate_entries n (split b',' v)) req.no_proxy)
