-- ===== src/HttpKit/Errors.antt =====
-- backend/internal/httpkit: runtime_errors.go and origin.go, the remaining dispatchers of route.go, the
-- CORS headers of backend/internal/middleware/cors.go, and the answers of the prune handlers of
-- backend/internal/api/prune.go. What net/url and net read is a parameter.
use calf.Common.{ℕ, Bool, true, false, not, Option, none, some, List, [], ◌∷◌, if◌then◌else◌, any}
use calf.Strings.{Text, text, text_eq, is_empty, trim_prefix}
use calf.HttpKit.Route.{
  Answer, no_content, method_not_allowed, handled, lookup_method, trim_slashes, trim_slash_suffix,
}

-- The errors of the runtime that have an answer of their own, and all others.
pub data RuntimeError : Type 0 where
  runtime_not_running network_not_found container_not_found container_not_running : RuntimeError
  prune_category_required other : RuntimeError

abbrev pub Response : Type 0
Response = ℕ × Text

-- `WriteRuntimeError`: none where it writes nothing.
unfoldable pub write_runtime_error : RuntimeError → Option Response
write_runtime_error runtime_not_running = some (503, text "runtime is not running")
write_runtime_error network_not_found = some (404, text "network not found")
write_runtime_error container_not_found = some (404, text "container not found")
write_runtime_error container_not_running = some (409, text "container is not running")
write_runtime_error prune_category_required = none
write_runtime_error other = none

abbrev pub or_failed : Option Response → Response
or_failed none = (500, text "operation failed")
or_failed (some response) = response

unfoldable pub write_runtime_or_fail : RuntimeError → Response
unfolding write_runtime_error
write_runtime_or_fail e = or_failed (write_runtime_error e)

-- The error answers of `handlePrune`.
unfoldable pub handle_prune_error : RuntimeError → Response
unfolding write_runtime_or_fail
handle_prune_error runtime_not_running = write_runtime_or_fail runtime_not_running
handle_prune_error network_not_found = write_runtime_or_fail network_not_found
handle_prune_error container_not_found = write_runtime_or_fail container_not_found
handle_prune_error container_not_running = write_runtime_or_fail container_not_running
handle_prune_error prune_category_required = (400, text "select at least one prune category")
handle_prune_error other = write_runtime_or_fail other

-- `net.ParseIP(host).IsLoopback()`, and the host name of `url.Parse`, none where it fails.
pub record Hosts : Type 0 where
  pub is_loopback : Text → Bool
  pub hostname : Text → Option Text

unfoldable pub is_local_host : Hosts → Text → Bool
is_local_host h host =
    if any (text_eq host) (text "localhost" ∷ text "127.0.0.1" ∷ text "::1" ∷ [])
    then true
    else h.is_loopback host

abbrev pub is_local_name : Hosts → Option Text → Bool
is_local_name h none = false
is_local_name h (some host) = is_local_host h host

unfoldable pub is_local_origin : Hosts → Text → Bool
unfolding is_local_host
is_local_origin h origin = if is_empty origin then false else is_local_name h (h.hostname origin)

-- `CORS`: the headers, and whether the request goes on.
abbrev pub cors_headers : Text → List (Text × Text)
cors_headers origin =
    (text "Access-Control-Allow-Origin", origin)
    ∷ (text "Access-Control-Allow-Methods", text "GET, POST, PUT, DELETE, OPTIONS")
    ∷ (text "Access-Control-Allow-Headers", text "Content-Type")
    ∷ []

unfoldable pub cors : Hosts → Text → Text → List (Text × Text) × Bool
unfolding is_local_origin
cors h origin method = (
  if is_local_origin h origin then cors_headers origin else [],
  not (text_eq method (text "OPTIONS")),
)

module _ {ℓ} {H : Type ℓ} where
  abbrev pub or_not_allowed : Option H → List Text → Answer H
  or_not_allowed none parts = method_not_allowed
  or_not_allowed (some handler) parts = handled handler parts

  unfoldable pub serve_methods : List (Text × H) → Text → Answer H
  serve_methods handlers method =
      if text_eq method (text "OPTIONS")
      then no_content
      else or_not_allowed (lookup_method method handlers) []

  unfoldable pub serve_method : Text → H → Text → Answer H
  serve_method accepted handler method =
      if not (text_eq method accepted) then method_not_allowed else handled handler []

  -- The fallback is handed the remaining path.
  abbrev pub exact_or_fallback : Option H → Option H → Text → Answer H
  exact_or_fallback (some handler) fallback remaining = handled handler []
  exact_or_fallback none fallback remaining = or_not_allowed fallback (remaining ∷ [])

  unfoldable pub serve_prefix : Text → List (Text × H) → Option H → Text → Text → Answer H
  unfolding trim_slashes trim_slash_suffix trim_prefix
  serve_prefix prefix exact fallback method path =
      let remaining = trim_slashes (trim_prefix path (trim_slash_suffix prefix)) in
      if text_eq method (text "OPTIONS")
      then no_content
      else exact_or_fallback (lookup_method remaining exact) fallback remaining
