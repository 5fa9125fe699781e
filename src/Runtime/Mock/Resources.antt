-- ===== src/Runtime/Mock/Resources.antt =====
-- backend/internal/runtime/mock.go: the calls that change its containers, images, networks and registry.
use calf.Common.{
  suc, true, false, not, ◌||◌, Option, none, some, List, [], ◌∷◌, ◌++◌, if◌then◌else◌, keep, map, ℤ,
  ok, err,
}
use calf.Strings.{Text, text, text_eq, is_empty}
use calf.Runtime.Types.{Container, Image}
use calf.Runtime.Mock.{Mock, is_running, Outcome, unless, when_running, fault, credentials_required}

-- The loops of `StartContainer` and `StopContainer`: every container of the id.
abbrev pub set_container : Text → Text → Text → List Container → List Container
set_container id state status containers =
    map
      (λ (container : Container).
        if text_eq container.id id
        then record container { state = state; status = status }
        else container)
      containers

unfoldable pub start_container : Text → Mock → Outcome
start_container id m =
    unless m.container_err m
      (record m { containers = set_container id (text "running") (text "Up") m.containers })

unfoldable pub stop_container : Text → Mock → Outcome
stop_container id m =
    unless m.container_err m
      (record m { containers = set_container id (text "exited") (text "Exited") m.containers })

abbrev pub and_then : Outcome → (Mock → Outcome) → Outcome
and_then (m, err e) next = (m, err e)
and_then (m, ok u) next = next m

unfoldable pub restart_container : Text → Mock → Outcome
unfolding start_container stop_container
restart_container id m = and_then (stop_container id m) (start_container id)

unfoldable pub remove_container : Text → Mock → Outcome
remove_container id m =
    unless m.container_err m
      (record m { containers = keep (λ container. not (text_eq container.id id)) m.containers })

unfoldable pub remove_image : Text → Mock → Outcome
remove_image ref m = unless m.image_err m (record m {
  images =
      keep
        (λ image.
          not (text_eq (image.repository ++ text ":" ++ image.tag) ref || text_eq image.id ref))
        m.images;
})

abbrev pub pulled_image : Text → Image
pulled_image ref = record {
  id = text "pulled";
  repository = ref;
  tag = text "latest";
  size = text "1MB";
  created = [];
}

unfoldable pub pull_image : Text → Mock → Outcome
pull_image ref m = unless m.image_err m (record m { images = m.images ++ (pulled_image ref ∷ []) })

unfoldable pub push_image : Text → Mock → Outcome
push_image ref m = unless m.image_err m m

abbrev pub if_unfaulted : Option Text → Mock → Outcome → Outcome
if_unfaulted (some message) m next = (m, err (fault message))
if_unfaulted none m next = next

unfoldable pub registry_login : Text → Text → Mock → Outcome
unfolding is_running
registry_login username password m = if_unfaulted m.image_err m (
    when_running m (
      if is_empty username || is_empty password
      then (m, err credentials_required)
      else (record m { registry_logged_in = true }, ok tt)))

unfoldable pub registry_logout : Mock → Outcome
unfolding is_running
registry_logout m =
    if_unfaulted m.image_err m (when_running m (record m { registry_logged_in = false }, ok tt))

unfoldable pub remove_network : Text → Mock → Outcome
unfolding is_running
remove_network name m = when_running m (
    unless m.network_err m
      (record m { networks = keep (λ network. not (text_eq network.name name)) m.networks }))

unfoldable pub apply_proxy : Mock → Outcome
apply_proxy m = (record m { apply_proxy_calls = suc m.apply_proxy_calls }, ok tt)

unfoldable pub set_build_cache_bytes : ℤ → Mock → Mock
set_build_cache_bytes bytes m = record m { build_cache_bytes = bytes }
