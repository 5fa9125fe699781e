-- ===== src/Runtime/Mock/Calls.antt =====
-- backend/internal/runtime/mock.go: the calls that change the mock, and what an error of one leaves.
use calf.Common.{
  ◌≡◌, refl, Bool, true, false, not, ◌||◌, Option, none, some, ℤ, Result, ok, err, if◌then◌else◌,
  if-rule,
}
use calf.Strings.{Text, is_empty}
use calf.Runtime.Types.{Volume}
use calf.Utils.Format.{Render, format_bytes}
use calf.Utils.Size.{Floats}
use calf.Runtime.Prune.Preview.{PruneOptions, PruneResult, no_category}
use calf.Runtime.Mock.Resources.{
  and_then, start_container, stop_container, restart_container, remove_container, remove_image,
  pull_image, push_image, registry_login, registry_logout, remove_network, apply_proxy,
  if_unfaulted,
}
use calf.Runtime.Mock.{
  Mock, MockError, Outcome, Hold, no_hold, released, context_done, start, stop, force_stop,
  create_volume, clone_volume, remove_volume, unless, is_running, clone_unless, clone_from,
  start_from,
}
use calf.Runtime.Mock.Prune.{mock_prune, result_with, pruned_result, prune_sections}

pub data Call : Type 0 where
  to_start : Hold → Call
  to_stop to_force_stop to_logout to_apply_proxy : Call
  to_create_volume to_remove_volume to_start_container to_stop_container to_restart_container
        to_remove_container to_remove_image to_pull_image to_push_image to_remove_network :
      Text → Call
  to_clone_volume to_login : Text → Text → Call
  to_prune : PruneOptions → Call

-- The outcome of a call, where none is a panic.
abbrev pub returns : Outcome → Mock × Option (Result MockError (Unit {0}))
returns (m, r) = (m, some r)

-- The error of `Prune` without its result.
abbrev pub forget :
    Mock × Option (Result MockError PruneResult) → Mock × Option (Result MockError (Unit {0}))
forget (m, none) = (m, none)
forget (m, some (ok result)) = (m, some (ok tt))
forget (m, some (err e)) = (m, some (err e))

unfoldable pub serve : Floats → Render → Call → Mock → Mock × Option (Result MockError (Unit {0}))
serve floats r (to_start hold) m = returns (start hold m)
serve floats r to_stop m = returns (stop m)
serve floats r to_force_stop m = returns (force_stop m)
serve floats r to_logout m = returns (registry_logout m)
serve floats r to_apply_proxy m = returns (apply_proxy m)
serve floats r (to_create_volume name) m = returns (create_volume name m)
serve floats r (to_remove_volume name) m = returns (remove_volume name m)
serve floats r (to_start_container id) m = returns (start_container id m)
serve floats r (to_stop_container id) m = returns (stop_container id m)
serve floats r (to_restart_container id) m = returns (restart_container id m)
serve floats r (to_remove_container id) m = returns (remove_container id m)
serve floats r (to_remove_image ref) m = returns (remove_image ref m)
serve floats r (to_pull_image ref) m = returns (pull_image ref m)
serve floats r (to_push_image ref) m = returns (push_image ref m)
serve floats r (to_remove_network name) m = returns (remove_network name m)
serve floats r (to_clone_volume source dest) m = returns (clone_volume source dest m)
serve floats r (to_login username password) m = returns (registry_login username password m)
serve floats r (to_prune opts) m = forget (mock_prune floats r opts m)

-- An error leaves the mock as it was.
abbrev Keeps : Mock → Outcome → Type 0
Keeps m o = (e : MockError) → o.1 ≡ err e → o.0 ≡ m

abbrev KeepsCall : Mock → Mock × Option (Result MockError (Unit {0})) → Type 0
KeepsCall m o = (e : MockError) → o.1 ≡ some (err e) → o.0 ≡ m

some-inj : {A : Type 0} {a b : A} → some a ≡ some b → a ≡ b
some-inj h = cc

returns-Keeps : (m : Mock) (o : Outcome) → Keeps m o → KeepsCall m (returns o)
returns-Keeps m (n, r) h e k = h e (some-inj k)

ok-Keeps : (m n : Mock) → Keeps m (n, ok tt)
ok-Keeps m n e h = cc

err-Keeps : (m : Mock) (r : Result MockError Unit) → Keeps m (m, r)
err-Keeps m r e h = refl

unless-Keeps : (o : Option Text) (m n : Mock) → Keeps m (unless o m n)
unless-Keeps none m n = ok-Keeps m n
unless-Keeps (some message) m n = err-Keeps m _

if_unfaulted-Keeps :
    (o : Option Text) (m : Mock) (next : Outcome) → Keeps m next → Keeps m (if_unfaulted o m next)
if_unfaulted-Keeps none m next h = h
if_unfaulted-Keeps (some message) m next h = err-Keeps m _

if-Keeps :
    (b : Bool) (m : Mock) (x y : Outcome) → Keeps m x → Keeps m y → Keeps m (if b then x else y)
if-Keeps true m x y h k = h
if-Keeps false m x y h k = k

start_from-Keeps : (o : Option Text) (hold : Hold) (m : Mock) → Keeps m (start_from o hold m)
start_from-Keeps (some message) hold m = err-Keeps m _
start_from-Keeps none no_hold m = ok-Keeps m _
start_from-Keeps none released m = ok-Keeps m _
start_from-Keeps none (context_done message) m = err-Keeps m _

clone_from-Keeps :
    (o p : Option Volume) (source dest : Text) (m : Mock) → Keeps m (clone_from o p source dest m)
clone_from-Keeps none p source dest m = err-Keeps m _
clone_from-Keeps (some volume) (some other) source dest m = err-Keeps m _
clone_from-Keeps (some volume) none source dest m = ok-Keeps m _

clone_unless-Keeps :
    (o : Option Text) (source dest : Text) (m : Mock) → Keeps m (clone_unless o source dest m)
clone_unless-Keeps (some message) source dest m = err-Keeps m _
clone_unless-Keeps none source dest m = clone_from-Keeps _ _ source dest m

-- A second call that has the same error configured fails where the first does.
unless-none-Keeps : (o : Option Text) (m n n' : Mock) → o ≡ none → Keeps m (unless o n n')
unless-none-Keeps none m n n' h = ok-Keeps m n'
unless-none-Keeps (some message) m n n' h = cc

and_then-Keeps :
    (o : Option Text) (m n : Mock) (next : Mock → Outcome)
    → (o ≡ none → Keeps m (next n))
    → Keeps m (and_then (unless o m n) next)
and_then-Keeps none m n next h = h refl
and_then-Keeps (some message) m n next h = err-Keeps m _

restart_container-Keeps : (id : Text) (m : Mock) → Keeps m (restart_container id m)
unfolding restart_container stop_container start_container
restart_container-Keeps id m =
    and_then-Keeps m.container_err m _ (start_container id)
      (unless-none-Keeps m.container_err m _ _)

result_with-Keeps :
    (opts : PruneOptions) (total : ℤ) (o : Option Text) (n m : Mock)
    → KeepsCall m (forget (n, result_with opts total o))
result_with-Keeps opts total none n m e h = cc
result_with-Keeps opts total (some size) n m e h = cc

pruned_result-Keeps :
    (r : Render) (opts : PruneOptions) (s : Mock × ℤ) (m : Mock)
    → KeepsCall m (forget (pruned_result r opts s))
unfolding pruned_result
pruned_result-Keeps r opts (n, total) m = result_with-Keeps opts total (format_bytes r total) n m

mock_prune-Keeps :
    (floats : Floats) (r : Render) (opts : PruneOptions) (m : Mock)
    → KeepsCall m (forget (mock_prune floats r opts m))
unfolding mock_prune
mock_prune-Keeps floats r opts m =
    let IsKept : Mock × Option (Result MockError PruneResult) → Type 0 =
      λ x. KeepsCall m (forget x) in
    if-rule IsKept (not (is_running m)) _ _ (λ stopped e h. refl)
      (λ running.
        if-rule IsKept (no_category opts) _ _ (λ missing e h. refl)
          (λ selected. pruned_result-Keeps r opts (prune_sections floats opts m) m))

-- A call of the mock that returns an error has left the mock as it was, for every call that changes
-- it: the start and the stop, those of the volumes, the containers, the images, the networks and the
-- registry, and the prune.
pub serve_unchanged :
    (floats : Floats) (r : Render) (c : Call) (m : Mock) (e : MockError)
    → (serve floats r c m).1 ≡ some (err e)
    → (serve floats r c m).0 ≡ m
unfolding serve start stop force_stop registry_logout apply_proxy create_volume remove_volume
    start_container stop_container remove_container remove_image pull_image push_image
    remove_network clone_volume registry_login
serve_unchanged floats r (to_start hold) m = returns-Keeps m _ (start_from-Keeps m.start_err hold m)
serve_unchanged floats r to_stop m = returns-Keeps m _ (unless-Keeps m.stop_err m _)
serve_unchanged floats r to_force_stop m = returns-Keeps m _ (unless-Keeps m.stop_err m _)
serve_unchanged floats r to_logout m = returns-Keeps m _ (
    if_unfaulted-Keeps m.image_err m _
      (if-Keeps (not (is_running m)) m _ _ (err-Keeps m _) (ok-Keeps m _)))
serve_unchanged floats r to_apply_proxy m = returns-Keeps m _ (ok-Keeps m _)
serve_unchanged floats r (to_create_volume name) m =
    returns-Keeps m _ (unless-Keeps m.container_err m _)
serve_unchanged floats r (to_remove_volume name) m =
    returns-Keeps m _ (unless-Keeps m.container_err m _)
serve_unchanged floats r (to_start_container id) m =
    returns-Keeps m _ (unless-Keeps m.container_err m _)
serve_unchanged floats r (to_stop_container id) m =
    returns-Keeps m _ (unless-Keeps m.container_err m _)
serve_unchanged floats r (to_restart_container id) m =
    returns-Keeps m _ (restart_container-Keeps id m)
serve_unchanged floats r (to_remove_container id) m =
    returns-Keeps m _ (unless-Keeps m.container_err m _)
serve_unchanged floats r (to_remove_image ref) m = returns-Keeps m _ (unless-Keeps m.image_err m _)
serve_unchanged floats r (to_pull_image ref) m = returns-Keeps m _ (unless-Keeps m.image_err m _)
serve_unchanged floats r (to_push_image ref) m = returns-Keeps m _ (unless-Keeps m.image_err m m)
serve_unchanged floats r (to_remove_network name) m =
    returns-Keeps m _
      (if-Keeps (not (is_running m)) m _ _ (err-Keeps m _) (unless-Keeps m.network_err m _))
serve_unchanged floats r (to_clone_volume source dest) m =
    returns-Keeps m _ (clone_unless-Keeps m.container_err source dest m)
serve_unchanged floats r (to_login username password) m = returns-Keeps m _ (
    if_unfaulted-Keeps m.image_err m _ (
      if-Keeps (not (is_running m)) m _ _ (err-Keeps m _)
        (if-Keeps (is_empty username || is_empty password) m _ _ (err-Keeps m _) (ok-Keeps m _))))
serve_unchanged floats r (to_prune opts) m = mock_prune-Keeps floats r opts m
