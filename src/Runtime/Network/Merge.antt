-- ===== src/Runtime/Network/Merge.antt =====
-- backend/internal/runtime/network.go: what `mergeNetworksByName` keeps.
use calf.Common.{
  Bool, true, false, Option, none, some, List, [], ◌∷◌, ◌++◌, ◌≡◌, refl, sym, ap, subst, ◌∙◌,
  if◌then◌else◌, if-rule,
}
use calf.Strings.{Text, text_eq}
use calf.Strings.Laws.{text_eq→eq}
use calf.Runtime.Types.{Network}
use calf.Runtime.Network.{find_network, unless_seen, merge_networks_by_name}

abbrev pub or_network : Option Network → Option Network → Option Network
or_network none second = second
or_network (some network) second = some network

or_network_assoc :
    (o : Option Network) (b : Bool) (network : Network) (rest : Option Network)
    → or_network (or_network o (if b then some network else none)) rest
      ≡ or_network o (if b then some network else rest)
or_network_assoc none true network rest = refl
or_network_assoc none false network rest = refl
or_network_assoc (some found) b network rest = refl

or_network_if :
    (b : Bool) (x : Network) (o second : Option Network)
    → or_network (if b then some x else o) second ≡ (if b then some x else or_network o second)
or_network_if true x o second = refl
or_network_if false x o second = refl

find_network-++ :
    (name : Text) (networks more : List Network)
    → find_network name (networks ++ more)
      ≡ or_network (find_network name networks) (find_network name more)
unfolding find_network
find_network-++ name [] more = refl
find_network-++ name (network ∷ networks) more =
    ap (λ (o : Option Network). if text_eq name network.name then some network else o)
      (find_network-++ name networks more)
    ∙ sym (
        or_network_if (text_eq name network.name) network (find_network name networks)
          (find_network name more))

-- One network that is appended unless its name is there.
find_network-unless_seen :
    (name : Text) (network : Network) (result : List Network) (rest seen : Option Network)
    → find_network network.name result ≡ seen
    → or_network (find_network name (unless_seen seen network result)) rest
      ≡ or_network
          (find_network name result)
          (if text_eq name network.name then some network else rest)
unfolding find_network
find_network-unless_seen name network result rest none h =
    ap (λ (o : Option Network). or_network o rest) (find_network-++ name result (network ∷ []))
    ∙ or_network_assoc (find_network name result) (text_eq name network.name) network rest
find_network-unless_seen name network result rest (some found) h =
    if-rule
      (λ more.
        or_network (find_network name result) rest ≡ or_network (find_network name result) more)
      (text_eq name network.name) (some network) rest
      (λ same.
        let there : find_network name result ≡ some found =
          ap (λ t. find_network t result) (text_eq→eq name network.name same) ∙ h in
        subst (λ (o : Option Network). or_network o rest ≡ or_network o (some network)) (sym there)
          refl)
      (λ _. refl)

-- What a merge of two lists of networks finds under a name: the first network of that name of the
-- first list, and where there is none the first of the second list.
pub find_network-merge_networks_by_name :
    (name : Text) (networks docker_networks : List Network)
    → find_network name (merge_networks_by_name networks docker_networks)
      ≡ or_network (find_network name networks) (find_network name docker_networks)
unfolding merge_networks_by_name find_network
find_network-merge_networks_by_name name networks [] = or_none (find_network name networks)
  where
    or_none : (o : Option Network) → o ≡ or_network o none
    or_none none = refl
    or_none (some network) = refl
find_network-merge_networks_by_name name networks (network ∷ docker_networks) =
    find_network-merge_networks_by_name name
      (unless_seen (find_network network.name networks) network networks) docker_networks
    ∙ find_network-unless_seen name network networks (find_network name docker_networks)
        (find_network network.name networks) refl
