-- ===== src/Runtime/Mock/Pruned/Sections.antt =====
-- backend/internal/runtime/mock.go: what each section of `Prune` clears, and what it leaves alone.
use calf.Common.{
  ◌≡◌, refl, Bool, true, false, List, [], ◌∷◌, if◌then◌else◌, keep, map, All, inl, inr, Bool-cases,
  if-rule, ℤ,
}
use calf.Utils.Format.{Render}
use calf.Utils.Size.{Floats}
use calf.Runtime.Types.{Container, Volume, Network}
use calf.Runtime.Prune.{
  unused_image_prune_items, unused_volume_prune_items, stopped_container_prune_items,
  unused_network_prune_items, container_kept_alive, is_default_network,
}
use calf.Runtime.Prune.Unused.{IsIdentified}
use calf.Runtime.Mock.{Mock}
use calf.Runtime.Mock.Lists.{has_any}
use calf.Runtime.Mock.Prune.{
  prune_containers, prune_images, prune_volumes, prune_networks, prune_cache, preview_volume,
  cache_preview,
}
use calf.Runtime.Mock.Pruned.Images.{unused_image_prune_items_kept}

-- The containers, the networks and the volumes.
pub stopped_container_prune_items_kept :
    (containers : List Container)
    → stopped_container_prune_items
        (keep (λ container. container_kept_alive container.state) containers)
      ≡ []
unfolding stopped_container_prune_items
stopped_container_prune_items_kept [] = refl
stopped_container_prune_items_kept (c ∷ containers) =
    let rest = stopped_container_prune_items_kept containers in
    elim (Bool-cases (container_kept_alive c.state)) [ inl e ↦ rw (e, e) rest | inr e ↦ rw e rest ]

pub unused_network_prune_items_kept :
    (networks : List Network)
    → unused_network_prune_items (keep (λ network. is_default_network network.name) networks) ≡ []
unfolding unused_network_prune_items
unused_network_prune_items_kept [] = refl
unused_network_prune_items_kept (n ∷ networks) =
    let rest = unused_network_prune_items_kept networks in
    elim (Bool-cases (is_default_network n.name)) [ inl e ↦ rw (e, e) rest | inr e ↦ rw e rest ]

pub unused_volume_prune_items_in_use :
    (floats : Floats) (volumes : List Volume)
    → unused_volume_prune_items floats (map (preview_volume true) volumes) ≡ []
unfolding unused_volume_prune_items
unused_volume_prune_items_in_use floats [] = refl
unused_volume_prune_items_in_use floats (v ∷ volumes) =
    unused_volume_prune_items_in_use floats volumes

-- What each section of `Prune` leaves alone.
abbrev pub Alike : Mock → Mock → Type 0
Alike m n = (m.containers ≡ n.containers) × (m.status_value ≡ n.status_value)

pub cache_left :
    (floats : Floats) (b : Bool) (s : Mock × ℤ)
    → Alike (prune_cache floats b s).0 s.0
      × ((prune_cache floats b s).0.images ≡ s.0.images)
      × ((prune_cache floats b s).0.volumes ≡ s.0.volumes)
      × ((prune_cache floats b s).0.networks ≡ s.0.networks)
cache_left floats true (m, total) = ((refl, refl), refl, refl, refl)
cache_left floats false (m, total) = ((refl, refl), refl, refl, refl)

pub networks_left :
    (floats : Floats) (b : Bool) (s : Mock × ℤ)
    → Alike (prune_networks floats b s).0 s.0
      × ((prune_networks floats b s).0.images ≡ s.0.images)
      × ((prune_networks floats b s).0.volumes ≡ s.0.volumes)
networks_left floats true (m, total) = ((refl, refl), refl, refl)
networks_left floats false (m, total) = ((refl, refl), refl, refl)

pub volumes_left :
    (floats : Floats) (b : Bool) (s : Mock × ℤ)
    → Alike (prune_volumes floats b s).0 s.0 × ((prune_volumes floats b s).0.images ≡ s.0.images)
volumes_left floats true (m, total) =
    if-rule (λ (x : Mock × ℤ). Alike x.0 m × (x.0.images ≡ m.images)) (has_any m.containers) _ _
      (λ e. ((refl, refl), refl)) (λ e. ((refl, refl), refl))
volumes_left floats false (m, total) = ((refl, refl), refl)

pub images_left :
    (floats : Floats) (b : Bool) (s : Mock × ℤ) → Alike (prune_images floats b s).0 s.0
images_left floats true (m, total) = (refl, refl)
images_left floats false (m, total) = (refl, refl)

-- Each section clears its own part.
pub when_selected :
    {A : Type 0} (b : Bool) (items : List A)
    → (b ≡ true → items ≡ [])
    → (if b then items else []) ≡ []
when_selected true items h = h refl
when_selected false items h = refl

pub stopped_cleared :
    (floats : Floats) (m : Mock) (b : Bool)
    → b ≡ true
    → stopped_container_prune_items (prune_containers floats b m).containers ≡ []
stopped_cleared floats m true e = stopped_container_prune_items_kept m.containers
stopped_cleared floats m false e = cc

pub images_cleared :
    (floats : Floats) (b : Bool) (s : Mock × ℤ)
    → All IsIdentified s.0.images
    → b ≡ true
    → unused_image_prune_items floats s.0.containers (prune_images floats b s).0.images ≡ []
images_cleared floats true (m, total) identified e =
    unused_image_prune_items_kept floats m.containers m.images identified
images_cleared floats false s identified e = cc

preview_cleared :
    (floats : Floats) (containers : List Container) (m : Mock) (total : ℤ)
    → m.containers ≡ containers
    → unused_volume_prune_items floats
        (map (preview_volume (has_any containers)) (prune_volumes floats true (m, total)).0.volumes)
      ≡ []
unfolding unused_volume_prune_items
preview_cleared floats [] m total e =
    let nobody : has_any m.containers ≡ false = rw e refl in
    if-rule
      (λ (x : Mock × ℤ).
        unused_volume_prune_items floats (map (preview_volume false) x.0.volumes) ≡ [])
      (has_any m.containers) _ _ (λ f. cc) (λ f. refl)
preview_cleared floats (c ∷ containers) m total e =
    unused_volume_prune_items_in_use floats (prune_volumes floats true (m, total)).0.volumes

pub volumes_cleared :
    (floats : Floats) (b : Bool) (s : Mock × ℤ)
    → b ≡ true
    → unused_volume_prune_items floats
        (map (preview_volume (has_any s.0.containers)) (prune_volumes floats b s).0.volumes)
      ≡ []
volumes_cleared floats true (m, total) e = preview_cleared floats m.containers m total refl
volumes_cleared floats false s e = cc

pub networks_cleared :
    (floats : Floats) (b : Bool) (s : Mock × ℤ)
    → b ≡ true
    → unused_network_prune_items (prune_networks floats b s).0.networks ≡ []
networks_cleared floats true (m, total) e = unused_network_prune_items_kept m.networks
networks_cleared floats false s e = cc

pub cache_cleared :
    (floats : Floats) (r : Render) (b : Bool) (s : Mock × ℤ)
    → b ≡ true
    → (cache_preview floats r (prune_cache floats b s).0.build_cache_bytes).items ≡ []
cache_cleared floats r true (m, total) e = refl
cache_cleared floats r false s e = cc
