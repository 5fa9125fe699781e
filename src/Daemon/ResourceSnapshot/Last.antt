-- ===== src/Daemon/ResourceSnapshot/Last.antt =====
-- resource_snapshot.go: which list is served while the engine is stopped.
use calf.Common.{
  ◌≡◌, refl, true, List, [], ◌∷◌, Result, ok, err, if◌then◌else◌, Bool-cases, inl, inr,
}
use calf.Strings.{Text}
use calf.Daemon.ResourceSnapshot.{Request, store_live, serve_resource_snapshot, list_snapshot}

module _ {A : Type 0} where
  -- The list behind some calls.
  abbrev pub cached_behind : List (Request A) → List A → List A
  cached_behind [] cached = cached
  cached_behind (x ∷ xs) cached = cached_behind xs (list_snapshot x cached).0

  -- The lists that the engine gave to the calls that asked it, and the last of them.
  abbrev pub add_live : Result Text (List A) → List (List A) → List (List A)
  add_live (ok items) rest = items ∷ rest
  add_live (err message) rest = rest

  abbrev pub live_lists : List (Request A) → List (List A)
  live_lists [] = []
  live_lists (x ∷ xs) =
      let rest = live_lists xs in
      if serve_resource_snapshot x.active x.state then rest else add_live x.live rest

  abbrev pub last_of : List (List A) → List A → List A
  last_of [] cached = cached
  last_of (items ∷ rest) cached = last_of rest items

  live_step :
      (live : Result Text (List A)) (xs : List (Request A)) (cached : List A)
      → ((c : List A) → cached_behind xs c ≡ last_of (live_lists xs) c)
      → cached_behind xs (store_live live cached).0 ≡ last_of (add_live live (live_lists xs)) cached
  live_step (ok items) xs cached h = h items
  live_step (err message) xs cached h = h cached

  cached_behind_lem :
      (xs : List (Request A)) (cached : List A)
      → cached_behind xs cached ≡ last_of (live_lists xs) cached
  unfolding list_snapshot
  cached_behind_lem [] cached = refl
  cached_behind_lem (x ∷ xs) cached = elim (Bool-cases (serve_resource_snapshot x.active x.state)) [
    | inl e ↦ rw e (cached_behind_lem xs cached)
    | inr e ↦ rw e (live_step x.live xs cached (cached_behind_lem xs))
  ]

  -- A call while the Resource Saver serves its lists returns, without an error, the last list that
  -- the engine gave to a call before, whatever these calls and the errors between them were; where it
  -- gave none, the list of the beginning.
  pub list_snapshot-last :
      (xs : List (Request A)) (cached : List A) (x : Request A)
      → serve_resource_snapshot x.active x.state ≡ true
      → (list_snapshot x (cached_behind xs cached)).1 ≡ ok (last_of (live_lists xs) cached)
  unfolding list_snapshot
  list_snapshot-last xs cached x h = rw (h, cached_behind_lem) refl
