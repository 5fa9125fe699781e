-- ===== src/Daemon/StatsHistory.antt =====
-- backend/internal/daemon/stats_history.go: the rolling window of resource samples of each container.
-- The map is a list of its entries; Go goes through a map in any order, and so may the list.
pub mod Window
use calf.Common.{
  ℕ, ◌+◌, ◌-◌, ◌*◌, Bool, true, false, not, ◌&&◌, ◌||◌, Option, none, some, List, [], ◌∷◌, ◌++◌,
  leb, any, find, keep, if◌then◌else◌,
}
use calf.Strings.{Text, text_eq, is_empty, trim_space, has_prefix}

-- `runtime.ContainerStats`, as far as it is stored.
pub record ContainerStats : Type 0 where
  pub cpu_perc : Text
  pub mem_usage : Text
  pub mem_perc : Text
  pub net_io : Text
  pub block_io : Text
  pub pids : Text

-- `t` counts milliseconds.
pub record StatsSample : Type 0 where
  pub t : ℕ
  pub stats : ContainerStats

pub record StatsHistory : Type 0 where
  pub by_id : List (Text × List StatsSample)
  pub retain : ℕ

unfoldable pub container_id_match : Text → Text → Bool
container_id_match a b = text_eq a b || has_prefix a b || has_prefix b a

unfoldable pub container_id_in_set : Text → List Text → Bool
unfolding container_id_match
container_id_in_set id set = any (text_eq id) set || any (container_id_match id) set

-- `h.byID[key]`: no samples where the key is missing.
unfoldable pub samples_at : List (Text × List StatsSample) → Text → List StatsSample
samples_at [] key = []
samples_at ((k, samples) ∷ entries) key = if text_eq k key then samples else samples_at entries key

-- `h.byID[key] = samples`
unfoldable pub put_samples :
    List (Text × List StatsSample) → Text → List StatsSample → List (Text × List StatsSample)
put_samples [] key samples = (key, samples) ∷ []
put_samples ((k, old) ∷ entries) key samples =
    let rest = put_samples entries key samples in
    if text_eq k key then (key, samples) ∷ entries else (k, old) ∷ rest

unfoldable pub has_key : List (Text × List StatsSample) → Text → Bool
has_key entries key = any (λ entry. text_eq entry.0 key) entries

abbrev pub key_or_empty : Option (Text × List StatsSample) → Text
key_or_empty none = []
key_or_empty (some entry) = entry.0

unfoldable pub resolve_key_locked : StatsHistory → Text → Text
unfolding has_key container_id_match
resolve_key_locked h id =
    if has_key h.by_id id
    then id
    else key_or_empty (find (λ entry. container_id_match entry.0 id) h.by_id)

unfoldable pub retained : ℕ → List StatsSample → List StatsSample
retained cutoff samples = keep (λ s. leb cutoff s.t) samples

-- The key under which `Append` stores.
unfoldable pub append_key : StatsHistory → Text → Text
unfolding resolve_key_locked
append_key h id = let key = resolve_key_locked h id in if is_empty key then id else key

-- `at` and `retain` count milliseconds; no time comes before the start of the clock.
unfoldable pub append : StatsHistory → Text → ContainerStats → ℕ → StatsHistory
unfolding append_key retained samples_at put_samples
append h raw_id stats at =
    let id = trim_space raw_id in
    let key = append_key h id in
    let next =
      retained (at - h.retain) (samples_at h.by_id key)
      ++ (record { t = at; stats = stats } ∷ []) in
    if is_empty id then h else record h { by_id = put_samples h.by_id key next }

unfoldable pub samples : StatsHistory → Text → List StatsSample
unfolding resolve_key_locked samples_at
samples h raw_id =
    let id = trim_space raw_id in
    let key = resolve_key_locked h id in
    if is_empty id then [] else if is_empty key then [] else samples_at h.by_id key

unfoldable pub forget : StatsHistory → Text → StatsHistory
unfolding container_id_match
forget h raw_id =
    let id = trim_space raw_id in
    if is_empty id
    then h
    else record h { by_id = keep (λ entry. not (container_id_match entry.0 id)) h.by_id }

unfoldable pub retain_only : StatsHistory → List Text → StatsHistory
unfolding container_id_in_set
retain_only h set = record h { by_id = keep (λ entry. container_id_in_set entry.0 set) h.by_id }
