-- ===== src/VolumeExport/Store/Refines.antt =====
-- The store of schedule.go against a map from a file and an id to a schedule.
use calf.Common.{
  ◌≡◌, refl, sym, ap, subst, ◌⊎◌, inl, inr, Bool, true, false, Option, none, some, List, [], map,
  Bool-cases, if◌then◌else◌, sort_slice, ok, ok_inj,
}
use calf.Strings.{Text, text_eq}
use calf.VolumeExport.Schedule.{Schedule, normalize_schedule}
use calf.VolumeExport.Schedule.Normal.{normalize_schedule_idem}
use calf.VolumeExport.Store.{
  Payload, decoded, corrupt, unreadable, Disk, lookup_file, put_file, volume_path, newer,
  list_payload, list, or_not_found, get,
}
use calf.VolumeExport.Store.Lookup.{
  lookup_file-put_file, DistinctIds, by_id, by_id-sort_slice, sort_slice-DistinctIds,
  map-DistinctIds, map_some, by_id-map,
}

-- Every file that can be read holds each id once.
pub record IsDistinct (d : Disk) : Type 0 where
  pub at_path :
      (path : Text) (ss : List Schedule)
      → lookup_file path d.files ≡ some (decoded ss)
      → DistinctIds ss

-- What `List` returns: the stored schedules, sorted and normalised, or nothing for a missing file.
list_payload-ok :
    (v : Text) (o : Option Payload) (ss : List Schedule)
    → list_payload v o ≡ ok ss
    → ((o ≡ none) × (ss ≡ []))
      ⊎ ((stored : List Schedule) × (o ≡ some (decoded stored))
          × (ss ≡ map normalize_schedule (sort_slice newer stored)))
unfolding list_payload
list_payload-ok v none ss h = inl (refl, sym (ok_inj h))
list_payload-ok v (some (decoded stored)) ss h = inr (stored, refl, sym (ok_inj h))
list_payload-ok v (some corrupt) ss h = cc
list_payload-ok v (some unreadable) ss h = cc

map_some_idem : (o : Option Schedule) → map_some (map_some o) ≡ map_some o
map_some_idem none = refl
map_some_idem (some s) = ap some (normalize_schedule_idem s)

pub list-DistinctIds :
    (d : Disk) (v : Text) (ss : List Schedule) → IsDistinct d → list d v ≡ ok ss → DistinctIds ss
unfolding list
list-DistinctIds d v ss h e = elim (list_payload-ok v (lookup_file (volume_path v) d.files) ss e) [
  | inl (_, p) ↦ subst DistinctIds (sym p) tt
  | inr (stored, p, q) ↦
      subst DistinctIds (sym q) (
        map-DistinctIds _
          (sort_slice-DistinctIds newer stored (h.at_path (volume_path v) stored p)))
]

pub list-normal :
    (d : Disk) (v id : Text) (ss : List Schedule)
    → list d v ≡ ok ss
    → map_some (by_id id ss) ≡ by_id id ss
unfolding list
list-normal d v id ss e = elim (list_payload-ok v (lookup_file (volume_path v) d.files) ss e) [
  | inl (_, p) ↦ rw p
  | inr (stored, _, q) ↦ rw (q, by_id-map) (map_some_idem _)
]

list_payload_any :
    (v w : Text) (o : Option Payload) (ss : List Schedule)
    → list_payload w o ≡ ok ss
    → list_payload v o ≡ ok ss
unfolding list_payload
list_payload_any v w none ss h = h
list_payload_any v w (some (decoded stored)) ss h = h
list_payload_any v w (some corrupt) ss h = cc
list_payload_any v w (some unreadable) ss h = cc

-- Two volumes with one path have one list, where it can be read.
pub list_of_same_path :
    (d : Disk) (v w : Text) (ss : List Schedule)
    → volume_path v ≡ volume_path w
    → list d w ≡ ok ss
    → list d v ≡ ok ss
unfolding list
list_of_same_path d v w ss e h =
    rw e (list_payload_any v w (lookup_file (volume_path w) d.files) ss h)

pub get_of_list :
    (d : Disk) (v id : Text) (ss : List Schedule)
    → list d v ≡ ok ss
    → get d v id ≡ or_not_found id (by_id id ss)
unfolding get
get_of_list d v id ss h = rw h

-- The disk after the schedules of a volume are written.
abbrev pub written : Disk → Text → List Schedule → Disk
written d w ss = record d { files = put_file (volume_path w) (decoded ss) d.files }

list-written :
    (d : Disk) (v w : Text) (ss : List Schedule)
    → list (written d w ss) v ≡ (
        if text_eq (volume_path v) (volume_path w)
        then ok (map normalize_schedule (sort_slice newer ss))
        else list d v)
unfolding list list_payload
list-written d v w ss = rw lookup_file-put_file (split (text_eq (volume_path v) (volume_path w)))
  where
    split :
        (b : Bool)
        → list_payload v (if b then some (decoded ss) else lookup_file (volume_path v) d.files) ≡ (
            if b
            then ok (map normalize_schedule (sort_slice newer ss))
            else list_payload v (lookup_file (volume_path v) d.files))
    split true = refl
    split false = refl

-- Reading after a write: the written file shows its schedules, and no other file changes.
pub get-written :
    (d : Disk) (v w id : Text) (ss : List Schedule)
    → DistinctIds ss
    → get (written d w ss) v id ≡ (
        if text_eq (volume_path v) (volume_path w)
        then or_not_found id (map_some (by_id id ss))
        else get d v id)
unfolding get
get-written d v w id ss h = elim (Bool-cases (text_eq (volume_path v) (volume_path w))) [
  | inl e ↦ rw (e, list-written, e, by_id-map, by_id-sort_slice id newer ss h)
  | inr e ↦ rw (e, list-written, e)
]
