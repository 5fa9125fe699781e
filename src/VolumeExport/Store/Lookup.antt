-- ===== src/VolumeExport/Store/Lookup.antt =====
-- Lookups by file name and by schedule id in the store of schedule.go.
use calf.Common.{
  ◌≡◌, ◌≢◌, refl, sym, ap, ◌∙◌, subst, inl, inr, Bool, Option, none, some, List, [], ◌∷◌, map, find,
  arith, All, All-sort_insert, All-sort_slice, All-keep, Bool-cases, if◌then◌else◌, sort_insert,
  sort_slice,
}
use calf.Strings.{Text, text_eq}
use calf.Strings.Laws.{text_eq_iff, text_eq-false→ne}
use calf.VolumeExport.Schedule.{Schedule, normalize_schedule}
use calf.VolumeExport.Store.{
  Payload, lookup_file, put_file, remove_file, has_id, upsert, without_id,
}

pub lookup_file-put_file :
    (path name : Text) (payload : Payload) (files : List (Text × Payload))
    → lookup_file path (put_file name payload files)
      ≡ (if text_eq path name then some payload else lookup_file path files)
unfolding lookup_file put_file
lookup_file-put_file path name payload [] = refl
lookup_file-put_file path name payload ((other, old) ∷ files) = ground (
  arith,
  lookup_file-put_file path name payload files,
  text_eq_iff path name,
  text_eq_iff name other,
  text_eq_iff path other,
)

pub lookup_file-remove_file :
    (path name : Text) (files : List (Text × Payload))
    → lookup_file path (remove_file name files)
      ≡ (if text_eq path name then none else lookup_file path files)
unfolding lookup_file remove_file
lookup_file-remove_file path name [] = ground arith
lookup_file-remove_file path name ((other, old) ∷ files) = ground (
  arith,
  lookup_file-remove_file path name files,
  text_eq_iff path name,
  text_eq_iff name other,
  text_eq_iff path other,
)

abbrev pub IsFresh : Text → List Schedule → Type 0
IsFresh id ss = All (λ s. s.id ≢ id) ss

-- No two schedules of a file have one id.
abbrev pub DistinctIds : List Schedule → Type 0
DistinctIds [] = Unit
DistinctIds (s ∷ ss) = IsFresh s.id ss × DistinctIds ss

abbrev pub by_id : Text → List Schedule → Option Schedule
by_id id = find (has_id id)

by_id-sort_insert :
    (id : Text) (less : Schedule → Schedule → Bool) (s : Schedule) (ss : List Schedule)
    → IsFresh s.id ss
    → by_id id (sort_insert less s ss) ≡ by_id id (s ∷ ss)
unfolding sort_insert
by_id-sort_insert id less s [] h = refl
by_id-sort_insert id less s (t ∷ ss) (p, h) =
    ground (arith, by_id-sort_insert id less s ss h, text_eq_iff s.id id, text_eq_iff t.id id, p)

-- Sorting a file with distinct ids changes no lookup.
pub by_id-sort_slice :
    (id : Text) (less : Schedule → Schedule → Bool) (ss : List Schedule)
    → DistinctIds ss
    → by_id id (sort_slice less ss) ≡ by_id id ss
unfolding sort_slice
by_id-sort_slice id less [] h = refl
by_id-sort_slice id less (s ∷ ss) (fresh, h) =
    by_id-sort_insert id less s (sort_slice less ss)
      (All-sort_slice (λ t. t.id ≢ s.id) less ss fresh)
    ∙ ap (λ o. if has_id id s then some s else o) (by_id-sort_slice id less ss h)

sort_insert-DistinctIds :
    (less : Schedule → Schedule → Bool) (s : Schedule) (ss : List Schedule)
    → IsFresh s.id ss
    → DistinctIds ss
    → DistinctIds (sort_insert less s ss)
unfolding sort_insert
sort_insert-DistinctIds less s [] fresh h = (tt, tt)
sort_insert-DistinctIds less s (t ∷ ss) (p, fresh) (q, h) = elim (Bool-cases (less t s)) [
  | inl e ↦ rw e (
    All-sort_insert (λ u. u.id ≢ t.id) less s ss (λ k. p (sym k)) q,
    sort_insert-DistinctIds less s ss fresh h,
  )
  | inr e ↦ rw e ((p, fresh), (q, h))
]

pub sort_slice-DistinctIds :
    (less : Schedule → Schedule → Bool) (ss : List Schedule)
    → DistinctIds ss
    → DistinctIds (sort_slice less ss)
unfolding sort_slice
sort_slice-DistinctIds less [] h = tt
sort_slice-DistinctIds less (s ∷ ss) (fresh, h) =
    sort_insert-DistinctIds less s (sort_slice less ss)
      (All-sort_slice (λ t. t.id ≢ s.id) less ss fresh) (sort_slice-DistinctIds less ss h)

map-IsFresh :
    (id : Text) (ss : List Schedule) → IsFresh id ss → IsFresh id (map normalize_schedule ss)
unfolding normalize_schedule
map-IsFresh id [] h = tt
map-IsFresh id (s ∷ ss) (p, h) = (p, map-IsFresh id ss h)

pub map-DistinctIds :
    (ss : List Schedule) → DistinctIds ss → DistinctIds (map normalize_schedule ss)
unfolding normalize_schedule
map-DistinctIds [] h = tt
map-DistinctIds (s ∷ ss) (fresh, h) = (map-IsFresh s.id ss fresh, map-DistinctIds ss h)

abbrev pub map_some : Option Schedule → Option Schedule
map_some none = none
map_some (some s) = some (normalize_schedule s)

pub by_id-map :
    (id : Text) (ss : List Schedule) → by_id id (map normalize_schedule ss) ≡ map_some (by_id id ss)
unfolding normalize_schedule
by_id-map id [] = refl
by_id-map id (s ∷ ss) = ground (arith, by_id-map id ss)

-- What `Save` writes: the schedule under its id, and every other schedule as it was.
pub by_id-upsert :
    (id : Text) (s : Schedule) (ss : List Schedule)
    → by_id id (upsert s ss) ≡ (if text_eq id s.id then some s else by_id id ss)
unfolding upsert
by_id-upsert id s [] = ground (arith, text_eq_iff s.id id, text_eq_iff id s.id)
by_id-upsert id s (t ∷ ss) = ground (
  arith,
  by_id-upsert id s ss,
  text_eq_iff s.id id,
  text_eq_iff id s.id,
  text_eq_iff t.id id,
  text_eq_iff t.id s.id,
)

upsert-IsFresh :
    (id : Text) (s : Schedule) (ss : List Schedule)
    → s.id ≢ id
    → IsFresh id ss
    → IsFresh id (upsert s ss)
unfolding upsert
upsert-IsFresh id s [] p h = (p, tt)
upsert-IsFresh id s (t ∷ ss) p (q, h) = elim (Bool-cases (text_eq t.id s.id)) [
  | inl e ↦ rw e (p, h)
  | inr e ↦ rw e (q, upsert-IsFresh id s ss p h)
]

pub upsert-DistinctIds :
    (s : Schedule) (ss : List Schedule) → DistinctIds ss → DistinctIds (upsert s ss)
unfolding upsert
upsert-DistinctIds s [] h = (tt, tt)
upsert-DistinctIds s (t ∷ ss) (fresh, h) = elim (Bool-cases (text_eq t.id s.id)) [
  | inl e ↦ rw e (subst (λ i. IsFresh i ss) ((text_eq_iff t.id s.id).0 e) fresh, h)
  | inr e ↦ rw e (
    upsert-IsFresh t.id s ss (λ k. text_eq-false→ne t.id s.id e (sym k)) fresh,
    upsert-DistinctIds s ss h,
  )
]

-- What `Delete` writes: no schedule under the id, and every other schedule as it was.
pub by_id-without_id :
    (id gone : Text) (ss : List Schedule)
    → by_id id (without_id gone ss) ≡ (if text_eq id gone then none else by_id id ss)
by_id-without_id id gone [] = ground arith
by_id-without_id id gone (s ∷ ss) = ground (
  arith,
  by_id-without_id id gone ss,
  text_eq_iff id gone,
  text_eq_iff s.id gone,
  text_eq_iff s.id id,
)

pub without_id-DistinctIds :
    (id : Text) (ss : List Schedule) → DistinctIds ss → DistinctIds (without_id id ss)
without_id-DistinctIds id [] h = tt
without_id-DistinctIds id (s ∷ ss) (fresh, h) = elim (Bool-cases (has_id id s)) [
  | inl e ↦ rw e (without_id-DistinctIds id ss h)
  | inr e ↦ rw e (All-keep _ _ ss fresh, without_id-DistinctIds id ss h)
]
