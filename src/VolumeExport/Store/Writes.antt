-- ===== src/VolumeExport/Store/Writes.antt =====
-- `Save` and `Delete` of schedule.go, as a client sees them through `Get`.
use calf.Common.{
  ◌≡◌, refl, sym, ap, ◌∙◌, inl, inr, Bool, true, false, Option, some, List, arith, Bool-cases,
  if◌then◌else◌, Result, ok, err,
}
use calf.Strings.{Text, text_eq, is_empty, trim_space}
use calf.Strings.Laws.{text_eq_iff}
use calf.VolumeExport.Schedule.{Schedule, normalize_schedule}
use calf.VolumeExport.Schedule.Normal.{normalize_schedule_idem}
use calf.VolumeExport.Store.{
  StoreError, Disk, volume_path, list, or_not_found, get, upsert, write_volume, save, with_disk,
}
use calf.VolumeExport.Store.Lookup.{by_id, by_id-upsert, map_some, upsert-DistinctIds}
use calf.VolumeExport.Store.Refines.{
  IsDistinct, list-DistinctIds, list-normal, list_of_same_path, get_of_list, written, get-written,
}

pub write_volume-ok :
    (d : Disk) (v : Text) (ss : List Schedule)
    → (write_volume d v ss).1 ≡ ok tt
    → (write_volume d v ss).0 ≡ written d v ss
unfolding write_volume
write_volume-ok d v ss h = ground arith

pass_checks :
    (b c : Bool) (d : Disk) (x y : StoreError) (r : Disk × Result StoreError (Unit {0}))
    → (if b then (d, err x) else if c then (d, err y) else r).1 ≡ ok tt
    → (if b then (d, err x) else if c then (d, err y) else r) ≡ r
pass_checks true c d x y r h = cc
pass_checks false true d x y r h = cc
pass_checks false false d x y r h = refl

save_write : Disk → Schedule → Disk × Result StoreError (Unit {0})
save_write d s =
    with_disk d (list d s.volume) (λ ss. write_volume d s.volume (upsert (normalize_schedule s) ss))

save_passes : (d : Disk) (s : Schedule) → (save d s).1 ≡ ok tt → save d s ≡ save_write d s
unfolding save save_write normalize_schedule
save_passes d s h =
    pass_checks (is_empty (trim_space s.volume)) (is_empty (trim_space s.id)) d
      StoreError.volume_required StoreError.id_required _ h

pub with_disk-ok :
    (d : Disk) (r : Result StoreError (List Schedule))
    (f : List Schedule → Disk × Result StoreError (Unit {0}))
    → (with_disk d r f).1 ≡ ok tt
    → (ss : List Schedule) × (r ≡ ok ss) × (with_disk d r f ≡ f ss)
with_disk-ok d (ok ss) f h = (ss, refl, refl)
with_disk-ok d (err x) f h = cc

-- A successful `Save` has read the list of its volume, and written it with the schedule put in.
pub save-ok :
    (d : Disk) (s : Schedule)
    → (save d s).1 ≡ ok tt
    → (ss : List Schedule) × (list d s.volume ≡ ok ss)
      × ((save d s).0 ≡ written d s.volume (upsert (normalize_schedule s) ss))
unfolding save_write
save-ok d s h =
    let passed = save_passes d s h in
    let (ss, listed, e) =
      with_disk-ok d (list d s.volume)
        (λ ss. write_volume d s.volume (upsert (normalize_schedule s) ss))
        (ap (λ (t : Disk × Result StoreError (Unit {0})). t.1) (sym passed) ∙ h) in
    (
      ss,
      listed,
      ap (λ (t : Disk × Result StoreError (Unit {0})). t.0) (passed ∙ e)
          ∙ write_volume-ok d s.volume (upsert (normalize_schedule s) ss)
              (ap (λ (t : Disk × Result StoreError (Unit {0})). t.1) (sym (passed ∙ e)) ∙ h),
    )

shown_by_test :
    (b : Bool) (id : Text) (n : Schedule) (o : Option Schedule)
    → normalize_schedule n ≡ n
    → map_some o ≡ o
    → or_not_found id (map_some (if b then some n else o)) ≡ (if b then ok n else or_not_found id o)
shown_by_test true id n o p q = ap ok p
shown_by_test false id n o p q = ap (or_not_found id) q

-- What the written list shows: the schedule under its id, and the others as they were listed.
shown_after_upsert :
    (d : Disk) (s : Schedule) (v id : Text) (ss : List Schedule)
    → list d v ≡ ok ss
    → or_not_found id (map_some (by_id id (upsert (normalize_schedule s) ss)))
      ≡ (if text_eq id s.id then ok (normalize_schedule s) else get d v id)
unfolding normalize_schedule
shown_after_upsert d s v id ss listed =
    rw (by_id-upsert, get_of_list d v id ss listed)
      (shown_by_test (text_eq id s.id) id (normalize_schedule s) (by_id id ss)
        (normalize_schedule_idem s) (list-normal d v id ss listed))

-- In a store in which every file holds each id once: after a successful `Save`, `Get` returns the schedule, normalised, under its volume's file and its
-- id, and returns for every other file and id what it returned before.
pub get-save :
    (d : Disk) (s : Schedule) (v id : Text)
    → IsDistinct d
    → (save d s).1 ≡ ok tt
    → get (save d s).0 v id ≡ (
        if text_eq (volume_path v) (volume_path s.volume)
        then (if text_eq id s.id then ok (normalize_schedule s) else get d v id)
        else get d v id)
get-save d s v id distinct h =
    let (ss, listed, e) = save-ok d s h in
    rw
      (
        e,
        get-written d v s.volume id _ (
            upsert-DistinctIds (normalize_schedule s) ss
              (list-DistinctIds d s.volume ss distinct listed)),
      )
      (elim (Bool-cases (text_eq (volume_path v) (volume_path s.volume))) [
        | inl p ↦ rw p (
            shown_after_upsert d s v id ss
              (list_of_same_path d v s.volume ss ((text_eq_iff _ _).0 p) listed))
        | inr p ↦ rw p
      ])
