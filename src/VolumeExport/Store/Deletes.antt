-- ===== src/VolumeExport/Store/Deletes.antt =====
-- `Delete` of schedule.go, as a client sees it through `Get`.
use calf.Common.{
  ◌≡◌, refl, sym, ap, ◌∙◌, inl, inr, Bool, true, false, Option, none, some, List, [], ◌∷◌, arith,
  Bool-cases, if◌then◌else◌, Result, ok, err,
}
use calf.Strings.{Text, text_eq}
use calf.Strings.Laws.{text_eq_iff}
use calf.VolumeExport.Schedule.{Schedule}
use calf.VolumeExport.Store.{
  StoreError, not_found, Disk, remove_file, volume_path, list, or_not_found, get, write_volume,
  delete, list_payload, remove_volume, without_id, is_nil,
}
use calf.VolumeExport.Store.Lookup.{
  lookup_file-remove_file, DistinctIds, by_id, map_some, by_id-without_id, without_id-DistinctIds,
}
use calf.VolumeExport.Store.Refines.{
  IsDistinct, list-DistinctIds, list-normal, list_of_same_path, get_of_list, written, get-written,
}
use calf.VolumeExport.Store.Writes.{write_volume-ok, with_disk-ok}

unfoldable pub removed : Disk → Text → Disk
removed d v = record d { files = remove_file (volume_path v) d.files }

remove_volume-ok :
    (d : Disk) (v : Text) → (remove_volume d v).1 ≡ ok tt → (remove_volume d v).0 ≡ removed d v
unfolding remove_volume removed
remove_volume-ok d v h = ground arith

-- A removed file shows no schedule, and no other file changes.
get-removed :
    (d : Disk) (v w id : Text)
    → get (removed d w) v id
      ≡ (if text_eq (volume_path v) (volume_path w) then err (not_found id) else get d v id)
unfolding get list list_payload removed
get-removed d v w id =
    rw lookup_file-remove_file
      (elim (Bool-cases (text_eq (volume_path v) (volume_path w))) [ inl e ↦ rw e | inr e ↦ rw e ])

-- What `Delete` does with the list of the volume.
delete_listed : Disk → Text → Text → List Schedule → Disk × Result StoreError (Unit {0})
delete_listed d v gone ss = elim (by_id gone ss) [
  | none ↦ (d, err (not_found gone))
  | some _ ↦
      let filtered = without_id gone ss in
      if is_nil filtered then remove_volume d v else write_volume d v filtered
]

unfoldable pub after_delete : Disk → Text → List Schedule → Disk
after_delete d v ss = if is_nil ss then removed d v else written d v ss

delete_listed-ok :
    (d : Disk) (v gone : Text) (ss : List Schedule)
    → (delete_listed d v gone ss).1 ≡ ok tt
    → (delete_listed d v gone ss).0 ≡ after_delete d v (without_id gone ss)
unfolding delete_listed after_delete
delete_listed-ok d v gone ss h =
    ground (arith, remove_volume-ok d v, write_volume-ok d v (without_id gone ss))

pub delete-ok :
    (d : Disk) (v gone : Text)
    → (delete d v gone).1 ≡ ok tt
    → (ss : List Schedule) × (list d v ≡ ok ss)
      × ((delete d v gone).0 ≡ after_delete d v (without_id gone ss))
unfolding delete delete_listed
delete-ok d v gone h =
    let (ss, listed, e) = with_disk-ok d (list d v) (delete_listed d v gone) h in
    (
      ss,
      listed,
      ap (λ (t : Disk × Result StoreError (Unit {0})). t.0) e
          ∙ delete_listed-ok d v gone ss
              (ap (λ (t : Disk × Result StoreError (Unit {0})). t.1) (sym e) ∙ h),
    )

shown_without :
    (b : Bool) (id : Text) (o : Option Schedule)
    → map_some o ≡ o
    → or_not_found id (map_some (if b then none else o))
      ≡ (if b then err (not_found id) else or_not_found id o)
shown_without true id o h = refl
shown_without false id o h = ap (or_not_found id) h

-- The disk after a deletion, whether the file is written or removed.
get-after_delete :
    (d : Disk) (v w id : Text) (ss : List Schedule)
    → DistinctIds ss
    → get (after_delete d w ss) v id ≡ (
        if text_eq (volume_path v) (volume_path w)
        then or_not_found id (map_some (by_id id ss))
        else get d v id)
unfolding after_delete
get-after_delete d v w id [] h = get-removed d v w id
get-after_delete d v w id (s ∷ ss) h = get-written d v w id (s ∷ ss) h

-- In a store in which every file holds each id once: after a successful `Delete`, `Get` finds no schedule under the volume's file and the id, and
-- returns for every other file and id what it returned before.
pub get-delete :
    (d : Disk) (w gone v id : Text)
    → IsDistinct d
    → (delete d w gone).1 ≡ ok tt
    → get (delete d w gone).0 v id ≡ (
        if text_eq (volume_path v) (volume_path w)
        then (if text_eq id gone then err (not_found id) else get d v id)
        else get d v id)
get-delete d w gone v id distinct h =
    let (ss, listed, e) = delete-ok d w gone h in
    rw
      (
        e,
        get-after_delete d v w id _
            (without_id-DistinctIds gone ss (list-DistinctIds d w ss distinct listed)),
      )
      (elim (Bool-cases (text_eq (volume_path v) (volume_path w))) [
        | inl p ↦
            let same = list_of_same_path d v w ss ((text_eq_iff _ _).0 p) listed in
            rw (p, by_id-without_id, get_of_list d v id ss same)
              (shown_without (text_eq id gone) id (by_id id ss) (list-normal d v id ss same))
        | inr p ↦ rw p
      ])
