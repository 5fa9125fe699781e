-- ===== src/VolumeExport/Store/Invariant.antt =====
-- Every operation on the store of schedule.go keeps the ids of each file distinct.
use calf.Common.{
  ◌≡◌, refl, sym, subst, inl, inr, Option, none, some, List, not, find, Bool-cases, if-rule,
  if◌then◌else◌, Result, ok, err,
}
use calf.Strings.{Text, text_eq, is_empty, trim_space}
use calf.VolumeExport.Schedule.{Schedule, normalize_schedule}
use calf.VolumeExport.Store.{
  Payload, decoded, corrupt, FailedWrite, kept, broken, whole, Disk, StoreError, not_found,
  put_file, fail_write, volume_path, list, upsert, write_volume, with_disk, remove_volume,
  without_id, is_nil, has_id, save, delete,
}
use calf.VolumeExport.Store.Lookup.{
  lookup_file-put_file, lookup_file-remove_file, DistinctIds, upsert-DistinctIds,
  without_id-DistinctIds,
}
use calf.VolumeExport.Store.Refines.{IsDistinct, list-DistinctIds}
use calf.VolumeExport.Store.Deletes.{removed}

-- A payload whose schedules, where it has some, have distinct ids.
Fine : Payload → Type 0
Fine payload = (ss : List Schedule) → payload ≡ decoded ss → DistinctIds ss

put-IsDistinct :
    (d : Disk) (w : Text) (payload : Payload)
    → IsDistinct d
    → Fine payload
    → IsDistinct (record d { files = put_file (volume_path w) payload d.files })
unfolding Fine
put-IsDistinct d w payload h fine = record {
  at_path = λ path found e. elim (Bool-cases (text_eq path (volume_path w))) [
    | inl p ↦ fine found (some-inj (rw (lookup_file-put_file, p) at e))
    | inr p ↦ h.at_path path found (rw (lookup_file-put_file, p) at e)
  ];
}
  where
    some-inj : {a b : Payload} → some a ≡ some b → a ≡ b
    some-inj q = cc

decoded-Fine : (ss : List Schedule) → DistinctIds ss → Fine (decoded ss)
unfolding Fine
decoded-Fine ss k found e = subst DistinctIds (decoded_inj e) k
  where
    decoded_inj : {a b : List Schedule} → decoded a ≡ decoded b → a ≡ b
    decoded_inj q = cc

corrupt-Fine : Fine corrupt
unfolding Fine
corrupt-Fine found e = cc

removed-IsDistinct : (d : Disk) (w : Text) → IsDistinct d → IsDistinct (removed d w)
unfolding removed
removed-IsDistinct d w h = record {
  at_path = λ path found e. elim (Bool-cases (text_eq path (volume_path w))) [
    | inl p ↦ absurd (no_file (rw (lookup_file-remove_file, p) at e))
    | inr p ↦ h.at_path path found (rw (lookup_file-remove_file, p) at e)
  ];
}
  where
    no_file : {a : Payload} → none ≡ some a → ⊥
    no_file q = cc

-- The disk of an outcome.
abbrev IsKept : Disk × Result StoreError (Unit {0}) → Type 0
IsKept o = IsDistinct o.0

fail_write-IsDistinct :
    (f : FailedWrite) (d : Disk) (w : Text) (ss : List Schedule)
    → IsDistinct d
    → DistinctIds ss
    → IsDistinct (record d { files = fail_write f (volume_path w) ss d.files })
unfolding fail_write
fail_write-IsDistinct kept d w ss h k = record { at_path = h.at_path }
fail_write-IsDistinct broken d w ss h k = put-IsDistinct d w corrupt h corrupt-Fine
fail_write-IsDistinct whole d w ss h k = put-IsDistinct d w (decoded ss) h (decoded-Fine ss k)

-- A write, whether it succeeds, fails, or fails behind a part of the payload.
write_volume-IsDistinct :
    (d : Disk) (w : Text) (ss : List Schedule)
    → IsDistinct d
    → DistinctIds ss
    → IsKept (write_volume d w ss)
unfolding write_volume
write_volume-IsDistinct d w ss h k =
    if-rule IsKept (not d.can_create_dir) _ _ (λ e. h)
      (λ e.
        if-rule IsKept (not d.can_write) _ _ (λ f. fail_write-IsDistinct d.failed_write d w ss h k)
          (λ f. put-IsDistinct d w (decoded ss) h (decoded-Fine ss k)))

remove_volume-IsDistinct : (d : Disk) (w : Text) → IsDistinct d → IsKept (remove_volume d w)
unfolding remove_volume removed
remove_volume-IsDistinct d w h =
    if-rule IsKept (not d.can_remove) _ _ (λ e. h) (λ e. removed-IsDistinct d w h)

-- An operation on the schedules of a volume, where they can be read.
with_list-IsDistinct :
    (d : Disk) (w : Text) (o : Result StoreError (List Schedule))
    (f : List Schedule → Disk × Result StoreError (Unit {0}))
    → IsDistinct d
    → o ≡ list d w
    → ((ss : List Schedule) → DistinctIds ss → IsKept (f ss))
    → IsKept (with_disk d o f)
with_list-IsDistinct d w (ok ss) f h e k = k ss (list-DistinctIds d w ss h (sym e))
with_list-IsDistinct d w (err x) f h e k = h

-- From a store in which every file holds each id once, `Save`, whether it succeeds or fails, leaves
-- such a store, also where a failed write leaves a part of the file.
pub save-IsDistinct : (d : Disk) (s : Schedule) → IsDistinct d → IsDistinct (save d s).0
unfolding save normalize_schedule
save-IsDistinct d s h =
    let n = normalize_schedule s in
    if-rule IsKept (is_empty (trim_space s.volume)) _ _ (λ e. h)
      (λ e.
        if-rule IsKept (is_empty (trim_space s.id)) _ _ (λ f. h)
          (λ f.
            with_list-IsDistinct d n.volume (list d n.volume)
              (λ ss. write_volume d n.volume (upsert n ss)) h refl
              (λ ss k. write_volume-IsDistinct d n.volume _ h (upsert-DistinctIds n ss k))))

-- What `Delete` does with the schedules of the volume.
delete_found-IsDistinct :
    (d : Disk) (v id : Text) (ss : List Schedule) (o : Option Schedule)
    → IsDistinct d
    → DistinctIds ss
    → IsKept (elim o [
      | none ↦ (d, err (not_found id))
      | some _ ↦
          let filtered = without_id id ss in
          if is_nil filtered then remove_volume d v else write_volume d v filtered
    ])
delete_found-IsDistinct d v id ss none h k = h
delete_found-IsDistinct d v id ss (some _) h k =
    if-rule IsKept (is_nil (without_id id ss)) _ _ (λ e. remove_volume-IsDistinct d v h)
      (λ e. write_volume-IsDistinct d v _ h (without_id-DistinctIds id ss k))

-- From a store in which every file holds each id once, `Delete`, whether it succeeds or fails, leaves
-- such a store, also where a failed write leaves a part of the file.
pub delete-IsDistinct : (d : Disk) (v id : Text) → IsDistinct d → IsDistinct (delete d v id).0
unfolding delete
delete-IsDistinct d v id h =
    with_list-IsDistinct d v (list d v) _ h refl
      (λ ss k. delete_found-IsDistinct d v id ss (find (has_id id) ss) h k)
