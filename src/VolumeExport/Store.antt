-- ===== src/VolumeExport/Store.antt =====
-- The stores of backend/internal/volumeexport: `ScheduleStore` of schedule.go over the directory that
-- holds one JSON file for each volume, and `sanitizeName` of store.go. A file is what `json.Unmarshal`
-- makes of its bytes; a payload that was written decodes to the schedules that were encoded.
pub mod Names
pub mod Lookup
pub mod Refines
pub mod Writes
pub mod Deletes
pub mod Invariant
use calf.Common.{
  ℕ, Bool, true, false, not, ◌&&◌, ◌||◌, Option, none, some, List, [], ◌∷◌, ◌++◌, map, keep, find,
  if◌then◌else◌, sort_slice, Result, ok, err, ◌>>=◌,
}
use calf.Strings.{Text, text, text_eq, text_lt, is_empty, trim_space, contains, has_suffix}
use calf.Utils.Sanitize.{sanitize_file_name}
use calf.VolumeExport.Schedule.{Schedule, normalize_schedule}

-- `sanitizeName`
unfoldable pub sanitize_name : Text → Text
sanitize_name value =
    let v = trim_space value in
    if is_empty v
    then text "unknown"
    else let name = sanitize_file_name v in
      if text_eq name (text ".") || text_eq name (text "..") || contains name (text "..")
      then text "unknown"
      else name

pub data StoreError : Type 0 where
  volume_required id_required create_dir_failed write_failed remove_failed : StoreError
  not_found read_failed decode_failed : Text → StoreError

-- What reading a path gives.
pub data Payload : Type 0 where
  decoded : List Schedule → Payload
  corrupt unreadable : Payload

-- What a failed `os.WriteFile` leaves, which truncates the file before it writes: the file as it was
-- where it cannot be opened, a part of the payload, which does not decode, or, where only the close
-- fails, all of it.
pub data FailedWrite : Type 0 where
  kept broken whole : FailedWrite

-- The files of the store's root by name, and what the file system answers to a creation of the
-- directory, a write and a removal.
pub record Disk : Type 0 where
  pub files : List (Text × Payload)
  pub can_create_dir : Bool
  pub can_write : Bool
  pub failed_write : FailedWrite
  pub can_remove : Bool

unfoldable pub lookup_file : Text → List (Text × Payload) → Option Payload
lookup_file path [] = none
lookup_file path ((name, payload) ∷ files) =
    if text_eq path name then some payload else lookup_file path files

unfoldable pub put_file : Text → Payload → List (Text × Payload) → List (Text × Payload)
put_file path payload [] = (path, payload) ∷ []
put_file path payload ((name, old) ∷ files) =
    if text_eq path name then (name, payload) ∷ files else (name, old) ∷ put_file path payload files

unfoldable pub remove_file : Text → List (Text × Payload) → List (Text × Payload)
remove_file path [] = []
remove_file path ((name, old) ∷ files) =
    let rest = remove_file path files in if text_eq path name then rest else (name, old) ∷ rest

unfoldable pub volume_path : Text → Text
volume_path volume_name = sanitize_name volume_name ++ text ".json"

-- Newest first.
abbrev pub newer : Schedule → Schedule → Bool
newer a b = text_lt b.created_at a.created_at

unfoldable pub list_payload : Text → Option Payload → Result StoreError (List Schedule)
list_payload volume_name none = ok []
list_payload volume_name (some unreadable) = err (read_failed volume_name)
list_payload volume_name (some corrupt) = err (decode_failed volume_name)
list_payload volume_name (some (decoded schedules)) =
    ok (map normalize_schedule (sort_slice newer schedules))

unfoldable pub list : Disk → Text → Result StoreError (List Schedule)
list disk volume_name = list_payload volume_name (lookup_file (volume_path volume_name) disk.files)

abbrev pub has_id : Text → Schedule → Bool
has_id id s = text_eq s.id id

abbrev pub or_not_found : Text → Option Schedule → Result StoreError Schedule
or_not_found id none = err (not_found id)
or_not_found id (some s) = ok s

unfoldable pub get : Disk → Text → Text → Result StoreError Schedule
get disk volume_name id = do
  schedules ← list disk volume_name
  or_not_found id (find (has_id id) schedules)

-- The loop of `ListAll`: files that cannot be read or decoded are skipped.
unfoldable pub collect : List (Text × Payload) → List Schedule
collect [] = []
collect ((name, decoded schedules) ∷ files) =
    let rest = collect files in if has_suffix name (text ".json") then schedules ++ rest else rest
collect ((name, corrupt) ∷ files) = collect files
collect ((name, unreadable) ∷ files) = collect files

unfoldable pub list_all : Disk → List Schedule
list_all disk = map normalize_schedule (collect disk.files)

-- The loop of `Save`: the first schedule with the id is replaced, or the new one goes to the end.
unfoldable pub upsert : Schedule → List Schedule → List Schedule
upsert s [] = s ∷ []
upsert s (existing ∷ schedules) =
    if text_eq existing.id s.id then s ∷ schedules else existing ∷ upsert s schedules

unfoldable pub fail_write :
    FailedWrite → Text → List Schedule → List (Text × Payload) → List (Text × Payload)
unfolding put_file
fail_write kept path schedules files = files
fail_write broken path schedules files = put_file path corrupt files
fail_write whole path schedules files = put_file path (decoded schedules) files

unfoldable pub write_volume : Disk → Text → List Schedule → Disk × Result StoreError (Unit {0})
unfolding fail_write
write_volume disk volume_name schedules =
    if not disk.can_create_dir
    then (disk, err create_dir_failed)
    else if not disk.can_write
    then (
      record disk {
        files = fail_write disk.failed_write (volume_path volume_name) schedules disk.files;
      },
      err write_failed,
    )
    else (
      record disk { files = put_file (volume_path volume_name) (decoded schedules) disk.files },
      ok tt,
    )

-- Go on with the value, or return the error beside the disk as it is.
abbrev pub with_disk :
    {A : Type 0}
    → Disk
    → Result StoreError A
    → (A → Disk × Result StoreError (Unit {0}))
    → Disk × Result StoreError (Unit {0})
with_disk disk (ok a) f = f a
with_disk disk (err e) f = (disk, err e)

unfoldable pub save : Disk → Schedule → Disk × Result StoreError (Unit {0})
save disk schedule =
    if is_empty (trim_space schedule.volume)
    then (disk, err volume_required)
    else if is_empty (trim_space schedule.id)
    then (disk, err id_required)
    else let s = normalize_schedule schedule in
      with_disk disk (list disk s.volume)
        (λ schedules. write_volume disk s.volume (upsert s schedules))

abbrev pub without_id : Text → List Schedule → List Schedule
without_id id = keep (λ s. not (has_id id s))

unfoldable pub remove_volume : Disk → Text → Disk × Result StoreError (Unit {0})
remove_volume disk volume_name =
    if not disk.can_remove
    then (disk, err remove_failed)
    else (record disk { files = remove_file (volume_path volume_name) disk.files }, ok tt)

abbrev pub is_nil : List Schedule → Bool
is_nil [] = true
is_nil (s ∷ ss) = false

unfoldable pub delete : Disk → Text → Text → Disk × Result StoreError (Unit {0})
delete disk volume_name id = with_disk disk (list disk volume_name) (λ schedules.
    elim (find (has_id id) schedules) [
      | none ↦ (disk, err (not_found id))
      | some _ ↦
          let filtered = without_id id schedules in
          if is_nil filtered
          then remove_volume disk volume_name
          else write_volume disk volume_name filtered
    ])
