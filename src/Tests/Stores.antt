-- ===== src/Tests/Stores.antt =====
-- Examples of the store of schedules.
use calf.Common.{◌≡◌, refl, true, [], ok, err, if◌then◌else◌, sort_slice, sort_insert}
use calf.Strings.{
  text, text_eq, text_lt, is_empty, is_space, trim_space, trim_left, trim_right, trim_end, contains,
  has_prefix,
}
use calf.Utils.Sanitize.{sanitize_file_name}
use calf.VolumeExport.Schedule.{normalize_schedule, normalize_days}
use calf.VolumeExport.Store.{
  kept, Disk, not_found, sanitize_name, volume_path, lookup_file, put_file, list, list_payload, get,
  upsert, write_volume, save, delete, remove_volume,
}
use calf.VolumeExport.Store.Refines.{IsDistinct}
use calf.VolumeExport.Store.Names.{IsComponent, sanitize_name-IsComponent}
use calf.VolumeExport.Store.Writes.{get-save}
use calf.VolumeExport.Store.Deletes.{get-delete}
use calf.VolumeExport.Store.Invariant.{save-IsDistinct, delete-IsDistinct}
use calf.Tests.Data.{tuesdays}

abbrev empty : Disk
empty = record {
  files = [];
  can_create_dir = true;
  can_write = true;
  failed_write = kept;
  can_remove = true;
}

empty-IsDistinct : IsDistinct empty
unfolding lookup_file
empty-IsDistinct = record { at_path = λ path found e. cc }

save-empty : (save empty tuesdays).1 ≡ ok tt
unfolding save list list_payload lookup_file volume_path write_volume normalize_schedule is_empty
    trim_space trim_left trim_right trim_end is_space
save-empty = refl

get-save_example : get (save empty tuesdays).0 (text "data") (text "s1") ≡ (
    if text_eq (volume_path (text "data")) (volume_path tuesdays.volume)
    then (if text_eq (text "s1") tuesdays.id
        then ok (normalize_schedule tuesdays)
        else get empty (text "data") (text "s1"))
    else get empty (text "data") (text "s1"))
get-save_example = get-save empty tuesdays (text "data") (text "s1") empty-IsDistinct save-empty

save-IsDistinct_example : IsDistinct (save empty tuesdays).0
save-IsDistinct_example = save-IsDistinct empty tuesdays empty-IsDistinct

abbrev saved : Disk
saved = (save empty tuesdays).0

saved-IsDistinct : IsDistinct saved
saved-IsDistinct = save-IsDistinct empty tuesdays empty-IsDistinct

delete-saved : (delete saved (text "data") (text "s1")).1 ≡ ok tt
unfolding save delete list lookup_file put_file volume_path sanitize_name sanitize_file_name
    contains has_prefix upsert write_volume remove_volume list_payload normalize_schedule
    normalize_days sort_slice sort_insert text_lt text_eq is_empty trim_space trim_left trim_right
    trim_end is_space
delete-saved = refl

get-delete_example : get (delete saved (text "data") (text "s1")).0 (text "data") (text "s1") ≡ (
    if text_eq (volume_path (text "data")) (volume_path (text "data"))
    then (if text_eq (text "s1") (text "s1")
        then err (not_found (text "s1"))
        else get saved (text "data") (text "s1"))
    else get saved (text "data") (text "s1"))
get-delete_example =
    get-delete saved (text "data") (text "s1") (text "data") (text "s1") saved-IsDistinct
      delete-saved

delete-IsDistinct_example : IsDistinct (delete saved (text "data") (text "s1")).0
delete-IsDistinct_example = delete-IsDistinct saved (text "data") (text "s1") saved-IsDistinct

sanitize_name-IsComponent_example : IsComponent (sanitize_name (text "../etc/passwd"))
sanitize_name-IsComponent_example = sanitize_name-IsComponent (text "../etc/passwd")
