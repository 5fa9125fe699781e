-- ===== src/Daemon/ExportRunner.antt =====
-- backend/internal/daemon/export_runner.go: one volume export, and the records of it that are saved.
pub mod Records
use calf.Common.{
  ℕ, Bool, true, false, not, ◌&&◌, ◌||◌, Option, none, some, List, [], ◌∷◌, ◌++◌, if◌then◌else◌, ℤ,
  Result, ok, err,
}
use calf.Strings.{Text, text, text_eq, is_empty}
use calf.Utils.Sanitize.{sanitize_export_file_name}
use calf.Utils.Format.{Render, format_bytes}
use calf.VolumeExport.Schedule.{local_file, local_image, new_image, registry}

pub record VolumeExportRequest : Type 0 where
  pub type : Text
  pub file_name : Text
  pub folder : Text
  pub image_ref : Text

-- store.go
pub record Export : Type 0 where
  pub id : Text
  pub volume : Text
  pub type : Text
  pub status : Text
  pub created_at : Text
  pub file_name : Text
  pub file_path : Text
  pub image_ref : Text
  pub size : Text
  pub error : Text
  pub downloadable : Bool

-- constants.go
abbrev pub job_running : Text
job_running = text "running"

abbrev pub job_completed : Text
job_completed = text "completed"

abbrev pub job_failed : Text
job_failed = text "failed"

-- What the file system and the runtime answer during one export. `archive_size` is the size of the
-- archive, where `os.Stat` finds it.
pub record Answers : Type 0 where
  pub store_error : Option Text
  pub dir_error : Option Text
  pub first_save : Option Text
  pub export_volume : Result Text Text
  pub archive_size : Option ℤ
  pub last_save : Option Text

-- The records that were saved, in order, and the two results.
pub record Outcome : Type 0 where
  pub saved : List Export
  pub result : Option Export
  pub error : Option Text

unfoldable pub new_export : Text → Text → Text → VolumeExportRequest → Export
new_export id created_at volume_name request = record {
  id = id;
  volume = volume_name;
  type = request.type;
  status = job_running;
  created_at = created_at;
  file_name =
      if text_eq request.type local_file && is_empty request.file_name
      then sanitize_export_file_name volume_name ++ text ".tar.gz"
      else request.file_name;
  file_path = request.folder;
  image_ref = request.image_ref;
  size = [];
  error = [];
  downloadable = false;
}

-- The size that is shown; the outer `none` is the panic of `FormatBytes`.
abbrev pub size_text : Render → Option ℤ → Option Text
size_text r none = some []
size_text r (some size) = format_bytes r size

abbrev pub is_image_type : Text → Bool
is_image_type type = text_eq type local_image || text_eq type new_image || text_eq type registry

-- The `switch` behind a successful export, at the size that was found.
unfoldable pub completed_export : Export → Text → Text → Export
completed_export e path size =
    let done = record e { status = job_completed; downloadable = text_eq e.type local_file } in
    if text_eq e.type local_file
    then record done { file_path = path; size = size }
    else if is_image_type e.type
    then record done { image_ref = path; size = size }
    else done

-- The size is formatted only for the four known types.
abbrev pub size_of_type : Render → Text → Option ℤ → Option Text
size_of_type r type size =
    if text_eq type local_file || is_image_type type then size_text r size else some []

-- A record is saved where the store takes it.
abbrev pub keep_saved : Option Text → Export → List Export
keep_saved none e = e ∷ []
keep_saved (some x) e = []

unfoldable pub finish_failed : Answers → Export → Text → Outcome
finish_failed a e message =
    let failed = record e { status = job_failed; error = message } in
    record { saved = e ∷ keep_saved a.last_save failed; result = some failed; error = some message }

unfoldable pub finish_completed : Answers → Export → Export → Outcome
finish_completed a e done = record {
  saved = e ∷ keep_saved a.last_save done;
  result = some done;
  error = a.last_save;
}

-- Behind the first save: the runtime exports the volume. `none` is a panic.
unfoldable pub run_export : Render → Answers → Export → Result Text Text → Option Outcome
run_export r a e (err message) = some (finish_failed a e message)
run_export r a e (ok path) = elim (size_of_type r e.type a.archive_size) [
  | none ↦ none
  | some size ↦ some (finish_completed a e (completed_export e path size))
]

abbrev pub or_abort : Option Text → Option Outcome → Option Outcome
or_abort none next = next
or_abort (some message) next = some (record { saved = []; result = none; error = some message })

unfoldable pub execute_volume_export :
    Render → Answers → Text → Text → Text → VolumeExportRequest → Option Outcome
execute_volume_export r a id created_at volume_name request =
    let e = new_export id created_at volume_name request in
    or_abort a.store_error
      (or_abort a.dir_error (or_abort a.first_save (run_export r a e a.export_volume)))
