-- ===== src/Daemon/ExportRunner/Records.antt =====
-- The records that export_runner.go leaves in the store of exports.
use calf.Common.{
  ℕ, ◌^◌, ◌<◌, ℤ, pos, negsuc, ◌||◌, Bool-cases, ◌≡◌, ◌≢◌, refl, subst, ◌⊎◌, inl, inr, false,
  Option, none, some, List, [], ◌∷◌, arith, Option-cases, Result, ok, err,
}
use calf.Utils.Format.{Render, unit, format_bytes}
use calf.Utils.Format.Bounds.{format_bytes-total_iff}
use calf.Strings.{Text, text_eq}
use calf.VolumeExport.Schedule.{local_file}
use calf.Daemon.ExportRunner.{
  size_text, is_image_type, VolumeExportRequest, Export, job_completed, job_failed, Answers,
  Outcome, new_export, completed_export, size_of_type, finish_failed, finish_completed, run_export,
  execute_volume_export, or_abort,
}

-- The last record of a list.
abbrev pub last_record : List Export → Option Export
last_record [] = none
last_record (e ∷ []) = some e
last_record (e ∷ f ∷ es) = last_record (f ∷ es)

-- The record of an export that has ended: failed with its message, or completed, and then it can be
-- downloaded exactly if it is a local file.
abbrev pub IsEnded : Option Text → Text → Export → Type 0
IsEnded (some message) type e =
    (e.status ≡ job_failed) × (e.error ≡ message) × (e.downloadable ≡ false)
IsEnded none type e =
    (e.status ≡ job_completed) × (e.error ≡ []) × (e.downloadable ≡ text_eq type local_file)

-- What a run leaves behind: nothing at all, or a last record that has ended as the result says.
abbrev pub IsSettled : Text → Outcome → Type 0
IsSettled type o =
    ((o.saved ≡ []) × (o.error ≢ none))
    ⊎ ((e : Export) × (last_record o.saved ≡ some e) × IsEnded o.error type e)

completed-IsEnded :
    (e : Export) (path size : Text)
    → e.error ≡ []
    → IsEnded none e.type (completed_export e path size)
unfolding completed_export
completed-IsEnded e path size h = ground arith

some_inj : {a b : Outcome} → ◌≡◌ {A = Option Outcome} (some a) (some b) → a ≡ b
some_inj h = cc

module _ (r : Render) (a : Answers) (saves : a.last_save ≡ none) (e : Export) (fresh : e.error ≡ [])
    (hidden : e.downloadable ≡ false) where
  failed-IsSettled : (message : Text) → IsSettled e.type (finish_failed a e message)
  unfolding finish_failed
  failed-IsSettled message =
      inr (record e { status = job_failed; error = message }, rw saves, (refl, refl, hidden))

  completed-IsSettled :
      (path size : Text) → IsSettled e.type (finish_completed a e (completed_export e path size))
  unfolding finish_completed
  completed-IsSettled path size =
      rw saves (inr (completed_export e path size, refl, completed-IsEnded e path size fresh))

  run_export-IsSettled :
      (exported : Result Text Text) (o : Outcome)
      → run_export r a e exported ≡ some o
      → IsSettled e.type o
  unfolding run_export
  run_export-IsSettled (err message) o h =
      subst (IsSettled e.type) (some_inj h) (failed-IsSettled message)
  run_export-IsSettled (ok path) o h = elim (Option-cases (size_of_type r e.type a.archive_size)) [
    | inl p ↦ cc p
    | inr (size, p) ↦
        subst (IsSettled e.type) (some_inj (rw (p, run_export) at h))
          (completed-IsSettled path size)
  ]

aborted-IsSettled :
    (type : Text) (o : Outcome) (message : Text)
    → some (record { saved = []; result = none; error = some message }) ≡ some o
    → IsSettled type o
aborted-IsSettled type o message h = subst (IsSettled type) (some_inj h) (inl (refl, λ e. cc))

or_abort-IsSettled :
    (type : Text) (fault : Option Text) (next : Option Outcome) (o : Outcome)
    → (next ≡ some o → IsSettled type o)
    → or_abort fault next ≡ some o
    → IsSettled type o
or_abort-IsSettled type none next o f h = f h
or_abort-IsSettled type (some message) next o f h = aborted-IsSettled type o message h

returned-IsSettled :
    (r : Render) (a : Answers) (id created_at volume : Text) (request : VolumeExportRequest)
    (o : Outcome)
    → a.last_save ≡ none
    → execute_volume_export r a id created_at volume request ≡ some o
    → IsSettled request.type o
unfolding execute_volume_export new_export
returned-IsSettled r a id created_at volume request o saves h =
    let e = new_export id created_at volume request in
    or_abort-IsSettled request.type a.store_error _ o
      (or_abort-IsSettled request.type a.dir_error _ o (
        or_abort-IsSettled request.type a.first_save _ o
          (run_export-IsSettled r a saves e refl refl a.export_volume o)))
      h

-- No size was found, or one below 1 PB.
abbrev pub IsShown : Option ℤ → Type 0
IsShown none = Unit
IsShown (some (pos size)) = size < unit ^ 5
IsShown (some (negsuc n)) = Unit

is_some : {A : Type 0} (o : Option A) → o ≢ none → (a : A) × (o ≡ some a)
is_some none h = absurd (h refl)
is_some (some a) h = (a, refl)

negative_shown : (r : Render) (n : ℕ) → format_bytes r (negsuc n) ≢ none
unfolding format_bytes
negative_shown r n e = cc

size_text-total :
    (r : Render) (size : Option ℤ) → IsShown size → (t : Text) × (size_text r size ≡ some t)
size_text-total r none h = ([], refl)
size_text-total r (some (pos size)) h = is_some _ ((format_bytes-total_iff r size).1 h)
size_text-total r (some (negsuc n)) h = is_some _ (negative_shown r n)

size_of_type-total :
    (r : Render) (type : Text) (size : Option ℤ)
    → IsShown size
    → (t : Text) × (size_of_type r type size ≡ some t)
size_of_type-total r type size h =
    elim (Bool-cases (text_eq type local_file || is_image_type type)) [
      | inl e ↦ let (t, p) = size_text-total r size h in (t, rw e p)
      | inr e ↦ ([], rw e refl)
    ]

run_export-total :
    (r : Render) (a : Answers) (e : Export) (exported : Result Text Text)
    → IsShown a.archive_size
    → (o : Outcome) × (run_export r a e exported ≡ some o)
unfolding run_export
run_export-total r a e (err message) h = (finish_failed a e message, refl)
run_export-total r a e (ok path) h =
    let (t, p) = size_of_type-total r e.type a.archive_size h in
    (finish_completed a e (completed_export e path t), rw (p, run_export) refl)

or_abort-total :
    (fault : Option Text) (next : Option Outcome)
    → (o : Outcome) × (next ≡ some o)
    → (o : Outcome) × (or_abort fault next ≡ some o)
or_abort-total none next h = h
or_abort-total (some message) next h =
    (record { saved = []; result = none; error = some message }, refl)

execute_volume_export-total :
    (r : Render) (a : Answers) (id created_at volume : Text) (request : VolumeExportRequest)
    → IsShown a.archive_size
    → (o : Outcome) × (execute_volume_export r a id created_at volume request ≡ some o)
unfolding execute_volume_export
execute_volume_export-total r a id created_at volume request h = or_abort-total a.store_error _ (
    or_abort-total a.dir_error _ (
      or_abort-total a.first_save _
        (run_export-total r a (new_export id created_at volume request) a.export_volume h)))

-- Where the last save succeeds and the archive has less than 1 PB, an export returns, and leaves no
-- record of its own that still says "running": either nothing was saved and the caller has an error,
-- or the last record saved has failed with the error that the caller gets, or it has completed, and
-- can be downloaded exactly if it is a local file.
pub execute_volume_export-IsSettled :
    (r : Render) (a : Answers) (id created_at volume : Text) (request : VolumeExportRequest)
    → a.last_save ≡ none
    → IsShown a.archive_size
    → (o : Outcome) × (execute_volume_export r a id created_at volume request ≡ some o)
      × IsSettled request.type o
execute_volume_export-IsSettled r a id created_at volume request saves shown =
    let (o, e) = execute_volume_export-total r a id created_at volume request shown in
    (o, e, returned-IsSettled r a id created_at volume request o saves e)
