-- ===== src/Config/LogFile.antt =====
-- backend/internal/config/log_file.go: the log file that is rotated, and the tail that is read of it. A
-- content is the list of its bytes; only this file writes it.
pub mod Bounds
use calf.Common.{
  ℕ, ◌+◌, ◌-◌, ◌*◌, Bool, true, false, not, ◌&&◌, Option, none, some, List, [], ◌∷◌, ◌++◌,
  if◌then◌else◌, ltb, leb, ◌==◌, length, drop, Result, ok, err, ℤ, pos, negsuc,
}

abbrev pub daemon_log_max_bytes : ℕ
daemon_log_max_bytes = 5 * 0x100000

abbrev pub daemon_log_tail_bytes : ℕ
daemon_log_tail_bytes = 512 * 0x400

-- The file, its backup, and whether the writer has it open.
pub record RotatingFile : Type 0 where
  pub current : Option (List ℕ)
  pub backup : Option (List ℕ)
  pub is_open : Bool

-- The calls of the system that fail.
pub record Faults : Type 0 where
  pub stat : Bool
  pub close : Bool
  pub remove : Bool
  pub rename : Bool
  pub open_file : Bool
  pub write_file : Bool

pub data LogError : Type 0 where
  closed stat_failed close_failed rename_failed open_failed write_failed : LogError

abbrev pub LogOutcome : Type 0
LogOutcome = RotatingFile × Result LogError Unit

abbrev pub and_go : LogOutcome → (RotatingFile → LogOutcome) → LogOutcome
and_go (w, err e) next = (w, err e)
and_go (w, ok u) next = next w

-- `rotateIfNeeded`: the removal of the old backup, and the renaming.
abbrev pub rename_over : Faults → List ℕ → RotatingFile → LogOutcome
rename_over faults content w =
    let kept = if faults.remove then w.backup else none in
    if faults.rename
    then (record w { backup = kept }, err rename_failed)
    else (record w { current = none; backup = some content }, ok tt)

abbrev pub rotate_current : Faults → Option (List ℕ) → RotatingFile → LogOutcome
rotate_current faults none w = (w, ok tt)
rotate_current faults (some content) w =
    if faults.stat
    then (w, err stat_failed)
    else if ltb (length content) daemon_log_max_bytes
    then (w, ok tt)
    else rename_over faults content w

unfoldable pub rotate_if_needed : Faults → RotatingFile → LogOutcome
rotate_if_needed faults w = rotate_current faults w.current w

abbrev pub or_new : Option (List ℕ) → List ℕ
or_new none = []
or_new (some content) = content

-- `os.OpenFile` with O_CREATE and O_APPEND.
abbrev pub open_current : Faults → RotatingFile → LogOutcome
open_current faults w =
    if faults.open_file
    then (w, err open_failed)
    else (record w { current = some (or_new w.current); is_open = true }, ok tt)

unfoldable pub new_rotating_file : Faults → RotatingFile → LogOutcome
unfolding rotate_if_needed
new_rotating_file faults w = and_go (rotate_if_needed faults w) (open_current faults)

-- `rotateLocked`
unfoldable pub rotate_locked : Faults → RotatingFile → LogOutcome
unfolding rotate_if_needed
rotate_locked faults w =
    if faults.close
    then (w, err close_failed)
    else and_go (rotate_if_needed faults (record w { is_open = false })) (open_current faults)

abbrev pub append_current : Faults → List ℕ → RotatingFile → LogOutcome
append_current faults p w =
    if faults.write_file
    then (w, err write_failed)
    else (record w { current = some (or_new w.current ++ p) }, ok tt)

-- `Write`
unfoldable pub write : Faults → List ℕ → RotatingFile → LogOutcome
unfolding rotate_locked
write faults p w =
    if not w.is_open
    then (w, err closed)
    else if not faults.stat && ltb daemon_log_max_bytes (length (or_new w.current) + length p)
    then and_go (rotate_locked faults w) (append_current faults p)
    else append_current faults p w

unfoldable pub reopen : Faults → RotatingFile → LogOutcome
unfolding rotate_if_needed
reopen faults w =
    and_go (rotate_if_needed faults (record w { is_open = false })) (open_current faults)

unfoldable pub close_rotating_file : Faults → RotatingFile → LogOutcome
close_rotating_file faults w =
    if not w.is_open
    then (w, ok tt)
    else (record w { is_open = false }, if faults.close then err close_failed else ok tt)

-- What stands behind the first line break; the whole where there is none.
abbrev pub behind_break : List ℕ → Option (List ℕ)
behind_break [] = none
behind_break (c ∷ s) = let rest = behind_break s in if c == 10 then some s else rest

abbrev pub or_whole : Option (List ℕ) → List ℕ → List ℕ
or_whole none s = s
or_whole (some rest) s = rest

abbrev pub tail_bytes : ℤ → ℕ
tail_bytes (pos n) = if n == 0 then daemon_log_tail_bytes else n
tail_bytes (negsuc n) = daemon_log_tail_bytes

abbrev pub tail_from : ℕ → List ℕ → List ℕ
tail_from start content =
    let text = drop start content in if ltb 0 start then or_whole (behind_break text) text else text

-- The text that `ReadLogTail` returns, where reading does not fail.
unfoldable pub read_log_tail : ℤ → Option (List ℕ) → List ℕ
read_log_tail max_bytes none = []
read_log_tail max_bytes (some content) = tail_from (length content - tail_bytes max_bytes) content
