-- ===== src/Config/LogFile/Bounds.antt =====
-- log_file.go: when a write rotates, and how long the file gets.
use calf.Common.{
  ℕ, ◌+◌, ◌<◌, ◌≡◌, refl, sym, ap, subst, Bool, true, false, Option, some, List, [], ◌++◌,
  if◌then◌else◌, ltb, leb, arith, length, length-append, if-rule, ok,
}
use calf.Config.LogFile.{
  RotatingFile, Faults, LogOutcome, daemon_log_max_bytes, and_go, rename_over, rotate_if_needed,
  or_new, open_current, rotate_locked, append_current, write,
}

abbrev pub no_faults : Faults
no_faults = record {
  stat = false;
  close = false;
  remove = false;
  rename = false;
  open_file = false;
  write_file = false;
}

abbrev pub opened : List ℕ → Option (List ℕ) → RotatingFile
opened content backup = record { current = some content; backup = backup; is_open = true }

-- What a write does: it appends, or it rotates and starts anew.
abbrev pub written : List ℕ → Option (List ℕ) → List ℕ → RotatingFile
written content backup p =
    if leb daemon_log_max_bytes (length content)
    then opened p (some content)
    else opened (content ++ p) backup

rotate_short :
    (content : List ℕ) (backup : Option (List ℕ))
    → ltb (length content) daemon_log_max_bytes ≡ true
    → rotate_locked no_faults (opened content backup) ≡ (opened content backup, ok tt)
unfolding rotate_locked rotate_if_needed
rotate_short content backup h =
    ap
      (λ (b : Bool).
        and_go
          (if b
            then (record { current = some content; backup = backup; is_open = false }, ok tt)
            else rename_over no_faults content
                (record { current = some content; backup = backup; is_open = false }))
          (open_current no_faults))
      h

rotate_long :
    (content : List ℕ) (backup : Option (List ℕ))
    → ltb (length content) daemon_log_max_bytes ≡ false
    → rotate_locked no_faults (opened content backup) ≡ (opened [] (some content), ok tt)
unfolding rotate_locked rotate_if_needed
rotate_long content backup h =
    ap
      (λ (b : Bool).
        and_go
          (if b
            then (record { current = some content; backup = backup; is_open = false }, ok tt)
            else rename_over no_faults content
                (record { current = some content; backup = backup; is_open = false }))
          (open_current no_faults))
      h

write_short :
    (content : List ℕ) (backup : Option (List ℕ)) (p : List ℕ)
    → ltb (length content) daemon_log_max_bytes ≡ true
    → write no_faults p (opened content backup) ≡ (opened (content ++ p) backup, ok tt)
unfolding write
write_short content backup p h =
    if-rule (λ (x : LogOutcome). x ≡ (opened (content ++ p) backup, ok tt))
      (ltb daemon_log_max_bytes (length content + length p))
      (and_go (rotate_locked no_faults (opened content backup)) (append_current no_faults p))
      (append_current no_faults p (opened content backup))
      (λ e.
        ap (λ (x : LogOutcome). and_go x (append_current no_faults p))
          (rotate_short content backup h))
      (λ e. refl)

write_long :
    (content : List ℕ) (backup : Option (List ℕ)) (p : List ℕ)
    → ltb (length content) daemon_log_max_bytes ≡ false
    → 0 < length p
    → write no_faults p (opened content backup) ≡ (opened p (some content), ok tt)
unfolding write
write_long content backup p h some_bytes =
    if-rule (λ (x : LogOutcome). x ≡ (opened p (some content), ok tt))
      (ltb daemon_log_max_bytes (length content + length p))
      (and_go (rotate_locked no_faults (opened content backup)) (append_current no_faults p))
      (append_current no_faults p (opened content backup))
      (λ e.
        ap (λ (x : LogOutcome). and_go x (append_current no_faults p))
          (rotate_long content backup h))
      (λ e. absurd (ground arith))

length-written :
    (content : List ℕ) (backup : Option (List ℕ)) (p : List ℕ)
    → length (or_new (written content backup p).current) < daemon_log_max_bytes + length p
length-written content backup p =
    if-rule (λ (w : RotatingFile). length (or_new w.current) < daemon_log_max_bytes + length p)
      (leb daemon_log_max_bytes (length content)) _ _ (λ e. omega arith)
      (λ e. let n = length-append content p in ground arith)

-- Where no call of the system fails, a write of some bytes to the open file rotates it if the file has
-- reached 5 MiB already, and appends otherwise; the file is shorter than 5 MiB and the written bytes
-- then, and what was in it is in front of them or in the backup.
pub write_lem :
    (content : List ℕ) (backup : Option (List ℕ)) (p : List ℕ)
    → 0 < length p
    → (write no_faults p (opened content backup) ≡ (written content backup p, ok tt))
      × (length (or_new (write no_faults p (opened content backup)).0.current)
          < daemon_log_max_bytes + length p)
write_lem content backup p some_bytes =
    let same : write no_faults p (opened content backup) ≡ (written content backup p, ok tt) =
      if-rule (λ (w : RotatingFile). write no_faults p (opened content backup) ≡ (w, ok tt))
        (leb daemon_log_max_bytes (length content)) _ _
        (λ e. write_long content backup p (ground arith) some_bytes)
        (λ e. write_short content backup p (ground arith)) in
    (
      same,
      subst (λ (x : LogOutcome). length (or_new x.0.current) < daemon_log_max_bytes + length p)
          (sym same) (length-written content backup p),
    )
