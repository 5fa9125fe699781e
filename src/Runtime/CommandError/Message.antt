-- ===== src/Runtime/CommandError/Message.antt =====
-- command_error.go: a failed command has a message.
use calf.Common.{
  ◌≡◌, ◌<◌, refl, false, ◌||◌, Option, none, some, List, [], ◌∷◌, ltb, length, drop, arith, ◌-◌,
  length-drop, if-rule, ||-false,
}
use calf.Strings.{Text, is_empty, trim_space, split, skip, has_prefix}
use calf.Runtime.CommandError.{
  strip_ansi, or_later, fatal_message, marked, marker_line, last_found, command_error_marker_line,
  useful_line, is_progress_line, last_500, or_cleaned, or_useful, format_command_error, until_quote,
  is_noise, fatal_key,
}

-- A found message is not empty.
abbrev IsFull : Option Text → Type 0
IsFull none = Unit
IsFull (some s) = is_empty s ≡ false

or_later-IsFull : (o later : Option Text) → IsFull later → IsFull (or_later o later)
unfolding is_empty
or_later-IsFull none later h = h
or_later-IsFull (some []) later h = h
or_later-IsFull (some (c ∷ s)) later h = refl

fatal_message-IsFull : (s : Text) → IsFull (fatal_message s)
unfolding fatal_message
fatal_message-IsFull [] = tt
fatal_message-IsFull (c ∷ s) =
    let found = until_quote (skip (length fatal_key) (c ∷ s)) in
    if-rule IsFull (has_prefix (c ∷ s) fatal_key) (or_later found (fatal_message s))
      (fatal_message s) (λ e. or_later-IsFull found (fatal_message s) (fatal_message-IsFull s))
      (λ e. fatal_message-IsFull s)

marked-IsFull :
    (line : Text) (o : Option Text) → is_empty line ≡ false → IsFull o → IsFull (marked line o)
marked-IsFull line (some message) full h = h
marked-IsFull line none full h =
    if-rule IsFull (is_noise line) _ _ (λ e. tt)
      (λ e. if-rule IsFull _ (some line) none (λ f. full) (λ f. tt))

marker_line-IsFull : (raw : Text) → IsFull (marker_line raw)
marker_line-IsFull raw =
    let line = trim_space raw in
    if-rule IsFull (is_empty line || is_progress_line line) _ _ (λ e. tt)
      (λ e.
        marked-IsFull line (fatal_message line) (||-false (is_empty line) _ e).0
          (fatal_message-IsFull line))

useful_line-IsFull : (raw : Text) → IsFull (useful_line raw)
useful_line-IsFull raw =
    let line = trim_space raw in
    if-rule IsFull (is_empty line || is_progress_line line) _ _ (λ e. tt)
      (λ e.
        if-rule IsFull (is_noise line) _ (some line) (λ f. tt)
          (λ f. (||-false (is_empty line) _ e).0))

found-IsFull :
    (o rest : Option Text)
    → IsFull o
    → IsFull rest
    → IsFull (elim rest [ none ↦ o | some found ↦ some found ])
found-IsFull o none h k = h
found-IsFull o (some found) h k = k

last_found-IsFull :
    (test : Text → Option Text) (lines : List Text)
    → ((line : Text) → IsFull (test line))
    → IsFull (last_found test lines)
last_found-IsFull test [] h = tt
last_found-IsFull test (line ∷ lines) h =
    found-IsFull (test line) (last_found test lines) (h line) (last_found-IsFull test lines h)

full-length : (s : Text) → is_empty s ≡ false → 0 < length s
unfolding is_empty
full-length [] h = cc
full-length (c ∷ s) h = omega arith

length-full : (s : Text) → 0 < length s → is_empty s ≡ false
unfolding is_empty
length-full [] h = absurd (omega arith)
length-full (c ∷ s) h = refl

last_500-full : (s : Text) → is_empty s ≡ false → is_empty (last_500 s) ≡ false
last_500-full s h =
    if-rule (λ t. is_empty t ≡ false) (ltb 500 (length s)) _ s
      (λ e.
        length-full (drop (length s - 500) s)
          (let n = length-drop (length s - 500) s in ground arith))
      (λ e. h)

or_cleaned-full :
    (o : Option Text) (cleaned : Text)
    → IsFull o
    → is_empty (trim_space cleaned) ≡ false
    → is_empty (or_cleaned o cleaned) ≡ false
or_cleaned-full none cleaned h k = last_500-full (trim_space cleaned) k
or_cleaned-full (some line) cleaned h k = h

or_useful-full :
    (o : Option Text) (output : Text)
    → IsFull o
    → is_empty (trim_space (strip_ansi output)) ≡ false
    → is_empty (or_useful o output) ≡ false
or_useful-full none output h k =
    or_cleaned-full (last_found useful_line (split 10 (strip_ansi output))) (strip_ansi output)
      (last_found-IsFull useful_line (split 10 (strip_ansi output)) useful_line-IsFull) k
or_useful-full (some line) output h k = h

-- The output of a failed command that is not blank without its escape sequences always gives a message
-- that is not empty.
pub format_command_error-full :
    (output : Text)
    → is_empty (trim_space (strip_ansi output)) ≡ false
    → is_empty (format_command_error output) ≡ false
unfolding format_command_error command_error_marker_line
format_command_error-full output h =
    or_useful-full (last_found marker_line (split 10 (strip_ansi output))) output
      (last_found-IsFull marker_line (split 10 (strip_ansi output)) marker_line-IsFull) h
