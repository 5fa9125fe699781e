-- ===== src/Runtime/CommandError.antt =====
-- backend/internal/runtime/command_error.go: the message of a failed command, from its output. The two
-- regular expressions are written out as readers; lengths count code points. An error is its message.
pub mod Message
use calf.Common.{
  ℕ, zero, suc, ◌-◌, Bool, true, false, not, ◌&&◌, ◌||◌, Option, none, some, List, [], ◌∷◌, ◌++◌,
  if◌then◌else◌, any, ltb, leb, ◌==◌, length, drop, take,
}
use calf.Strings.{
  Text, text, text_eq, is_empty, is_space, trim_space, to_lower, has_prefix, contains, split, skip,
}
use calf.Runtime.ContainerGhosts.{fields}

-- The length of `\x1b\[[0-9;]*[A-Za-z]` at the start: its parameters and the letter, then the whole.
abbrev pub is_letter : ℕ → Bool
is_letter c = (leb b'A' c && leb c b'Z') || (leb b'a' c && leb c b'z')

abbrev pub add_one : Option ℕ → Option ℕ
add_one none = none
add_one (some n) = some (suc n)

abbrev pub params_length : Text → Option ℕ
params_length [] = none
params_length (c ∷ s) =
    let rest = add_one (params_length s) in
    if is_letter c then some 1 else if (leb b'0' c && leb c b'9') || (c == b';') then rest else none

abbrev pub ansi_length : Text → Option ℕ
ansi_length [] = none
ansi_length (c ∷ []) = none
ansi_length (c ∷ d ∷ s) =
    if (c == 0x1b) && (d == b'[') then add_one (add_one (params_length s)) else none

-- `ansiEscapePattern.ReplaceAllString(output, "")`; the number counts what is still to be left out.
abbrev pub strip_step : Option ℕ → ℕ → (ℕ → Text) → Text
strip_step none c go = c ∷ go 0
strip_step (some n) c go = go (n - 1)

unfoldable pub strip_from : ℕ → Text → Text
strip_from n [] = []
strip_from (suc n) (c ∷ s) = strip_from n s
strip_from zero (c ∷ s) = strip_step (ansi_length (c ∷ s)) c (λ n. strip_from n s)

unfoldable pub strip_ansi : Text → Text
unfolding strip_from
strip_ansi output = strip_from 0 output

-- `level=fatal msg="([^"]+)"`: what stands before the next quote, and the first match.
abbrev pub add_rune : ℕ → Option Text → Option Text
add_rune c none = none
add_rune c (some s) = some (c ∷ s)

abbrev pub until_quote : Text → Option Text
until_quote [] = none
until_quote (c ∷ s) = let rest = add_rune c (until_quote s) in if c == 0x22 then some [] else rest

abbrev pub or_later : Option Text → Option Text → Option Text
or_later none later = later
or_later (some []) later = later
or_later (some (c ∷ s)) later = some (c ∷ s)

abbrev pub fatal_key : Text
fatal_key = text "level=fatal msg=\""

unfoldable pub fatal_message : Text → Option Text
fatal_message [] = none
fatal_message (c ∷ s) =
    let rest = fatal_message s in
    if has_prefix (c ∷ s) fatal_key
    then or_later (until_quote (skip (length fatal_key) (c ∷ s))) rest
    else rest

abbrev pub preferred_error_markers : List Text
preferred_error_markers =
    text "unknown command"
    ∷ text "unknown flag"
    ∷ text "not found"
    ∷ text "is not a docker command"
    ∷ text "permission denied"
    ∷ text "error during connect"
    ∷ text "driver not connecting"
    ∷ text "cannot connect to the docker daemon"
    ∷ text "unexpected eof"
    ∷ text "error:"
    ∷ text "fatal:"
    ∷ []

unfoldable pub is_progress_line : Text → Bool
is_progress_line line =
    contains line (text "elapsed:")
    || contains line (text "waiting")
    || contains line (text "--------------------------------------")

abbrev pub is_noise : Text → Bool
is_noise line =
    has_prefix line (text "time=")
    || has_prefix line (text "Usage:")
    || has_prefix line (text "Run '")

-- One line of the first loop: what it returns, none to go on.
abbrev pub marked : Text → Option Text → Option Text
marked line (some message) = some message
marked line none =
    if is_noise line
    then none
    else if any (contains (to_lower line)) preferred_error_markers
    then some line
    else none

abbrev pub marker_line : Text → Option Text
marker_line raw =
    let line = trim_space raw in
    if is_empty line || is_progress_line line then none else marked line (fatal_message line)

-- The loops go through the lines from the last to the first.
abbrev pub last_found : (Text → Option Text) → List Text → Option Text
last_found test [] = none
last_found test (line ∷ lines) = elim (last_found test lines) [
  | none ↦ test line
  | some found ↦ some found
]

unfoldable pub command_error_marker_line : Text → Option Text
unfolding strip_ansi split fatal_message is_progress_line
command_error_marker_line output = last_found marker_line (split 10 (strip_ansi output))

abbrev pub useful_line : Text → Option Text
useful_line raw =
    let line = trim_space raw in
    if is_empty line || is_progress_line line
    then none
    else if is_noise line
    then none
    else some line

abbrev pub last_500 : Text → Text
last_500 cleaned = if ltb 500 (length cleaned) then drop (length cleaned - 500) cleaned else cleaned

abbrev pub or_cleaned : Option Text → Text → Text
or_cleaned none cleaned = last_500 (trim_space cleaned)
or_cleaned (some line) cleaned = line

abbrev pub or_useful : Option Text → Text → Text
or_useful none output =
    or_cleaned (last_found useful_line (split 10 (strip_ansi output))) (strip_ansi output)
or_useful (some line) output = line

-- `FormatCommandError`
unfoldable pub format_command_error : Text → Text
unfolding command_error_marker_line strip_ansi split is_progress_line trim_space
format_command_error output = or_useful (command_error_marker_line output) output

-- `WrapGuestWaitError`, with an error.
abbrev pub wait_suffix : Option Text → Text
wait_suffix none = []
wait_suffix (some message) = text ": " ++ message

unfoldable pub wrap_guest_wait_error : Text → Text → Text
unfolding command_error_marker_line
wrap_guest_wait_error wait_err logs =
    text "guest wait: " ++ wait_err ++ wait_suffix (command_error_marker_line logs)

-- `wrapCommandOutputError`; `joined` is the name with its arguments.
unfoldable pub wrap_command_output_error : Text → Text → Text → Text
unfolding format_command_error
wrap_command_output_error joined output message =
    let formatted = format_command_error output in
    if not (is_empty formatted) then formatted else joined ++ text ": " ++ message

abbrev pub state_of_fields : List Text → Option (Text × Text)
state_of_fields [] = none
state_of_fields (status ∷ []) = none
state_of_fields (status ∷ exit_code ∷ more) = some (to_lower status, exit_code)

unfoldable pub parse_inspect_state_line : Text → Option (Text × Text)
unfolding fields trim_space
parse_inspect_state_line out = state_of_fields (fields (trim_space out))

unfoldable pub inspect_state_exited : Text → Bool
inspect_state_exited status =
    any (text_eq (to_lower (trim_space status))) (text "exited" ∷ text "dead" ∷ [])

-- `strings.LastIndex` of a character, none for -1.
abbrev pub or_here : Bool → Option ℕ → Option ℕ
or_here here (some n) = some (suc n)
or_here here none = if here then some 0 else none

abbrev pub last_index : ℕ → Text → Option ℕ
last_index c [] = none
last_index c (d ∷ s) = or_here (d == c) (last_index c s)

abbrev pub cut_tag_at : Option ℕ → Option ℕ → Text → Text
cut_tag_at none slash name = name
cut_tag_at (some colon) none name = take colon name
cut_tag_at (some colon) (some slash) name = if ltb slash colon then take colon name else name

-- The name without its tag.
unfoldable pub without_tag : Text → Text
without_tag ref =
    let name = trim_space ref in cut_tag_at (last_index b':' name) (last_index b'/' name) name

unfoldable pub is_namespaced_image_reference : Text → Bool
unfolding without_tag
is_namespaced_image_reference ref = contains (without_tag ref) (text "/")

abbrev pub behind_slash : Option ℕ → Text → Text
behind_slash none name = name
behind_slash (some slash) name = drop (suc slash) name

unfoldable pub image_repository_name : Text → Text
unfolding without_tag
image_repository_name ref = let name = without_tag ref in behind_slash (last_index b'/' name) name

unfoldable pub wrap_push_error : Text → Text → Text
unfolding is_namespaced_image_reference image_repository_name
wrap_push_error ref message =
    let lower = to_lower message in
    if not (contains lower (text "authorization"))
      && not (contains lower (text "access denied"))
      && not (contains lower (text "insufficient_scope"))
    then message
    else if not (is_namespaced_image_reference ref)
    then message
      ++ text ". Tag the image for Docker Hub first, e.g. docker.io/USERNAME/"
      ++ image_repository_name ref
      ++ text ":latest, then push again"
    else message ++ text ". Sign in to Docker Hub from Settings (browser login), then push again"

unfoldable pub is_container_not_found_error : Text → Bool
is_container_not_found_error message =
    any (contains (to_lower message)) (text "no such object" ∷ text "no such container" ∷ [])

unfoldable pub is_container_not_running_error : Text → Bool
is_container_not_running_error message =
    any (contains (to_lower message)) (text "is not running" ∷ text "container not running" ∷ [])

abbrev pub transient_markers : List Text
transient_markers =
    text "text file busy"
    ∷ text "transport is closing"
    ∷ text "connection reset"
    ∷ text "connection refused"
    ∷ text "cannot connect to the docker daemon"
    ∷ text "deadline exceeded"
    ∷ text "i/o timeout"
    ∷ text "broken pipe"
    ∷ text "error during connect"
    ∷ text "unexpected eof"
    ∷ text ": eof"
    ∷ text "driver not connecting"
    ∷ []

abbrev pub startup_contexts : List Text
startup_contexts =
    text "nerdctl"
    ∷ text "krunkit"
    ∷ text "gvproxy"
    ∷ text "containerd"
    ∷ text "docker.sock"
    ∷ text "/run/containerd"
    ∷ []

unfoldable pub is_transient_command_error : Text → Bool
is_transient_command_error original =
    let message = to_lower original in
    text_eq (trim_space message) (text "eof")
    || any (contains message) transient_markers
    || (any (contains message)
          (text "no such file or directory" ∷ text "executable file not found" ∷ [])
        && any (contains message) startup_contexts)
