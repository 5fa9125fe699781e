-- ===== src/Daemon/RuntimeReady.antt =====
-- backend/internal/daemon/runtime_ready.go: one start of the engine that all callers share. A section
-- under the lock is one step, and a start is a number, since callers hold on to it.
pub mod Single
use calf.Common.{
  ℕ, ◌+◌, Bool, true, false, not, Option, none, some, List, [], ◌∷◌, ◌++◌, ◌≡◌, ◌==◌, if◌then◌else◌,
  Result, ok, err, ◌>>=◌,
}
use calf.Strings.{Text, text, text_eq}
use calf.Runtime.Types.{Status}

-- The starts: the one in flight, how each has ended, the goroutines, and what the callers wait for.
pub record Starts : Type 0 where
  pub inflight : Option ℕ
  pub ended : ℕ → Option (Option Text)
  pub next : ℕ
  pub running : List ℕ
  pub waiting : List ℕ

abbrev pub no_starts : Starts
no_starts = record { inflight = none; ended = λ p. none; next = 0; running = []; waiting = [] }

abbrev pub join_start : Starts → Option ℕ → Starts
join_start s (some p) = record s { waiting = p ∷ s.waiting }
join_start s none = record s {
  inflight = some s.next;
  next = s.next + 1;
  running = s.next ∷ s.running;
  waiting = s.next ∷ s.waiting;
}

-- `EnsureRuntimeRunning`, up to its wait.
unfoldable pub ensure_runtime_running : Starts → Starts
ensure_runtime_running s = join_start s s.inflight

-- The end of the goroutine; an error of none is nil.
unfoldable pub end_start : ℕ → Option Text → List ℕ → Starts → Starts
end_start p error running s = record s {
  inflight = none;
  ended = λ q. if q == p then some error else s.ended q;
  running = running;
}

-- `RuntimeStarting`
abbrev pub is_some : Option ℕ → Bool
is_some none = false
is_some (some p) = true

unfoldable pub runtime_starting : Starts → Bool
runtime_starting s = is_some s.inflight

-- The steps: a call, the end of a start, and a caller that returns, since its start has ended or its
-- context is canceled.
pub data Step (s : Starts) : Starts → Type 0 where
  call : Step s (ensure_runtime_running s)
  finish :
      (p : ℕ) (error : Option Text) (before after : List ℕ)
      → s.running ≡ before ++ (p ∷ after)
      → Step s (end_start p error (before ++ after) s)
  give_back :
      (p : ℕ) (before after : List ℕ)
      → s.waiting ≡ before ++ (p ∷ after)
      → Step s (record s { waiting = before ++ after })

pub data Reached : Starts → Type 0 where
  fresh : Reached no_starts
  go_on : (s t : Starts) → Reached s → Step s t → Reached t

-- What a poll meets: the status, none behind an error; and how the wait for the next one ends.
pub data Wait : Type 0 where
  waited deadline_exceeded canceled : Wait

pub record Poll : Type 0 where
  pub status : Result Text Status
  pub wait : Wait

pub data StartError : Type 0 where
  status_failed start_failed : Text → StartError
  not_in_time start_canceled : StartError

abbrev pub wrap_status : Result Text Status → Result StartError Status
wrap_status (ok status) = ok status
wrap_status (err message) = err (status_failed message)

abbrev pub behind_wait : Wait → Result StartError Unit → Result StartError Unit
behind_wait waited rest = rest
behind_wait deadline_exceeded rest = err not_in_time
behind_wait canceled rest = err start_canceled

-- The loop of `startRuntimeUntilRunning`; its context ends, and the list with it.
unfoldable pub poll_until_running : List Poll → Result StartError Unit
poll_until_running [] = err not_in_time
poll_until_running (p ∷ polls) =
    let rest = poll_until_running polls in
    wrap_status p.status >>= λ status.
    if text_eq status.state (text "running") then ok tt else behind_wait p.wait rest

abbrev pub start_result : Option Text → Result StartError Unit
start_result none = ok tt
start_result (some message) = err (start_failed message)

-- `startRuntimeUntilRunning`: the status, `Start`, and the polls.
unfoldable pub start_runtime_until_running :
    Result Text Status → Option Text → List Poll → Result StartError Unit
unfolding poll_until_running
start_runtime_until_running status start polls =
    wrap_status status >>= λ s. start_result start >>= λ u. poll_until_running polls
