-- ===== src/Daemon/LogBroadcaster/Retry.antt =====
-- The calls and the delays of `runStream` of log_broadcaster.go.
use calf.Common.{
  ℕ, ◌≤◌, ◌≡◌, refl, ◌⊎◌, inl, inr, Bool, true, false, not, List, [], ◌∷◌, arith, All,
  if◌then◌else◌,
}
use calf.Daemon.LogBroadcaster.{
  log_stream_retry_base, log_stream_retry_max, next_log_stream_retry_delay, Phase, from_history,
  following, Round, run_rounds, run_stream,
}

-- A delay of the backoff.
abbrev pub IsDelay : ℕ → Type 0
IsDelay d = (log_stream_retry_base ≤ d) × (d ≤ log_stream_retry_max)

next-IsDelay : (d : ℕ) → IsDelay d → IsDelay (next_log_stream_retry_delay d)
unfolding next_log_stream_retry_delay
next-IsDelay d h = ground arith

-- One call of the loop: its delay is 0, at the end of the loop, or one of the backoff.
abbrev pub IsCall : Phase → Phase × ℕ → Type 0
IsCall phase c = (c.0 ≡ phase) × ((c.1 ≡ 0) ⊎ IsDelay c.1)

first_phase : Bool → Phase
first_phase sent = if sent then following else from_history

-- The first call is the one that is asked for, and all others follow.
abbrev pub AreCalls : Phase → List (Phase × ℕ) → Type 0
AreCalls phase [] = Unit
AreCalls phase (c ∷ cs) = IsCall phase c × All (IsCall following) cs

AreCalls-following : (cs : List (Phase × ℕ)) → AreCalls following cs → All (IsCall following) cs
AreCalls-following [] h = tt
AreCalls-following (c ∷ cs) h = h

-- The five ways of a round, as Booleans.
round-AreCalls :
    (before unsubscribed behind waiting : Bool) (phase : Phase) (wait : ℕ) (rest : List (Phase × ℕ))
    → IsDelay wait
    → All (IsCall following) rest
    → AreCalls phase (
        if before
        then []
        else if unsubscribed
        then []
        else if behind
        then (phase, 0) ∷ []
        else if waiting
        then (phase, wait) ∷ []
        else (phase, wait) ∷ rest)
round-AreCalls true unsubscribed behind waiting phase wait rest d h = tt
round-AreCalls false true behind waiting phase wait rest d h = tt
round-AreCalls false false true waiting phase wait rest d h = ((refl, inl refl), tt)
round-AreCalls false false false true phase wait rest d h = ((refl, inr d), tt)
round-AreCalls false false false false phase wait rest d h = ((refl, inr d), h)

run_rounds-AreCalls :
    (rs : List Round) (sent : Bool) (d : ℕ)
    → IsDelay d
    → AreCalls (first_phase sent) (run_rounds rs sent d)
unfolding run_rounds first_phase
run_rounds-AreCalls [] sent d h = tt
run_rounds-AreCalls (r ∷ rs) sent d h =
    round-AreCalls r.cancelled_before (not r.subscribed) r.cancelled_behind r.cancelled_waiting _ _
      _ (wait-IsDelay r.fails)
      (AreCalls-following _ (run_rounds-AreCalls rs true _ (then-IsDelay r.fails)))
  where
    wait-IsDelay : (fails : Bool) → IsDelay (if fails then d else log_stream_retry_base)
    wait-IsDelay true = h
    wait-IsDelay false = omega arith

    then-IsDelay :
        (fails : Bool)
        → IsDelay (if fails then next_log_stream_retry_delay d else log_stream_retry_base)
    then-IsDelay true = next-IsDelay d h
    then-IsDelay false = omega arith

-- Whatever a stream meets, the first of its calls replays the history and every later one follows;
-- and the delay behind a call is none, or half a second to 5 seconds.
pub run_stream-AreCalls : (rounds : List Round) → AreCalls from_history (run_stream rounds)
unfolding run_stream first_phase
run_stream-AreCalls rounds = run_rounds-AreCalls rounds false log_stream_retry_base (omega arith)
