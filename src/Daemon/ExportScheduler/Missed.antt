-- ===== src/Daemon/ExportScheduler/Missed.antt =====
-- What the ticks of export_scheduler.go do with a schedule whose slot has been missed.
use calf.Common.{
  ℕ, ◌+◌, ◌≤◌, ◌<◌, ◌≡◌, refl, ◌⊎◌, inl, inr, Bool, false, not, some, List, [], ◌∷◌, arith,
  Bool-cases, if◌then◌else◌, All,
}
use calf.Strings.{Text, is_empty, trim_space}
use calf.VolumeExport.Time.{Rfc3339}
use calf.VolumeExport.Schedule.{Schedule}
use calf.VolumeExport.Timing.{run_grace, schedule_due}
use calf.VolumeExport.Timing.Window.{missed_forever}
use calf.VolumeExport.Store.{Disk, list_all}
use calf.Daemon.ExportScheduler.{Host, tick_from, tick, ticks}

-- The schedule is disabled, or its next run is more than the grace time before `now`.
abbrev pub IsMissed : Rfc3339 → ℕ → Schedule → Type 0
IsMissed f now s =
    (s.enabled ≡ false) ⊎ ((n : ℕ) × (f.parse s.next_run_at ≡ some n) × (n + run_grace < now))

not_due :
    (f : Rfc3339) (now n : ℕ) (at : Text)
    → f.parse at ≡ some n
    → n + run_grace < now
    → schedule_due f at now ≡ false
unfolding schedule_due
not_due f now n at p late = elim (Bool-cases (is_empty (trim_space at))) [
  | inl e ↦ rw e refl
  | inr e ↦ rw (e, p) (missed_forever n now now late (omega arith))
]

IsMissed-later :
    (f : Rfc3339) (now later : ℕ) (s : Schedule)
    → now ≤ later
    → IsMissed f now s
    → IsMissed f later s
IsMissed-later f now later s le (inl off) = inl off
IsMissed-later f now later s le (inr (n, p, late)) = inr (n, p, omega arith)

All-later :
    (f : Rfc3339) (now later : ℕ) (ss : List Schedule)
    → now ≤ later
    → All (IsMissed f now) ss
    → All (IsMissed f later) ss
All-later f now later [] le h = tt
All-later f now later (s ∷ ss) le (p, h) =
    (IsMissed-later f now later s le p, All-later f now later ss le h)

-- The four ways of one schedule in the loop, as Booleans.
skipped_round :
    (stopped on due : Bool) (d go run : Disk)
    → (on ≡ false) ⊎ (due ≡ false)
    → go ≡ d
    → (if stopped then d else if not on then go else if not due then go else run) ≡ d
skipped_round stopped on due d go run h e = ground arith

missed_round :
    (f : Rfc3339) (now : ℕ) (s : Schedule)
    → IsMissed f now s
    → (s.enabled ≡ false) ⊎ (schedule_due f s.next_run_at now ≡ false)
missed_round f now s (inl off) = inl off
missed_round f now s (inr (n, p, late)) = inr (not_due f now n s.next_run_at p late)

tick_from_missed :
    (host : Host) (now : ℕ) (ss : List Schedule) (d : Disk)
    → All (IsMissed host.rfc3339 now) ss
    → tick_from host now ss d ≡ d
unfolding tick_from
tick_from_missed host now [] d h = refl
tick_from_missed host now (s ∷ ss) d (p, h) =
    skipped_round (host.stopped s) s.enabled (schedule_due host.rfc3339 s.next_run_at now) d _ _
      (missed_round host.rfc3339 now s p) (tick_from_missed host now ss d h)

-- Where every schedule of the store is disabled, or has its next run more than the grace time before
-- `now`, no sequence of ticks from `now` on changes the store: a slot that was missed is neither run
-- nor replaced by a later one.
pub ticks_missed :
    (host : Host) (now : ℕ) (d : Disk) (times : List ℕ)
    → All (IsMissed host.rfc3339 now) (list_all d)
    → All (λ later. now ≤ later) times
    → ticks host d times ≡ d
unfolding ticks tick
ticks_missed host now d [] missed h = refl
ticks_missed host now d (later ∷ times) missed (le, h) =
    rw
      (tick_from_missed host later (list_all d) d
        (All-later host.rfc3339 now later (list_all d) le missed))
      (ticks_missed host now d times missed h)
