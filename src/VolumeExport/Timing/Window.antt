-- ===== src/VolumeExport/Timing/Window.antt =====
-- `ScheduleDue` of schedule_timing.go: the window in which a run is due, and a scheduler that ticks
-- once a minute (backend/internal/daemon/export_scheduler.go).
use calf.Common.{
  ℕ, ◌+◌, ◌-◌, ◌%◌, ◌≤◌, ◌<◌, ◌≡◌, refl, ◌↔◌, inl, inr, true, false, List, [], ◌∷◌, In, arith,
}
use native.Mathlib.Decide.{dec_le}
use calf.VolumeExport.Time.{Rfc3339, IsRfc3339, minute, second}
use calf.VolumeExport.Timing.{run_grace, due_at, schedule_due}

due_from : (n now : ℕ) → due_at n now ≡ true → n - n % minute ≤ now
unfolding due_at
due_from n now h = ground arith

due_to : (n now : ℕ) → due_at n now ≡ true → now ≤ n + run_grace
unfolding due_at
due_to n now h = ground arith

due_in : (n now : ℕ) → n - n % minute ≤ now → now ≤ n + run_grace → due_at n now ≡ true
unfolding due_at
due_in n now h k = ground arith

-- A run at `next_run` is due exactly from the beginning of its minute to one minute behind it.
pub due_at_iff :
    (next_run now : ℕ)
    → (due_at next_run now ≡ true)
      ↔ ((next_run - next_run % minute ≤ now) × (now ≤ next_run + run_grace))
unfolding due_at
due_at_iff next_run now =
    (λ h. (due_from next_run now h, due_to next_run now h), λ h. due_in next_run now h.0 h.1)

-- A stored `next_run_at` is read back without its fraction of a second, and tested as `due_at`.
pub schedule_due-format :
    (f : Rfc3339) (t now : ℕ)
    → IsRfc3339 f
    → schedule_due f (f.format t) now ≡ due_at (t - t % second) now
unfolding schedule_due
schedule_due-format f t now laws = rw (laws.format-trim_space t, laws.parse-format t)

-- The instants at which a scheduler ticks behind `t`, each no more than the grace time behind the one
-- before.
abbrev pub IsPaced : ℕ → List ℕ → Type 0
IsPaced t [] = Unit
IsPaced t (u ∷ ticks) = (t ≤ u) × (u ≤ t + run_grace) × IsPaced u ticks

-- For a slot at a full minute: of the ticks of a scheduler that begin before the slot and are no more
-- than a minute apart, where one is not before the slot, there is one at which the slot is due.
pub tick_hits_slot :
    (slot t : ℕ) (ticks : List ℕ) (v : ℕ)
    → IsPaced t ticks
    → slot % minute ≡ 0
    → t < slot
    → In v ticks
    → slot ≤ v
    → (u : ℕ) × In u ticks × (due_at slot u ≡ true)
tick_hits_slot slot t [] v paced whole before there behind = absurd there
tick_hits_slot slot t (w ∷ ticks) v (le, near, paced) whole before there behind =
    elim (dec_le slot w) [
      | yes h ↦ (w, inl refl, due_in slot w (omega arith) (omega arith))
      | no h ↦ elim there [
        | inl e ↦ absurd (omega arith)
        | inr k ↦
            let (u, found, due) =
              tick_hits_slot slot w ticks v paced whole (omega arith) k behind in
            (u, inr found, due)
      ]
    ]

-- A slot that was missed is never due again: from a minute behind it on, no tick runs it.
pub missed_forever :
    (next_run now later : ℕ)
    → next_run + run_grace < now
    → now ≤ later
    → due_at next_run later ≡ false
unfolding due_at
missed_forever next_run now later past le = ground arith
