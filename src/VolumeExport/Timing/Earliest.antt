-- ===== src/VolumeExport/Timing/Earliest.antt =====
-- `computeNextRun` of schedule_timing.go against the slots that a schedule configures.
use calf.Common.{
  ℕ, zero, suc, ◌+◌, ◌%◌, ◌≤◌, ◌<◌, ◌≡◌, ◌≢◌, refl, subst, ◌⊎◌, inl, inr, Bool, true, false, List,
  [], ◌∷◌, arith, Result, ok, sym, ap, ◌∙◌, if-not-true, ◌>>=◌, ◌>>◌, >>=-eq-ok, ok_inj,
}
use calf.Strings.{Text}
use calf.VolumeExport.Time.{Zone, IsZone}
use calf.VolumeExport.Schedule.{
  DayTimeSchedule, Schedule, ScheduleError, parse_time_of_day, times_for_day, normalize_schedule,
  validate_schedule_input,
}
use calf.VolumeExport.Timing.{
  run_grace, consider, scan_times, scan_days, scan_window, found_or_error, compute,
}

-- An instant that may run: after `now`, or, for a schedule that has not just run, no more than the
-- grace time before it.
abbrev pub CanRun : Bool → ℕ → ℕ → Type 0
CanRun true now t = now < t
CanRun false now t = now ≤ t + run_grace

-- `t` is one of the listed times on the day `date`.
abbrev pub IsDaySlot : Zone → ℕ → List Text → ℕ → Type 0
IsDaySlot z date [] t = ⊥
IsDaySlot z date (value ∷ times) t =
    ((hm : ℕ × ℕ) × (parse_time_of_day value ≡ ok hm) × (t ≡ z.at date hm.0 hm.1))
    ⊎ IsDaySlot z date times t

-- `t` is a configured slot of one of `rounds` days from `date` on.
abbrev pub IsSlot : Zone → List DayTimeSchedule → ℕ → ℕ → ℕ → Type 0
IsSlot z days zero date t = ⊥
IsSlot z days (suc rounds) date t =
    IsDaySlot z date (times_for_day days (date % 7)) t ⊎ IsSlot z days rounds (date + 1) t

-- The state of the search over the slots `S`: 0 where none may run, and else the first that may.
pub record Best (after_run : Bool) (now : ℕ) (S : ℕ → Type 0) (next : ℕ) : Type 0 where
  pub found : next ≢ 0 → S next × CanRun after_run now next
  pub first : (t : ℕ) → S t → CanRun after_run now t → (next ≢ 0) × (next ≤ t)

started_first : (after_run : Bool) (now t : ℕ) → run_grace < now → CanRun after_run now t → t ≢ 0
started_first true now t started c = omega arith
started_first false now t started c = omega arith

consider_split :
    (after_run : Bool) (now candidate next : ℕ)
    → ((¬ CanRun after_run now candidate) × (consider after_run now candidate next ≡ next))
      ⊎ (CanRun after_run now candidate
          × (consider after_run now candidate next ≡ candidate)
          × (next ≢ 0 → candidate < next))
      ⊎ (CanRun after_run now candidate
          × (consider after_run now candidate next ≡ next)
          × (next ≢ 0)
          × (next ≤ candidate))
unfolding consider
consider_split true now candidate next = ground arith
consider_split false now candidate next = ground arith

same_slot :
    (z : Zone) (date : ℕ) (value : Text) (hm other : ℕ × ℕ) (t : ℕ)
    → parse_time_of_day value ≡ ok hm
    → parse_time_of_day value ≡ ok other
    → t ≡ z.at date other.0 other.1
    → t ≡ z.at date hm.0 hm.1
same_slot z date value hm other t p q e = cc

module _ (after_run : Bool) (now : ℕ) (started : run_grace < now) where
  Best-map :
      (S T : ℕ → Type 0) (next : ℕ)
      → ((t : ℕ) → S t → T t)
      → ((t : ℕ) → T t → S t)
      → Best after_run now S next
      → Best after_run now T next
  Best-map S T next f g b = record {
    found = λ h. (f next (b.found h).0, (b.found h).1);
    first = λ t s. b.first t (g t s);
  }

  CanRun-ne_zero : (t : ℕ) → CanRun after_run now t → t ≢ 0
  CanRun-ne_zero t c e = started_first after_run now t started c e

  -- The three things that the loop can do with a candidate.
  consider_cases :
      (candidate next : ℕ)
      → ((¬ CanRun after_run now candidate) × (consider after_run now candidate next ≡ next))
        ⊎ (CanRun after_run now candidate
            × (consider after_run now candidate next ≡ candidate)
            × (next ≢ 0 → candidate < next))
        ⊎ (CanRun after_run now candidate
            × (consider after_run now candidate next ≡ next)
            × (next ≢ 0)
            × (next ≤ candidate))
  consider_cases candidate next = consider_split after_run now candidate next

  consider-Best :
      (S : ℕ → Type 0) (candidate next : ℕ)
      → Best after_run now S next
      → Best after_run now (λ t. S t ⊎ (t ≡ candidate)) (consider after_run now candidate next)
  consider-Best S candidate next b = elim (consider_cases candidate next) [
    | inl (no_run, e) ↦ rw e (record {
      found = λ h. (inl (b.found h).0, (b.found h).1);
      first = λ t s c. elim s [
        | inl k ↦ b.first t k c
        | inr p ↦ absurd (no_run (subst (CanRun after_run now) p c))
      ];
    })
    | inr (inl (c, e, less)) ↦ rw e (record {
      found = λ h. (inr refl, c);
      first = λ t s d. (
        CanRun-ne_zero candidate c,
        elim s [
          | inl k ↦ omega (arith, less (b.first t k d).0, (b.first t k d).1)
          | inr p ↦ omega arith
        ],
      );
    })
    | inr (inr (c, e, some_slot, le)) ↦ rw e (record {
      found = λ h. (inl (b.found h).0, (b.found h).1);
      first = λ t s d. (some_slot, elim s [ inl k ↦ (b.first t k d).1 | inr p ↦ omega arith ]);
    })
  ]

  -- The search over a day adds the slots of that day.
  scan_times-Best :
      (z : Zone) (S : ℕ → Type 0) (date : ℕ) (times : List Text) (next r : ℕ)
      → Best after_run now S next
      → scan_times z after_run now date times next ≡ ok r
      → Best after_run now (λ t. S t ⊎ IsDaySlot z date times t) r
  unfolding scan_times
  scan_times-Best z S date [] next r b e = subst (Best after_run now (λ t. S t ⊎ ⊥)) (ok_inj e) (
      Best-map S (λ t. S t ⊎ ⊥) next (λ t s. inl s) (λ t s. elim s [ inl k ↦ k | inr k ↦ absurd k ])
        b)
  scan_times-Best z S date (value ∷ times) next r b e =
      let (hm, parsed, rest) = >>=-eq-ok (parse_time_of_day value) _ e in
      let candidate = z.at date hm.0 hm.1 in
      Best-map (λ t. (S t ⊎ (t ≡ candidate)) ⊎ IsDaySlot z date times t) _ r
        (λ t s. elim s [
          | inl (inl k) ↦ inl k
          | inl (inr p) ↦ inr (inl (hm, parsed, p))
          | inr k ↦ inr (inr k)
        ])
        (λ t s. elim s [
          | inl k ↦ inl (inl k)
          | inr (inl (other, again, p)) ↦
              inl (inr (same_slot z date value hm other t parsed again p))
          | inr (inr k) ↦ inr k
        ])
        (scan_times-Best z (λ t. S t ⊎ (t ≡ candidate)) date times
          (consider after_run now candidate next) r (consider-Best S candidate next b) rest)

  -- The search over the days adds the slots of all of them.
  scan_days-Best :
      (z : Zone) (laws : IsZone z) (S : ℕ → Type 0) (days : List DayTimeSchedule)
      (rounds offset next r : ℕ)
      → Best after_run now S next
      → scan_days z after_run now days rounds offset next ≡ ok r
      → Best after_run now (λ t. S t ⊎ IsSlot z days rounds (z.day_of now + offset) t) r
  unfolding scan_days
  scan_days-Best z laws S days zero offset next r b e =
      subst (Best after_run now (λ t. S t ⊎ ⊥)) (ok_inj e) (
        Best-map S (λ t. S t ⊎ ⊥) next (λ t s. inl s)
          (λ t s. elim s [ inl k ↦ k | inr k ↦ absurd k ]) b)
  scan_days-Best z laws S days (suc rounds) offset next r b e =
      let date = z.day_of now + offset in
      let times = times_for_day days (date % 7) in
      let scan : ℕ → Result ScheduleError ℕ = λ d.
        scan_times z after_run now d (times_for_day days (d % 7)) next >>= λ found.
        scan_days z after_run now days rounds (offset + 1) found in
      let (found, scanned, rest) =
        >>=-eq-ok (scan_times z after_run now date times next) _
          (ap scan (sym (laws.day_of-add_days now offset)) ∙ e) in
      let later : z.day_of now + (offset + 1) ≡ date + 1 = omega arith in
      let slots : Best after_run now
          (λ t. (S t ⊎ IsDaySlot z date times t) ⊎ IsSlot z days rounds (date + 1) t) r =
        subst
          (λ n.
            Best after_run now (λ t. (S t ⊎ IsDaySlot z date times t) ⊎ IsSlot z days rounds n t) r)
          later
          (scan_days-Best z laws (λ t. S t ⊎ IsDaySlot z date times t) days rounds (offset + 1)
            found r (scan_times-Best z S date times next found b scanned) rest) in
      Best-map (λ t. (S t ⊎ IsDaySlot z date times t) ⊎ IsSlot z days rounds (date + 1) t) _ r
        (λ t s. elim s [ inl (inl k) ↦ inl k | inl (inr k) ↦ inr (inl k) | inr k ↦ inr (inr k) ])
        (λ t s. elim s [ inl k ↦ inl (inl k) | inr (inl k) ↦ inl (inr k) | inr (inr k) ↦ inr k ])
        slots

Best-none : (after_run : Bool) (now : ℕ) → Best after_run now (λ t. ⊥) 0
Best-none after_run now = record { found = λ h. absurd (h refl); first = λ t s c. absurd s }

found_or_error-ok : (next t : ℕ) → found_or_error next ≡ ok t → (next ≢ 0) × (next ≡ t)
found_or_error-ok next t h = ground arith

-- The search over the slots of the whole window.
pub window-Best :
    (after_run : Bool) (now : ℕ)
    → run_grace < now
    → (z : Zone) → IsZone z
    → (days : List DayTimeSchedule) (r : ℕ) → scan_days z after_run now days scan_window 0 0 ≡ ok r
    → Best after_run now (IsSlot z days scan_window (z.day_of now)) r
window-Best after_run now started z laws days r e =
    let first : z.day_of now + 0 ≡ z.day_of now = omega arith in
    let slots : Best after_run now (λ t. ⊥ ⊎ IsSlot z days scan_window (z.day_of now) t) r =
      subst (λ n. Best after_run now (λ t. ⊥ ⊎ IsSlot z days scan_window n t) r) first
        (scan_days-Best after_run now started z laws (λ t. ⊥) days scan_window 0 0 r
          (Best-none after_run now) e) in
    Best-map after_run now started _ _ r (λ t s. elim s [ inl k ↦ absurd k | inr k ↦ k ])
      (λ t s. inr s) slots

-- What `computeNextRun` does with an enabled schedule.
pub compute_enabled :
    (z : Zone) (s : Schedule) (now : ℕ) (after_run : Bool)
    → s.enabled ≡ true
    → compute z s now after_run ≡ (do
      validate_schedule_input (normalize_schedule s)
      next ← scan_days z after_run now (normalize_schedule s).day_times scan_window 0 0
      found_or_error next)
unfolding compute normalize_schedule
compute_enabled z s now after_run on = if-not-true s.enabled _ _ on

pub compute_earliest :
    (z : Zone) (s : Schedule) (now : ℕ) (after_run : Bool) (t : ℕ)
    → IsZone z
    → run_grace < now
    → s.enabled ≡ true
    → compute z s now after_run ≡ ok t
    → IsSlot z (normalize_schedule s).day_times scan_window (z.day_of now) t
      × CanRun after_run now t
      × ((u : ℕ)
          → IsSlot z (normalize_schedule s).day_times scan_window (z.day_of now) u
          → CanRun after_run now u
          → t ≤ u)
compute_earliest z s now after_run t laws started on h =
    let n = normalize_schedule s in
    let (_, _, scanned) =
      >>=-eq-ok (validate_schedule_input n) _ (sym (compute_enabled z s now after_run on) ∙ h) in
    let (r, searched, last) =
      >>=-eq-ok (scan_days z after_run now n.day_times scan_window 0 0) _ scanned in
    let (some_slot, same) = found_or_error-ok r t last in
    let b = window-Best after_run now started z laws n.day_times r searched in
    let (slot, can_run) = b.found some_slot in
    (
      subst (IsSlot z n.day_times scan_window (z.day_of now)) same slot,
      subst (CanRun after_run now) same can_run,
      λ u k c. subst (λ r. r ≤ u) same (b.first u k c).1,
    )
