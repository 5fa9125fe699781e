-- ===== src/Daemon/ResourceSaver/Idle.antt =====
-- When the ticks of resource_saver.go stop the engine.
use calf.Common.{
  ||-false, ℕ, ◌-◌, ◌*◌, ◌≤◌, ◌≡◌, ◌≢◌, refl, sym, ◌∙◌, subst, ◌⊎◌, inl, inr, Bool, true, false,
  not, ◌||◌, Option, none, some, List, [], ◌∷◌, ltb, ltb-false→le, ◌==◌, arith, Bool-cases,
  if◌then◌else◌, ℤ,
}
use calf.Strings.{Text, text, text_eq}
use calf.VolumeExport.Time.{second}
use calf.Daemon.ResourceSaver.{
  Container, ResourceSaver, Reading, has_running_container, timeout_of, enter_resource_saver,
  tick_idle, tick_containers, tick_state, tick, clear,
}

-- The list was not read, or no container in it runs.
abbrev pub QuietContainers : Option (List Container) → Type 0
QuietContainers none = Unit
QuietContainers (some containers) = has_running_container containers ≡ false

abbrev pub QuietState : Option Text → Option (List Container) → Type 0
QuietState none containers = Unit
QuietState (some state) containers =
    (text_eq state (text "running") ≡ true) × QuietContainers containers

-- The saver is on, and nothing that was read says that the engine is not running or that a container
-- runs.
abbrev pub IsQuiet : Reading → Type 0
IsQuiet x = (x.enabled ≡ true) × QuietState x.state x.containers

-- The saver's idle time is that of a tick since which every reading has been quiet; the readings are
-- the last ones first.
abbrev pub IdleSince : ℕ → List Reading → Type 0
IdleSince t [] = ⊥
IdleSince t (x ∷ xs) = IsQuiet x × ((x.now ≡ t) ⊎ IdleSince t xs)

-- The states that the ticks can reach: the readings are the last ones first.
pub data Reached : ResourceSaver → List Reading → Type 0 where
  started : Reached (record { active = false; idle_at = 0 }) []
  ticked :
      {r : ResourceSaver} {xs : List Reading} (x : Reading)
      → Reached r xs
      → Reached (tick r x).0 (x ∷ xs)
  cleared : {r : ResourceSaver} {xs : List Reading} → Reached r xs → Reached (clear r) xs

-- The idle time after a tick: none, the time of the tick, or as before.
abbrev pub Kept : ResourceSaver → Reading → ResourceSaver × Bool → Type 0
Kept r x o = (o.0.idle_at ≡ 0) ⊎ ((o.0.idle_at ≡ x.now) ⊎ (o.0.idle_at ≡ r.idle_at))

enter-zero : (r : ResourceSaver) (fails : Bool) → (enter_resource_saver r fails).0.idle_at ≡ 0
unfolding enter_resource_saver
enter-zero r true = refl
enter-zero r false = refl

tick_idle-Kept : (r : ResourceSaver) (x : Reading) → Kept r x (tick_idle r x)
unfolding tick_idle
tick_idle-Kept r x = elim (Bool-cases (r.idle_at == 0)) [
  | inl e ↦ rw e (inr (inl refl))
  | inr e ↦
      elim (Bool-cases (r.active || ltb (x.now - r.idle_at) (timeout_of x.timeout_sec * second))) [
        | inl f ↦ rw (e, f) (inr (inr refl))
        | inr f ↦ rw (e, f) (inl (enter-zero r x.stop_fails))
      ]
]

-- A tick that leaves an idle time has had a quiet reading.
abbrev Steps : ResourceSaver → Reading → Type 0 → ResourceSaver × Bool → Type 0
Steps r x Q o = (o.0.idle_at ≡ 0) ⊎ (Q × ((o.0.idle_at ≡ x.now) ⊎ (o.0.idle_at ≡ r.idle_at)))

guard-Steps :
    (r : ResourceSaver) (x : Reading) (b : Bool) (Q : Type 0) (stop go : ResourceSaver × Bool)
    → stop.0.idle_at ≡ 0
    → Steps r x Q go
    → Steps r x ((b ≡ true) × Q) (if not b then stop else go)
guard-Steps r x true Q stop go z (inl e) = inl e
guard-Steps r x true Q stop go z (inr (q, k)) = inr ((refl, q), k)
guard-Steps r x false Q stop go z k = inl z

containers-Steps :
    (r : ResourceSaver) (x : Reading) (cs : Option (List Container))
    → Steps r x (QuietContainers cs) (tick_containers r x cs)
containers-Steps r x none = inr (tt, inr refl)
containers-Steps r x (some cs) = elim (Bool-cases (has_running_container cs)) [
  | inl e ↦ rw e (inl refl)
  | inr e ↦ rw e (elim (tick_idle-Kept r x) [ inl k ↦ inl k | inr k ↦ inr (refl, k) ])
]

state-Steps :
    (r : ResourceSaver) (x : Reading) (state : Option Text)
    → Steps r x (QuietState state x.containers) (tick_state r x state)
state-Steps r x none = inr (tt, inr refl)
state-Steps r x (some state) =
    guard-Steps r x (text_eq state (text "running")) _ _ _ refl (containers-Steps r x x.containers)

tick-Steps : (r : ResourceSaver) (x : Reading) → Steps r x (IsQuiet x) (tick r x)
unfolding tick
tick-Steps r x = guard-Steps r x x.enabled _ _ _ refl (state-Steps r x x.state)

-- In every state that the ticks reach, an idle time that is set is the time of a tick since which
-- every reading has been quiet.
pub Reached-IdleSince :
    (r : ResourceSaver) (xs : List Reading) → Reached r xs → r.idle_at ≢ 0 → IdleSince r.idle_at xs
unfolding clear
Reached-IdleSince _ _ started h = absurd (h refl)
Reached-IdleSince _ _ (cleared k) h = absurd (h refl)
Reached-IdleSince _ _ (ticked {r = r} {xs = xs} x k) h = elim (tick-Steps r x) [
  | inl e ↦ absurd (h e)
  | inr (q, inl e) ↦ (q, inl (sym e))
  | inr (q, inr e) ↦
      (q, inr (subst (λ t. IdleSince t xs) (sym e) (Reached-IdleSince r xs k (λ z. h (e ∙ z)))))
]

-- What a tick that stops the engine has read and found: it is read with the engine running and no
-- container, the saver was not active, and its idle time lies the asked-for time back.
pub record Stops (r : ResourceSaver) (x : Reading) : Type 0 where
  pub quiet : IsQuiet x
  pub inactive : r.active ≡ false
  pub idle : r.idle_at ≢ 0
  pub long : timeout_of x.timeout_sec * second ≤ x.now - r.idle_at

timeout_of-ge : (n : ℤ) → 30 ≤ timeout_of n
unfolding timeout_of
timeout_of-ge n = ground arith

zero_test : (n : ℕ) → (n == 0) ≡ false → n ≢ 0
zero_test n e z = ground arith

tick_idle-stops :
    (r : ResourceSaver) (x : Reading)
    → (tick_idle r x).1 ≡ true
    → (r.active ≡ false) × (r.idle_at ≢ 0) × (timeout_of x.timeout_sec * second ≤ x.now - r.idle_at)
unfolding tick_idle
tick_idle-stops r x h = elim (Bool-cases (r.idle_at == 0)) [
  | inl e ↦ absurd (cc (rw (e, tick_idle) at h))
  | inr e ↦
      elim (Bool-cases (r.active || ltb (x.now - r.idle_at) (timeout_of x.timeout_sec * second))) [
        | inl f ↦ absurd (cc (rw (e, f, tick_idle) at h))
        | inr f ↦
            let (inactive, long) =
              ||-false r.active (ltb (x.now - r.idle_at) (timeout_of x.timeout_sec * second)) f in
            (inactive, λ z. zero_test r.idle_at e z, ltb-false→le (x.now - r.idle_at) _ long)
      ]
]

containers-stops :
    (r : ResourceSaver) (x : Reading) (cs : Option (List Container))
    → (tick_containers r x cs).1 ≡ true
    → QuietContainers cs × ((tick_idle r x).1 ≡ true)
containers-stops r x none h = cc
containers-stops r x (some cs) h = elim (Bool-cases (has_running_container cs)) [
  | inl e ↦ cc (rw (e, tick_containers) at h)
  | inr e ↦ (e, rw (e, tick_containers) at h)
]

guard-stops :
    (b : Bool) (stop go : ResourceSaver × Bool)
    → stop.1 ≡ false
    → (if not b then stop else go).1 ≡ true
    → (b ≡ true) × (go.1 ≡ true)
guard-stops true stop go z h = (refl, h)
guard-stops false stop go z h = cc

state-stops :
    (r : ResourceSaver) (x : Reading) (state : Option Text)
    → (tick_state r x state).1 ≡ true
    → QuietState state x.containers × ((tick_idle r x).1 ≡ true)
state-stops r x none h = cc
state-stops r x (some state) h =
    let (running, rest) = guard-stops (text_eq state (text "running")) _ _ refl h in
    let (quiet, stops) = containers-stops r x x.containers rest in ((running, quiet), stops)

tick-Stops : (r : ResourceSaver) (x : Reading) → (tick r x).1 ≡ true → Stops r x
unfolding tick
tick-Stops r x h =
    let (on, rest) = guard-stops x.enabled _ _ refl h in
    let (quiet, stops) = state-stops r x x.state rest in
    let (inactive, idle, long) = tick_idle-stops r x stops in
    record { quiet = (on, quiet); inactive = inactive; idle = idle; long = long }

-- Whatever the ticks before have read, a tick stops the engine only if there was a tick, the asked-for
-- time or more before it (30 seconds at least), since which every reading, its own included, has been
-- quiet: no reading has found the saver off, the engine not running, or a container that runs.
pub tick_stops-IdleSince :
    (r : ResourceSaver) (xs : List Reading) (x : Reading)
    → Reached r xs
    → (tick r x).1 ≡ true
    → (t : ℕ) × IdleSince t xs
      × IsQuiet x
      × (30 * second ≤ x.now - t)
      × (timeout_of x.timeout_sec * second ≤ x.now - t)
tick_stops-IdleSince r xs x reached h =
    let s = tick-Stops r x h in
    let least = timeout_of-ge x.timeout_sec in
    (
      r.idle_at,
      Reached-IdleSince r xs reached s.idle,
      s.quiet,
      omega (arith, least, s.long),
      s.long,
    )
