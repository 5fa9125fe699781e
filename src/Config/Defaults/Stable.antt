-- ===== src/Config/Defaults/Stable.antt =====
-- The defaults of config.go: they are filled in once and for all.
use calf.Common.{◌≡◌, refl, ◌||◌, arith, ℤ, pos, lt_int, Bool-cases, inl, inr, ◌⊎◌, false, [], ◌∷◌}
use calf.Strings.{Text, text, text_eq, is_empty}
use calf.Config.Update.{Config, resource_saver_timeout_min_sec, resource_saver_timeout_max_sec}
use calf.Config.Defaults.{
  default_listen_addr, or_default, or_default_text, default_addr, clamp_timeout, with_defaults,
}

or_default_idem : (n d : ℤ) → or_default (or_default n d) d ≡ or_default n d
or_default_idem n d = ground arith

or_default_text_idem : (s d : Text) → or_default_text (or_default_text s d) d ≡ or_default_text s d
or_default_text_idem s d = ground arith

-- The address after the old defaults are replaced; `set` is not empty.
default_addr_cases :
    (s : Text)
    → (default_addr s ≡ default_listen_addr)
      ⊎ ((default_addr s ≡ s)
          × (is_empty s ≡ false)
          × ((text_eq s (text ":8765") || text_eq s (text "0.0.0.0:8765")) ≡ false))
unfolding default_addr text_eq is_empty
default_addr_cases [] = inl refl
default_addr_cases (c ∷ s) =
    elim (Bool-cases (text_eq (c ∷ s) (text ":8765") || text_eq (c ∷ s) (text "0.0.0.0:8765"))) [
      | inl e ↦ inl (rw e refl)
      | inr e ↦ inr (rw e refl, refl, e)
    ]

default_addr_default : default_addr default_listen_addr ≡ default_listen_addr
unfolding default_addr text_eq is_empty
default_addr_default = refl

default_addr_idem : (s : Text) → default_addr (default_addr s) ≡ default_addr s
default_addr_idem s = elim (default_addr_cases s) [
  | inl e ↦ rw e default_addr_default
  | inr (e, _, _) ↦ rw e e
]

clamp_timeout_bounds :
    (n : ℤ)
    → (lt_int (clamp_timeout n) resource_saver_timeout_min_sec ≡ false)
      × (lt_int resource_saver_timeout_max_sec (clamp_timeout n) ≡ false)
unfolding clamp_timeout
clamp_timeout_bounds n = ground arith

timeout_idem : (n d : ℤ) → clamp_timeout (or_default (clamp_timeout n) d) ≡ clamp_timeout n
unfolding clamp_timeout
timeout_idem n d = ground arith

-- Filling in the defaults a second time, as a save and the next load do, changes nothing, whatever
-- the defaults are.
pub with_defaults_idem :
    (defaults cfg : Config)
    → with_defaults defaults (with_defaults defaults cfg) ≡ with_defaults defaults cfg
unfolding with_defaults
with_defaults_idem defaults cfg = rw (
  default_addr_idem cfg.listen_addr,
  or_default_text_idem cfg.log_level defaults.log_level,
  or_default_text_idem cfg.vm_name (text "calf"),
  or_default_idem cfg.poll_interval_ms (pos 3000),
  or_default_idem cfg.cpus defaults.cpus,
  or_default_idem cfg.memory_gb defaults.memory_gb,
  or_default_idem cfg.memory_swap_gb defaults.memory_swap_gb,
  or_default_idem cfg.disk_gb defaults.disk_gb,
  timeout_idem (or_default cfg.resource_saver_timeout_sec defaults.resource_saver_timeout_sec)
      defaults.resource_saver_timeout_sec,
)
