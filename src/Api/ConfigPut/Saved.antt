-- ===== src/Api/ConfigPut/Saved.antt =====
-- What PUT /v1/config of config.go stores.
use calf.Common.{
  ◌≡◌, refl, inl, inr, Option, none, some, arith, ℤ, pos, lt_int, Option-cases, if◌then◌else◌,
  Result, ok, err, >>=-eq-ok,
}
use calf.Strings.{Text}
use calf.Config.Update.{UpdateRequest, Config, at_least_one, validate_resource_update}
use calf.Config.Update.Ranges.{Fits, InRange, validate_resource_update_iff}
use calf.Config.Proxy.{validate_proxy_update}
use calf.Config.Defaults.{or_default, clamp_timeout, with_defaults}
use calf.Api.ConfigPut.{
  Host, Stored, PutError, merge_update, set_or, with_level, check_level, check_put, as_resource,
  as_proxy, apply_config_update, handle_config_put, normalize_log_level,
}

-- A refused update leaves the daemon and the file as they were, unless it is the write that failed.
pub handle_config_put-err :
    (h : Host) (req : UpdateRequest) (d : Stored) (e : PutError)
    → check_put h req d.cfg ≡ err e
    → handle_config_put h req d ≡ (d, err e)
unfolding handle_config_put
handle_config_put-err h req d e p = rw p refl

as_resource-ok : (r : Result _ (Unit {0})) → as_resource r ≡ ok tt → r ≡ ok tt
as_resource-ok (ok u) h = refl
as_resource-ok (err e) h = cc

-- The two checks that the stored values rest on.
accepted :
    (h : Host) (req : UpdateRequest) (c : Config)
    → check_put h req c ≡ ok tt
    → (check_level req.log_level ≡ ok tt)
      × ((disk : ℤ) × Fits h.paths req h.host_cpus h.host_memory_gb disk)
unfolding check_put
accepted h req c p =
    let (_, _, p1) = >>=-eq-ok (as_proxy (validate_proxy_update h.net req)) _ p in
    let (_, level, p2) = >>=-eq-ok (check_level req.log_level) _ p1 in
    let disk = if lt_int h.host_disk_gb c.disk_gb then c.disk_gb else h.host_disk_gb in
    let (_, resources, _) =
      >>=-eq-ok
        (as_resource (validate_resource_update h.paths req h.host_cpus h.host_memory_gb disk)) _
        p2 in
    (
      level,
      (
        disk,
        (validate_resource_update_iff h.paths req h.host_cpus h.host_memory_gb disk).0
            (as_resource-ok _ resources),
      ),
    )

-- What is stored: the merged fields and a level, in the daemon as they are and in the file with the
-- defaults filled in.
abbrev settled : Host → Config → Stored
settled h c = record { cfg = c; file = with_defaults h.defaults c }

level_settled :
    (h : Host) (d : Stored) (c : Config) (level : Option Text)
    → h.write_error ≡ none
    → check_level level ≡ ok tt
    → (l : Text) × (with_level h d c level ≡ (settled h (record c { log_level = l }), ok tt))
level_settled h d c none writes checked = (c.log_level, rw writes refl)
level_settled h d c (some level) writes checked = elim (Option-cases (normalize_log_level level)) [
  | inl e ↦ absurd (cc (rw (e, check_level) at checked))
  | inr (l, e) ↦ (l, rw (e, writes) refl)
]

put_settled :
    (h : Host) (req : UpdateRequest) (d : Stored)
    → h.write_error ≡ none
    → check_put h req d.cfg ≡ ok tt
    → (l : Text) × (handle_config_put h req d
        ≡ (settled h (record (merge_update h.paths req d.cfg) { log_level = l }), ok tt))
unfolding handle_config_put apply_config_update
put_settled h req d writes checked =
    let (l, e) =
      level_settled h d (merge_update h.paths req d.cfg) req.log_level writes
        (accepted h req d.cfg checked).0 in
    (l, rw (checked, e) refl)

-- A number of the request has come into the daemon and into the file.
abbrev pub Arrives : Option ℤ → ℤ → ℤ → Type 0
Arrives none cfg file = Unit
Arrives (some n) cfg file = (cfg ≡ n) × (file ≡ n)

positive_Arrives :
    (n : Option ℤ) (old d high : ℤ)
    → InRange (pos 1) high n
    → Arrives n (set_or n old) (or_default (set_or n old) d)
positive_Arrives none old d high h = tt
positive_Arrives (some n) old d high (low, _) = (refl, ground arith)

timeout_Arrives :
    (n : Option ℤ) (old d : ℤ)
    → InRange (pos 30) (pos 3600) n
    → Arrives n (set_or n old) (clamp_timeout (or_default (set_or n old) d))
unfolding clamp_timeout
timeout_Arrives none old d h = tt
timeout_Arrives (some n) old d (low, high) = (refl, ground arith)

-- The outcome of an accepted update.
pub record IsSaved (h : Host) (req : UpdateRequest) (o : Stored × Result PutError (Unit {0}))
    : Type 0 where
  pub answer : o.1 ≡ ok tt
  pub file : o.0.file ≡ with_defaults h.defaults o.0.cfg
  pub cpus : Arrives req.cpus o.0.cfg.cpus o.0.file.cpus
  pub memory : Arrives req.memory_gb o.0.cfg.memory_gb o.0.file.memory_gb
  pub disk : Arrives req.disk_gb o.0.cfg.disk_gb o.0.file.disk_gb
  pub timeout :
      Arrives req.resource_saver_timeout_sec o.0.cfg.resource_saver_timeout_sec
        o.0.file.resource_saver_timeout_sec

-- An update that passes the checks, and whose file can be written, is answered with success; the file
-- holds the daemon's configuration with the defaults filled in, and each of the numbers of
-- processors, memory, disk and idle time that the request has is in both, unchanged.
pub handle_config_put-IsSaved :
    (h : Host) (req : UpdateRequest) (d : Stored)
    → h.write_error ≡ none
    → check_put h req d.cfg ≡ ok tt
    → IsSaved h req (handle_config_put h req d)
unfolding with_defaults merge_update
handle_config_put-IsSaved h req d writes checked =
    let (_, (disk, f)) = accepted h req d.cfg checked in
    let (l, e) = put_settled h req d writes checked in
    rw e (record {
      answer = refl;
      file = refl;
      cpus = positive_Arrives req.cpus _ _ (at_least_one h.host_cpus) f.cpus;
      memory = positive_Arrives req.memory_gb _ _ (at_least_one h.host_memory_gb) f.memory;
      disk = positive_Arrives req.disk_gb _ _ (at_least_one disk) f.disk;
      timeout = timeout_Arrives req.resource_saver_timeout_sec _ _ f.timeout;
    })

-- An accepted update to no swap memory arrives in the daemon only: the file, which the next start
-- reads, holds the default amount.
pub handle_config_put-swap_zero :
    (h : Host) (req : UpdateRequest) (d : Stored)
    → h.write_error ≡ none
    → check_put h req d.cfg ≡ ok tt
    → req.memory_swap_gb ≡ some (pos 0)
    → ((handle_config_put h req d).0.cfg.memory_swap_gb ≡ pos 0)
      × ((handle_config_put h req d).0.file.memory_swap_gb ≡ h.defaults.memory_swap_gb)
unfolding with_defaults merge_update
handle_config_put-swap_zero h req d writes checked zero_swap =
    let (l, e) = put_settled h req d writes checked in rw (e, zero_swap) (refl, refl)
