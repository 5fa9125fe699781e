-- ===== src/Config/Update/Ranges.antt =====
-- What `ValidateResourceUpdate` of validate_proxy.go accepts.
use calf.Common.{
  ◌≡◌, ◌↔◌, refl, ◌⊎◌, true, false, Option, none, some, arith, ℤ, pos, lt_int, ok, >>=-eq-ok,
}
use calf.Config.Paths.{Paths, expand_home_path}
use calf.Strings.{Text, is_empty, trim_space}
use calf.Config.Update.{
  UpdateRequest, ResourceError, at_least_one, check_range, check_disk_image,
  validate_resource_update, resource_saver_timeout_min_sec, resource_saver_timeout_max_sec,
}

-- The number is not in the request, or it is within the range.
abbrev pub InRange : ℤ → ℤ → Option ℤ → Type 0
InRange low high none = Unit
InRange low high (some n) = (lt_int n low ≡ false) × (lt_int high n ≡ false)

abbrev pub IsDiskPath : Paths → Option Text → Type 0
IsDiskPath paths none = Unit
IsDiskPath paths (some v) =
    (is_empty (trim_space v) ≡ true) ⊎ (paths.is_abs (expand_home_path paths (trim_space v)) ≡ true)

-- Every number of the request is within its range.
pub record Fits (paths : Paths) (req : UpdateRequest) (host_cpus host_memory_gb host_disk_gb : ℤ)
    : Type 0 where
  pub cpus : InRange (pos 1) (at_least_one host_cpus) req.cpus
  pub memory : InRange (pos 1) (at_least_one host_memory_gb) req.memory_gb
  pub swap : InRange (pos 0) (at_least_one host_memory_gb) req.memory_swap_gb
  pub disk : InRange (pos 1) (at_least_one host_disk_gb) req.disk_gb
  pub image : IsDiskPath paths req.disk_image
  pub timeout :
      InRange resource_saver_timeout_min_sec resource_saver_timeout_max_sec
        req.resource_saver_timeout_sec

check_range-InRange :
    (e : ℤ → ℤ → ResourceError) (low high : ℤ) (n : Option ℤ) (u : Unit {0})
    → check_range e low high n ≡ ok u
    → InRange low high n
check_range-InRange e low high none u h = tt
check_range-InRange e low high (some n) u h = ground arith

check_range_of_InRange :
    (e : ℤ → ℤ → ResourceError) (low high : ℤ) (n : Option ℤ)
    → InRange low high n
    → check_range e low high n ≡ ok tt
check_range_of_InRange e low high none h = refl
check_range_of_InRange e low high (some n) (p, q) = rw (p, q) refl

check_disk_image_sound :
    (paths : Paths) (v : Option Text) (u : Unit {0})
    → check_disk_image paths v ≡ ok u
    → IsDiskPath paths v
check_disk_image_sound paths none u h = tt
check_disk_image_sound paths (some v) u h = ground arith

check_disk_image_complete :
    (paths : Paths) (v : Option Text) → IsDiskPath paths v → check_disk_image paths v ≡ ok tt
check_disk_image_complete paths none h = refl
check_disk_image_complete paths (some v) h = ground arith

module _ (paths : Paths) (req : UpdateRequest) (host_cpus host_memory_gb host_disk_gb : ℤ) where
  validate_sound :
      validate_resource_update paths req host_cpus host_memory_gb host_disk_gb ≡ ok tt
      → Fits paths req host_cpus host_memory_gb host_disk_gb
  unfolding validate_resource_update
  validate_sound h =
      let (a, p, h1) = >>=-eq-ok (check_range ResourceError.cpus _ _ req.cpus) _ h in
      let (b, q, h2) = >>=-eq-ok (check_range ResourceError.memory_gb _ _ req.memory_gb) _ h1 in
      let (c, r, h3) =
        >>=-eq-ok (check_range ResourceError.memory_swap_gb _ _ req.memory_swap_gb) _ h2 in
      let (d, s, h4) = >>=-eq-ok (check_range ResourceError.disk_gb _ _ req.disk_gb) _ h3 in
      let (e, t, h5) = >>=-eq-ok (check_disk_image paths req.disk_image) _ h4 in
      record {
        cpus = check_range-InRange ResourceError.cpus _ _ req.cpus a p;
        memory = check_range-InRange ResourceError.memory_gb _ _ req.memory_gb b q;
        swap = check_range-InRange ResourceError.memory_swap_gb _ _ req.memory_swap_gb c r;
        disk = check_range-InRange ResourceError.disk_gb _ _ req.disk_gb d s;
        image = check_disk_image_sound paths req.disk_image e t;
        timeout =
            check_range-InRange ResourceError.timeout _ resource_saver_timeout_max_sec
              req.resource_saver_timeout_sec tt h5;
      }

  validate_complete :
      Fits paths req host_cpus host_memory_gb host_disk_gb
      → validate_resource_update paths req host_cpus host_memory_gb host_disk_gb ≡ ok tt
  unfolding validate_resource_update
  validate_complete f =
      rw
        (
          check_range_of_InRange ResourceError.cpus _ _ req.cpus f.cpus,
          check_range_of_InRange ResourceError.memory_gb _ _ req.memory_gb f.memory,
          check_range_of_InRange ResourceError.memory_swap_gb _ _ req.memory_swap_gb f.swap,
          check_range_of_InRange ResourceError.disk_gb _ _ req.disk_gb f.disk,
          check_disk_image_complete paths req.disk_image f.image,
        )
        (check_range_of_InRange ResourceError.timeout _ resource_saver_timeout_max_sec
          req.resource_saver_timeout_sec f.timeout)

-- The check of the resources accepts an update exactly when every number that it has is within its
-- range, where the host's capacities count as 1 at least, and its disk image is blank or absolute.
pub validate_resource_update_iff :
    (paths : Paths) (req : UpdateRequest) (host_cpus host_memory_gb host_disk_gb : ℤ)
    → (validate_resource_update paths req host_cpus host_memory_gb host_disk_gb ≡ ok tt)
      ↔ Fits paths req host_cpus host_memory_gb host_disk_gb
validate_resource_update_iff paths req host_cpus host_memory_gb host_disk_gb = (
  validate_sound paths req host_cpus host_memory_gb host_disk_gb,
  validate_complete paths req host_cpus host_memory_gb host_disk_gb,
)
