-- ===== src/Worker/Startup/Processes.antt =====
-- The bounds of the number of solver processes.use native.Mathlib.Nat.{div-mul-le_self, le-div_iff_mul-le}
use native.Mathlib.Nat.{div-mul-le_self, le-div_iff_mul-le}
use allocation_key_generatio.Base.Text.{number}
use allocation_key_generatio.Base.{
  [], arith, false, max, refl, some, subst, suc, sym, zero, ℕ, ◌*◌, ◌+◌, ◌-◌, ◌/◌, ◌<◌, ◌∷◌, ◌≡◌,
  ◌≤◌,
}
use allocation_key_generatio.Base.Text.{Text, codes, text_eq}
use allocation_key_generatio.Worker.Startup.{
  Host, detect_available_cpus, from_quota, solver_pool_size,
}

max_left : (n : ℕ) → 1 ≤ max 1 n
max_left n = omega arith

div_mul_le : (q p : ℕ) → 1 ≤ p → q / p * p ≤ q
div_mul_le q p h = div-mul-le_self q p

two_le_div : (q p : ℕ) → 1 ≤ p → 2 * p ≤ q → 2 ≤ q / p
two_le_div q p h k = (le-div_iff_mul-le h).1 k

div_lt_two : (q p : ℕ) → 1 ≤ p → q < 2 * p → q / p < 2
div_lt_two q p h k = ground (arith, le-div_iff_mul-le {k = p} {x = 2} {y = q} h)

fits : (q p : ℕ) → 1 ≤ p → 2 * p ≤ q → (max 1 (max 1 (q / p) - 1) + 1) * p ≤ q
fits q p h k =
    let two = two_le_div q p h k in
    let same_count : max 1 (max 1 (q / p) - 1) + 1 ≡ q / p = omega (arith, two) in
    subst (λ n. n * p ≤ q) (sym same_count) (div_mul_le q p h)

one_process : (q p : ℕ) → 1 ≤ p → q < 2 * p → max 1 (max 1 (q / p) - 1) ≡ 1
one_process q p h k = omega (arith, div_lt_two q p h k)

quota_lem : (q p : ℕ) → 1 ≤ q → 1 ≤ p → from_quota (number q) (number p) ≡ some (max 1 (q / p))
quota_lem zero p h k = absurd (omega (arith, h))
quota_lem (suc q) zero h k = absurd (omega (arith, k))
quota_lem (suc q) (suc p) h k = refl

-- A host whose cgroup v2 file sets a quota and a period, as two positive numbers
pub record Limited (h : Host) (quota period : ℕ) : Type 0 where
  pub quota_text : Text
  pub period_text : Text
  pub file : h.cpu_max ≡ some (quota_text ∷ period_text ∷ [])
  pub is_limit : text_eq quota_text (codes "max") ≡ false
  pub quota_number : h.parse_int quota_text ≡ number quota
  pub period_number : h.parse_int period_text ≡ number period
  pub quota_positive : 1 ≤ quota
  pub period_positive : 1 ≤ period

module _ (h : Host) where
  detected_quota :
      (quota period : ℕ) → Limited h quota period → detect_available_cpus h ≡ max 1 (quota / period)
  unfolding detect_available_cpus
  detected_quota quota period l =
      rw
        (
          l.file,
          l.is_limit,
          l.quota_number,
          l.period_number,
          quota_lem quota period l.quota_positive l.period_positive,
        )
        refl

  -- There is at least one solver process. On a host whose cgroup v2 file sets a quota and a period,
  -- the processes and the one CPU that is left to the event loop fit the quota, unless the quota is
  -- below two CPUs, where there is one process.
  pub solver_pool_size-Bounded :
      (1 ≤ solver_pool_size h)
      × ((quota period : ℕ)
          → Limited h quota period
          → (2 * period ≤ quota → (solver_pool_size h + 1) * period ≤ quota)
            × (quota < 2 * period → solver_pool_size h ≡ 1))
  unfolding solver_pool_size
  solver_pool_size-Bounded = (
    max_left (detect_available_cpus h - 1),
    λ quota period l.
        rw (detected_quota quota period l)
          (fits quota period l.period_positive, one_process quota period l.period_positive),
  )
