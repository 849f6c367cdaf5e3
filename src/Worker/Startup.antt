-- ===== src/Worker/Startup.antt =====
-- worker/main.py: the number of solver processes, the connection to the broker, and the pool of
-- solver processes. The files and the calls of the operating system are parameters.
pub mod Processes
pub mod Connected
use allocation_key_generatio.Algorithms.BruteForce.Algorithm.{rest}
use allocation_key_generatio.Worker.World.{count}
use allocation_key_generatio.Base.Text.{Parsed, number, Text, codes, text_eq}
use allocation_key_generatio.Base.{
  Bool, List, Option, [], false, max, min, none, some, suc, true, zero, ℕ, ◌*◌, ◌-◌, ◌/◌, ◌==◌, ◌∷◌,
  if◌then◌else◌,
}

-- What `_detect_available_cpus` reads; `none` is an OSError.
pub record Host : Type 0 where
  -- /sys/fs/cgroup/cpu.max, split at white space
  pub cpu_max : Option (List Text)
  pub cfs_quota : Option Text
  pub cfs_period : Option Text
  -- `len(os.sched_getaffinity(0))`; `none` also where it does not exist
  pub affinity : Option ℕ
  -- `os.cpu_count()`
  pub cpu_count : Option ℕ
  pub parse_int : Text → Parsed

-- `if quota > 0 and period > 0: return max(1, floor(quota / period))`
abbrev pub from_quota : Parsed → Parsed → Option ℕ
from_quota (number (suc q)) (number (suc p)) = some (max 1 (suc q / suc p))
from_quota _ _ = none

module _ (h : Host) where
  abbrev pub period_of : List Text → Parsed
  period_of [] = number 100_000
  period_of (text ∷ rest) = h.parse_int text

  -- cgroup v2
  abbrev pub quota_v2 : Option (List Text) → Option ℕ
  quota_v2 none = none
  quota_v2 (some []) = none
  quota_v2 (some (text ∷ parts)) =
      if text_eq text (codes "max") then none else from_quota (h.parse_int text) (period_of parts)

  -- cgroup v1
  abbrev pub quota_v1 : Option Text → Option Text → Option ℕ
  quota_v1 (some quota) (some period) = from_quota (h.parse_int quota) (h.parse_int period)
  quota_v1 _ _ = none

  abbrev pub from_affinity : Option ℕ → Option ℕ → ℕ
  from_affinity (some n) count = max 1 n
  from_affinity none none = max 1 1
  from_affinity none (some zero) = max 1 1
  from_affinity none (some (suc n)) = max 1 (suc n)

  abbrev pub or_else : Option ℕ → Option ℕ → ℕ → ℕ
  or_else (some n) v1 rest = n
  or_else none (some n) rest = n
  or_else none none rest = rest

  unfoldable pub detect_available_cpus : ℕ
  detect_available_cpus =
      or_else (quota_v2 h.cpu_max) (quota_v1 h.cfs_quota h.cfs_period)
        (from_affinity h.affinity h.cpu_count)

  unfoldable pub solver_pool_size : ℕ
  unfolding detect_available_cpus
  solver_pool_size = max 1 (detect_available_cpus - 1)

abbrev pub nats_connect_max_attempts : ℕ
nats_connect_max_attempts = 10

abbrev pub nats_connect_base_delay_seconds : ℕ
nats_connect_base_delay_seconds = 2

abbrev pub nats_connect_max_delay_seconds : ℕ
nats_connect_max_delay_seconds = 30

-- `2 ** n`
abbrev pub two_to : ℕ → ℕ
two_to zero = 1
two_to (suc n) = 2 * two_to n

abbrev pub connect_delay : ℕ → ℕ
connect_delay attempt =
    min (nats_connect_base_delay_seconds * two_to (attempt - 1)) nats_connect_max_delay_seconds

-- What a startup did: whether it connected or raised, how often it tried, and how long it slept
pub record Startup : Type 0 where
  pub connected : Bool
  pub attempts : ℕ
  pub delays : List ℕ

abbrev pub after_delay : ℕ → Startup → Startup
after_delay d s = record s { delays = d ∷ s.delays }

-- The loop from `attempt` on, with so many attempts left; `init_nats` tells which attempts succeed.
unfoldable pub connect_from : (ℕ → Bool) → ℕ → ℕ → Startup
connect_from init_nats zero attempt = record {
  connected = false;
  attempts = attempt - 1;
  delays = [];
}
connect_from init_nats (suc left) attempt =
    let rest = connect_from init_nats left (suc attempt) in
    if init_nats attempt
    then record { connected = true; attempts = attempt; delays = [] }
    else if attempt == nats_connect_max_attempts
    then record { connected = false; attempts = attempt; delays = [] }
    else after_delay (connect_delay attempt) rest

unfoldable pub connect_nats_with_retry : (ℕ → Bool) → Startup
unfolding connect_from
connect_nats_with_retry init_nats = connect_from init_nats nats_connect_max_attempts 1
