-- ===== src/Examples/CoreRuns.antt =====
-- Runs of the registry, the consumer settings, the request gate and the worker's startup.
use allocation_key_generatio.Worker.Startup.Connected.{Retried, connect_nats_with_retry-Retried}
use allocation_key_generatio.Core.RequestLimits.{
  Downstream, forwarded, payload_too_large, responded, Request, dispatch, max_body_for,
}
use allocation_key_generatio.Core.Queue.Reconciled.{Reconciles, ensure_consumer_config-Reconciles}
use allocation_key_generatio.Base.Text.{number, Parsed, Text, codes, text_eq}
use allocation_key_generatio.Worker.Startup.Processes.{Limited, solver_pool_size-Bounded}
use allocation_key_generatio.Algorithms.Registry.Refinement.{
  of_implementation, of_metadata, IsValid, Registration, answers, apply_all, apply_all-IsValid,
  record_all,
}
use allocation_key_generatio.Worker.Startup.{Host, connect_nats_with_retry, solver_pool_size}
use allocation_key_generatio.Core.RequestLimits.Gate.{Declares, dispatch-Gate}
use allocation_key_generatio.Algorithms.Registry.{AlgorithmRegistry, metadata, new_registry}
use allocation_key_generatio.Base.{
  ==_iff, Bool, List, [], arith, false, length, none, refl, some, ℕ, ◌*◌, ◌+◌, ◌<◌, ◌==◌, ◌↔◌, ◌∷◌,
  ◌≡◌, ◌≢◌, ◌≤◌, ◌⊎◌, if◌then◌else◌,
}
use allocation_key_generatio.Core.Queue.{
  stored, Broker, ensure_consumer_config, Weather, ConfigClass,
}

-- Metadata is a name and a version; an implementation is its metadata and a number.
abbrev Meta : Type 0
Meta = Text × ℕ

abbrev Impl : Type 0
Impl = Meta × ℕ

abbrev name_of : Meta → Text
name_of m = m.0

abbrev metadata_of : Impl → Meta
metadata_of i = i.0

abbrev registrations : List (Registration Meta Impl)
registrations =
    of_metadata (codes "olagsa", 1)
    ∷ of_implementation ((codes "olagsa", 2), 10)
    ∷ of_metadata (codes "olagsa", 3)
    ∷ of_implementation ((codes "brute_force", 1), 20)
    ∷ []

abbrev filled : AlgorithmRegistry Meta Impl
unfolding apply_all
filled = apply_all name_of metadata_of registrations (new_registry name_of metadata_of)

filled_test : metadata name_of metadata_of filled (codes "olagsa") ≡ some (codes "olagsa", 1)
unfolding filled metadata text_eq
filled_test = refl

apply_all-IsValid_example :
    IsValid name_of metadata_of
      (apply_all name_of metadata_of registrations (new_registry name_of metadata_of))
    × (answers name_of metadata_of
          (apply_all name_of metadata_of registrations (new_registry name_of metadata_of))
        ≡ record_all name_of metadata_of registrations
            (record { metadata_at = λ n. none; implementation_at = λ n. none }))
apply_all-IsValid_example = apply_all-IsValid name_of metadata_of registrations

-- Fields are numbers; 0 stands for a field that is not set.
abbrev numbers : ConfigClass
numbers = record {
  Value = ℕ;
  fields = codes "durable_name" ∷ codes "ack_wait" ∷ codes "max_deliver" ∷ [];
  defaults = λ name. 0;
  equal = ◌==◌;
}

abbrev wanted : Text → ℕ
wanted name = if text_eq name (codes "ack_wait") then 600 else 0

abbrev at_broker : Text → ℕ
at_broker name = if text_eq name (codes "max_deliver") then 5 else 30

abbrev broker : Broker numbers
broker = record { durable = some at_broker; writes = 0 }

abbrev fair : Weather
fair = record { info_raises = false; update = stored }

ensure_test : (ensure_consumer_config numbers fair wanted broker).1.writes ≡ 1
unfolding ensure_consumer_config text_eq
ensure_test = refl

ensure_consumer_config-Reconciles_example :
    Reconciles numbers ==_iff wanted broker
      (some at_broker)
      (ensure_consumer_config numbers fair wanted broker)
ensure_consumer_config-Reconciles_example =
    ensure_consumer_config-Reconciles numbers ==_iff fair wanted broker

abbrev parse_int : Text → Parsed
parse_int text = number (length text)

abbrev upload : Request
upload = record {
  request_method = codes "POST";
  path = codes "/";
  content_length = some (codes "123");
}

-- An application that counts its requests
abbrev answer : Request → ℕ → Downstream ℕ × ℕ
answer r seen = (responded 200, seen + 1)

dispatch-Gate_example :
    ((dispatch (λ t. t) parse_int answer upload 7).0 ≡ payload_too_large
      ↔ Declares (λ t. t) parse_int (λ n. max_body_for (λ t. t) parse_int upload < n) upload)
    × (Declares (λ t. t) parse_int (λ n. max_body_for (λ t. t) parse_int upload < n) upload
        → dispatch (λ t. t) parse_int answer upload 7 ≡ (payload_too_large, 7))
    × (¬ Declares (λ t. t) parse_int (λ n. max_body_for (λ t. t) parse_int upload < n) upload
        → dispatch (λ t. t) parse_int answer upload 7 ≡ (forwarded 200, 8))
    × (codes "POST" ≡ codes "POST"
        → codes "/" ≡ codes "/"
        → max_body_for (λ t. t) parse_int upload ≡ 52428800)
    × ((codes "POST" ≢ codes "POST") ⊎ (codes "/" ≢ codes "/")
        → max_body_for (λ t. t) parse_int upload ≡ 2097152)
dispatch-Gate_example = dispatch-Gate (λ t. t) parse_int answer upload 7

abbrev quota_of_three : Host
quota_of_three = record {
  cpu_max = some (codes "300" ∷ codes "1" ∷ []);
  cfs_quota = none;
  cfs_period = none;
  affinity = none;
  cpu_count = some 16;
  parse_int = parse_int;
}

solver_pool_size-Bounded_example :
    (1 ≤ solver_pool_size quota_of_three)
    × ((quota period : ℕ)
        → Limited quota_of_three quota period
        → (2 * period ≤ quota → (solver_pool_size quota_of_three + 1) * period ≤ quota)
          × (quota < 2 * period → solver_pool_size quota_of_three ≡ 1))
solver_pool_size-Bounded_example = solver_pool_size-Bounded quota_of_three

quota_of_three-Limited : Limited quota_of_three 3 1
unfolding text_eq
quota_of_three-Limited = record {
  quota_text = codes "300";
  period_text = codes "1";
  file = refl;
  is_limit = refl;
  quota_number = refl;
  period_number = refl;
  quota_positive = omega arith;
  period_positive = omega arith;
}

abbrev third_time : ℕ → Bool
third_time attempt = attempt == 3

connect_nats_with_retry-Retried_example :
    Retried third_time 10 1 (connect_nats_with_retry third_time)
connect_nats_with_retry-Retried_example = connect_nats_with_retry-Retried third_time
