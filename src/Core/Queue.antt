-- ===== src/Core/Queue.antt =====
-- core/queue/helper.py: the settings of a durable consumer. A configuration gives a value to every
-- field; the broker is its stored configuration of the durable, if it has one, and the number of
-- writes to it.
use allocation_key_generatio.Base.Text.{Text, codes, text_eq}
use allocation_key_generatio.Base.{
  Bool, List, Option, [], false, keep, none, not, some, suc, ℕ, ◌||◌, ◌∷◌, if◌then◌else◌,
}
pub mod Reconciled

-- `_RECONCILED_CONSUMER_FIELDS`
abbrev pub reconciled_consumer_fields : List Text
reconciled_consumer_fields =
    codes "ack_wait" ∷ codes "max_deliver" ∷ codes "max_ack_pending" ∷ codes "backoff" ∷ []

abbrev pub member : Text → List Text → Bool
member name [] = false
member name (x ∷ xs) = text_eq x name || member name xs

-- nats-py's `ConsumerConfig`: the names of its fields, its default values, and `==` of values
pub record ConfigClass : Type 1 where
  pub Value : Type 0
  pub fields : List Text
  pub defaults : Text → Value
  pub equal : Value → Value → Bool

-- How `add_consumer` ends: the broker stores the configuration, refuses it (APIError), or another
-- exception, such as a timeout, ends the call before or after the broker has stored it.
pub data Update : Type 0 where
  stored refused lost stored_unanswered : Update

-- What the broker does in a call
pub record Weather : Type 0 where
  -- `consumer_info` raises something else than NotFoundError.
  pub info_raises : Bool
  pub update : Update

pub data Ended : Type 0 where
  done value_error runtime_error raised : Ended

module _ (K : ConfigClass) where
  abbrev pub ConsumerConfig : Type 0
  ConsumerConfig = Text → K.Value

  pub record Broker : Type 0 where
    pub durable : Option ConsumerConfig
    pub writes : ℕ

  abbrev pub is_declared : ConsumerConfig → Text → Bool
  is_declared config name = not (K.equal (config name) (K.defaults name))

  -- The names of `_declared_consumer_fields` before its check
  unfoldable pub declared_names : ConsumerConfig → List Text
  declared_names config = keep (is_declared config) K.fields

  unfoldable pub unsupported : ConsumerConfig → List Text
  unfolding declared_names
  unsupported config =
      keep (λ name. not (member name reconciled_consumer_fields)) (declared_names config)

  -- The names of `drift`
  unfoldable pub drift : ConsumerConfig → ConsumerConfig → List Text
  unfolding declared_names
  drift config current =
      keep (λ name. not (K.equal (current name) (config name))) (declared_names config)

  -- `current.evolve(**drift)`
  abbrev pub evolve : ConsumerConfig → ConsumerConfig → List Text → ConsumerConfig
  evolve config current names name = if member name names then config name else current name

  abbrev pub add_consumer : Update → ConsumerConfig → Broker → Ended × Broker
  add_consumer stored config b = (done, record { durable = some config; writes = suc b.writes })
  add_consumer refused config b = (runtime_error, b)
  add_consumer lost config b = (raised, b)
  add_consumer stored_unanswered config b =
      (raised, record { durable = some config; writes = suc b.writes })

  abbrev pub write_drift :
      Weather → ConsumerConfig → ConsumerConfig → Broker → List Text → Ended × Broker
  write_drift w config current b [] = (done, b)
  write_drift w config current b (name ∷ names) =
      add_consumer w.update (evolve config current (name ∷ names)) b

  unfoldable pub reconcile :
      Weather → ConsumerConfig → Broker → Option ConsumerConfig → Ended × Broker
  unfolding drift
  reconcile w config b none = (done, b)
  reconcile w config b (some current) = write_drift w config current b (drift config current)

  abbrev pub checked_reconcile : Weather → ConsumerConfig → Broker → List Text → Ended × Broker
  unfolding reconcile
  checked_reconcile w config b [] =
      if w.info_raises then (raised, b) else reconcile w config b b.durable
  checked_reconcile w config b (name ∷ names) = (value_error, b)

  unfoldable pub ensure_consumer_config : Weather → ConsumerConfig → Broker → Ended × Broker
  unfolding unsupported checked_reconcile
  ensure_consumer_config w config b = checked_reconcile w config b (unsupported config)
