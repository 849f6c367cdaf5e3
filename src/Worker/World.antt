-- ===== src/Worker/World.antt =====
-- The world that a worker acts on: the generation table, the result tree, the object store, the
-- audit log, the realtime channel, the metrics and the replies to the broker; and the actions of
-- a coroutine, which may raise.
use allocation_key_generatio.Base.{
  ℕ, Option, some, List, [], ◌∷◌, ◌++◌, not, ◌==◌, if◌then◌else◌, keep,
}
use allocation_key_generatio.Base.Text.{Text, text_eq}
use allocation_key_generatio.Base.Num.{Num}
use allocation_key_generatio.Shared.Const.{Status, DataSource}
use allocation_key_generatio.Crm.Preflight.{IncompleteMeter}

-- A row of `generation`. Dates are day numbers, and `inputs` is the stored JSON text.
pub record GenerationModel : Type 0 where
  pub name : Text
  pub id_community : ℕ
  pub source : DataSource
  pub file_storage_key : Option Text
  pub file_name : Option Text
  pub injection_name : Option Text
  pub id_sharing_operation : Option ℕ
  pub period_start : Option ℕ
  pub period_end : Option ℕ
  pub algorithm_name : Text
  pub algorithm_version : Text
  pub inputs : Text
  pub status : Status
  pub error_message : Option Text
  pub data_warnings : Option (List IncompleteMeter)

pub record ConsumerGeneratedModel (F : Num) : Type 0 where
  pub name : Text
  pub energy_allocated_percentage : F.Real
  pub id_community : ℕ

pub record IterationGeneratedModel (F : Num) : Type 0 where
  pub number : ℕ
  pub energy_allocated_percentage : F.Real
  pub surplus_total : F.Real
  pub id_community : ℕ
  pub consumers : List (ConsumerGeneratedModel F)

pub record AllocationKeyGeneratedModel (F : Num) : Type 0 where
  pub name : Text
  pub description : Text
  pub surplus_total : F.Real
  pub id_generation : ℕ
  pub id_community : ℕ
  pub iterations : List (IterationGeneratedModel F)

-- `AuditActions` of the worker
pub data AuditAction : Type 0 where
  generation_succeeded generation_failed : AuditAction

-- The payload is the number of keys, or the error message.
pub data AuditPayload : Type 0 where
  key_count : ℕ → AuditPayload
  error_text : Text → AuditPayload

pub record AuditLogInput : Type 0 where
  pub action : AuditAction
  pub entity_id : ℕ
  pub algorithm_name : Text
  pub payload : AuditPayload
  pub id_community : ℕ

-- The hint `generation.finished` to the managers of a community
pub record Emitted : Type 0 where
  pub community_id : ℕ
  pub resource : ℕ
  pub hint : Text

pub data Reply : Type 0 where
  ack : Reply
  nak : (delay : ℕ) → Reply

pub data Metric : Type 0 where
  generations_completed : (algorithm status : Text) → Metric
  generation_duration : (algorithm status : Text) → Metric
  worker_messages : (algorithm outcome : Text) → Metric

pub record World (F : Num) : Type 0 where
  pub generations : ℕ → Option GenerationModel
  pub keys : List (AllocationKeyGeneratedModel F)
  pub objects : List Text
  pub audits : List AuditLogInput
  pub emitted : List Emitted
  pub metrics : List Metric
  pub replies : List Reply

-- How a coroutine ends: it returns, raises `_TransientError`, or raises another exception.
pub data Outcome (A : Type 0) : Type 0 where
  done : A → Outcome A
  transient : Text → Outcome A
  raised : Text → Outcome A

-- What was written stays written when an exception is raised.
abbrev pub Action : Num → Type 0 → Type 0
Action F A = World F → Outcome A × World F

infixl 5 ◌>>=◌ ◌>>◌
abbrev pub ◌>>=◌ : {F : Num} {A B : Type 0} → Action F A → (A → Action F B) → Action F B
◌>>=◌ m f w =
    let (r, w') = m w in
    elim r [ done a ↦ f a w' | transient e ↦ (transient e, w') | raised e ↦ (raised e, w') ]

abbrev pub ◌>>◌ : {F : Num} {A B : Type 0} → Action F A → Action F B → Action F B
m >> k = m >>= λ _. k

module _ {F : Num} where
  abbrev pub pure : {A : Type 0} → A → Action F A
  pure a w = (done a, w)

  abbrev pub raise_transient : {A : Type 0} → Text → Action F A
  raise_transient e w = (transient e, w)

  abbrev pub raise_error : {A : Type 0} → Text → Action F A
  raise_error e w = (raised e, w)

  abbrev pub modify : (World F → World F) → Action F (Unit {0})
  modify f w = (done tt, f w)

  abbrev pub gets : {A : Type 0} → (World F → A) → Action F A
  gets f w = (done (f w), w)

  abbrev pub count : Metric → Action F (Unit {0})
  count m = modify (λ w. record w { metrics = w.metrics ++ m ∷ [] })

  abbrev pub reply : Reply → Action F (Unit {0})
  reply r = modify (λ w. record w { replies = w.replies ++ r ∷ [] })

-- Writes one row of the table.
abbrev pub set_row {ℓ} : {A : Type ℓ} → ℕ → A → (ℕ → Option A) → ℕ → Option A
set_row id r rows k = if k == id then some r else rows k

-- `storage.delete`: missing keys are ignored.
abbrev pub without : Text → List Text → List Text
without key = keep (λ k. not (text_eq k key))
