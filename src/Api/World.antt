-- ===== src/Api/World.antt =====
-- What the requests of api/generation act on: the local database, the CRM session of the request
-- and what of it is committed, the object store and the queues.
use allocation_key_generatio.Base.{ℕ, Bool, Option, List, [], ◌∷◌, ◌++◌, if◌then◌else◌}
use allocation_key_generatio.Base.Text.{Text}
use allocation_key_generatio.Base.Num.{Num}
use allocation_key_generatio.Crm.Preflight.{Error}
use allocation_key_generatio.Worker.World.{GenerationModel, AllocationKeyGeneratedModel}

-- `AuditActions` of the API
pub data ApiAction : Type 0 where
  generation_created generation_queue_failed generation_deleted : ApiAction
  allocation_key_saved allocation_key_generated_deleted : ApiAction

pub record ApiAudit : Type 0 where
  pub action : ApiAction
  pub entity_id : ℕ

-- The rows of the CRM database for a saved key
pub record ConsumerModel (F : Num) : Type 0 where
  pub name : Text
  pub energy_allocated_percentage : F.Real
  pub id_community : ℕ

pub record IterationModel (F : Num) : Type 0 where
  pub number : ℕ
  pub energy_allocated_percentage : F.Real
  pub id_community : ℕ
  pub consumers : List (ConsumerModel F)

pub record AllocationKeyModel (F : Num) : Type 0 where
  pub name : Text
  pub description : Text
  pub id_community : ℕ
  pub iterations : List (IterationModel F)

pub record Database (F : Num) : Type 0 where
  pub generations : ℕ → Option GenerationModel
  -- the id of the next generation
  pub next_id : ℕ
  pub keys : ℕ → Option (AllocationKeyGeneratedModel F)
  -- the CRM session of the request, which is rolled back when the request ends
  pub staged_audits : List ApiAudit
  pub staged_keys : List (AllocationKeyModel F)
  -- the committed rows of the CRM database
  pub audits : List ApiAudit
  pub crm_keys : List (AllocationKeyModel F)
  pub objects : List Text
  -- the events that the broker has: queue and `generation_id`
  pub events : List (Text × ℕ)

-- The errors of `errors.generation` that the service raises
pub data ApiError : Type 0 where
  algorithm_not_found invalid_algorithm_inputs file_too_large invalid_file : ApiError
  problem_too_large storage_upload_failed start_generation : ApiError
  invalid_period sharing_operation_not_found : ApiError
  allocation_key_not_found generation_not_found : ApiError
  crm_refused : Error → ApiError

-- How a request ends: with a value, an `ErrorException`, or another exception.
pub data Answer (A : Type 0) : Type 0 where
  answered : A → Answer A
  refused : ApiError → (status_code : ℕ) → Answer A
  failed : Answer A

abbrev pub Request : Num → Type 0 → Type 0
Request F A = Database F → Answer A × Database F

infixl 5 ◌>>=◌ ◌>>◌
abbrev pub ◌>>=◌ : {F : Num} {A B : Type 0} → Request F A → (A → Request F B) → Request F B
◌>>=◌ m f w =
    let (r, w') = m w in
    elim r [ answered a ↦ f a w' | refused e c ↦ (refused e c, w') | failed ↦ (failed, w') ]

abbrev pub ◌>>◌ : {F : Num} {A B : Type 0} → Request F A → Request F B → Request F B
m >> k = m >>= λ _. k

module _ {F : Num} where
  abbrev pub answer : {A : Type 0} → A → Request F A
  answer a w = (answered a, w)

  abbrev pub refuse : {A : Type 0} → ApiError → ℕ → Request F A
  refuse e c w = (refused e c, w)

  abbrev pub fail : {A : Type 0} → Request F A
  fail w = (failed, w)

  abbrev pub modify : (Database F → Database F) → Request F (Unit {0})
  modify f w = (answered tt, f w)

  -- `audit_log_service.log` on the session of the request: stages a row, or swallows its error.
  abbrev pub stage_audit : Bool → ApiAudit → Request F (Unit {0})
  stage_audit works entry =
      modify (λ w. if works then record w { staged_audits = w.staged_audits ++ entry ∷ [] } else w)

  -- `crm_session.commit()`
  abbrev pub commit_crm : Database F → Database F
  commit_crm w = record w {
    audits = w.audits ++ w.staged_audits;
    crm_keys = w.crm_keys ++ w.staged_keys;
    staged_audits = [];
    staged_keys = [];
  }

  -- The end of `get_crm_session`, which closes the session without a commit.
  abbrev pub close_crm : Database F → Database F
  close_crm w = record w { staged_audits = []; staged_keys = [] }

  -- A whole request: the handler, then the end of its session.
  abbrev pub served : {A : Type 0} → Request F A → Request F A
  served handler w = let (r, w') = handler w in (r, close_crm w')
