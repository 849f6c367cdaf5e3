-- ===== src/Api/Keys.antt =====
-- `save_key`, `delete_generation` and `delete_key`, and the mappers to the CRM's rows.
pub mod Scope
pub mod Saved
use allocation_key_generatio.Base.{
  ℕ, ◌≡◌, refl, ap, Bool, true, false, Option, none, some, List, [], ◌∷◌, ◌++◌, map, if◌then◌else◌,
  ◌==◌,
}
use allocation_key_generatio.Base.Text.{Text}
use allocation_key_generatio.Base.Num.{Num}
use allocation_key_generatio.Worker.World.{
  GenerationModel, ConsumerGeneratedModel, IterationGeneratedModel, AllocationKeyGeneratedModel,
}
use allocation_key_generatio.Worker.Persistence.{Commit, commits, rolls_back, unacknowledged}
use allocation_key_generatio.Api.World.{
  allocation_key_saved, generation_deleted, allocation_key_generated_deleted, ConsumerModel,
  IterationModel, AllocationKeyModel, Database, ApiError, Answer, answered, refused, failed,
  Request, ◌>>=◌, ◌>>◌, answer, refuse, fail, modify, stage_audit, commit_crm, served,
}
use allocation_key_generatio.Api.Start.{commit_change}

abbrev pub scoped_generation : ℕ → Option GenerationModel → Option GenerationModel
scoped_generation community none = none
scoped_generation community (some g) = if g.id_community == community then some g else none

abbrev pub remove {ℓ} : {A : Type ℓ} → ℕ → (ℕ → Option A) → ℕ → Option A
remove id rows k = if k == id then none else rows k

module _ {F : Num} where
  abbrev pub to_consumer_crm : ConsumerGeneratedModel F → ConsumerModel F
  to_consumer_crm c = record {
    name = c.name;
    energy_allocated_percentage = c.energy_allocated_percentage;
    id_community = c.id_community;
  }

  abbrev pub to_iteration_crm : IterationGeneratedModel F → IterationModel F
  to_iteration_crm it = record {
    number = it.number;
    energy_allocated_percentage = it.energy_allocated_percentage;
    id_community = it.id_community;
    consumers = map to_consumer_crm it.consumers;
  }

  abbrev pub to_allocation_key_crm : AllocationKeyGeneratedModel F → AllocationKeyModel F
  to_allocation_key_crm key = record {
    name = key.name;
    description = key.description;
    id_community = key.id_community;
    iterations = map to_iteration_crm key.iterations;
  }

  -- `get_allocation_key` and `get_generation`, within the community of the request
  abbrev pub scoped_key :
      ℕ → Option (AllocationKeyGeneratedModel F) → Option (AllocationKeyGeneratedModel F)
  scoped_key community none = none
  scoped_key community (some key) = if key.id_community == community then some key else none

  abbrev pub stage_key : AllocationKeyModel F → Database F → Database F
  stage_key key w = record w { staged_keys = w.staged_keys ++ key ∷ [] }

  abbrev pub save_found :
      Commit → Bool → ℕ → Option (AllocationKeyGeneratedModel F) → Request F (Unit {0})
  save_found ending audit_works id_key none = refuse ApiError.allocation_key_not_found 400
  save_found ending audit_works id_key (some key) = do
    commit_change ending (λ w. commit_crm (stage_key (to_allocation_key_crm key) w))
    stage_audit audit_works (record { action = allocation_key_saved; entity_id = id_key })

  -- `save_key`. The audit entry carries the local id, which the code has in its payload.
  unfoldable pub save_key : Commit → Bool → ℕ → ℕ → Request F (Unit {0})
  save_key ending audit_works community id_key w =
      save_found ending audit_works id_key (scoped_key community (w.keys id_key)) w

  -- The cascade of `delete_generation` on its keys
  abbrev pub drop_key_of :
      ℕ → Option (AllocationKeyGeneratedModel F) → Option (AllocationKeyGeneratedModel F)
  drop_key_of id none = none
  drop_key_of id (some key) = if key.id_generation == id then none else some key

  abbrev pub delete_found : Commit → Bool → ℕ → Option GenerationModel → Request F (Unit {0})
  delete_found ending audit_works id none = refuse ApiError.generation_not_found 400
  delete_found ending audit_works id (some g) = do
    commit_change ending (λ w. record w {
      generations = remove id w.generations;
      keys = λ k. drop_key_of id (w.keys k);
    })
    stage_audit audit_works (record { action = generation_deleted; entity_id = id })

  unfoldable pub delete_generation : Commit → Bool → ℕ → ℕ → Request F (Unit {0})
  delete_generation ending audit_works community id w =
      delete_found ending audit_works id (scoped_generation community (w.generations id)) w

  abbrev pub delete_key_found :
      Commit → Bool → ℕ → Option (AllocationKeyGeneratedModel F) → Request F (Unit {0})
  delete_key_found ending audit_works id_key none = refuse ApiError.allocation_key_not_found 400
  delete_key_found ending audit_works id_key (some key) = do
    commit_change ending (λ w. record w { keys = remove id_key w.keys })
    stage_audit audit_works
        (record { action = allocation_key_generated_deleted; entity_id = id_key })

  unfoldable pub delete_key : Commit → Bool → ℕ → ℕ → Request F (Unit {0})
  delete_key ending audit_works community id_key w =
      delete_key_found ending audit_works id_key (scoped_key community (w.keys id_key)) w
