-- ===== src/Api/FromCrm.antt =====
-- `preview_crm_data` and `start_generation_from_crm`.
pub mod Marked
pub mod Verdict
use allocation_key_generatio.Base.{
  ℕ, Bool, true, false, Option, none, some, List, [], ◌∷◌, ◌++◌, keep, ltb, if◌then◌else◌,
}
use allocation_key_generatio.Base.Text.{Text}
use allocation_key_generatio.Base.Num.{Num}
use allocation_key_generatio.Shared.Const.{Status, DataSource}
use allocation_key_generatio.Crm.Repository.{MeterConsumption, in_period, summarize}
use allocation_key_generatio.Crm.Preflight.{Blocker, Preflight, evaluate}
use allocation_key_generatio.Worker.World.{GenerationModel}
use allocation_key_generatio.Worker.Persistence.{Commit}
use allocation_key_generatio.Api.World.{
  generation_created, Database, ApiError, Answer, answered, refused, failed, Request, ◌>>=◌, ◌>>◌,
  answer, refuse, fail, modify, stage_audit,
}
use allocation_key_generatio.Api.Env.{
  Metadata, Publish, published, not_published, published_unanswered, RequestEnv,
}
use allocation_key_generatio.Api.Start.{commit_row, mark_failed_to_queue, add_event}

pub record GenerateFromCrmRequest : Type 0 where
  pub name : Text
  pub algorithm_name : Text
  pub inputs : Text
  pub id_sharing_operation : ℕ
  pub period_start : ℕ
  pub period_end : ℕ

-- The CRM database, as the request reads it
pub record CrmReads (F : Num) : Type 0 where
  pub sharing_operation_exists : (id_community id_sharing_operation : ℕ) → Bool
  pub meter_consumption : List (MeterConsumption F)
  pub midnight : ℕ → ℕ

abbrev pub crm_row : GenerateFromCrmRequest → ℕ → Metadata → Text → Preflight → GenerationModel
crm_row req community meta inputs preflight = record {
  name = req.name;
  id_community = community;
  source = DataSource.crm;
  file_storage_key = none;
  file_name = none;
  injection_name = none;
  id_sharing_operation = some req.id_sharing_operation;
  period_start = some req.period_start;
  period_end = some req.period_end;
  algorithm_name = meta.name;
  algorithm_version = meta.version;
  inputs = inputs;
  status = Status.pending;
  error_message = none;
  data_warnings = preflight.warnings;
}

module _ {F : Num} (env : RequestEnv) (crm : CrmReads F) where
  -- The verdict on a period
  abbrev pub verdict : ℕ → ℕ → ℕ → ℕ → Preflight
  verdict op first last community =
      evaluate F (
        summarize F (keep (in_period F crm.midnight community op first last) crm.meter_consumption))

  unfoldable pub preview_crm_data : ℕ → ℕ → ℕ → ℕ → Request F Preflight
  unfolding evaluate summarize
  preview_crm_data op first last community =
      if ltb last first
      then refuse ApiError.invalid_period 422
      else if crm.sharing_operation_exists community op
      then answer (verdict op first last community)
      else refuse ApiError.sharing_operation_not_found 404

  abbrev pub crm_not_queued : ℕ → Request F ℕ
  crm_not_queued id = do
    mark_failed_to_queue env.marking id env.publish_error
    refuse ApiError.start_generation 500

  abbrev pub crm_queue_step : Publish → Text → ℕ → Request F ℕ
  crm_queue_step published queue id = modify (add_event queue id) >> answer id
  crm_queue_step not_published queue id = crm_not_queued id
  crm_queue_step published_unanswered queue id = modify (add_event queue id) >> crm_not_queued id

  abbrev pub crm_persist_step : Commit → Text → GenerationModel → Request F ℕ
  crm_persist_step ending queue row = do
    id ← commit_row ending row
    stage_audit env.audit_works (record { action = generation_created; entity_id = id })
    crm_queue_step env.publish queue id

  abbrev pub crm_gate :
      List Blocker → GenerateFromCrmRequest → ℕ → Metadata → Text → Preflight → Request F ℕ
  crm_gate (first ∷ others) req community meta inputs preflight =
      refuse (ApiError.crm_refused first.error) 422
  crm_gate [] req community meta inputs preflight =
      crm_persist_step env.commit meta.queue (crm_row req community meta inputs preflight)

  abbrev pub crm_inputs_step : Option Text → GenerateFromCrmRequest → ℕ → Metadata → Request F ℕ
  crm_inputs_step none req community meta = refuse ApiError.invalid_algorithm_inputs 422
  crm_inputs_step (some inputs) req community meta = do
    preflight ← preview_crm_data req.id_sharing_operation req.period_start req.period_end community
    crm_gate preflight.blockers req community meta inputs preflight

  abbrev pub crm_algorithm_step : Option Metadata → GenerateFromCrmRequest → ℕ → Request F ℕ
  crm_algorithm_step none req community = refuse ApiError.algorithm_not_found 404
  crm_algorithm_step (some meta) req community =
      crm_inputs_step (env.validate meta.name req.inputs) req community meta

  -- `start_generation_from_crm`; the answer is the id of a PENDING generation.
  unfoldable pub start_generation_from_crm : GenerateFromCrmRequest → ℕ → Request F ℕ
  unfolding preview_crm_data
  start_generation_from_crm req community =
      crm_algorithm_step (env.metadata req.algorithm_name) req community
