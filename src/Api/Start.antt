-- ===== src/Api/Start.antt =====
-- `start_generation` and `_mark_failed_to_queue`.
pub mod Recovery
pub mod Outcome
use allocation_key_generatio.Base.{
  ℕ, suc, ◌-◌, Bool, true, false, Option, none, some, List, [], ◌∷◌, ◌++◌, take, if◌then◌else◌,
}
use allocation_key_generatio.Base.Text.{Text, codes, decimal}
use allocation_key_generatio.Base.Num.{Num}
use allocation_key_generatio.Shared.Const.{Status, DataSource}
use allocation_key_generatio.Shared.ProblemSize.{too_large}
use allocation_key_generatio.Worker.World.{GenerationModel, set_row, without}
use allocation_key_generatio.Worker.Persistence.{Commit, commits, rolls_back, unacknowledged}
use allocation_key_generatio.Api.World.{
  generation_created, generation_queue_failed, ApiAudit, Database, ApiError, Answer, answered,
  refused, failed, Request, ◌>>=◌, ◌>>◌, answer, refuse, fail, modify, stage_audit,
}
use allocation_key_generatio.Api.Env.{
  Metadata, Upload, stored, not_stored, stored_unanswered, Publish, published, not_published,
  published_unanswered, Marking, RequestEnv,
}
use allocation_key_generatio.Api.Upload.{upload_max_body_bytes, read_within_cap}

pub record GenerateRequest : Type 0 where
  pub name : Text
  pub algorithm_name : Text
  pub inputs : Text
  pub injection_name : Text

-- `UploadFile`: its name and the chunks that reading returns
pub record UploadFile : Type 0 where
  pub filename : Option Text
  pub chunks : List (List ℕ)

-- `file.filename or "uploaded-file"`
abbrev pub upload_name : Option Text → Text
upload_name none = codes "uploaded-file"
upload_name (some []) = codes "uploaded-file"
upload_name (some (c ∷ s)) = c ∷ s

abbrev pub storage_key_of : ℕ → Text → Text → Text
storage_key_of community_id uuid file_name =
    codes "allocations/"
    ++ (decimal community_id ++ (codes "/" ++ (uuid ++ (codes "/" ++ file_name))))

abbrev pub fail_to_queue : Text → GenerationModel → GenerationModel
fail_to_queue reason row = record row {
  status = Status.failed;
  error_message = some (take 2000 (codes "failed_to_queue: " ++ reason));
}

abbrev pub new_row : GenerateRequest → ℕ → Metadata → Text → Text → Text → GenerationModel
new_row req community meta inputs file_name key = record {
  name = req.name;
  id_community = community;
  source = DataSource.file;
  file_storage_key = some key;
  file_name = some file_name;
  injection_name = some req.injection_name;
  id_sharing_operation = none;
  period_start = none;
  period_end = none;
  algorithm_name = meta.name;
  algorithm_version = meta.version;
  inputs = inputs;
  status = Status.pending;
  error_message = none;
  data_warnings = none;
}

abbrev pub oversize : Option (ℕ × ℕ) → Option Text
oversize none = none
oversize (some (columns, data_rows)) = too_large (columns - 1) data_rows

module _ {F : Num} where
  -- `create_generation` and the commit; the answer is the id of the row.
  abbrev pub insert_row : GenerationModel → Database F → Database F
  insert_row row w = record w {
    generations = set_row w.next_id row w.generations;
    next_id = suc w.next_id;
  }

  abbrev pub commit_row : Commit → GenerationModel → Request F ℕ
  commit_row commits row w = (answered w.next_id, insert_row row w)
  commit_row rolls_back row w = (failed, w)
  commit_row unacknowledged row w = (failed, insert_row row w)

  -- `_best_effort_delete`
  abbrev pub delete_object : Bool → Text → Database F → Database F
  delete_object deletes key w = if deletes then record w { objects = without key w.objects } else w

  abbrev pub commit_change : Commit → (Database F → Database F) → Request F (Unit {0})
  commit_change commits change = modify change
  commit_change rolls_back change = fail
  commit_change unacknowledged change = modify change >> fail

  -- The audit of a fresh CRM session, and its commit
  abbrev pub audit_fresh : Bool → Bool → ApiAudit → Request F (Unit {0})
  audit_fresh works true entry = fail
  audit_fresh true false entry = modify (λ w. record w { audits = w.audits ++ entry ∷ [] })
  audit_fresh false false entry = answer tt

  abbrev pub mark_row :
      Commit → Bool → Bool → ℕ → Text → Option GenerationModel → Request F (Unit {0})
  mark_row ending works raises id reason none = answer tt
  mark_row ending works raises id reason (some row) = do
    commit_change ending
        (λ w. record w { generations = set_row id (fail_to_queue reason row) w.generations })
    audit_fresh works raises (record { action = generation_queue_failed; entity_id = id })

  abbrev pub mark_read : Bool → Request F (Unit {0}) → Request F (Unit {0})
  mark_read true marked = fail
  mark_read false marked = marked

  -- `_mark_failed_to_queue`
  abbrev pub mark_failed_to_queue : Marking → ℕ → Text → Request F (Unit {0})
  mark_failed_to_queue marking id reason w =
      mark_read marking.read_raises
        (mark_row marking.commit marking.audit_works marking.audit_commit_raises id reason
          (w.generations id))
        w

  -- `send_event`: whether it raises, and what the broker has then
  abbrev pub add_event : Text → ℕ → Database F → Database F
  add_event queue id w = record w { events = w.events ++ (queue, id) ∷ [] }

module _ {F : Num} (env : RequestEnv) where
  -- Step 6 when `send_event` raises
  unfoldable pub not_queued : Text → ℕ → Request F ℕ
  not_queued key id = do
    mark_failed_to_queue env.marking id env.publish_error
    modify (delete_object env.deletes key)
    refuse ApiError.start_generation 500

  abbrev pub queue_step : Publish → Text → Text → ℕ → Request F ℕ
  queue_step published queue key id = modify (add_event queue id) >> answer id
  queue_step not_published queue key id = not_queued key id
  queue_step published_unanswered queue key id = modify (add_event queue id) >> not_queued key id

  -- The end of step 5: after the commit, or after its exception
  abbrev pub after_commit : Text → Text → Answer ℕ → Request F ℕ
  after_commit queue key (answered id) = do
    stage_audit env.audit_works (record { action = generation_created; entity_id = id })
    queue_step env.publish queue key id
  after_commit queue key (refused e c) = modify (delete_object env.deletes key) >> refuse e c
  after_commit queue key failed = modify (delete_object env.deletes key) >> fail

  -- Step 5
  unfoldable pub persist_step : Text → Text → GenerationModel → Request F ℕ
  unfolding not_queued
  persist_step queue key row w =
      let (r, w') = commit_row env.commit row w in after_commit queue key r w'

  abbrev pub store : Text → Database F → Database F
  store key w = record w { objects = w.objects ++ key ∷ [] }

  -- Step 4
  abbrev pub upload_step : Upload → Text → Text → GenerationModel → Request F ℕ
  upload_step stored queue key row = modify (store key) >> persist_step queue key row
  upload_step not_stored queue key row = refuse ApiError.storage_upload_failed 502
  upload_step stored_unanswered queue key row =
      modify (store key) >> refuse ApiError.storage_upload_failed 502

  -- Step 3b, after the count
  abbrev pub sized_step : Option Text → Text → Text → GenerationModel → Request F ℕ
  sized_step (some detail) queue key row = refuse ApiError.problem_too_large 422
  sized_step none queue key row = upload_step env.upload queue key row

  -- Step 3: the body
  abbrev pub body_step :
      Option (List ℕ) → GenerateRequest → ℕ → Metadata → Text → Text → Request F ℕ
  body_step none req community meta inputs file_name = refuse ApiError.file_too_large 413
  body_step (some []) req community meta inputs file_name = refuse ApiError.invalid_file 422
  body_step (some (b ∷ bs)) req community meta inputs file_name =
      let key = storage_key_of community env.uuid file_name in
      sized_step (oversize (env.measure (b ∷ bs) file_name)) meta.queue key
        (new_row req community meta inputs file_name key)

  -- Step 2
  abbrev pub inputs_step : Option Text → GenerateRequest → UploadFile → ℕ → Metadata → Request F ℕ
  inputs_step none req file community meta = refuse ApiError.invalid_algorithm_inputs 422
  inputs_step (some inputs) req file community meta =
      body_step (read_within_cap file.chunks upload_max_body_bytes) req community meta inputs
        (upload_name file.filename)

  -- Step 1
  abbrev pub algorithm_step : Option Metadata → GenerateRequest → UploadFile → ℕ → Request F ℕ
  algorithm_step none req file community = refuse ApiError.algorithm_not_found 404
  algorithm_step (some meta) req file community =
      inputs_step (env.validate meta.name req.inputs) req file community meta

  -- `start_generation`; the answer is the id of a PENDING generation.
  unfoldable pub start_generation : GenerateRequest → UploadFile → ℕ → Request F ℕ
  unfolding persist_step
  start_generation req file community =
      algorithm_step (env.metadata req.algorithm_name) req file community
