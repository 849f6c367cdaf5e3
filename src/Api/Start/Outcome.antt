-- ===== src/Api/Start/Outcome.antt =====
-- How `start_generation` ends: a generation that a worker will find whole, or nothing left behind.
use allocation_key_generatio.Base.{
  ℕ, ◌≡◌, ◌≢◌, refl, sym, ap, ◌∙◌, ◌⊎◌, inl, inr, Bool, true, false, Option, none, some, List, [],
  ◌∷◌, ◌++◌, if◌then◌else◌,
}
use allocation_key_generatio.Base.Text.{Text}
use allocation_key_generatio.Base.Num.{Num}
use allocation_key_generatio.Shared.Const.{is_pending}
use allocation_key_generatio.Worker.World.{GenerationModel, without}
use allocation_key_generatio.Worker.Persistence.{Commit, commits, rolls_back, unacknowledged}
use allocation_key_generatio.Api.World.{ApiAudit, generation_created, Database, Request}
use allocation_key_generatio.Api.Env.{
  Metadata, Upload, stored, not_stored, stored_unanswered, Publish, published, not_published,
  published_unanswered, RequestEnv,
}
use allocation_key_generatio.Api.Upload.{read_within_cap, upload_max_body_bytes}
use allocation_key_generatio.Api.Start.{
  GenerateRequest, UploadFile, upload_name, storage_key_of, new_row, oversize, insert_row,
  commit_row, delete_object, queue_step, after_commit, persist_step, store, upload_step, sized_step,
  body_step, inputs_step, algorithm_step, start_generation, add_event,
}
use allocation_key_generatio.Api.Start.Recovery.{
  ObjectTrouble, Ended, Undone-refl, set_row_self, set_row_other, without_fresh, Placed,
  not_queued-Ended,
}

-- The queue of the algorithm that a request names
abbrev pub queue_of : Option Metadata → Text
queue_of none = []
queue_of (some meta) = meta.queue

module _ {F : Num} (env : RequestEnv) where
  queue_step-Ended :
      (publish : Publish) (queue key : Text) (row : GenerationModel) (v w : Database F)
      → env.publish ≡ publish
      → is_pending row.status ≡ true
      → row.file_storage_key ≡ some key
      → without key v.objects ≡ v.objects
      → Placed env key row v w
      → Ended env queue key v (queue_step env publish queue key v.next_id w)
  queue_step-Ended published queue key row v w e p s fresh placed = record {
    row = row;
    inserted = ap (λ g. g v.next_id) placed.rows ∙ set_row_self v.next_id row v.generations;
    pending = p;
    source = s;
    object = placed.objects;
    event = ap (λ l. l ++ (queue, v.next_id) ∷ []) placed.events;
  }
  queue_step-Ended not_published queue key row v w e p s fresh placed =
      not_queued-Ended env key row v w (λ h. unpublished (sym e ∙ h)) fresh placed.rows
        placed.objects queue
    where
      unpublished : not_published ≢ published
      unpublished = cc
  queue_step-Ended published_unanswered queue key row v w e p s fresh placed =
      not_queued-Ended env key row v (add_event queue v.next_id w) (λ h. unpublished (sym e ∙ h))
        fresh placed.rows placed.objects queue
    where
      unpublished : published_unanswered ≢ published
      unpublished = cc

  staged-Placed :
      (works : Bool) (entry : ApiAudit) (key : Text) (row : GenerationModel) (v w : Database F)
      → Placed env key row v w
      → Placed env key row v
          (if works then record w { staged_audits = w.staged_audits ++ entry ∷ [] } else w)
  staged-Placed true entry key row v w p = record {
    rows = p.rows;
    objects = p.objects;
    events = p.events;
  }
  staged-Placed false entry key row v w p = p

  deleted_objects :
      (deletes : Bool) (key : Text) (v w : Database F)
      → env.deletes ≡ deletes
      → without key v.objects ≡ v.objects
      → w.objects ≡ v.objects ++ key ∷ []
      → let u = delete_object deletes key w in
        (u.objects ≡ v.objects) ⊎ ((u.objects ≡ v.objects ++ key ∷ []) × ObjectTrouble env)
  deleted_objects true key v w e fresh held =
      inl (ap (without key) held ∙ without_fresh key v.objects fresh)
  deleted_objects false key v w e fresh held = inr (held, inr (inl e))

  same_rows :
      (deletes : Bool) (key : Text) (w : Database F)
      → (delete_object deletes key w).generations ≡ w.generations
  same_rows true key w = refl
  same_rows false key w = refl

  persist_with : Commit → Text → Text → GenerationModel → Request F ℕ
  persist_with ending queue key row w =
      let (r, w') = commit_row ending row w in after_commit env queue key r w'

  persist_with-Ended :
      (ending : Commit) (queue key : Text) (row : GenerationModel) (v : Database F)
      → env.commit ≡ ending
      → is_pending row.status ≡ true
      → row.file_storage_key ≡ some key
      → without key v.objects ≡ v.objects
      → Ended env queue key v (persist_with ending queue key row (store env key v))
  unfolding persist_with
  persist_with-Ended commits queue key row v a p s fresh =
      queue_step-Ended env.publish queue key row v _ refl p s fresh (
        staged-Placed env.audit_works
          (record { action = generation_created; entity_id = v.next_id }) key row v
          (insert_row row (store env key v))
          (record { rows = refl; objects = refl; events = refl }))
  persist_with-Ended rolls_back queue key row v a p s fresh = record {
    objects = deleted_objects env.deletes key v (store env key v) refl fresh refl;
    rows = λ k. inl (ap (λ g. g k) (same_rows env.deletes key (store env key v)));
  }
  persist_with-Ended unacknowledged queue key row v a p s fresh =
      let w = insert_row row (store env key v) in
      record {
        objects = deleted_objects env.deletes key v w refl fresh refl;
        rows = λ k.
            let kept = ap (λ g. g k) (same_rows env.deletes key w) in
            elim (set_row_other v.next_id row v.generations k) [
              | inl same ↦ inl (kept ∙ same)
              | inr own ↦ inr (inr (own, inl a))
            ];
      }

  upload_step-Ended :
      (upload : Upload) (queue key : Text) (row : GenerationModel) (v : Database F)
      → env.upload ≡ upload
      → is_pending row.status ≡ true
      → row.file_storage_key ≡ some key
      → without key v.objects ≡ v.objects
      → Ended env queue key v (upload_step env upload queue key row v)
  unfolding persist_step persist_with
  upload_step-Ended stored queue key row v u p s fresh =
      persist_with-Ended env.commit queue key row v refl p s fresh
  upload_step-Ended not_stored queue key row v u p s fresh = Undone-refl env key v
  upload_step-Ended stored_unanswered queue key row v u p s fresh = record {
    objects = inr (refl, inl u);
    rows = λ k. inl refl;
  }

  sized_step-Ended :
      (over : Option Text) (queue key : Text) (row : GenerationModel) (v : Database F)
      → is_pending row.status ≡ true
      → row.file_storage_key ≡ some key
      → without key v.objects ≡ v.objects
      → Ended env queue key v (sized_step env over queue key row v)
  sized_step-Ended (some detail) queue key row v p s fresh = Undone-refl env _ v
  sized_step-Ended none queue key row v p s fresh =
      upload_step-Ended env.upload queue key row v refl p s fresh

  body_step-Ended :
      (content : Option (List ℕ)) (req : GenerateRequest) (community : ℕ) (meta : Metadata)
      (inputs file_name : Text) (v : Database F)
      → let key = storage_key_of community env.uuid file_name in
        without key v.objects ≡ v.objects
        → Ended env meta.queue key v (body_step env content req community meta inputs file_name v)
  body_step-Ended none req community meta inputs file_name v fresh = Undone-refl env _ v
  body_step-Ended (some []) req community meta inputs file_name v fresh = Undone-refl env _ v
  body_step-Ended (some (b ∷ bs)) req community meta inputs file_name v fresh =
      let key = storage_key_of community env.uuid file_name in
      sized_step-Ended (oversize (env.measure (b ∷ bs) file_name)) meta.queue key
        (new_row req community meta inputs file_name key) v refl refl fresh

  inputs_step-Ended :
      (inputs : Option Text) (req : GenerateRequest) (file : UploadFile) (community : ℕ)
      (meta : Metadata) (v : Database F)
      → let key = storage_key_of community env.uuid (upload_name file.filename) in
        without key v.objects ≡ v.objects
        → Ended env meta.queue key v (inputs_step env inputs req file community meta v)
  inputs_step-Ended none req file community meta v fresh = Undone-refl env _ v
  inputs_step-Ended (some inputs) req file community meta v fresh =
      body_step-Ended (read_within_cap file.chunks upload_max_body_bytes) req community meta inputs
        (upload_name file.filename) v fresh

  algorithm_step-Ended :
      (meta : Option Metadata) (req : GenerateRequest) (file : UploadFile) (community : ℕ)
      (v : Database F)
      → let key = storage_key_of community env.uuid (upload_name file.filename) in
        without key v.objects ≡ v.objects
        → Ended env (queue_of meta) key v (algorithm_step env meta req file community v)
  algorithm_step-Ended none req file community v fresh = Undone-refl env _ v
  algorithm_step-Ended (some meta) req file community v fresh =
      inputs_step-Ended (env.validate meta.name req.inputs) req file community meta v fresh

  -- With a storage key that is not in use, whatever the input, whatever the services do and wherever
  -- the request stops: on success there is a PENDING row under the returned id that names the stored
  -- object, and one event for it on the queue of its algorithm. On every error the objects are as
  -- before and every row is as before or not PENDING, but for these: the object is left where the
  -- storage has it although the upload raised, where the delete does not get through, or where a
  -- publish raised and then the marking of the row too, which comes before the delete; and the new
  -- row is left PENDING where its commit takes effect although it raised, or where a publish raised
  -- and then the row could not be read or its change not committed.
  pub start_generation-Ended :
      (req : GenerateRequest) (file : UploadFile) (community : ℕ) (v : Database F)
      → let key = storage_key_of community env.uuid (upload_name file.filename) in
        without key v.objects ≡ v.objects
        → Ended env
            (queue_of (env.metadata req.algorithm_name))
            key
            v
            (start_generation env req file community v)
  unfolding start_generation
  start_generation-Ended req file community v fresh =
      algorithm_step-Ended (env.metadata req.algorithm_name) req file community v fresh
