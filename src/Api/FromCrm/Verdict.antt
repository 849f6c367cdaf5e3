-- ===== src/Api/FromCrm/Verdict.antt =====
-- The answer of `start_generation_from_crm` follows the pre-flight of the same readings.
use allocation_key_generatio.Base.{
  ℕ, ◌≡◌, refl, ap, ◌∙◌, Bool, true, false, Option, none, some, List, [], ◌∷◌, ◌++◌, if◌then◌else◌,
  ltb, ◌==◌, ◌⊎◌, inl, inr, arith,
}
use allocation_key_generatio.Base.Text.{Text}
use allocation_key_generatio.Base.Num.{Num}
use allocation_key_generatio.Shared.Const.{DataSource, is_pending}
use allocation_key_generatio.Crm.Preflight.{Blocker, Preflight, is_ok}
use allocation_key_generatio.Worker.World.{GenerationModel, set_row}
use allocation_key_generatio.Worker.Persistence.{Commit, commits, rolls_back, unacknowledged}
use allocation_key_generatio.Api.World.{
  ApiError, ApiAudit, generation_created, refuse, answer, Database, Answer, answered, refused,
  failed, Request, ◌>>=◌, ◌>>◌,
}
use allocation_key_generatio.Api.Env.{
  Metadata, Publish, published, not_published, published_unanswered, RequestEnv,
}
use allocation_key_generatio.Api.Start.{insert_row, add_event, mark_failed_to_queue}
use allocation_key_generatio.Api.FromCrm.{
  GenerateFromCrmRequest, CrmReads, crm_row, verdict, preview_crm_data, crm_queue_step,
  crm_persist_step, crm_gate, crm_inputs_step, crm_algorithm_step, start_generation_from_crm,
}
use allocation_key_generatio.Api.FromCrm.Marked.{mark-OnlyRow}

module _ {F : Num} (env : RequestEnv) (crm : CrmReads F) where
  abbrev pub period_verdict : GenerateFromCrmRequest → ℕ → Preflight
  period_verdict req community =
      verdict env crm req.id_sharing_operation req.period_start req.period_end community

  -- A generation from the CRM, under the next id: the pre-flight had no blocker; its row is PENDING,
  -- belongs to the community, names the operation, the period and the algorithm with its checked
  -- inputs, and carries the warnings of the pre-flight; no other row changed; and it is announced
  -- once, on the queue of its algorithm.
  pub record FromPeriod (req : GenerateFromCrmRequest) (community id : ℕ) (v w : Database F)
      : Type 0 where
    pub ok : is_ok (period_verdict req community) ≡ true
    pub next : id ≡ v.next_id
    pub meta : Metadata
    pub known : env.metadata req.algorithm_name ≡ some meta
    pub row : GenerationModel
    pub rows : w.generations ≡ set_row id row v.generations
    pub pending : is_pending row.status ≡ true
    pub owner : row.id_community ≡ community
    pub source : row.source ≡ DataSource.crm
    pub no_file : row.file_storage_key ≡ none
    pub operation : row.id_sharing_operation ≡ some req.id_sharing_operation
    pub first_day : row.period_start ≡ some req.period_start
    pub last_day : row.period_end ≡ some req.period_end
    pub algorithm : row.algorithm_name ≡ meta.name
    pub version : row.algorithm_version ≡ meta.version
    pub inputs : env.validate meta.name req.inputs ≡ some row.inputs
    pub warnings : row.data_warnings ≡ (period_verdict req community).warnings
    pub event : w.events ≡ v.events ++ (meta.queue, id) ∷ []

  -- No row and no event
  abbrev pub Untouched : Database F → Database F → Type 0
  Untouched v w = (w.generations ≡ v.generations) × (w.events ≡ v.events)

  -- A run that was let through and failed later: only the row of the next id, and at most its event
  pub record Attempted (req : GenerateFromCrmRequest) (community : ℕ) (v w : Database F)
      : Type 0 where
    pub ok : is_ok (period_verdict req community) ≡ true
    pub meta : Metadata
    pub known : env.metadata req.algorithm_name ≡ some meta
    pub others : (k : ℕ) → (k == v.next_id) ≡ false → w.generations k ≡ v.generations k
    pub event : (w.events ≡ v.events) ⊎ (w.events ≡ v.events ++ (meta.queue, v.next_id) ∷ [])

  abbrev pub Tried : GenerateFromCrmRequest → ℕ → Database F → Database F → Type 0
  Tried req community v w = Untouched v w ⊎ Attempted req community v w

  abbrev pub Judged : GenerateFromCrmRequest → ℕ → Database F → Answer ℕ × Database F → Type 0
  Judged req community v (answered id, w) = FromPeriod req community id v w
  Judged req community v (refused e c, w) = Tried req community v w
  Judged req community v (failed, w) = Tried req community v w

  then_refused-Judged :
      (req : GenerateFromCrmRequest) (community : ℕ) (v : Database F)
      (end : Answer (Unit {0}) × Database F)
      → Tried req community v end.1
      → Judged req community v (((λ w. end) >> refuse ApiError.start_generation 500) v)
  then_refused-Judged req community v (answered a, w) h = h
  then_refused-Judged req community v (refused e c, w) h = h
  then_refused-Judged req community v (failed, w) h = h

  -- `w` is `v` with the row.
  record Inserted (row : GenerationModel) (v w : Database F) : Type 0 where
    rows : w.generations ≡ set_row v.next_id row v.generations
    events : w.events ≡ v.events

  other_row :
      (id k : ℕ) (row : GenerationModel) (rows : ℕ → Option GenerationModel)
      → (k == id) ≡ false
      → set_row id row rows k ≡ rows k
  other_row id k row rows h = ground (arith, h)

  module _ (req : GenerateFromCrmRequest) (community : ℕ) (meta : Metadata) (inputs : Text)
      (known : env.metadata req.algorithm_name ≡ some meta)
      (valid : env.validate meta.name req.inputs ≡ some inputs) where
    abbrev inserted_row : GenerationModel
    inserted_row = crm_row req community meta inputs (period_verdict req community)

    marked-Tried :
        (v w : Database F)
        → is_ok (period_verdict req community) ≡ true
        → w.generations ≡ set_row v.next_id inserted_row v.generations
        → (w.events ≡ v.events) ⊎ (w.events ≡ v.events ++ (meta.queue, v.next_id) ∷ [])
        → Tried req community v (mark_failed_to_queue env.marking v.next_id env.publish_error w).1
    marked-Tried v w ok rows events =
        let o = mark-OnlyRow env v.next_id w in
        inr (record {
          ok = ok;
          meta = meta;
          known = known;
          others = λ k h.
              o.others k h
              ∙ ap (λ g. g k) rows
              ∙ other_row v.next_id k inserted_row v.generations h;
          event = same_events events o.events;
        })
      where
        same_events : {u x y z : List (Text × ℕ)} → (x ≡ y) ⊎ (x ≡ z) → u ≡ x → (u ≡ y) ⊎ (u ≡ z)
        same_events (inl h) e = inl (e ∙ h)
        same_events (inr h) e = inr (e ∙ h)

    crm_queue_step-Judged :
        (publish : Publish) (v w : Database F)
        → is_ok (period_verdict req community) ≡ true
        → Inserted inserted_row v w
        → Judged req community v (crm_queue_step env crm publish meta.queue v.next_id w)
    crm_queue_step-Judged published v w ok i = record {
      ok = ok;
      next = refl;
      meta = meta;
      known = known;
      row = inserted_row;
      rows = i.rows;
      pending = refl;
      owner = refl;
      source = refl;
      no_file = refl;
      operation = refl;
      first_day = refl;
      last_day = refl;
      algorithm = refl;
      version = refl;
      inputs = valid;
      warnings = refl;
      event = ap (λ l. l ++ (meta.queue, v.next_id) ∷ []) i.events;
    }
    crm_queue_step-Judged not_published v w ok i =
        then_refused-Judged req community v
          (mark_failed_to_queue env.marking v.next_id env.publish_error w)
          (marked-Tried v w ok i.rows (inl i.events))
    crm_queue_step-Judged published_unanswered v w ok i =
        let u = add_event meta.queue v.next_id w in
        then_refused-Judged req community v
          (mark_failed_to_queue env.marking v.next_id env.publish_error u)
          (marked-Tried v u ok i.rows (inr (ap (λ l. l ++ (meta.queue, v.next_id) ∷ []) i.events)))

    staged-Inserted :
        (works : Bool) (entry : ApiAudit) (row : GenerationModel) (v : Database F)
        → let w = insert_row row v in
          Inserted row v
            (if works then record w { staged_audits = w.staged_audits ++ entry ∷ [] } else w)
    staged-Inserted true entry row v = record { rows = refl; events = refl }
    staged-Inserted false entry row v = record { rows = refl; events = refl }

    crm_persist_step-Judged :
        (ending : Commit) (v : Database F)
        → is_ok (period_verdict req community) ≡ true
        → Judged req community v (crm_persist_step env crm ending meta.queue inserted_row v)
    crm_persist_step-Judged commits v ok = crm_queue_step-Judged env.publish v _ ok (
        staged-Inserted env.audit_works
          (record { action = generation_created; entity_id = v.next_id }) _ v)
    crm_persist_step-Judged rolls_back v ok = inl (refl, refl)
    crm_persist_step-Judged unacknowledged v ok = inr (record {
      ok = ok;
      meta = meta;
      known = known;
      others = λ k h. other_row v.next_id k inserted_row v.generations h;
      event = inl refl;
    })

    ok_of_blockers : (p : Preflight) → p.blockers ≡ [] → is_ok p ≡ true
    unfolding is_ok
    ok_of_blockers p h = rw h refl

    crm_gate-Judged :
        (bs : List Blocker) (v : Database F)
        → (period_verdict req community).blockers ≡ bs
        → Judged req community v
            (crm_gate env crm bs req community meta inputs (period_verdict req community) v)
    crm_gate-Judged (b ∷ bs) v h = inl (refl, refl)
    crm_gate-Judged [] v h =
        crm_persist_step-Judged env.commit v (ok_of_blockers (period_verdict req community) h)

    -- The pre-flight of the request, with what follows it
    abbrev preview_then : Bool → Bool → Request F ℕ
    preview_then reversed exists =
        (if reversed
          then refuse ApiError.invalid_period 422
          else if exists
          then answer (period_verdict req community)
          else refuse ApiError.sharing_operation_not_found 404)
        >>= λ preflight. crm_gate env crm preflight.blockers req community meta inputs preflight

    preview_then-Judged :
        (reversed exists : Bool) (v : Database F)
        → Judged req community v (preview_then reversed exists v)
    preview_then-Judged true exists v = inl (refl, refl)
    preview_then-Judged false false v = inl (refl, refl)
    preview_then-Judged false true v =
        crm_gate-Judged (period_verdict req community).blockers v refl

  crm_inputs_step-Judged :
      (inputs : Option Text) (req : GenerateFromCrmRequest) (community : ℕ) (meta : Metadata)
      (v : Database F)
      → env.metadata req.algorithm_name ≡ some meta
      → env.validate meta.name req.inputs ≡ inputs
      → Judged req community v (crm_inputs_step env crm inputs req community meta v)
  unfolding preview_crm_data
  crm_inputs_step-Judged none req community meta v known valid = inl (refl, refl)
  crm_inputs_step-Judged (some inputs) req community meta v known valid =
      preview_then-Judged req community meta inputs known valid
        (ltb req.period_end req.period_start)
        (crm.sharing_operation_exists community req.id_sharing_operation) v

  crm_algorithm_step-Judged :
      (meta : Option Metadata) (req : GenerateFromCrmRequest) (community : ℕ) (v : Database F)
      → env.metadata req.algorithm_name ≡ meta
      → Judged req community v (crm_algorithm_step env crm meta req community v)
  crm_algorithm_step-Judged none req community v known = inl (refl, refl)
  crm_algorithm_step-Judged (some meta) req community v known =
      crm_inputs_step-Judged (env.validate meta.name req.inputs) req community meta v known refl

  -- A row is written and an event sent only if the pre-flight of the period's readings has no
  -- blocker. If `start_generation_from_crm` returns an id, then under it, the next one, there is a
  -- PENDING row of the community, from the CRM, that names the operation, the period and the
  -- algorithm with its checked inputs and carries the pre-flight's warnings; no other row changed, and
  -- there is one event for it on the queue of the algorithm. If it ends in an error, there is no new
  -- row and no event, or the pre-flight had no blocker and at most the row of the next id and its one
  -- event on that queue are new.
  pub start_generation_from_crm-Judged :
      (req : GenerateFromCrmRequest) (community : ℕ) (v : Database F)
      → Judged req community v (start_generation_from_crm env crm req community v)
  unfolding start_generation_from_crm
  start_generation_from_crm-Judged req community v =
      crm_algorithm_step-Judged (env.metadata req.algorithm_name) req community v refl
