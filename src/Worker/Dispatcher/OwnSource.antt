-- ===== src/Worker/Dispatcher/OwnSource.antt =====
-- The two sources of the raw data end the pipeline with the storage key of the row, or with none.
use allocation_key_generatio.Base.{
  ℕ, ◌≡◌, refl, ◌⊎◌, inl, inr, Option, none, some, List, [], ◌∷◌, ◌++◌,
}
use allocation_key_generatio.Base.Text.{Text, codes}
use allocation_key_generatio.Base.Num.{Num}
use allocation_key_generatio.Shared.Const.{DataSource}
use allocation_key_generatio.Shared.DataLoading.{Loaded, loaded, rejected, crashed}
use allocation_key_generatio.Worker.World.{
  GenerationModel, World, Outcome, done, transient, raised, ◌>>◌,
}
use allocation_key_generatio.Worker.Persistence.{save_failure}
use allocation_key_generatio.Crm.Repository.{MeterConsumption, summarize, fetch_rows}
use allocation_key_generatio.Crm.Preflight.{Blocker, evaluate}
use allocation_key_generatio.Crm.Timeseries.{
  Pivoted, framed, crm_pivot_error, pivot_crashed, build_dataframe,
}
use allocation_key_generatio.Worker.Dispatcher.{
  Delivery, Download, downloaded, object_not_found, transient_storage_error, download_raised, Step,
  go_on, stop, Terminal, fail_with, loaded_step, fetched, file_source, load_from_file, framed_step,
  judged, crm_session, period_rows, crm_source, load_from_crm, fail_terminal, load_data,
}

-- The key of a `_Terminal`: none, or that of the row
abbrev pub Own : Terminal → Terminal → Type 0
Own owned key = (key ≡ none) ⊎ (key ≡ owned)

abbrev pub StepOwns : {A : Type 0} → Terminal → Outcome (Step A) → Type 0
StepOwns owned (done (go_on a)) = Unit
StepOwns owned (done (stop key)) = Own owned key
StepOwns owned (transient e) = Unit
StepOwns owned (raised e) = Unit

abbrev pub Owns : Terminal → Outcome Terminal → Type 0
Owns owned (done key) = Own owned key
Owns owned (transient e) = Unit
Owns owned (raised e) = Unit

module _ {F : Num} where
  saved-StepOwns :
      (A : Type 0) (owned key : Terminal) (v : World F) (end : Outcome (Unit {0}) × World F)
      → Own owned key
      → StepOwns {A = A} owned (((λ _. end) >> (λ w. (done (stop key), w))) v).0
  saved-StepOwns A owned key v (done _, w) h = h
  saved-StepOwns A owned key v (transient e, w) h = tt
  saved-StepOwns A owned key v (raised e, w) h = tt

  saved-Owns :
      (owned key : Terminal) (v : World F) (end : Outcome (Unit {0}) × World F)
      → Own owned key
      → Owns owned (((λ _. end) >> (λ w. (done key, w))) v).0
  saved-Owns owned key v (done _, w) h = h
  saved-Owns owned key v (transient e, w) h = tt
  saved-Owns owned key v (raised e, w) h = tt

module _ {F : Num} {Bytes : Type 0} (env : Delivery F Bytes) (owned : Terminal) where
  fail_with-StepOwns :
      (A : Type 0) (id : ℕ) (message : Text) (key : Terminal) (v : World F)
      → Own owned key
      → StepOwns {A = A} owned (fail_with env id message key v).0
  fail_with-StepOwns A id message key v h =
      saved-StepOwns A owned key v (save_failure F env.failure_db id message v) h

  pub fail_terminal-Owns :
      (id : ℕ) (message : Text) (v : World F) → Owns owned (fail_terminal env id message owned v).0
  unfolding fail_terminal
  fail_terminal-Owns id message v =
      saved-Owns owned owned v (save_failure F env.failure_db id message v) (inr refl)

  loaded_step-StepOwns :
      (id : ℕ) (refused unexpected : Text) (key : Terminal) (l : Loaded F) (v : World F)
      → Own owned key
      → StepOwns owned (loaded_step env id refused unexpected key l v).0
  loaded_step-StepOwns id refused unexpected key (loaded raw) v h = tt
  loaded_step-StepOwns id refused unexpected key (rejected e) v h =
      fail_with-StepOwns _ id (refused ++ e) key v h
  loaded_step-StepOwns id refused unexpected key (crashed e) v h =
      fail_with-StepOwns _ id (unexpected ++ e) key v h

  fetched-StepOwns :
      (id : ℕ) (key name : Text) (injection : Option Text) (d : Download Bytes) (v : World F)
      → some key ≡ owned
      → StepOwns owned (fetched env id key name injection d v).0
  fetched-StepOwns id key name injection object_not_found v h =
      fail_with-StepOwns _ id _ none v (inl refl)
  fetched-StepOwns id key name injection (transient_storage_error exc) v h = tt
  fetched-StepOwns id key name injection (download_raised exc) v h = tt
  fetched-StepOwns id key name injection (downloaded content) v h =
      loaded_step-StepOwns id (codes "parse_failed: ") (codes "parse_failed_unexpected: ")
        (some key) _ v (inr h)

  file_source-StepOwns :
      (id : ℕ) (key name injection : Option Text) (v : World F)
      → key ≡ owned
      → StepOwns owned (file_source env id key name injection v).0
  file_source-StepOwns id (some key) (some name) injection v h =
      fetched-StepOwns id key name injection (env.download key) v h
  file_source-StepOwns id _ _ injection v h = fail_with-StepOwns _ id _ none v (inl refl)

  framed_step-StepOwns :
      (id : ℕ) (p : Pivoted F) (v : World F) → StepOwns owned (framed_step env id p v).0
  framed_step-StepOwns id (framed frame) v =
      loaded_step-StepOwns id (codes "crm_pivot_failed: ") (codes "crm_pivot_failed_unexpected: ")
        none _ v (inl refl)
  framed_step-StepOwns id (crm_pivot_error exc) v = fail_with-StepOwns _ id _ none v (inl refl)
  framed_step-StepOwns id (pivot_crashed exc) v = fail_with-StepOwns _ id _ none v (inl refl)

  judged-StepOwns :
      (id : ℕ) (rows : List (MeterConsumption F)) (eans : List Text) (bs : List Blocker)
      (v : World F)
      → StepOwns owned (judged env id rows eans bs v).0
  judged-StepOwns id rows eans (b ∷ bs) v = fail_with-StepOwns _ id _ none v (inl refl)
  judged-StepOwns id rows eans [] v =
      framed_step-StepOwns id (build_dataframe F env.pivot_ops (fetch_rows F rows) eans) v

  crm_session-StepOwns :
      (id : ℕ) (rows : List (MeterConsumption F)) (exc : Option Text) (v : World F)
      → StepOwns owned (crm_session env id rows exc v).0
  crm_session-StepOwns id rows (some exc) v = tt
  crm_session-StepOwns id rows none v =
      let preflight = evaluate F (summarize F rows) in
      judged-StepOwns id rows preflight.consumer_eans preflight.blockers v

  crm_source-StepOwns :
      (id : ℕ) (row : GenerationModel) (op first last : Option ℕ) (v : World F)
      → StepOwns owned (crm_source env id row op first last v).0
  crm_source-StepOwns id row (some op) (some first) (some last) v =
      crm_session-StepOwns id (period_rows env row op first last) env.crm_raises v
  crm_source-StepOwns id row _ _ _ v = fail_with-StepOwns _ id _ none v (inl refl)

  pub load_data-StepOwns :
      (id : ℕ) (row : GenerationModel) (source : DataSource) (v : World F)
      → row.file_storage_key ≡ owned
      → StepOwns owned (load_data env id row source v).0
  unfolding load_from_file load_from_crm
  load_data-StepOwns id row DataSource.file v h =
      file_source-StepOwns id row.file_storage_key row.file_name row.injection_name v h
  load_data-StepOwns id row DataSource.crm v h =
      crm_source-StepOwns id row row.id_sharing_operation row.period_start row.period_end v
