-- ===== src/Worker/Dispatcher/Sources.antt =====
-- How the two sources of the raw data end: what they meet, they leave the object store and the
-- broker alone, and they end the pipeline only with the generation settled.
use allocation_key_generatio.Base.{ℕ, ◌≡◌, refl, Option, none, some, List, [], ◌∷◌, ◌++◌}
use allocation_key_generatio.Base.Text.{Text, codes}
use allocation_key_generatio.Base.Num.{Num}
use allocation_key_generatio.Shared.Const.{DataSource}
use allocation_key_generatio.Shared.DataLoading.{Loaded, loaded, rejected, crashed}
use allocation_key_generatio.Worker.World.{
  GenerationModel, World, Outcome, done, transient, raised, ◌>>◌,
}
use allocation_key_generatio.Worker.Persistence.{claimable, save_failure}
use allocation_key_generatio.Worker.Persistence.Settles.{
  Quiet, Quiet-refl, Saved, save_failure-Saved,
}
use allocation_key_generatio.Crm.Repository.{MeterConsumption, summarize, fetch_rows}
use allocation_key_generatio.Crm.Preflight.{Blocker, evaluate}
use allocation_key_generatio.Crm.Timeseries.{
  Pivoted, framed, crm_pivot_error, pivot_crashed, build_dataframe,
}
use allocation_key_generatio.Worker.Dispatcher.{
  Delivery, Download, downloaded, object_not_found, transient_storage_error, download_raised, Step,
  go_on, stop, Terminal, fail_with, loaded_step, fetched, file_source, load_from_file, framed_step,
  judged, crm_session, period_rows, crm_source, load_from_crm, fail_terminal, load_data,
}

module _ {F : Num} where
  -- How a step that began at `v` may end: it goes on in the same world, or it is quiet and stops
  -- only with the generation settled.
  abbrev pub StepEnds : {A : Type 0} → ℕ → World F → Outcome (Step A) × World F → Type 0
  StepEnds id v (done (go_on a), w) = w ≡ v
  StepEnds id v (done (stop key), w) = Quiet v w × (claimable F id w ≡ none)
  StepEnds id v (transient e, w) = Quiet v w
  StepEnds id v (raised e, w) = Quiet v w

  -- The same for the pipeline as a whole
  abbrev pub Ends : ℕ → World F → Outcome Terminal × World F → Type 0
  Ends id v (done key, w) = Quiet v w × (claimable F id w ≡ none)
  Ends id v (transient e, w) = Quiet v w
  Ends id v (raised e, w) = Quiet v w

  after_save-StepEnds :
      (A : Type 0) (id : ℕ) (v : World F) (end : Outcome (Unit {0}) × World F) (key : Terminal)
      → Saved id v end
      → StepEnds {A = A} id v (((λ _. end) >> (λ w. (done (stop key), w))) v)
  after_save-StepEnds A id v (done _, w) key s = (s.quiet, s.settles)
  after_save-StepEnds A id v (transient e, w) key s = s.quiet
  after_save-StepEnds A id v (raised e, w) key s = s.quiet

  pub after_save-Ends :
      (id : ℕ) (v : World F) (end : Outcome (Unit {0}) × World F) (key : Terminal)
      → Saved id v end
      → Ends id v (((λ _. end) >> (λ w. (done key, w))) v)
  after_save-Ends id v (done _, w) key s = (s.quiet, s.settles)
  after_save-Ends id v (transient e, w) key s = s.quiet
  after_save-Ends id v (raised e, w) key s = s.quiet

module _ {F : Num} {Bytes : Type 0} (env : Delivery F Bytes) where
  fail_with-StepEnds :
      (A : Type 0) (id : ℕ) (message : Text) (key : Terminal) (v : World F)
      → StepEnds {A = A} id v (fail_with env id message key v)
  fail_with-StepEnds A id message key v =
      after_save-StepEnds A id v (save_failure F env.failure_db id message v) key
        (save_failure-Saved env.failure_db id message v)

  pub fail_terminal-Ends :
      (id : ℕ) (message : Text) (key : Terminal) (v : World F)
      → Ends id v (fail_terminal env id message key v)
  unfolding fail_terminal
  fail_terminal-Ends id message key v =
      after_save-Ends id v (save_failure F env.failure_db id message v) key
        (save_failure-Saved env.failure_db id message v)

  loaded_step-StepEnds :
      (id : ℕ) (refused unexpected : Text) (key : Terminal) (l : Loaded F) (v : World F)
      → StepEnds id v (loaded_step env id refused unexpected key l v)
  loaded_step-StepEnds id refused unexpected key (loaded raw) v = refl
  loaded_step-StepEnds id refused unexpected key (rejected e) v =
      fail_with-StepEnds _ id (refused ++ e) key v
  loaded_step-StepEnds id refused unexpected key (crashed e) v =
      fail_with-StepEnds _ id (unexpected ++ e) key v

  fetched-StepEnds :
      (id : ℕ) (key name : Text) (injection : Option Text) (d : Download Bytes) (v : World F)
      → StepEnds id v (fetched env id key name injection d v)
  fetched-StepEnds id key name injection object_not_found v = fail_with-StepEnds _ id _ none v
  fetched-StepEnds id key name injection (transient_storage_error exc) v = Quiet-refl v
  fetched-StepEnds id key name injection (download_raised exc) v = Quiet-refl v
  fetched-StepEnds id key name injection (downloaded content) v =
      loaded_step-StepEnds id (codes "parse_failed: ") (codes "parse_failed_unexpected: ")
        (some key) _ v

  file_source-StepEnds :
      (id : ℕ) (key name injection : Option Text) (v : World F)
      → StepEnds id v (file_source env id key name injection v)
  file_source-StepEnds id (some key) (some name) injection v =
      fetched-StepEnds id key name injection (env.download key) v
  file_source-StepEnds id _ _ injection v = fail_with-StepEnds _ id _ none v

  framed_step-StepEnds :
      (id : ℕ) (p : Pivoted F) (v : World F) → StepEnds id v (framed_step env id p v)
  framed_step-StepEnds id (framed frame) v =
      loaded_step-StepEnds id (codes "crm_pivot_failed: ") (codes "crm_pivot_failed_unexpected: ")
        none _ v
  framed_step-StepEnds id (crm_pivot_error exc) v = fail_with-StepEnds _ id _ none v
  framed_step-StepEnds id (pivot_crashed exc) v = fail_with-StepEnds _ id _ none v

  judged-StepEnds :
      (id : ℕ) (rows : List (MeterConsumption F)) (eans : List Text) (bs : List Blocker)
      (v : World F)
      → StepEnds id v (judged env id rows eans bs v)
  judged-StepEnds id rows eans (b ∷ bs) v = fail_with-StepEnds _ id _ none v
  judged-StepEnds id rows eans [] v =
      framed_step-StepEnds id (build_dataframe F env.pivot_ops (fetch_rows F rows) eans) v

  crm_session-StepEnds :
      (id : ℕ) (rows : List (MeterConsumption F)) (exc : Option Text) (v : World F)
      → StepEnds id v (crm_session env id rows exc v)
  crm_session-StepEnds id rows (some exc) v = Quiet-refl v
  crm_session-StepEnds id rows none v =
      let preflight = evaluate F (summarize F rows) in
      judged-StepEnds id rows preflight.consumer_eans preflight.blockers v

  crm_source-StepEnds :
      (id : ℕ) (row : GenerationModel) (op first last : Option ℕ) (v : World F)
      → StepEnds id v (crm_source env id row op first last v)
  crm_source-StepEnds id row (some op) (some first) (some last) v =
      crm_session-StepEnds id (period_rows env row op first last) env.crm_raises v
  crm_source-StepEnds id row _ _ _ v = fail_with-StepEnds _ id _ none v

  pub load_data-StepEnds :
      (id : ℕ) (row : GenerationModel) (source : DataSource) (v : World F)
      → StepEnds id v (load_data env id row source v)
  unfolding load_from_file load_from_crm
  load_data-StepEnds id row DataSource.file v =
      file_source-StepEnds id row.file_storage_key row.file_name row.injection_name v
  load_data-StepEnds id row DataSource.crm v =
      crm_source-StepEnds id row row.id_sharing_operation row.period_start row.period_end v
