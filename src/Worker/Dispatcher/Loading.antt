-- ===== src/Worker/Dispatcher/Loading.antt =====
-- worker/dispatcher.py: steps 2 and 3 of `_process`, the two sources of the raw data.
use allocation_key_generatio.Base.{ℕ, Option, none, some, List, [], ◌∷◌, ◌++◌, map, keep}
use allocation_key_generatio.Base.Text.{Text, codes}
use allocation_key_generatio.Base.Num.{Num}
use allocation_key_generatio.Shared.Results.{AlgorithmRawData}
use allocation_key_generatio.Shared.DataLoading.{
  Loaded, loaded, rejected, crashed, load, to_algorithm_raw_data,
}
use allocation_key_generatio.Crm.Repository.{MeterConsumption, in_period, summarize, fetch_rows}
use allocation_key_generatio.Crm.Preflight.{Blocker, evaluate, join}
use allocation_key_generatio.Crm.Timeseries.{
  injection_column, Pivoted, framed, crm_pivot_error, pivot_crashed, build_dataframe,
}
use allocation_key_generatio.Worker.World.{
  GenerationModel, Action, ◌>>◌, pure, raise_transient, raise_error,
}
use allocation_key_generatio.Worker.Persistence.{save_failure}
use allocation_key_generatio.Worker.Dispatcher.Env.{
  Delivery, Download, downloaded, object_not_found, transient_storage_error, download_raised,
}

abbrev get_or {ℓ} : {A : Type ℓ} → Option A → A → A
get_or none d = d
get_or (some x) d = x

-- `_Terminal(storage_key)`
abbrev pub Terminal : Type 0
Terminal = Option Text

-- A step of the pipeline hands on a value, or ends it with a `_Terminal`.
pub data Step (A : Type 0) : Type 0 where
  go_on : A → Step A
  stop : Terminal → Step A

module _ {F : Num} {Bytes : Type 0} (env : Delivery F Bytes) where
  -- `save_failure` and the `_Terminal` that ends the pipeline
  abbrev pub fail_with : {A : Type 0} → ℕ → Text → Terminal → Action F (Step A)
  fail_with id message key = do save_failure F env.failure_db id message; pure (stop key)

  unfoldable pub fail_terminal : ℕ → Text → Terminal → Action F Terminal
  unfolding save_failure
  fail_terminal id message key = do save_failure F env.failure_db id message; pure key

  abbrev pub loaded_step :
      ℕ → Text → Text → Terminal → Loaded F → Action F (Step (AlgorithmRawData F))
  loaded_step id refused unexpected key (loaded raw) = pure (go_on raw)
  loaded_step id refused unexpected key (rejected e) = fail_with id (refused ++ e) key
  loaded_step id refused unexpected key (crashed e) = fail_with id (unexpected ++ e) key

  -- `_load_from_file`
  abbrev pub fetched :
      ℕ → Text → Text → Option Text → Download Bytes → Action F (Step (AlgorithmRawData F))
  fetched id key name injection object_not_found =
      fail_with id (codes "storage_object_missing") none
  fetched id key name injection (transient_storage_error exc) =
      raise_transient (codes "storage download: " ++ exc)
  fetched id key name injection (download_raised exc) = raise_error exc
  fetched id key name injection (downloaded content) =
      loaded_step id (codes "parse_failed: ") (codes "parse_failed_unexpected: ") (some key)
        (load F env.pandas content name (get_or injection []))

  abbrev pub file_source :
      ℕ → Option Text → Option Text → Option Text → Action F (Step (AlgorithmRawData F))
  file_source id (some key) (some name) injection = fetched id key name injection (env.download key)
  file_source id _ _ injection = fail_with id (codes "file_source_incomplete") none

  unfoldable pub load_from_file : ℕ → GenerationModel → Action F (Step (AlgorithmRawData F))
  unfolding save_failure
  load_from_file id snapshot =
      file_source id snapshot.file_storage_key snapshot.file_name snapshot.injection_name

  -- The end of `_load_from_crm`: the pivot and the converter
  abbrev pub framed_step : ℕ → Pivoted F → Action F (Step (AlgorithmRawData F))
  framed_step id (framed frame) =
      loaded_step id (codes "crm_pivot_failed: ") (codes "crm_pivot_failed_unexpected: ") none
        (to_algorithm_raw_data F frame injection_column)
  framed_step id (crm_pivot_error exc) = fail_with id (codes "crm_pivot_failed: " ++ exc) none
  framed_step id (pivot_crashed exc) =
      fail_with id (codes "crm_pivot_failed_unexpected: " ++ exc) none

  abbrev pub period_rows : GenerationModel → ℕ → ℕ → ℕ → List (MeterConsumption F)
  period_rows snapshot op first last =
      keep (in_period F env.midnight snapshot.id_community op first last) env.meter_consumption

  -- The rows are fetched only if there is no blocker.
  abbrev pub judged :
      ℕ
      → List (MeterConsumption F)
      → List Text
      → List Blocker
      → Action F (Step (AlgorithmRawData F))
  judged id rows eans (b ∷ bs) =
      fail_with id (codes "crm_data_rejected: " ++ join (codes "; ") (map (λ x. x.detail) (b ∷ bs)))
        none
  judged id rows eans [] = framed_step id (build_dataframe F env.pivot_ops (fetch_rows F rows) eans)

  abbrev pub crm_session :
      ℕ → List (MeterConsumption F) → Option Text → Action F (Step (AlgorithmRawData F))
  crm_session id rows (some exc) = raise_transient (codes "crm read: " ++ exc)
  crm_session id rows none =
      let preflight = evaluate F (summarize F rows) in
      judged id rows preflight.consumer_eans preflight.blockers

  abbrev pub crm_source :
      ℕ → GenerationModel → Option ℕ → Option ℕ → Option ℕ → Action F (Step (AlgorithmRawData F))
  crm_source id snapshot (some op) (some first) (some last) =
      crm_session id (period_rows snapshot op first last) env.crm_raises
  crm_source id snapshot _ _ _ = fail_with id (codes "crm_source_incomplete") none

  unfoldable pub load_from_crm : ℕ → GenerationModel → Action F (Step (AlgorithmRawData F))
  unfolding save_failure evaluate summarize fetch_rows build_dataframe to_algorithm_raw_data
  load_from_crm id snapshot =
      crm_source id snapshot snapshot.id_sharing_operation snapshot.period_start snapshot.period_end
