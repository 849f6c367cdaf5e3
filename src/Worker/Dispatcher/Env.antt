-- ===== src/Worker/Dispatcher/Env.antt =====
-- What one delivery of a message meets outside of the dispatcher.
use allocation_key_generatio.Base.{ℕ, Bool, Option, List}
use allocation_key_generatio.Base.Text.{Text}
use allocation_key_generatio.Base.Num.{Num}
use allocation_key_generatio.Shared.Results.{AlgorithmRawData, AlgorithmResult}
use allocation_key_generatio.Shared.DataLoading.{Pandas}
use allocation_key_generatio.Crm.Repository.{MeterConsumption}
use allocation_key_generatio.Crm.Timeseries.{PivotOps}
use allocation_key_generatio.Worker.World.{World}
use allocation_key_generatio.Worker.Persistence.{Weather}

-- `storage.download`
pub data Download (Bytes : Type 0) : Type 0 where
  downloaded : Bytes → Download Bytes
  object_not_found : Download Bytes
  transient_storage_error download_raised : Text → Download Bytes

-- A solve returns, raises, or its pool process dies (`BrokenExecutor`).
pub data Solve (F : Num) : Type 0 where
  solved : AlgorithmResult F → Solve F
  solve_raised broken_executor : Text → Solve F

-- `meta.input_schema.model_validate`
pub data Validation : Type 0 where
  valid invalid : Text → Validation

pub record Delivery (F : Num) (Bytes : Type 0) : Type 0 where
  -- `meta.name`
  pub algorithm : Text
  -- `msg.metadata.num_delivered`, if it can be read
  pub num_delivered : Option ℕ
  -- whether `session.get` of the snapshot raises
  pub snapshot_raises : Bool
  -- whether `storage.delete` gets through; it never raises
  pub deletes : Bool
  pub download : Text → Download Bytes
  pub pandas : Pandas F Bytes
  -- the exception of the CRM session, if one is raised
  pub crm_raises : Option Text
  pub meter_consumption : List (MeterConsumption F)
  -- the first instant of a day in Brussels
  pub midnight : ℕ → ℕ
  pub pivot_ops : PivotOps F
  pub validate : Text → Validation
  -- whether the registry has the implementation
  pub implemented : Text → Bool
  -- whether a process pool is configured
  pub executor : Bool
  pub solve : Text → Text → AlgorithmRawData F → Solve F
  -- what other workers and the API do to the world while this one solves
  pub meanwhile : World F → World F
  -- the databases during each save
  pub success_db : Weather
  pub failure_db : Weather
  pub unhandled_db : Weather
