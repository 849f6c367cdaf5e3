-- ===== src/Worker/Dispatcher.antt =====
-- worker/dispatcher.py: what a worker does with one delivered message.
mod Env
mod Loading
mod Solving
pub mod Sources
pub mod Process
pub mod Handled
pub mod Limits
pub mod OwnSource
pub mod OwnFile
pub use Env.*
unfoldable pub use Loading.*
unfoldable pub use Solving.*
use allocation_key_generatio.Base.{
  ℕ, Bool, true, false, not, ◌||◌, Option, none, some, List, [], ◌∷◌, ◌++◌, map, ltb, leb, length,
  keep, if◌then◌else◌,
}
use allocation_key_generatio.Base.Text.{Text, codes, decimal}
use allocation_key_generatio.Base.Num.{Num}
use allocation_key_generatio.Shared.Const.{is_pending, DataSource}
use allocation_key_generatio.Shared.Results.{AlgorithmRawData, AlgorithmResult}
use allocation_key_generatio.Shared.ProblemSize.{too_large}
use allocation_key_generatio.Shared.DataLoading.{
  Loaded, loaded, rejected, crashed, load, to_algorithm_raw_data,
}
use allocation_key_generatio.Crm.Repository.{MeterConsumption, in_period, summarize, fetch_rows}
use allocation_key_generatio.Crm.Preflight.{Blocker, Preflight, evaluate, join}
use allocation_key_generatio.Crm.Timeseries.{
  injection_column, Pivoted, framed, crm_pivot_error, pivot_crashed, build_dataframe,
}
use allocation_key_generatio.Worker.World.{
  GenerationModel, ack, nak, worker_messages, generation_duration, World, Outcome, done, transient,
  raised, Action, ◌>>=◌, ◌>>◌, pure, raise_transient, raise_error, modify, gets, count, reply,
  without,
}
use allocation_key_generatio.Worker.Persistence.{save_success, save_failure}

abbrev pub nak_retry_delay_seconds : ℕ
nak_retry_delay_seconds = 30

abbrev pub max_deliveries : ℕ
max_deliveries = 10

-- What `Event.decode` makes of the payload: an exception, or an event with an integer
-- `generation_id` or without one.
pub data Message : Type 0 where
  undecodable : Message
  event : Option ℕ → Message

-- Step 1b
abbrev pub gives_up : Option ℕ → Bool
gives_up none = false
gives_up (some delivered) = leb max_deliveries delivered

abbrev pub limit_message : Option ℕ → Text
limit_message delivered =
    codes "delivery_limit_reached: delivery "
    ++ (shown delivered
        ++ codes
            ", the earlier ones ended without a result (transient failures, or the worker stopped mid-run)")

module _ {F : Num} {Bytes : Type 0} (env : Delivery F Bytes) where
  abbrev pub load_data : ℕ → GenerationModel → DataSource → Action F (Step (AlgorithmRawData F))
  load_data id snapshot DataSource.crm = load_from_crm env id snapshot
  load_data id snapshot DataSource.file = load_from_file env id snapshot

  abbrev pub after_load : ℕ → GenerationModel → Step (AlgorithmRawData F) → Action F Terminal
  after_load id snapshot (stop key) = pure key
  after_load id snapshot (go_on raw) = with_data env id snapshot raw

  -- Steps 1b to 6 of a pending generation
  abbrev pub delivered_step : Bool → ℕ → GenerationModel → Action F Terminal
  delivered_step true id snapshot =
      fail_terminal env id (limit_message env.num_delivered) snapshot.file_storage_key
  delivered_step false id snapshot =
      load_data id snapshot snapshot.source >>= after_load id snapshot

  unfoldable pub process_pending : ℕ → GenerationModel → Action F Terminal
  unfolding load_from_crm load_from_file with_data fail_terminal
  process_pending id snapshot = delivered_step (gives_up env.num_delivered) id snapshot

  abbrev pub found : Bool → ℕ → GenerationModel → Action F Terminal
  found true id row = process_pending id row
  found false id row = pure row.file_storage_key

  abbrev pub after_snapshot : ℕ → Option GenerationModel → Action F Terminal
  after_snapshot id none = pure none
  after_snapshot id (some row) = found (is_pending row.status) id row

  abbrev pub snapshot_step : Bool → ℕ → Action F Terminal
  snapshot_step true id w = raise_error (codes "database") w
  snapshot_step false id w = after_snapshot id (w.generations id) w

  -- `_process`
  unfoldable pub process : ℕ → Action F Terminal
  unfolding process_pending
  process id = snapshot_step env.snapshot_raises id

  -- The end of `_handle_message`, by how `_process` ended
  abbrev pub conclude : ℕ → Outcome Terminal → Action F (Unit {0})
  conclude id (transient exc) = do
    reply (nak nak_retry_delay_seconds)
    count (worker_messages env.algorithm (codes "nak"))
  conclude id (raised exc) = do
    save_failure F env.unhandled_db id (codes "unhandled_worker_error")
    reply ack
    count (worker_messages env.algorithm (codes "ack_unhandled"))
  conclude id (done none) = reply ack
  conclude id (done (some key)) = do
    reply ack
    modify (λ w. if env.deletes then record w { objects = without key w.objects } else w)

  unfoldable pub handle_generation : ℕ → Action F (Unit {0})
  unfolding process save_failure
  handle_generation id w = let (r, w') = process id w in conclude id r w'

  -- `_handle_message`
  unfoldable pub handle_message : Message → Action F (Unit {0})
  unfolding handle_generation
  handle_message undecodable = do
    reply ack
    count (worker_messages env.algorithm (codes "drop_decode"))
  handle_message (event none) = do
    reply ack
    count (worker_messages env.algorithm (codes "drop_invalid_id"))
  handle_message (event (some id)) = handle_generation id
