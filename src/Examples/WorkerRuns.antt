-- ===== src/Examples/WorkerRuns.antt =====
-- One worker, one generation, one message.
use allocation_key_generatio.Base.{
  ℕ, ◌≡◌, ◌≤◌, ◌<◌, refl, true, false, none, some, List, [], ◌∷◌, ◌++◌, arith, ◌*◌, ◌==◌,
  if◌then◌else◌, if_split,
}
use allocation_key_generatio.Base.Text.{Text, codes, text_eq}
use allocation_key_generatio.Shared.Const.{Status, DataSource}
use allocation_key_generatio.Shared.Results.{AlgorithmResult}
use allocation_key_generatio.Shared.DataLoading.{load}
use allocation_key_generatio.Shared.ProblemSize.{too_large}
use allocation_key_generatio.Crm.Timeseries.{value_error}
use allocation_key_generatio.Worker.World.{GenerationModel, World, ack, transient, done}
use allocation_key_generatio.Worker.Persistence.{
  Weather, commits, rolls_back, audit_written, claimable, save_success,
}
use allocation_key_generatio.Worker.Persistence.Claims.{
  Claim, succeed, fail, run_claims, ExactlyOne, run_claims-ExactlyOne,
}
use allocation_key_generatio.Worker.Persistence.Messages.{RowFits, run_claims-RowFits}
use allocation_key_generatio.Worker.Persistence.Tree.{read_keys, save_success-read_keys}
use allocation_key_generatio.Worker.Persistence.Settles.{Quiet-refl, NotTransient, Works}
use allocation_key_generatio.Worker.Dispatcher.{
  Delivery, downloaded, solved, valid, event, handle_message, after_solver_crash,
  max_solver_crash_deliveries,
}
use allocation_key_generatio.Worker.Dispatcher.Handled.{Handled, handle_message-Handled}
use allocation_key_generatio.Worker.Dispatcher.OwnFile.{OnlyOwn, key_of_row, handle_message-OnlyOwn}
use allocation_key_generatio.Worker.Dispatcher.Limits.{
  handle_message_limit, after_solver_crash_limit,
}
use allocation_key_generatio.Examples.Millis.{pos, millis}

abbrev row : GenerationModel
row = record {
  name = codes "june";
  id_community = 4;
  source = DataSource.file;
  file_storage_key = some (codes "allocations/4/u/june.csv");
  file_name = some (codes "june.csv");
  injection_name = some (codes "pv");
  id_sharing_operation = none;
  period_start = none;
  period_end = none;
  algorithm_name = codes "brute_force";
  algorithm_version = codes "1.0";
  inputs = codes "1";
  status = Status.pending;
  error_message = none;
  data_warnings = none;
}

abbrev start : World millis
start = record {
  generations = λ k. if k == 7 then some row else none;
  keys = [];
  objects = codes "allocations/4/u/june.csv" ∷ [];
  audits = [];
  emitted = [];
  metrics = [];
  replies = [];
}

abbrev calm_weather : Weather
calm_weather = record { read_raises = false; commit = commits; audit = audit_written; emits = true }

abbrev lost_commit : Weather
lost_commit = record {
  read_raises = false;
  commit = rolls_back;
  audit = audit_written;
  emits = true;
}

abbrev result : AlgorithmResult millis
result = record {
  keys =
      record {
        name = codes "egalitaire";
        description = codes "one";
        iterations =
            record {
              number = 1;
              energy_allocated_percentage = pos 1000;
              surplus_total = pos 500;
              consumers = record { name = codes "A"; energy_allocated_percentage = pos 1000 } ∷ [];
            }
            ∷ [];
      }
      ∷ [];
}

-- The delivery `n` of the message; its file holds one participant.
abbrev delivery : ℕ → Delivery millis Text
delivery n = record {
  algorithm = codes "brute_force";
  num_delivered = some n;
  snapshot_raises = false;
  deletes = true;
  download = λ key. downloaded key;
  pandas = record {
    read_csv = λ content.
        some (record { columns = (codes "A", pos 1000 ∷ []) ∷ (codes "pv", pos 1500 ∷ []) ∷ [] });
    read_excel = λ content. none;
    message = λ content. codes "not a table";
  };
  crm_raises = none;
  meter_consumption = [];
  midnight = λ day. day * 86400;
  pivot_ops = record {
    pivot = λ rows. value_error (codes "empty");
    injected = λ rows t. none;
    sort_index = λ index frame. frame;
  };
  validate = λ inputs. valid inputs;
  implemented = λ name. true;
  executor = true;
  solve = λ name inputs raw. solved result;
  meanwhile = λ w. w;
  success_db = calm_weather;
  failure_db = calm_weather;
  unhandled_db = calm_weather;
}

-- Three saves on one row: a commit that is lost, a success, and a failure that comes too late.
abbrev saves : List (Claim millis)
saves =
    succeed lost_commit row result
    ∷ succeed calm_weather row result
    ∷ fail calm_weather row (codes "late")
    ∷ []

run_claims-ExactlyOne_example : ExactlyOne 7 row saves start (run_claims 7 saves start)
run_claims-ExactlyOne_example = run_claims-ExactlyOne 7 row saves start refl

start_fits : (k : ℕ) → RowFits (start.generations k)
start_fits k = if_split RowFits (k == 7) (λ e. tt) (λ e. tt)

run_claims-RowFits_example : RowFits ((run_claims 7 saves start).generations 7)
run_claims-RowFits_example = run_claims-RowFits 7 saves start start_fits 7

save_success-read_keys_example :
    read_keys millis 7 (save_success millis calm_weather 7 result start).1 ≡ result.keys
save_success-read_keys_example =
    save_success-read_keys millis calm_weather 7 result start {now = row} refl (λ h. cc) refl refl

handle_message-Handled_example :
    Handled 7 start (handle_message (delivery 1) (event (some 7)) start).1
handle_message-Handled_example = handle_message-Handled (delivery 1) 7 start (λ w. Quiet-refl w)

handle_message-OnlyOwn_example :
    OnlyOwn
      (delivery 1)
      (key_of_row (delivery 1) (start.generations 7))
      start
      (handle_message (delivery 1) (event (some 7)) start).1
handle_message-OnlyOwn_example = handle_message-OnlyOwn (delivery 1) 7 start (λ w. Quiet-refl w)

handle_message_limit_example :
    let w = (handle_message (delivery 10) (event (some 7)) start).1 in
    (w.replies ≡ start.replies ++ ack ∷ []) × (claimable millis 7 w ≡ none)
handle_message_limit_example =
    handle_message_limit (delivery 10) 7 10 start refl (omega arith) refl
      (record { reads = refl; durable = refl; audited = λ h. cc })

after_solver_crash_limit_example :
    let end = after_solver_crash (delivery 3) 7 (codes "killed") row.file_storage_key start in
    (3 < max_solver_crash_deliveries → (e : Text) × (end ≡ (transient e, start)))
    × (max_solver_crash_deliveries ≤ 3 → NotTransient end.0)
    × (max_solver_crash_deliveries ≤ 3
        → Works (delivery 3).failure_db
        → (end.0 ≡ done row.file_storage_key) × (claimable millis 7 end.1 ≡ none))
after_solver_crash_limit_example =
    after_solver_crash_limit (delivery 3) 7 3 (codes "killed") row.file_storage_key start refl

-- The message of the only generation: it is solved, saved and acked, and its file is deleted.
handle_message_test :
    let w = (handle_message (delivery 1) (event (some 7)) start).1 in
    (w.replies ≡ ack ∷ []) × (w.objects ≡ []) × (read_keys millis 7 w ≡ result.keys)
unfolding handle_message load too_large text_eq
handle_message_test = (refl, refl, refl)
