-- ===== src/Worker/Dispatcher/Solving.antt =====
-- worker/dispatcher.py: steps 3b to 6 of `_process`, from the raw data to the saved result.
use allocation_key_generatio.Base.{
  ℕ, Bool, true, false, Option, none, some, List, [], ◌∷◌, ◌++◌, ltb, length,
}
use allocation_key_generatio.Base.Text.{Text, codes, decimal}
use allocation_key_generatio.Base.Num.{Num}
use allocation_key_generatio.Shared.Results.{AlgorithmRawData, AlgorithmResult}
use allocation_key_generatio.Shared.ProblemSize.{too_large}
use allocation_key_generatio.Worker.World.{
  GenerationModel, generation_duration, Outcome, done, transient, raised, Action, ◌>>◌,
  raise_transient, modify, count,
}
use allocation_key_generatio.Worker.Persistence.{save_success}
use allocation_key_generatio.Worker.Dispatcher.Env.{
  Delivery, Solve, solved, solve_raised, broken_executor, Validation, valid, invalid,
}
use allocation_key_generatio.Worker.Dispatcher.Loading.{Terminal, fail_terminal}

abbrev pub max_solver_crash_deliveries : ℕ
max_solver_crash_deliveries = 3

abbrev pub retries_crash : Option ℕ → Bool
retries_crash none = false
retries_crash (some delivered) = ltb delivered max_solver_crash_deliveries

abbrev pub shown : Option ℕ → Text
shown none = codes "unknown"
shown (some delivered) = decimal delivered

-- `raw_data.C.shape`, whose product with no row is 0
abbrev pub num_timesteps : {R : Type 0} → List (List R) → ℕ
num_timesteps [] = 0
num_timesteps (row ∷ rows) = length row

module _ {F : Num} {Bytes : Type 0} (env : Delivery F Bytes) where
  -- `_after_solver_crash`
  abbrev pub crashed_step : Bool → ℕ → Text → Terminal → Action F Terminal
  crashed_step true id exc key = raise_transient (
      codes "solver crashed on delivery "
      ++ (shown env.num_delivered
          ++ (codes " of " ++ (decimal max_solver_crash_deliveries ++ (codes ": " ++ exc)))))
  crashed_step false id exc key =
      fail_terminal env id
        (codes "solver_crashed (likely out of memory) on delivery "
          ++ (shown env.num_delivered ++ (codes ": " ++ exc)))
        key

  unfoldable pub after_solver_crash : ℕ → Text → Terminal → Action F Terminal
  unfolding fail_terminal
  after_solver_crash id exc key = crashed_step (retries_crash env.num_delivered) id exc key

  -- Step 6: any exception of `save_success` becomes a `_TransientError`.
  abbrev pub persisted : Terminal → Outcome (Unit {0}) → Outcome Terminal
  persisted key (done _) = done key
  persisted key (transient exc) = transient (codes "persist failed: " ++ exc)
  persisted key (raised exc) = transient (codes "persist failed: " ++ exc)

  unfoldable pub persist : ℕ → AlgorithmResult F → Terminal → Action F Terminal
  unfolding save_success
  persist id result key w =
      let (r, w') = save_success F env.success_db id result w in (persisted key r, w')

  -- Step 5, `_run_algorithm` included: only a process pool turns a dead process into a crash.
  abbrev pub solver_died : Bool → ℕ → Text → Terminal → Action F Terminal
  solver_died true id exc key = after_solver_crash id exc key
  solver_died false id exc key = fail_terminal env id (codes "algorithm_failed: " ++ exc) key

  unfoldable pub finish_solve : ℕ → Terminal → Solve F → Action F Terminal
  unfolding fail_terminal after_solver_crash persist
  finish_solve id key (solved result) = do
    count (generation_duration env.algorithm (codes "success"))
    persist id result key
  finish_solve id key (solve_raised exc) = do
    count (generation_duration env.algorithm (codes "failed"))
    fail_terminal env id (codes "algorithm_failed: " ++ exc) key
  finish_solve id key (broken_executor exc) = do
    count (generation_duration env.algorithm (codes "failed"))
    solver_died env.executor id exc key

  unfoldable pub run_algorithm : ℕ → Terminal → Text → AlgorithmRawData F → Action F Terminal
  unfolding finish_solve
  run_algorithm id key inputs raw = do
    modify env.meanwhile
    finish_solve id key (env.solve env.algorithm inputs raw)

  -- Steps 3b, 4 and the lookup of step 5
  abbrev pub looked_up : Bool → ℕ → Terminal → Text → AlgorithmRawData F → Action F Terminal
  looked_up true id key inputs raw = run_algorithm id key inputs raw
  looked_up false id key inputs raw =
      fail_terminal env id (codes "implementation_missing: " ++ env.algorithm) key

  abbrev pub validated : Validation → ℕ → Terminal → AlgorithmRawData F → Action F Terminal
  validated (invalid errors) id key raw =
      fail_terminal env id (codes "invalid_inputs: " ++ errors) key
  validated (valid inputs) id key raw = looked_up (env.implemented env.algorithm) id key inputs raw

  abbrev pub sized : Option Text → ℕ → GenerationModel → AlgorithmRawData F → Action F Terminal
  sized (some oversize) id snapshot raw =
      fail_terminal env id (codes "problem_too_large: " ++ oversize) snapshot.file_storage_key
  sized none id snapshot raw =
      validated (env.validate snapshot.inputs) id snapshot.file_storage_key raw

  unfoldable pub with_data : ℕ → GenerationModel → AlgorithmRawData F → Action F Terminal
  unfolding fail_terminal run_algorithm
  with_data id snapshot raw = sized (too_large (length raw.C) (num_timesteps raw.C)) id snapshot raw
