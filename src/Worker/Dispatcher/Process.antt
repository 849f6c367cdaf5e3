-- ===== src/Worker/Dispatcher/Process.antt =====
-- `_process`: whatever it meets, it leaves the object store and the broker alone, and it returns a
-- `_Terminal` only for a generation that is settled.
use allocation_key_generatio.Base.{
  ℕ, ◌≡◌, refl, sym, Bool, true, false, Option, none, some, [], ◌∷◌, arith, subst, ◌++◌, length,
}
use allocation_key_generatio.Base.Text.{Text, codes}
use allocation_key_generatio.Base.Num.{Num}
use allocation_key_generatio.Shared.Const.{is_pending}
use allocation_key_generatio.Shared.Results.{AlgorithmRawData}
use allocation_key_generatio.Shared.ProblemSize.{too_large}
use allocation_key_generatio.Worker.World.{
  GenerationModel, Metric, generation_duration, World, Outcome, done, transient, raised, ◌>>=◌,
}
use allocation_key_generatio.Worker.Persistence.{save_success}
use allocation_key_generatio.Worker.Persistence.Settles.{
  Quiet, Quiet-refl, Quiet-trans, Saved, save_success-Saved,
}
use allocation_key_generatio.Worker.Dispatcher.{
  Delivery, Solve, solved, solve_raised, broken_executor, Validation, valid, invalid, Step, go_on,
  stop, Terminal, retries_crash, crashed_step, after_solver_crash, persisted, persist, solver_died,
  finish_solve, run_algorithm, looked_up, validated, sized, num_timesteps, with_data, load_data,
  after_load, gives_up, limit_message, delivered_step, process_pending, found, after_snapshot,
  snapshot_step, process,
}
use allocation_key_generatio.Worker.Dispatcher.Sources.{
  StepEnds, Ends, fail_terminal-Ends, load_data-StepEnds,
}

module _ {F : Num} {Bytes : Type 0} (env : Delivery F Bytes) where
  crashed_step-Ends :
      (retry : Bool) (id : ℕ) (exc : Text) (key : Terminal) (v : World F)
      → Ends id v (crashed_step env retry id exc key v)
  crashed_step-Ends true id exc key v = Quiet-refl v
  crashed_step-Ends false id exc key v = fail_terminal-Ends env id _ key v

  solver_died-Ends :
      (pool : Bool) (id : ℕ) (exc : Text) (key : Terminal) (v : World F)
      → Ends id v (solver_died env pool id exc key v)
  unfolding after_solver_crash
  solver_died-Ends true id exc key v =
      crashed_step-Ends (retries_crash env.num_delivered) id exc key v
  solver_died-Ends false id exc key v =
      fail_terminal-Ends env id (codes "algorithm_failed: " ++ exc) key v

  persisted-Ends :
      (id : ℕ) (key : Terminal) (v : World F) (end : Outcome (Unit {0}) × World F)
      → Saved id v end
      → Ends id v (persisted env key end.0, end.1)
  persisted-Ends id key v (done _, w) s = (s.quiet, s.settles)
  persisted-Ends id key v (transient e, w) s = s.quiet
  persisted-Ends id key v (raised e, w) s = s.quiet

  -- A metric does not count for any of this.
  abbrev counted : World F → Metric → World F
  counted v m = record v { metrics = v.metrics ++ m ∷ [] }

  Ends-from :
      (id : ℕ) (u v : World F) (end : Outcome Terminal × World F)
      → Quiet u v
      → Ends id v end
      → Ends id u end
  Ends-from id u v (done key, w) q (p, s) = (Quiet-trans q p, s)
  Ends-from id u v (transient e, w) q p = Quiet-trans q p
  Ends-from id u v (raised e, w) q p = Quiet-trans q p

  finish_solve-Ends :
      (id : ℕ) (key : Terminal) (s : Solve F) (v : World F)
      → Ends id v (finish_solve env id key s v)
  unfolding finish_solve persist
  finish_solve-Ends id key (solved result) v =
      Ends-from id v (counted v _) _ (record { objects = refl; replies = refl })
        (persisted-Ends id key (counted v _) (save_success F env.success_db id result (counted v _))
          (save_success-Saved env.success_db id result (counted v _)))
  finish_solve-Ends id key (solve_raised exc) v =
      let failed = counted v (generation_duration env.algorithm (codes "failed")) in
      Ends-from id v failed _ (record { objects = refl; replies = refl })
        (fail_terminal-Ends env id (codes "algorithm_failed: " ++ exc) key failed)
  finish_solve-Ends id key (broken_executor exc) v =
      let failed = counted v (generation_duration env.algorithm (codes "failed")) in
      Ends-from id v failed _ (record { objects = refl; replies = refl })
        (solver_died-Ends env.executor id exc key failed)

  module _ (calm : (w : World F) → Quiet w (env.meanwhile w)) where
    run_algorithm-Ends :
        (id : ℕ) (key : Terminal) (inputs : Text) (raw : AlgorithmRawData F) (v : World F)
        → Ends id v (run_algorithm env id key inputs raw v)
    unfolding run_algorithm
    run_algorithm-Ends id key inputs raw v =
        Ends-from id v (env.meanwhile v) _ (calm v)
          (finish_solve-Ends id key (env.solve env.algorithm inputs raw) (env.meanwhile v))

    looked_up-Ends :
        (known : Bool) (id : ℕ) (key : Terminal) (inputs : Text) (raw : AlgorithmRawData F)
        (v : World F)
        → Ends id v (looked_up env known id key inputs raw v)
    looked_up-Ends true id key inputs raw v = run_algorithm-Ends id key inputs raw v
    looked_up-Ends false id key inputs raw v =
        fail_terminal-Ends env id (codes "implementation_missing: " ++ env.algorithm) key v

    validated-Ends :
        (checked : Validation) (id : ℕ) (key : Terminal) (raw : AlgorithmRawData F) (v : World F)
        → Ends id v (validated env checked id key raw v)
    validated-Ends (invalid errors) id key raw v =
        fail_terminal-Ends env id (codes "invalid_inputs: " ++ errors) key v
    validated-Ends (valid inputs) id key raw v =
        looked_up-Ends (env.implemented env.algorithm) id key inputs raw v

    sized-Ends :
        (size : Option Text) (id : ℕ) (row : GenerationModel) (raw : AlgorithmRawData F)
        (v : World F)
        → Ends id v (sized env size id row raw v)
    sized-Ends (some oversize) id row raw v =
        fail_terminal-Ends env id (codes "problem_too_large: " ++ oversize) row.file_storage_key v
    sized-Ends none id row raw v =
        validated-Ends (env.validate row.inputs) id row.file_storage_key raw v

    after_load-Ends :
        (id : ℕ) (row : GenerationModel) (v : World F)
        (end : Outcome (Step (AlgorithmRawData F)) × World F)
        → StepEnds id v end
        → Ends id v (((λ _. end) >>= after_load env id row) v)
    unfolding with_data
    after_load-Ends id row v (done (stop key), w) h = h
    after_load-Ends id row v (done (go_on raw), w) h =
        subst (λ u. Ends id v (with_data env id row raw u)) (sym h)
          (sized-Ends (too_large (length raw.C) (num_timesteps raw.C)) id row raw v)
    after_load-Ends id row v (transient e, w) h = h
    after_load-Ends id row v (raised e, w) h = h

    delivered_step-Ends :
        (last : Bool) (id : ℕ) (row : GenerationModel) (v : World F)
        → Ends id v (delivered_step env last id row v)
    delivered_step-Ends true id row v =
        fail_terminal-Ends env id (limit_message env.num_delivered) row.file_storage_key v
    delivered_step-Ends false id row v =
        after_load-Ends id row v (load_data env id row row.source v)
          (load_data-StepEnds env id row row.source v)

    found-Ends :
        (pending : Bool) (id : ℕ) (row : GenerationModel) (v : World F)
        → v.generations id ≡ some row
        → is_pending row.status ≡ pending
        → Ends id v (found env pending id row v)
    unfolding process_pending
    found-Ends true id row v h e = delivered_step-Ends (gives_up env.num_delivered) id row v
    found-Ends false id row v h e = (Quiet-refl v, ground arith)

    after_snapshot-Ends :
        (id : ℕ) (row : Option GenerationModel) (v : World F)
        → v.generations id ≡ row
        → Ends id v (after_snapshot env id row v)
    after_snapshot-Ends id none v h = (Quiet-refl v, ground arith)
    after_snapshot-Ends id (some row) v h = found-Ends (is_pending row.status) id row v h refl

    snapshot_step-Ends :
        (broken : Bool) (id : ℕ) (v : World F) → Ends id v (snapshot_step env broken id v)
    snapshot_step-Ends true id v = Quiet-refl v
    snapshot_step-Ends false id v = after_snapshot-Ends id (v.generations id) v refl

    -- The pipeline leaves the object store and the broker alone, and a `_Terminal` comes out only
    -- for a generation that is settled.
    pub process-Ends : (id : ℕ) (v : World F) → Ends id v (process env id v)
    unfolding process
    process-Ends id v = snapshot_step-Ends env.snapshot_raises id v
