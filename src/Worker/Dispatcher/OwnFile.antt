-- ===== src/Worker/Dispatcher/OwnFile.antt =====
-- Which object a message may delete: that of its own row.
use allocation_key_generatio.Base.{
  ℕ, ◌≡◌, refl, sym, ap, ◌∙◌, ◌⊎◌, inl, inr, Bool, true, false, Option, none, some, [], ◌∷◌, ◌++◌,
  length, if◌then◌else◌,
}
use allocation_key_generatio.Base.Text.{Text, codes}
use allocation_key_generatio.Base.Num.{Num}
use allocation_key_generatio.Shared.Const.{is_pending}
use allocation_key_generatio.Shared.Results.{AlgorithmRawData}
use allocation_key_generatio.Shared.ProblemSize.{too_large}
use allocation_key_generatio.Worker.World.{
  GenerationModel, World, Outcome, done, transient, raised, ack, generation_duration, ◌>>=◌, ◌>>◌,
  without,
}
use allocation_key_generatio.Worker.Persistence.{save_failure, save_success}
use allocation_key_generatio.Worker.Persistence.Settles.{Quiet, save_failure-Saved}
use allocation_key_generatio.Worker.Dispatcher.{
  Delivery, Solve, solved, solve_raised, broken_executor, Validation, valid, invalid, Step, go_on,
  stop, Terminal, retries_crash, crashed_step, after_solver_crash, persisted, persist, solver_died,
  finish_solve, run_algorithm, looked_up, validated, sized, num_timesteps, with_data, load_data,
  after_load, gives_up, delivered_step, process_pending, found, after_snapshot, snapshot_step,
  process, conclude, event, handle_generation, handle_message,
}
use allocation_key_generatio.Worker.Dispatcher.Sources.{Ends}
use allocation_key_generatio.Worker.Dispatcher.Handled.{ack_unhandled}
use allocation_key_generatio.Worker.Dispatcher.Process.{process-Ends}
use allocation_key_generatio.Worker.Dispatcher.OwnSource.{
  Own, StepOwns, Owns, fail_terminal-Owns, load_data-StepOwns,
}

module _ {F : Num} {Bytes : Type 0} (env : Delivery F Bytes) where
  module _ (owned : Terminal) where
    crashed_step-Owns :
        (retry : Bool) (id : ℕ) (exc : Text) (v : World F)
        → Owns owned (crashed_step env retry id exc owned v).0
    crashed_step-Owns true id exc v = tt
    crashed_step-Owns false id exc v = fail_terminal-Owns env owned id _ v

    solver_died-Owns :
        (pool : Bool) (id : ℕ) (exc : Text) (v : World F)
        → Owns owned (solver_died env pool id exc owned v).0
    unfolding after_solver_crash
    solver_died-Owns true id exc v = crashed_step-Owns (retries_crash env.num_delivered) id exc v
    solver_died-Owns false id exc v =
        fail_terminal-Owns env owned id (codes "algorithm_failed: " ++ exc) v

    persisted-Owns : (end : Outcome (Unit {0})) → Owns owned (persisted env owned end)
    persisted-Owns (done _) = inr refl
    persisted-Owns (transient e) = tt
    persisted-Owns (raised e) = tt

    abbrev counted : World F → Text → World F
    counted v outcome = record v {
      metrics = v.metrics ++ generation_duration env.algorithm outcome ∷ [];
    }

    finish_solve-Owns :
        (id : ℕ) (s : Solve F) (v : World F) → Owns owned (finish_solve env id owned s v).0
    unfolding finish_solve persist
    finish_solve-Owns id (solved result) v =
        persisted-Owns (save_success F env.success_db id result (counted v (codes "success"))).0
    finish_solve-Owns id (solve_raised exc) v =
        fail_terminal-Owns env owned id (codes "algorithm_failed: " ++ exc)
          (counted v (codes "failed"))
    finish_solve-Owns id (broken_executor exc) v =
        solver_died-Owns env.executor id exc (counted v (codes "failed"))

    looked_up-Owns :
        (known : Bool) (id : ℕ) (inputs : Text) (raw : AlgorithmRawData F) (v : World F)
        → Owns owned (looked_up env known id owned inputs raw v).0
    unfolding run_algorithm
    looked_up-Owns true id inputs raw v =
        finish_solve-Owns id (env.solve env.algorithm inputs raw) (env.meanwhile v)
    looked_up-Owns false id inputs raw v =
        fail_terminal-Owns env owned id (codes "implementation_missing: " ++ env.algorithm) v

    validated-Owns :
        (checked : Validation) (id : ℕ) (raw : AlgorithmRawData F) (v : World F)
        → Owns owned (validated env checked id owned raw v).0
    validated-Owns (invalid errors) id raw v =
        fail_terminal-Owns env owned id (codes "invalid_inputs: " ++ errors) v
    validated-Owns (valid inputs) id raw v =
        looked_up-Owns (env.implemented env.algorithm) id inputs raw v

  sized-Owns :
      (size : Option Text) (id : ℕ) (row : GenerationModel) (raw : AlgorithmRawData F) (v : World F)
      → Owns row.file_storage_key (sized env size id row raw v).0
  sized-Owns (some oversize) id row raw v =
      fail_terminal-Owns env row.file_storage_key id (codes "problem_too_large: " ++ oversize) v
  sized-Owns none id row raw v =
      validated-Owns row.file_storage_key (env.validate row.inputs) id raw v

  after_load-Owns :
      (id : ℕ) (row : GenerationModel) (v : World F)
      (end : Outcome (Step (AlgorithmRawData F)) × World F)
      → StepOwns row.file_storage_key end.0
      → Owns row.file_storage_key (((λ _. end) >>= after_load env id row) v).0
  unfolding with_data
  after_load-Owns id row v (done (stop key), w) h = h
  after_load-Owns id row v (done (go_on raw), w) h =
      sized-Owns (too_large (length raw.C) (num_timesteps raw.C)) id row raw w
  after_load-Owns id row v (transient e, w) h = tt
  after_load-Owns id row v (raised e, w) h = tt

  delivered_step-Owns :
      (last : Bool) (id : ℕ) (row : GenerationModel) (v : World F)
      → Owns row.file_storage_key (delivered_step env last id row v).0
  delivered_step-Owns true id row v = fail_terminal-Owns env row.file_storage_key id _ v
  delivered_step-Owns false id row v =
      after_load-Owns id row v (load_data env id row row.source v)
        (load_data-StepOwns env row.file_storage_key id row row.source v refl)

  found-Owns :
      (pending : Bool) (id : ℕ) (row : GenerationModel) (v : World F)
      → Owns row.file_storage_key (found env pending id row v).0
  unfolding process_pending
  found-Owns true id row v = delivered_step-Owns (gives_up env.num_delivered) id row v
  found-Owns false id row v = inr refl

  -- The storage key of a row, if there is one
  abbrev pub key_of_row : Option GenerationModel → Terminal
  key_of_row none = none
  key_of_row (some row) = row.file_storage_key

  after_snapshot-Owns :
      (id : ℕ) (row : Option GenerationModel) (v : World F)
      → Owns (key_of_row row) (after_snapshot env id row v).0
  after_snapshot-Owns id none v = inl refl
  after_snapshot-Owns id (some row) v = found-Owns (is_pending row.status) id row v

  snapshot_step-Owns :
      (broken : Bool) (id : ℕ) (v : World F)
      → Owns (key_of_row (v.generations id)) (snapshot_step env broken id v).0
  snapshot_step-Owns true id v = tt
  snapshot_step-Owns false id v = after_snapshot-Owns id (v.generations id) v

  -- The objects are as before, or without the one that the row names.
  abbrev pub OnlyOwn : Terminal → World F → World F → Type 0
  OnlyOwn owned v w =
      (w.objects ≡ v.objects)
      ⊎ ((key : Text) × (owned ≡ some key) × (w.objects ≡ without key v.objects))

  deleted-OnlyOwn :
      (deletes : Bool) (owned : Terminal) (key : Text) (v w : World F)
      → w.objects ≡ v.objects
      → Own owned (some key)
      → OnlyOwn owned v (if deletes then record w { objects = without key w.objects } else w)
  deleted-OnlyOwn true owned key v w q (inl h) = cc
  deleted-OnlyOwn true owned key v w q (inr h) = inr (key, sym h, ap (without key) q)
  deleted-OnlyOwn false owned key v w q h = inl q

  unhandled-OnlyOwn :
      (owned : Terminal) (id : ℕ) (v u : World F) (end : Outcome (Unit {0}) × World F)
      → Quiet v u
      → Quiet u end.1
      → OnlyOwn owned v (((λ _. end) >> ack_unhandled env) u).1
  unhandled-OnlyOwn owned id v u (done _, w) q s = inl (s.objects ∙ q.objects)
  unhandled-OnlyOwn owned id v u (transient x, w) q s = inl (s.objects ∙ q.objects)
  unhandled-OnlyOwn owned id v u (raised x, w) q s = inl (s.objects ∙ q.objects)

  conclude-OnlyOwn :
      (owned : Terminal) (id : ℕ) (v : World F) (end : Outcome Terminal × World F)
      → Ends id v end
      → Owns owned end.0
      → OnlyOwn owned v (conclude env id end.0 end.1).1
  conclude-OnlyOwn owned id v (done none, w) e h = inl e.0.objects
  conclude-OnlyOwn owned id v (done (some key), w) e h =
      deleted-OnlyOwn env.deletes owned key v (record w { replies = w.replies ++ ack ∷ [] })
        e.0.objects h
  conclude-OnlyOwn owned id v (transient x, w) e h = inl e.objects
  conclude-OnlyOwn owned id v (raised x, w) e h =
      unhandled-OnlyOwn owned id v w
        (save_failure F env.unhandled_db id (codes "unhandled_worker_error") w) e
        (save_failure-Saved env.unhandled_db id (codes "unhandled_worker_error") w).quiet

  -- Whatever happens to a message, as long as nobody else touches the object store: afterwards the
  -- objects are as before, or the one is gone that the row of the message's generation names.
  pub handle_message-OnlyOwn :
      (id : ℕ) (v : World F)
      → ((w : World F) → Quiet w (env.meanwhile w))
      → OnlyOwn (key_of_row (v.generations id)) v (handle_message env (event (some id)) v).1
  unfolding handle_message handle_generation process
  handle_message-OnlyOwn id v calm =
      conclude-OnlyOwn (key_of_row (v.generations id)) id v (process env id v)
        (process-Ends env calm id v) (snapshot_step-Owns env.snapshot_raises id v)
