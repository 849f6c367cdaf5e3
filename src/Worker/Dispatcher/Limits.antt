-- ===== src/Worker/Dispatcher/Limits.antt =====
-- The two delivery limits of the dispatcher.
use allocation_key_generatio.Base.{
  ℕ, ◌≤◌, ◌≡◌, refl, ap, subst, sym, Bool, true, false, Option, none, some, [], ◌∷◌, ◌++◌, arith,
  if◌then◌else◌, ◌<◌,
}
use allocation_key_generatio.Base.Text.{Text, codes}
use allocation_key_generatio.Base.Num.{Num}
use allocation_key_generatio.Shared.Const.{is_pending}
use allocation_key_generatio.Worker.World.{
  GenerationModel, World, ack, without, Outcome, done, transient, raised, ◌>>◌,
}
use allocation_key_generatio.Worker.Persistence.{claimable, save_failure}
use allocation_key_generatio.Worker.Persistence.Settles.{
  Quiet, Quiet-refl, Saved, NotTransient, Works, save_failure-Saved, save_failure_returns,
}
use allocation_key_generatio.Worker.Dispatcher.{
  Delivery, Terminal, event, max_deliveries, gives_up, limit_message, fail_terminal, retries_crash,
  crashed_step, after_solver_crash, shown, max_solver_crash_deliveries, delivered_step,
  process_pending, found, after_snapshot, snapshot_step, process, conclude, handle_generation,
  handle_message,
}
use allocation_key_generatio.Worker.Dispatcher.Sources.{Ends, fail_terminal-Ends}

-- How a pipeline that must not be redelivered ends: settled or with an exception, and settled if
-- `failure_db` works.
record Final {F : Num} (works : Type 0) (id : ℕ) (v : World F) (end : Outcome Terminal × World F)
    : Type 0 where
  ends : Ends id v end
  not_transient : NotTransient end.0
  returns : works → (key : Terminal) × (end.0 ≡ done key)

module _ {F : Num} {Bytes : Type 0} (env : Delivery F Bytes) where
  abbrev DbWorks : Type 0
  DbWorks = Works env.failure_db

  after_save-NotTransient :
      (id : ℕ) (v : World F) (end : Outcome (Unit {0}) × World F) (key : Terminal)
      → Saved id v end
      → NotTransient (((λ _. end) >> (λ w. (done key, w))) v).0
  after_save-NotTransient id v (done _, w) key s = tt
  after_save-NotTransient id v (transient e, w) key s = s.not_transient
  after_save-NotTransient id v (raised e, w) key s = tt

  after_save_returns :
      (v : World F) (end : Outcome (Unit {0}) × World F) (key : Terminal)
      → end.0 ≡ done tt
      → (((λ _. end) >> (λ w. (done key, w))) v).0 ≡ done key
  after_save_returns v (done _, w) key e = refl
  after_save_returns v (transient _, w) key e = cc
  after_save_returns v (raised _, w) key e = cc

  fail_terminal-Final :
      (id : ℕ) (message : Text) (key : Terminal) (v : World F)
      → Final DbWorks id v (fail_terminal env id message key v)
  unfolding fail_terminal
  fail_terminal-Final id message key v =
      let saved = save_failure F env.failure_db id message v in
      record {
        ends = unfold fail_terminal in fail_terminal-Ends env id message key v;
        not_transient =
            after_save-NotTransient id v saved key (save_failure-Saved env.failure_db id message v);
        returns = λ w. (
          key,
          after_save_returns v saved key (save_failure_returns env.failure_db id message v w),
        );
      }

  found-Final :
      (pending : Bool) (id : ℕ) (row : GenerationModel) (v : World F)
      → gives_up env.num_delivered ≡ true
      → v.generations id ≡ some row
      → is_pending row.status ≡ pending
      → Final DbWorks id v (found env pending id row v)
  unfolding process_pending
  found-Final true id row v h r e =
      subst (λ b. Final DbWorks id v (delivered_step env b id row v)) (sym h)
        (fail_terminal-Final id (limit_message env.num_delivered) row.file_storage_key v)
  found-Final false id row v h r e = record {
    ends = (Quiet-refl v, ground arith);
    not_transient = tt;
    returns = λ w. (row.file_storage_key, refl);
  }

  after_snapshot-Final :
      (id : ℕ) (row : Option GenerationModel) (v : World F)
      → gives_up env.num_delivered ≡ true
      → v.generations id ≡ row
      → Final DbWorks id v (after_snapshot env id row v)
  after_snapshot-Final id none v h r = record {
    ends = (Quiet-refl v, ground arith);
    not_transient = tt;
    returns = λ w. (none, refl);
  }
  after_snapshot-Final id (some row) v h r = found-Final (is_pending row.status) id row v h r refl

  snapshot_step-Final :
      (broken : Bool) (id : ℕ) (v : World F)
      → gives_up env.num_delivered ≡ true
      → Final (DbWorks × (broken ≡ false)) id v (snapshot_step env broken id v)
  snapshot_step-Final true id v h = record {
    ends = Quiet-refl v;
    not_transient = tt;
    returns = λ w. cc w.1;
  }
  snapshot_step-Final false id v h =
      let f = after_snapshot-Final id (v.generations id) v h refl in
      record { ends = f.ends; not_transient = f.not_transient; returns = λ w. f.returns w.0 }

  deleted_acks :
      (deletes : Bool) (id : ℕ) (key : Text) (v w : World F)
      → Quiet v w
      → claimable F id w ≡ none
      → let replied = record w { replies = w.replies ++ ack ∷ [] } in
        let u = if deletes then record replied { objects = without key w.objects } else replied in
        (u.replies ≡ v.replies ++ ack ∷ []) × (claimable F id u ≡ none)
  deleted_acks true id key v w q s = (ap (λ l. l ++ ack ∷ []) q.replies, s)
  deleted_acks false id key v w q s = (ap (λ l. l ++ ack ∷ []) q.replies, s)

  conclude_acks :
      (id : ℕ) (v : World F) (end : Outcome Terminal × World F) {key : Terminal}
      → Ends id v end
      → end.0 ≡ done key
      → let w = (conclude env id end.0 end.1).1 in
        (w.replies ≡ v.replies ++ ack ∷ []) × (claimable F id w ≡ none)
  conclude_acks id v (done none, w) (q, s) e = (ap (λ l. l ++ ack ∷ []) q.replies, s)
  conclude_acks id v (done (some key), w) (q, s) e = deleted_acks env.deletes id key v w q s
  conclude_acks id v (transient x, w) q e = cc
  conclude_acks id v (raised x, w) q e = cc

  -- From delivery 10 on, with a readable row and databases that work, the message is acked and its
  -- generation is settled, whatever the object store, the CRM, the validation, the registry and
  -- the solver would have done: no message is redelivered forever.
  pub handle_message_limit :
      (id n : ℕ) (v : World F)
      → env.num_delivered ≡ some n
      → max_deliveries ≤ n
      → env.snapshot_raises ≡ false
      → Works env.failure_db
      → let w = (handle_message env (event (some id)) v).1 in
        (w.replies ≡ v.replies ++ ack ∷ []) × (claimable F id w ≡ none)
  unfolding handle_message handle_generation process
  handle_message_limit id n v count late up works =
      let f = snapshot_step-Final env.snapshot_raises id v (ground arith) in
      conclude_acks id v (snapshot_step env env.snapshot_raises id v) f.ends
        (f.returns (works, up)).1

  crashed_step-Final :
      (id : ℕ) (exc : Text) (key : Terminal) (v : World F)
      → Final DbWorks id v (crashed_step env false id exc key v)
  crashed_step-Final id exc key v =
      fail_terminal-Final id
        (codes "solver_crashed (likely out of memory) on delivery "
          ++ (shown env.num_delivered ++ (codes ": " ++ exc)))
        key v

  crashed_step_returns :
      (id : ℕ) (exc : Text) (key : Terminal) (v : World F)
      → Works env.failure_db
      → (crashed_step env false id exc key v).0 ≡ done key
  unfolding fail_terminal
  crashed_step_returns id exc key v works =
      let message =
        codes "solver_crashed (likely out of memory) on delivery "
        ++ (shown env.num_delivered ++ (codes ": " ++ exc)) in
      after_save_returns v (save_failure F env.failure_db id message v) key
        (save_failure_returns env.failure_db id message v works)

  Ends-settled :
      (id : ℕ) (v : World F) (end : Outcome Terminal × World F) {key : Terminal}
      → Ends id v end
      → end.0 ≡ done key
      → claimable F id end.1 ≡ none
  Ends-settled id v (done key, w) (q, s) e = s
  Ends-settled id v (transient x, w) q e = cc
  Ends-settled id v (raised x, w) q e = cc

  retries_crash_lt :
      (d : ℕ) → env.num_delivered ≡ some d → d < 3 → retries_crash env.num_delivered ≡ true
  retries_crash_lt d count early = ground arith

  retries_crash_le :
      (d : ℕ) → env.num_delivered ≡ some d → 3 ≤ d → retries_crash env.num_delivered ≡ false
  retries_crash_le d count late = ground arith

  -- A solver crash on delivery `d`: below 3 it is raised as transient with nothing written, so the
  -- message is redelivered; from 3 on it is never transient, and with databases that work it
  -- returns the storage key with the generation settled.
  pub after_solver_crash_limit :
      (id d : ℕ) (exc : Text) (key : Terminal) (v : World F)
      → env.num_delivered ≡ some d
      → let end = after_solver_crash env id exc key v in
        (d < max_solver_crash_deliveries → (e : Text) × (end ≡ (transient e, v)))
        × (max_solver_crash_deliveries ≤ d → NotTransient end.0)
        × (max_solver_crash_deliveries ≤ d
            → Works env.failure_db
            → (end.0 ≡ done key) × (claimable F id end.1 ≡ none))
  unfolding after_solver_crash
  after_solver_crash_limit id d exc key v count =
      let final = crashed_step-Final id exc key v in
      let crash = λ (b : Bool). crashed_step env b id exc key v in
      (
        (λ early. (_, ap crash (retries_crash_lt d count early))),
        (λ late.
            subst (λ b. NotTransient (crash b).0) (sym (retries_crash_le d count late))
              final.not_transient),
        (λ late works.
            subst (λ b. ((crash b).0 ≡ done key) × (claimable F id (crash b).1 ≡ none))
              (sym (retries_crash_le d count late))
              (let returned = crashed_step_returns id exc key v works in
                (returned, Ends-settled id v (crash false) final.ends returned))),
      )
