-- ===== src/Worker/Persistence/Settles.antt =====
-- How a save ends: it never touches the object store or the broker, and a save that returns leaves
-- no pending row behind.
use allocation_key_generatio.Base.{
  ℕ, ◌≡◌, ◌≢◌, refl, ◌∙◌, Bool, true, false, Option, none, some, arith,
}
use allocation_key_generatio.Base.Text.{Text}
use allocation_key_generatio.Base.Num.{Num}
use allocation_key_generatio.Shared.Results.{AlgorithmResult}
use allocation_key_generatio.Worker.World.{
  GenerationModel, AuditAction, AuditPayload, World, Action, Outcome, done, transient, raised,
}
use allocation_key_generatio.Worker.Persistence.{
  Weather, Audit, audit_written, audit_swallowed, audit_raises, Commit, commits, rolls_back,
  unacknowledged, publish, claimable, settle_success, settle_failure, claim_success, claim_failure,
  succeed_row, fail_row, with_row, save_success, save_failure,
}

-- No `_TransientError` comes out.
abbrev pub NotTransient : {A : Type 0} → Outcome A → Type 0
NotTransient (done a) = Unit {0}
NotTransient (transient e) = ⊥
NotTransient (raised e) = Unit {0}

module _ {F : Num} where
  -- The object store and the replies are as before.
  pub record Quiet (v w : World F) : Type 0 where
    pub objects : w.objects ≡ v.objects
    pub replies : w.replies ≡ v.replies

  pub Quiet-refl : (w : World F) → Quiet w w
  Quiet-refl w = record { objects = refl; replies = refl }

  pub Quiet-trans : {u v w : World F} → Quiet u v → Quiet v w → Quiet u w
  Quiet-trans a b = record { objects = b.objects ∙ a.objects; replies = b.replies ∙ a.replies }

  -- On a return the generation is not pending any more.
  abbrev pub Settles : {A : Type 0} → ℕ → Outcome A × World F → Type 0
  Settles id (done a, w) = claimable F id w ≡ none
  Settles id (transient e, w) = Unit {0}
  Settles id (raised e, w) = Unit {0}

  -- What is shown of a save that began at `v`
  pub record Saved (id : ℕ) (v : World F) (end : Outcome (Unit {0}) × World F) : Type 0 where
    pub quiet : Quiet v end.1
    pub settles : Settles id end
    pub not_transient : NotTransient end.0

  publish-Saved :
      (broken : Bool) (commit : Commit) (audit : Audit) (emits : Bool) (id : ℕ)
      (read : GenerationModel) (change : World F → World F) (v : World F) (outcome : Text)
      (action : AuditAction) (payload : AuditPayload)
      → Quiet v (change v)
      → claimable F id (change v) ≡ none
      → let weather : Weather = record {
        read_raises = broken;
        commit = commit;
        audit = audit;
        emits = emits;
      } in
        Saved id v (publish F weather id read change outcome action payload v)
  publish-Saved _ rolls_back _ _ _ _ _ v _ _ _ q s = record {
    quiet = Quiet-refl v;
    settles = tt;
    not_transient = tt;
  }
  publish-Saved _ unacknowledged _ _ _ _ _ _ _ _ _ q s = record {
    quiet = q;
    settles = tt;
    not_transient = tt;
  }
  publish-Saved _ commits audit_raises _ _ _ _ _ _ _ _ q s = record {
    quiet = record { objects = q.objects; replies = q.replies };
    settles = tt;
    not_transient = tt;
  }
  publish-Saved _ commits audit_written true _ _ _ _ _ _ _ q s = record {
    quiet = record { objects = q.objects; replies = q.replies };
    settles = s;
    not_transient = tt;
  }
  publish-Saved _ commits audit_written false _ _ _ _ _ _ _ q s = record {
    quiet = record { objects = q.objects; replies = q.replies };
    settles = s;
    not_transient = tt;
  }
  publish-Saved _ commits audit_swallowed true _ _ _ _ _ _ _ q s = record {
    quiet = record { objects = q.objects; replies = q.replies };
    settles = s;
    not_transient = tt;
  }
  publish-Saved _ commits audit_swallowed false _ _ _ _ _ _ _ q s = record {
    quiet = record { objects = q.objects; replies = q.replies };
    settles = s;
    not_transient = tt;
  }

  settle_failure-Saved :
      (weather : Weather) (id : ℕ) (read : GenerationModel) (message : Text) (w : World F)
      (hit : Option GenerationModel)
      → claimable F id w ≡ hit
      → Saved id w (settle_failure F weather id read message hit w)
  settle_failure-Saved weather id read message w none h = record {
    quiet = Quiet-refl w;
    settles = h;
    not_transient = tt;
  }
  settle_failure-Saved weather id read message w (some now) h =
      publish-Saved weather.read_raises _ _ _ id read (fail_row F id now message) w _ _ _
        (record { objects = refl; replies = refl }) (ground arith)

  settle_success-Saved :
      (weather : Weather) (id : ℕ) (read : GenerationModel) (result : AlgorithmResult F)
      (w : World F) (hit : Option GenerationModel)
      → claimable F id w ≡ hit
      → Saved id w (settle_success F weather id read result hit w)
  settle_success-Saved weather id read result w none h = record {
    quiet = Quiet-refl w;
    settles = h;
    not_transient = tt;
  }
  settle_success-Saved weather id read result w (some now) h =
      publish-Saved weather.read_raises _ _ _ id read (succeed_row F id read now result) w _ _ _
        (record { objects = refl; replies = refl }) (ground arith)

  with_row-Saved :
      (broken : Bool) (row : Option GenerationModel) (id : ℕ) (w : World F)
      (claim : GenerationModel → Action F (Unit {0}))
      → w.generations id ≡ row
      → ((g : GenerationModel) → Saved id w (claim g w))
      → Saved id w (with_row F broken row claim w)
  with_row-Saved true row id w claim h k = record {
    quiet = Quiet-refl w;
    settles = tt;
    not_transient = tt;
  }
  with_row-Saved false none id w claim h k = record {
    quiet = Quiet-refl w;
    settles = ground arith;
    not_transient = tt;
  }
  with_row-Saved false (some g) id w claim h k = k g

  pub save_failure-Saved :
      (weather : Weather) (id : ℕ) (message : Text) (w : World F)
      → Saved id w (save_failure F weather id message w)
  unfolding save_failure
  save_failure-Saved weather id message w =
      with_row-Saved weather.read_raises (w.generations id) id w
        (λ g. claim_failure F weather id g message) refl
        (λ g. settle_failure-Saved weather id g message w (claimable F id w) refl)

  pub save_success-Saved :
      (weather : Weather) (id : ℕ) (result : AlgorithmResult F) (w : World F)
      → Saved id w (save_success F weather id result w)
  unfolding save_success
  save_success-Saved weather id result w =
      with_row-Saved weather.read_raises (w.generations id) id w
        (λ g. claim_success F weather id g result) refl
        (λ g. settle_success-Saved weather id g result w (claimable F id w) refl)

-- The databases answer, the commit is durable and the audit does not raise.
pub record Works (weather : Weather) : Type 0 where
  pub reads : weather.read_raises ≡ false
  pub durable : weather.commit ≡ commits
  pub audited : weather.audit ≢ audit_raises

module _ {F : Num} where
  publish_returns :
      (broken : Bool) (commit : Commit) (audit : Audit) (emits : Bool) (id : ℕ)
      (read : GenerationModel) (change : World F → World F) (v : World F) (outcome : Text)
      (action : AuditAction) (payload : AuditPayload)
      → let weather : Weather = record {
        read_raises = broken;
        commit = commit;
        audit = audit;
        emits = emits;
      } in
        commit ≡ commits
        → audit ≢ audit_raises
        → (publish F weather id read change outcome action payload v).0 ≡ done tt
  publish_returns _ rolls_back _ _ _ _ _ _ _ _ _ c a = cc
  publish_returns _ unacknowledged _ _ _ _ _ _ _ _ _ c a = cc
  publish_returns _ commits audit_raises _ _ _ _ _ _ _ _ c a = absurd (a refl)
  publish_returns _ commits audit_written _ _ _ _ _ _ _ _ c a = refl
  publish_returns _ commits audit_swallowed _ _ _ _ _ _ _ _ c a = refl

  settle_failure_returns :
      (weather : Weather) (id : ℕ) (read : GenerationModel) (message : Text) (w : World F)
      (hit : Option GenerationModel)
      → Works weather
      → (settle_failure F weather id read message hit w).0 ≡ done tt
  settle_failure_returns weather id read message w none h = refl
  settle_failure_returns weather id read message w (some now) h =
      publish_returns weather.read_raises _ _ _ id read (fail_row F id now message) w _ _ _
        h.durable h.audited

  with_row_returns :
      (broken : Bool) (row : Option GenerationModel) (w : World F)
      (claim : GenerationModel → Action F (Unit {0}))
      → broken ≡ false
      → ((g : GenerationModel) → (claim g w).0 ≡ done tt)
      → (with_row F broken row claim w).0 ≡ done tt
  with_row_returns true row w claim up k = cc
  with_row_returns false none w claim up k = refl
  with_row_returns false (some g) w claim up k = k g

  -- With databases that work, `save_failure` returns.
  pub save_failure_returns :
      (weather : Weather) (id : ℕ) (message : Text) (w : World F)
      → Works weather
      → (save_failure F weather id message w).0 ≡ done tt
  unfolding save_failure
  save_failure_returns weather id message w h =
      with_row_returns weather.read_raises (w.generations id) w
        (λ g. claim_failure F weather id g message) h.reads
        (λ g. settle_failure_returns weather id g message w (claimable F id w) h)
