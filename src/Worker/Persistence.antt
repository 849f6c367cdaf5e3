-- ===== src/Worker/Persistence.antt =====
-- worker/persistence.py: the two saves of the worker. Each is one read, one conditional UPDATE
-- with its commit, then the audit and the realtime hint.
pub mod Claims
pub mod Tree
pub mod Settles
pub mod Messages
use allocation_key_generatio.Base.{
  ℕ, Bool, true, false, Option, none, some, List, [], ◌∷◌, ◌++◌, map, length, take, if◌then◌else◌,
}
use allocation_key_generatio.Base.Text.{Text, codes}
use allocation_key_generatio.Base.Num.{Num, sum}
use allocation_key_generatio.Shared.Const.{Status, is_pending}
use allocation_key_generatio.Shared.Results.{
  ConsumerResult, IterationResult, AllocationKeyResult, AlgorithmResult,
}
use allocation_key_generatio.Worker.World.{
  GenerationModel, ConsumerGeneratedModel, IterationGeneratedModel, AllocationKeyGeneratedModel,
  AuditAction, generation_succeeded, generation_failed, AuditPayload, key_count, error_text,
  AuditLogInput, Emitted, generations_completed, World, Outcome, done, raised, Action, ◌>>=◌, ◌>>◌,
  pure, raise_error, modify, gets, count, set_row,
}

abbrev pub error_message_max_len : ℕ
error_message_max_len = 2000

-- How a commit ends: it takes effect, is rolled back with an exception, or takes effect and the
-- answer is lost, which raises as well.
pub data Commit : Type 0 where
  commits rolls_back unacknowledged : Commit

-- How the audit step ends: the row is written, the service swallows its own error, or the commit
-- of the CRM session raises.
pub data Audit : Type 0 where
  audit_written audit_swallowed audit_raises : Audit

-- What the databases and the realtime broker do during one save.
pub record Weather : Type 0 where
  pub read_raises : Bool
  pub commit : Commit
  pub audit : Audit
  pub emits : Bool

module _ (F : Num) where
  consumer_row : ℕ → ConsumerResult F → ConsumerGeneratedModel F
  consumer_row community c = record {
    name = c.name;
    energy_allocated_percentage = c.energy_allocated_percentage;
    id_community = community;
  }

  iteration_row : ℕ → IterationResult F → IterationGeneratedModel F
  iteration_row community it = record {
    number = it.number;
    energy_allocated_percentage = it.energy_allocated_percentage;
    surplus_total = it.surplus_total;
    id_community = community;
    consumers = map (consumer_row community) it.consumers;
  }

  key_row : ℕ → ℕ → AllocationKeyResult F → AllocationKeyGeneratedModel F
  key_row id community key = record {
    name = key.name;
    description = key.description;
    surplus_total = sum F (map (λ it. it.surplus_total) key.iterations);
    id_generation = id;
    id_community = community;
    iterations = map (iteration_row community) key.iterations;
  }

  abbrev commit_with : Commit → (World F → World F) → Action F (Unit {0})
  commit_with commits change = modify change
  commit_with rolls_back change = raise_error (codes "commit")
  commit_with unacknowledged change = modify change >> raise_error (codes "commit")

  abbrev audit_with : Audit → AuditLogInput → Action F (Unit {0})
  audit_with audit_written entry = modify (λ w. record w { audits = w.audits ++ entry ∷ [] })
  audit_with audit_swallowed entry = pure tt
  audit_with audit_raises entry = raise_error (codes "audit commit")

  abbrev emit_with : Bool → Emitted → Action F (Unit {0})
  emit_with sent e = modify (λ w. if sent then record w { emitted = w.emitted ++ e ∷ [] } else w)

  -- What follows a claim that won: the commit of `change`, the metric, the audit and the hint.
  abbrev publish :
      Weather
      → ℕ
      → GenerationModel
      → (World F → World F)
      → Text
      → AuditAction
      → AuditPayload
      → Action F (Unit {0})
  publish weather id g change outcome action payload = do
    commit_with weather.commit change
    count (generations_completed g.algorithm_name outcome)
    audit_with weather.audit (record {
      action = action;
      entity_id = id;
      algorithm_name = g.algorithm_name;
      payload = payload;
      id_community = g.id_community;
    })
    emit_with weather.emits
        (record { community_id = g.id_community; resource = id; hint = outcome })

  -- The row as the conditional UPDATE leaves it, with the result tree.
  abbrev succeed_row : ℕ → GenerationModel → GenerationModel → AlgorithmResult F → World F → World F
  succeed_row id g now result w = record w {
    generations =
        set_row id (record now { status = Status.success; error_message = none }) w.generations;
    keys = w.keys ++ map (key_row id g.id_community) result.keys;
  }

  abbrev fail_row : ℕ → GenerationModel → Text → World F → World F
  fail_row id now message w = record w {
    generations =
        set_row id
          (record now {
            status = Status.failed;
            error_message = some (take error_message_max_len message);
          })
          w.generations;
  }

  -- `UPDATE … WHERE id = ? AND status = PENDING`: the row that it hits, if any.
  abbrev pub claimable : ℕ → World F → Option GenerationModel
  claimable id w = elim (w.generations id) [
    | none ↦ none
    | some now ↦ if is_pending now.status then some now else none
  ]

  -- `rowcount == 0`, or the claim has won the row `now`
  abbrev settle_success :
      Weather
      → ℕ
      → GenerationModel
      → AlgorithmResult F
      → Option GenerationModel
      → Action F (Unit {0})
  settle_success weather id g result none = pure tt
  settle_success weather id g result (some now) =
      publish weather id g (succeed_row id g now result) (codes "success") generation_succeeded
        (key_count (length result.keys))

  -- `g` is the row as it was read; the claim looks at the table again.
  unfoldable pub claim_success :
      Weather → ℕ → GenerationModel → AlgorithmResult F → Action F (Unit {0})
  unfolding key_row iteration_row consumer_row
  claim_success weather id g result w = settle_success weather id g result (claimable id w) w

  abbrev settle_failure :
      Weather → ℕ → GenerationModel → Text → Option GenerationModel → Action F (Unit {0})
  settle_failure weather id g message none = pure tt
  settle_failure weather id g message (some now) =
      publish weather id g (fail_row id now message) (codes "failed") generation_failed
        (error_text (take error_message_max_len message))

  unfoldable pub claim_failure : Weather → ℕ → GenerationModel → Text → Action F (Unit {0})
  claim_failure weather id g message w = settle_failure weather id g message (claimable id w) w

  -- The early returns of both saves: the read raises, or the row is missing.
  abbrev with_row :
      Bool → Option GenerationModel → (GenerationModel → Action F (Unit {0})) → Action F (Unit {0})
  with_row true row claim = raise_error (codes "database")
  with_row false none claim = pure tt
  with_row false (some g) claim = claim g

  unfoldable pub save_success : Weather → ℕ → AlgorithmResult F → Action F (Unit {0})
  unfolding claim_success
  save_success weather id result w =
      with_row weather.read_raises (w.generations id) (λ g. claim_success weather id g result) w

  unfoldable pub save_failure : Weather → ℕ → Text → Action F (Unit {0})
  unfolding claim_failure
  save_failure weather id message w =
      with_row weather.read_raises (w.generations id) (λ g. claim_failure weather id g message) w
