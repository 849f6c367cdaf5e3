-- ===== src/Worker/Persistence/Claims.antt =====
-- The conditional UPDATE of the two saves, under any interleaving of workers.
use allocation_key_generatio.Base.{
  ℕ, ◌+◌, ◌≤◌, ◌≡◌, ◌≢◌, refl, sym, ap, ◌∙◌, subst, ◌⊎◌, inl, inr, Bool, true, false, none, some,
  List, [], ◌∷◌, arith, length, length-append,
}
use allocation_key_generatio.Base.Text.{Text}
use allocation_key_generatio.Base.Num.{Num}
use allocation_key_generatio.Shared.Results.{AlgorithmResult}
use allocation_key_generatio.Worker.World.{GenerationModel, AuditAction, AuditPayload, World}
use allocation_key_generatio.Worker.Persistence.{
  publish, Weather, Audit, audit_written, audit_swallowed, audit_raises, Commit, commits,
  rolls_back, unacknowledged, claimable, settle_success, settle_failure, succeed_row, fail_row,
  claim_success, claim_failure,
}
use mathlib.Core.List.{Memᴰ}

-- What a worker that has read the row `read` asks of the database.
pub data Claim (F : Num) : Type 0 where
  succeed : (weather : Weather) (read : GenerationModel) → AlgorithmResult F → Claim F
  fail : (weather : Weather) (read : GenerationModel) → Text → Claim F

module _ {F : Num} where
  abbrev pub claim_weather : Claim F → Weather
  claim_weather (succeed weather read result) = weather
  claim_weather (fail weather read message) = weather

  -- One claim, its commit, audit and hint included
  abbrev pub run_claim : ℕ → Claim F → World F → World F
  run_claim id (succeed weather read result) w = (claim_success F weather id read result w).1
  run_claim id (fail weather read message) w = (claim_failure F weather id read message w).1

  abbrev pub run_claims : ℕ → List (Claim F) → World F → World F
  run_claims id [] w = w
  run_claims id (c ∷ cs) w = run_claims id cs (run_claim id c w)

  -- The transaction of a claim on the pending row `now`
  abbrev pub transaction : ℕ → GenerationModel → Claim F → World F → World F
  transaction id now (succeed weather read result) w = succeed_row F id read now result w
  transaction id now (fail weather read message) w = fail_row F id now message w

  -- The tables of `w` are those of `v`, and no audit or hint was added.
  pub record Untouched (v w : World F) : Type 0 where
    pub same_rows : w.generations ≡ v.generations
    pub same_keys : w.keys ≡ v.keys
    pub no_audit : w.audits ≡ v.audits
    pub no_hint : w.emitted ≡ v.emitted

  -- The tables of `w` are those after the change of `v`, with one audit and one hint at most.
  pub record Won (change : World F → World F) (v w : World F) : Type 0 where
    pub rows : w.generations ≡ (change v).generations
    pub tree : w.keys ≡ (change v).keys
    pub one_audit : length w.audits ≤ length (change v).audits + 1
    pub one_hint : length w.emitted ≤ length (change v).emitted + 1

  abbrev Ends : (World F → World F) → World F → World F → Type 0
  Ends change v w = Untouched v w ⊎ Won change v w

  -- A commit that takes effect leaves exactly its change.
  pub publish_wins :
      (broken : Bool) (commit : Commit) (audit : Audit) (emits : Bool) (id : ℕ)
      (read : GenerationModel) (change : World F → World F) (v : World F) (outcome : Text)
      (action : AuditAction) (payload : AuditPayload)
      → commit ≢ rolls_back
      → let weather : Weather = record {
        read_raises = broken;
        commit = commit;
        audit = audit;
        emits = emits;
      } in
        Won change v (publish F weather id read change outcome action payload v).1
  publish_wins _ rolls_back _ _ _ _ _ _ _ _ _ h = absurd (h refl)
  publish_wins _ unacknowledged _ _ _ _ change v _ _ _ h = record {
    rows = refl;
    tree = refl;
    one_audit = omega arith;
    one_hint = omega arith;
  }
  publish_wins _ commits audit_written true _ _ change v _ _ _ h = record {
    rows = refl;
    tree = refl;
    one_audit = omega (arith, length-append (change v).audits);
    one_hint = omega (arith, length-append (change v).emitted);
  }
  publish_wins _ commits audit_written false _ _ change v _ _ _ h = record {
    rows = refl;
    tree = refl;
    one_audit = omega (arith, length-append (change v).audits);
    one_hint = omega arith;
  }
  publish_wins _ commits audit_swallowed true _ _ change v _ _ _ h = record {
    rows = refl;
    tree = refl;
    one_audit = omega arith;
    one_hint = omega (arith, length-append (change v).emitted);
  }
  publish_wins _ commits audit_swallowed false _ _ change v _ _ _ h = record {
    rows = refl;
    tree = refl;
    one_audit = omega arith;
    one_hint = omega arith;
  }
  publish_wins _ commits audit_raises _ _ _ change v _ _ _ h = record {
    rows = refl;
    tree = refl;
    one_audit = omega arith;
    one_hint = omega arith;
  }

  -- What follows a claim that won commits its change, or leaves no trace.
  publish_cases :
      (broken : Bool) (commit : Commit) (audit : Audit) (emits : Bool) (id : ℕ)
      (read : GenerationModel) (change : World F → World F) (v : World F) (outcome : Text)
      (action : AuditAction) (payload : AuditPayload)
      → let weather : Weather = record {
        read_raises = broken;
        commit = commit;
        audit = audit;
        emits = emits;
      } in
        Ends change v (publish F weather id read change outcome action payload v).1
  publish_cases _ rolls_back _ _ _ _ _ _ _ _ _ =
      inl (record { same_rows = refl; same_keys = refl; no_audit = refl; no_hint = refl })
  publish_cases b commits a e id read change v o act p =
      inr (publish_wins b commits a e id read change v o act p (λ h. cc))
  publish_cases b unacknowledged a e id read change v o act p =
      inr (publish_wins b unacknowledged a e id read change v o act p (λ h. cc))

  -- A claim on a pending row wins or leaves no trace.
  claim_pending :
      (id : ℕ) (now : GenerationModel) (c : Claim F) (w : World F)
      → claimable F id w ≡ some now
      → Ends (transaction id now c) w (run_claim id c w)
  unfolding claim_success claim_failure
  claim_pending id now (succeed weather read result) w h =
      subst
        (λ o.
          Ends (succeed_row F id read now result) w (settle_success F weather id read result o w).1)
        (sym h)
        (publish_cases weather.read_raises _ _ _ id read (succeed_row F id read now result) w _ _ _)
  claim_pending id now (fail weather read message) w h =
      subst
        (λ o. Ends (fail_row F id now message) w (settle_failure F weather id read message o w).1)
        (sym h)
        (publish_cases weather.read_raises _ _ _ id read (fail_row F id now message) w _ _ _)

  -- A claim on a row that is not pending, or not there, does nothing at all.
  pub claim_settled :
      (id : ℕ) (c : Claim F) (w : World F) → claimable F id w ≡ none → run_claim id c w ≡ w
  unfolding claim_success claim_failure
  claim_settled id (succeed weather read result) w h =
      ap (λ o. (settle_success F weather id read result o w).1) h
  claim_settled id (fail weather read message) w h =
      ap (λ o. (settle_failure F weather id read message o w).1) h

  -- After a won claim the row is no longer pending.
  Won-unclaimable :
      (id : ℕ) (now : GenerationModel) (c : Claim F) (v w : World F)
      → Won (transaction id now c) v w
      → claimable F id w ≡ none
  Won-unclaimable id now (succeed _ _ _) v w won = rw won.rows (ground arith)
  Won-unclaimable id now (fail _ _ _) v w won = rw won.rows (ground arith)

  -- A claim whose commit takes effect wins a pending row.
  pub claim_wins :
      (id : ℕ) (now : GenerationModel) (c : Claim F) (w : World F)
      → (claim_weather c).commit ≢ rolls_back
      → claimable F id w ≡ some now
      → Won (transaction id now c) w (run_claim id c w)
  unfolding claim_success claim_failure
  claim_wins id now (succeed weather read result) w kept h =
      subst
        (λ o.
          Won (succeed_row F id read now result) w (settle_success F weather id read result o w).1)
        (sym h)
        (publish_wins weather.read_raises _ _ _ id read (succeed_row F id read now result) w _ _ _
          kept)
  claim_wins id now (fail weather read message) w kept h =
      subst
        (λ o. Won (fail_row F id now message) w (settle_failure F weather id read message o w).1)
        (sym h)
        (publish_wins weather.read_raises _ _ _ id read (fail_row F id now message) w _ _ _ kept)

  Untouched-claimable :
      (id : ℕ) (v w : World F) → Untouched v w → claimable F id w ≡ claimable F id v
  Untouched-claimable id v w u = rw u.same_rows refl

  pub settled_forever :
      (id : ℕ) (cs : List (Claim F)) (w : World F)
      → claimable F id w ≡ none
      → run_claims id cs w ≡ w
  settled_forever id [] w h = refl
  settled_forever id (c ∷ cs) w h = rw (claim_settled id c w h) (settled_forever id cs w h)

  -- What a sequence of claims on a pending row amounts to: nothing, or one of them alone.
  pub ExactlyOne : ℕ → GenerationModel → List (Claim F) → World F → World F → Type 0
  ExactlyOne id now cs v w =
      Untouched v w ⊎ ((c : Claim F) × Memᴰ c cs × Won (transaction id now c) v w)

  Untouched-trans : (u v w : World F) → Untouched u v → Untouched v w → Untouched u w
  Untouched-trans u v w a b = record {
    same_rows = b.same_rows ∙ a.same_rows;
    same_keys = b.same_keys ∙ a.same_keys;
    no_audit = b.no_audit ∙ a.no_audit;
    no_hint = b.no_hint ∙ a.no_hint;
  }

  Won-after :
      (id : ℕ) (now : GenerationModel) (c : Claim F) (u v w : World F)
      → Untouched u v
      → Won (transaction id now c) v w
      → Won (transaction id now c) u w
  Won-after id now (succeed _ _ _) u v w a b = record {
    rows = rw (← a.same_rows) b.rows;
    tree = rw (← a.same_keys) b.tree;
    one_audit = rw (← a.no_audit) b.one_audit;
    one_hint = rw (← a.no_hint) b.one_hint;
  }
  Won-after id now (fail _ _ _) u v w a b = record {
    rows = rw (← a.same_rows) b.rows;
    tree = rw (← a.same_keys) b.tree;
    one_audit = rw (← a.no_audit) b.one_audit;
    one_hint = rw (← a.no_hint) b.one_hint;
  }

  later :
      (id : ℕ) (now : GenerationModel) (c : Claim F) (cs : List (Claim F)) (u v : World F)
      → Untouched u v
      → ExactlyOne id now cs v (run_claims id cs v)
      → ExactlyOne id now (c ∷ cs) u (run_claims id cs v)
  unfolding ExactlyOne
  later id now c cs u v same (inl rest) = inl (Untouched-trans u v _ same rest)
  later id now c cs u v same (inr (d, member, won)) =
      inr (d, Memᴰ.tail member, Won-after id now d u v _ same won)

  -- However the claims of all workers on a pending generation interleave, whatever the databases
  -- do during each: the generation and key tables are untouched with no audit or hint added, or
  -- they are as after the transaction of exactly one of the claims, with one audit and one hint
  -- at most.
  pub run_claims-ExactlyOne :
      (id : ℕ) (now : GenerationModel) (cs : List (Claim F)) (w : World F)
      → claimable F id w ≡ some now
      → ExactlyOne id now cs w (run_claims id cs w)
  unfolding ExactlyOne
  run_claims-ExactlyOne id now [] w h =
      inl (record { same_rows = refl; same_keys = refl; no_audit = refl; no_hint = refl })
  run_claims-ExactlyOne id now (c ∷ cs) w h = elim (claim_pending id now c w h) [
    | inl same ↦ later id now c cs w (run_claim id c w) same (
        run_claims-ExactlyOne id now cs (run_claim id c w)
          (Untouched-claimable id w (run_claim id c w) same ∙ h))
    | inr won ↦ inr (
      c,
      Memᴰ.head refl,
      subst (Won (transaction id now c) w)
          (sym (
            settled_forever id cs (run_claim id c w)
              (Won-unclaimable id now c w (run_claim id c w) won)))
          won,
    )
  ]

  -- The same without the place of the claim
  pub run_claims_cases :
      (id : ℕ) (now : GenerationModel) (cs : List (Claim F)) (w : World F)
      → claimable F id w ≡ some now
      → Untouched w (run_claims id cs w)
        ⊎ ((c : Claim F) × Won (transaction id now c) w (run_claims id cs w))
  unfolding ExactlyOne
  run_claims_cases id now cs w h = elim (run_claims-ExactlyOne id now cs w h) [
    | inl same ↦ inl same
    | inr (c, member, won) ↦ inr (c, won)
  ]
