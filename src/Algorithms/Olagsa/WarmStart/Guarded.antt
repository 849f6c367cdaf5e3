-- ===== src/Algorithms/Olagsa/WarmStart/Guarded.antt =====
-- The solves of a chromosome with the solver's exceptions taken for a status.
use allocation_key_generatio.Base.{
  ℕ, zero, suc, ◌≡◌, refl, ◌⊎◌, inl, inr, Option, none, some, true, false, Bool, List, get_elem?,
  if◌then◌else◌,
}
use allocation_key_generatio.Base.Num.{Num, scale_rows, plus_rows}
use allocation_key_generatio.Algorithms.BruteForce.Iteration.{first_row}
use allocation_key_generatio.Algorithms.Olagsa.Draw.{Draw, continue, pure, raise}
use allocation_key_generatio.Algorithms.Olagsa.Outside.{Outside, Answer, unsolved}
use allocation_key_generatio.Algorithms.Olagsa.Solution.{Solution, to_iteration}
use allocation_key_generatio.Algorithms.Olagsa.WarmStart.{
  Round, repeats, solution_of, solve, with_demand, on_optimal, surplus_from_previous_iteration,
  next_demand, carry_round, round_of, genetic_rounds, solve_genetic,
}

module _ (F : Num) where
  -- An exception of the solver, which leaves its state, becomes a status that is not "optimal".
  abbrev pub answered : {S : Type 0} → S → Option (Answer F × S) → Option (Answer F × S)
  answered s none = some (unsolved, s)
  answered s (some r) = some r

  abbrev pub guarded : Outside F → Outside F
  guarded L = record L { solve = λ row c s. answered s (L.solve row c s) }

module _ (F : Num) (L : Outside F) where
  -- Both end alike, or the one raises where the other ends with a status.
  abbrev pub RoundAgrees : Option (Round F × L.Seed) → Option (Round F × L.Seed) → Type 0
  RoundAgrees safe real =
      (real ≡ safe)
      ⊎ ((real ≡ none) × (c : List (List F.Real)) × (s : L.Seed) × (safe ≡ some ((c, none), s)))

  -- The same for the solution that the solves end in
  abbrev pub EndAgrees :
      Option (Option (Solution F) × L.Seed) → Option (Option (Solution F) × L.Seed) → Type 0
  EndAgrees safe real = (real ≡ safe) ⊎ ((real ≡ none) × (s : L.Seed) × (safe ≡ some (none, s)))

  answered-RoundAgrees :
      (va c : List (List F.Real)) (s : L.Seed) (o : Option (Answer F × L.Seed))
      → RoundAgrees
          (continue
            (λ sol. pure (c, sol))
            (continue (λ a. pure (solution_of F va c a)) (answered F s o)))
          (continue (λ sol. pure (c, sol)) (continue (λ a. pure (solution_of F va c a)) o))
  answered-RoundAgrees va c s none = inr (refl, c, s, refl)
  answered-RoundAgrees va c s (some r) = inl refl

  tested-RoundAgrees :
      (tiled : Bool) (va c : List (List F.Real)) (s : L.Seed)
      → RoundAgrees
          (continue
            (λ sol. pure (c, sol))
            ((if tiled
                then (λ s'.
                    continue
                      (λ a. pure (solution_of F va c a))
                      (answered F s' (L.solve (first_row va) c s')))
                else raise)
              s))
          (continue
            (λ sol. pure (c, sol))
            ((if tiled
                then (λ s'.
                    continue (λ a. pure (solution_of F va c a)) (L.solve (first_row va) c s'))
                else raise)
              s))
  tested-RoundAgrees true va c s = answered-RoundAgrees va c s (L.solve (first_row va) c s)
  tested-RoundAgrees false va c s = inl refl

  solve-RoundAgrees :
      (va c : List (List F.Real)) (s : L.Seed)
      → RoundAgrees (with_demand F (guarded F L) va c s) (with_demand F L va c s)
  unfolding solve
  solve-RoundAgrees va c s = tested-RoundAgrees (repeats F (first_row va) va) va c s

  carry-RoundAgrees :
      (va c : List (List F.Real)) (share : F.Real) (current : Solution F)
      (carry : Option (List (List F.Real))) (s : L.Seed)
      → RoundAgrees
          (carry_round F (guarded F L) va c share current carry s)
          (carry_round F L va c share current carry s)
  carry-RoundAgrees va c share current none s = inl refl
  carry-RoundAgrees va c share current (some carry) s =
      solve-RoundAgrees (plus_rows F (scale_rows F va share) carry) (next_demand F L c current.vapa)
        s

  pub round-RoundAgrees :
      (i : ℕ) (va c : List (List F.Real)) (current : Option (Solution F)) (share : Option F.Real)
      (s : L.Seed)
      → RoundAgrees
          (round_of F (guarded F L) i va c current share s)
          (round_of F L i va c current share s)
  unfolding to_iteration
  round-RoundAgrees i va c current none s = inl refl
  round-RoundAgrees zero va c current (some share) s = solve-RoundAgrees (scale_rows F va share) c s
  round-RoundAgrees (suc i) va c none (some share) s = inl refl
  round-RoundAgrees (suc i) va c (some current) (some share) s =
      carry-RoundAgrees va c share current
        (surplus_from_previous_iteration F L (to_iteration F L current share).consumers) s

  step-EndAgrees :
      (safe real : List (List F.Real) → Solution F → Draw L.Seed (Option (Solution F)))
      → ((c : List (List F.Real)) (sol : Solution F) (s : L.Seed)
          → EndAgrees (safe c sol s) (real c sol s))
      → (o p : Option (Round F × L.Seed)) → RoundAgrees o p
      → EndAgrees (continue (on_optimal F none safe) o) (continue (on_optimal F none real) p)
  step-EndAgrees safe real h o p (inr (raised, c, s, e)) = rw (raised, e) (inr (refl, s, refl))
  step-EndAgrees safe real h none p (inl e) = rw e (inl refl)
  step-EndAgrees safe real h (some ((c, none), s)) p (inl e) = rw e (inl refl)
  step-EndAgrees safe real h (some ((c, some sol), s)) p (inl e) = rw e (h c sol s)

  rounds-EndAgrees :
      (va : List (List F.Real)) (shares : List F.Real) (n i : ℕ) (c : List (List F.Real))
      (current : Option (Solution F)) (s : L.Seed)
      → EndAgrees
          (genetic_rounds F (guarded F L) va shares n i c current s)
          (genetic_rounds F L va shares n i c current s)
  unfolding genetic_rounds
  rounds-EndAgrees va shares zero i c current s = inl refl
  rounds-EndAgrees va shares (suc n) i c current s =
      step-EndAgrees (λ c' sol. genetic_rounds F (guarded F L) va shares n (suc i) c' (some sol))
        (λ c' sol. genetic_rounds F L va shares n (suc i) c' (some sol))
        (λ c' sol s'. rounds-EndAgrees va shares n (suc i) c' (some sol) s')
        (round_of F (guarded F L) i va c current (get_elem? shares i) s)
        (round_of F L i va c current (get_elem? shares i) s)
        (round-RoundAgrees i va c current (get_elem? shares i) s)

  pub solve_genetic-EndAgrees :
      (n : ℕ) (c va : List (List F.Real)) (shares : List F.Real) (s : L.Seed)
      → EndAgrees
          (solve_genetic F (guarded F L) n c va shares s)
          (solve_genetic F L n c va shares s)
  unfolding solve_genetic
  solve_genetic-EndAgrees n c va shares s = rounds-EndAgrees va shares n 0 c none s
