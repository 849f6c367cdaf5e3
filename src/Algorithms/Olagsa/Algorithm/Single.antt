-- ===== src/Algorithms/Olagsa/Algorithm/Single.antt =====
-- olagsa with a single iteration.
use allocation_key_generatio.Algorithms.Olagsa.WarmStart.{solve_genetic, solve_key}
use allocation_key_generatio.Algorithms.Olagsa.WarmStart.Guarded.{guarded}
use allocation_key_generatio.Algorithms.Olagsa.WarmStart.Spared.{
  Spares, continue-Spares, solve_genetic-Spares, solve_key-Spares,
}
use allocation_key_generatio.Algorithms.Olagsa.Draw.{Draw, pure, continue}
use allocation_key_generatio.Algorithms.Olagsa.Genes.{evaluate, scored}
use allocation_key_generatio.Base.Text.{Text}
use allocation_key_generatio.Base.Sorting.{sort_by}
use allocation_key_generatio.Algorithms.Olagsa.WarmStart.Total.{
  Shapes, Solves, guarded-Solves, genetic-Ended,
}
use allocation_key_generatio.Algorithms.Olagsa.Outside.{Outside}
use allocation_key_generatio.Algorithms.Olagsa.Algorithm.{
  OlagsaInput, solution_keys, keys_of, new_ga, run, sort_solutions,
}
use allocation_key_generatio.Base.Num.{Num, NumLaws}
use allocation_key_generatio.Base.{
  inl, ◌++◌, List, Option, [], ap, arith, length, length-replicate, none, refl, replicate, some,
  subst, suc, true, ℕ, ◌==◌, ◌∷◌, ◌≡◌, ◌≤◌,
}
use allocation_key_generatio.Algorithms.Olagsa.Solution.{Key, Solution}
use allocation_key_generatio.Algorithms.Olagsa.Species.{Individual, OlagsaGa, new_individual}
use allocation_key_generatio.Shared.Results.{AlgorithmResult}
use allocation_key_generatio.Algorithms.Olagsa.WarmStart.Agreement.{Agrees, solve_key-Agrees}
use allocation_key_generatio.Algorithms.Olagsa.Generations
use allocation_key_generatio.Algorithms.Olagsa.Generations.{
  best_solution, run_single, same_shape, BestSolution,
}

module _ (F : Num) (laws : NumLaws F) (L : Outside F) (solves : Solves F L) where
  key_found :
      (share : F.Real) (sol : Option (Solution F)) (s : L.Seed) (key : Option (Key F × L.Seed))
      → Agrees F L share 1 (some (sol, s)) key
      → (its : Key F) × (key ≡ some (its, s))
  key_found share none s key (its, (e, lt)) = (its, e)
  key_found share (some sol) s key (its, (e, len)) = (its, e)

  module _ (ga : OlagsaGa F) (one : ga.num_key_iteration ≡ 1) (k : ℕ) (row : List F.Real) where
    abbrev va : List (List F.Real)
    va = replicate (suc k) row

    run_single-Some :
        (c : List (List F.Real)) (s : L.Seed)
        → length c ≡ suc k
        → (solution : BestSolution F) × (s' : L.Seed) × (run_single F L ga c va s
            ≡ some (solution ∷ [], s'))
    unfolding run_single evaluate
    run_single-Some c s h =
        let (sol, s1, e) = genetic-Ended F laws L solves k row (F.one ∷ []) 1 c s h (omega arith) in
        let only = scored F L (new_individual F (F.one ∷ []) F.nought) sol in
        let (sol', s2, e') =
          genetic-Ended F laws L solves k row (F.one ∷ []) 1 c s1 h (omega arith) in
        let agrees : Agrees F L F.one 1 (some (sol', s2)) (solve_key F L 1 c va (F.one ∷ []) s1) =
          subst (λ o. Agrees F L F.one 1 o (solve_key F L 1 c va (F.one ∷ []) s1)) e'
            (solve_key-Agrees F L va (F.one ∷ []) 0 c s1) in
        let (its, found) = key_found F.one sol' s2 (solve_key F L 1 c va (F.one ∷ []) s1) agrees in
        (best_solution F L ga c va only its, s2, rw (one, e, found) refl)

module _ (F : Num) where
  one_of :
      (names : List Text) (fitness : F.Real) (key : Option (Key F))
      → length (solution_keys F names fitness key ++ []) ≤ 1
  unfolding solution_keys
  one_of names fitness none = omega arith
  one_of names fitness (some []) = omega arith
  one_of names fitness (some (it ∷ its)) = omega arith

  one_key :
      (names : List Text) (solution : BestSolution F)
      → length (keys_of F names (sort_solutions F (solution ∷ []))) ≤ 1
  unfolding keys_of sort_solutions sort_by
  one_key names solution = one_of names solution.fitness solution.key

module _ (F : Num) (L : Outside F) (ga : OlagsaGa F) (c va : List (List F.Real)) where
  evaluate-Spares :
      (ind : Individual F) (s : L.Seed)
      → Spares (evaluate F (guarded F L) ga c va ind s) (evaluate F L ga c va ind s)
  unfolding evaluate
  evaluate-Spares ind s =
      continue-Spares (λ sol. pure (scored F L ind sol)) (λ sol. pure (scored F L ind sol))
        (λ sol s'. inl refl)
        (solve_genetic F (guarded F L) ga.num_key_iteration c va ind.chromosomes s)
        (solve_genetic F L ga.num_key_iteration c va ind.chromosomes s)
        (solve_genetic-Spares F L ga.num_key_iteration c va ind.chromosomes s)

  run_single-Spares :
      (s : L.Seed) → Spares (run_single F (guarded F L) ga c va s) (run_single F L ga c va s)
  unfolding run_single
  run_single-Spares s =
      let only = new_individual F (F.one ∷ []) F.nought in
      let listed = λ (ind : Individual F) (key : Key F). best_solution F L ga c va ind key ∷ [] in
      continue-Spares
        (λ ind s'.
          continue (λ key. pure (listed ind key))
            (solve_key F (guarded F L) 1 c va ind.chromosomes s'))
        (λ ind s'.
          continue (λ key. pure (listed ind key)) (solve_key F L 1 c va ind.chromosomes s'))
        (λ ind s'.
          continue-Spares (λ key. pure (listed ind key)) (λ key. pure (listed ind key))
            (λ key s''. inl refl) (solve_key F (guarded F L) 1 c va ind.chromosomes s')
            (solve_key F L 1 c va ind.chromosomes s')
            (solve_key-Spares F L 1 c va ind.chromosomes s'))
        (evaluate F (guarded F L) ga c va only s) (evaluate F L ga c va only s)
        (evaluate-Spares only s)

module _ (F : Num) (laws : NumLaws F) (L : Outside F) (shapes : Shapes F L) where
  ended : List Text → List (BestSolution F) → Draw L.Seed (AlgorithmResult F)
  ended names found = pure (record { keys = keys_of F names (sort_solutions F found) })

  -- Over numbers with the laws of `NumLaws` and a solver whose values have the shapes of the problem:
  -- for a single iteration, and consumption and production of one shape with at least one consumer
  -- and one production profile repeated for each, from every state, `run` fails only where the
  -- solver raises. With the solver's exceptions taken for a status that is not "optimal" it always
  -- returns, with at most one key; and `run` itself returns the same result, or raises.
  pub run-Single :
      (inputs : OlagsaInput F) (names : List Text) (k : ℕ) (first row : List F.Real)
      (others : List (List F.Real)) (s : L.Seed)
      → inputs.iterations ≡ 1
      → length others ≡ k
      → length first ≡ length row
      → (result : AlgorithmResult F) × (s' : L.Seed) × (run F
            (guarded F L)
            inputs
            (record { C = first ∷ others; va = replicate (suc k) row; consumer_names = names })
            s
          ≡ some (result, s'))
        × (length result.keys ≤ 1)
        × Spares (some (result, s')) (
            run F L inputs
              (record { C = first ∷ others; va = replicate (suc k) row; consumer_names = names })
              s)
  unfolding run Generations.run ended
  run-Single inputs names k first row others s one h w =
      let G = guarded F L in
      let c = first ∷ others in
      let (solution, s', e) =
        run_single-Some F laws G (guarded-Solves F L shapes) (new_ga F inputs) one k row c s
          (ap suc h) in
      let shapes_agree : same_shape F G c (replicate (suc k) row) ≡ true =
        ground (arith, h, w, length-replicate k row) in
      let is_one : (inputs.iterations == 1) ≡ true = ground (arith, one) in
      (
        record { keys = keys_of F names (sort_solutions F (solution ∷ [])) },
        s',
        rw (shapes_agree, is_one, e) refl,
        one_key F names solution,
        (let real_shapes : same_shape F L c (replicate (suc k) row) ≡ true =
              ground (arith, h, w, length-replicate k row) in
            rw (real_shapes, is_one)
              (continue-Spares (ended names) (ended names) (λ found s''. inl refl)
                (some (solution ∷ [], s'))
                (run_single F L (new_ga F inputs) c (replicate (suc k) row) s)
                (subst
                  (λ o. Spares o (run_single F L (new_ga F inputs) c (replicate (suc k) row) s)) e
                  (run_single-Spares F L (new_ga F inputs) c (replicate (suc k) row) s)))),
      )
