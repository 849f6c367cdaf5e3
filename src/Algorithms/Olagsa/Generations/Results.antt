-- ===== src/Algorithms/Olagsa/Generations/Results.antt =====
-- What `run` returns: the fitness and the key of each result belong together.
use allocation_key_generatio.Algorithms.Olagsa.WarmStart.{solve_key}
use allocation_key_generatio.Algorithms.Olagsa.Selection.Kept.{rank-Holds, start_specie-Holds}
use allocation_key_generatio.Algorithms.Olagsa.Selection.{rank, start_specie}
use allocation_key_generatio.Algorithms.Olagsa.Genes.{evaluate, initialize_population}
use allocation_key_generatio.Algorithms.Olagsa.Placement.Kept.{assign_species-Holds}
use allocation_key_generatio.Algorithms.Olagsa.Placement.{assign_species}
use allocation_key_generatio.Algorithms.Olagsa.Genes.Sized.{Sized, initialize_population-Sized}
use allocation_key_generatio.Algorithms.Olagsa.Draw.{
  Returns, bind-Returns, if_Returns, or_raise, or_raise-Returns, raise, Ran, Returns-Ran,
  both_Returns, continue, pure,
}
use allocation_key_generatio.Algorithms.Olagsa.Outside.{Outside}
use allocation_key_generatio.Algorithms.Olagsa.Species.Ids.{Opens, initialize_species-Opens}
use allocation_key_generatio.Base.Num.{Num}
use allocation_key_generatio.Algorithms.Olagsa.Solution.{Key}
use allocation_key_generatio.Algorithms.Olagsa.Species.{
  Individual, OlagsaGa, Specie, initialize_species, new_individual,
}
use allocation_key_generatio.Algorithms.Olagsa.Generations.{
  BestSolution, best_of, best_solution, collect, evaluated, evolve, run, run_search, run_single,
  same_shape,
}
use allocation_key_generatio.Base.Signs.{All-mapped}
use allocation_key_generatio.Base.{
  All, All-append, List, Option, [], ap, arith, if_split, length, map, refl, some, subst, suc, sym,
  ℕ, ◌≤◌, ◌==◌, ◌∙◌, ◌∷◌, ◌≡◌, if◌then◌else◌,
}
use allocation_key_generatio.Algorithms.Olagsa.WarmStart.Agreement.{solve_key-Short}
use allocation_key_generatio.Algorithms.Olagsa.Generations.Scored.{
  Scored, Fit, FitSpecie, evaluate-Fit, evaluated-Fit, evolve-Fit, adjusted-Fit,
}

module _ (F : Num) (L : Outside F) (m : ℕ) (c va : List (List F.Real)) where
  -- The key is what `solve_key` makes of these genes, from some state of the solver.
  abbrev pub Solved : Option (Key F) → List F.Real → Type 0
  Solved key genes =
      (its : Key F) × (key ≡ some its)
      × Ran (solve_key F L (suc m) c va genes) its
      × (length its ≤ suc m)

  -- A result: `m + 1` genes, with the fitness and the key of these genes
  abbrev pub Judged : BestSolution F → Type 0
  Judged bs =
      (length bs.individual.chromosomes ≡ suc m)
      × Scored F L (suc m) c va bs.fitness bs.individual.chromosomes
      × Solved bs.key bs.individual.chromosomes

  listed-Judged :
      (ga : OlagsaGa F) (best : Individual F)
      → Fit F L (suc m) c va best
      → Returns (All Judged) (λ s.
        continue
          (λ key. pure (best_solution F L ga c va best key ∷ []))
          (solve_key F L (suc m) c va best.chromosomes s))
  listed-Judged ga best (h, fit) =
      let solves = solve_key F L (suc m) c va best.chromosomes in
      bind-Returns (λ key. Ran solves key × (length key ≤ suc m)) (All Judged) solves
        (λ key. pure (best_solution F L ga c va best key ∷ []))
        (both_Returns (Ran solves) (λ key. length key ≤ suc m) solves (Returns-Ran solves)
          (solve_key-Short F L va best.chromosomes (suc m) c))
        (λ key r s. ((h, fit, (key, refl, r.0, r.1)), tt))

  module _ (ga : OlagsaGa F) (same_n : ga.num_key_iteration ≡ suc m) where
    best_of-Judged :
        (inds : List (Individual F))
        → All (Fit F L (suc m) c va) inds
        → Returns (All Judged) (best_of F L ga c va inds)
    unfolding best_of
    best_of-Judged [] h = λ s. tt
    best_of-Judged (best ∷ others) h =
        subst
          (λ k. Returns (All Judged) (λ s.
            continue (λ key. pure (best_solution F L ga c va best key ∷ []))
              (solve_key F L k c va best.chromosomes s)))
          (sym same_n) (listed-Judged ga best h.0)

    collect-Judged :
        (species : List (Specie F))
        → All (FitSpecie F L (suc m) c va) species
        → Returns (All Judged) (collect F L ga c va species)
    unfolding collect
    collect-Judged [] hs = λ s. tt
    collect-Judged (s ∷ species) hs =
        bind-Returns (All Judged) (All Judged) (best_of F L ga c va (rank F s.individuals)) _
          (best_of-Judged (rank F s.individuals) (
            rank-Holds F (Fit F L (suc m) c va) (adjusted-Fit F L (suc m) c va) s.individuals hs.0))
          (λ found hf.
            bind-Returns (All Judged) (All Judged) (collect F L ga c va species) _
              (collect-Judged species hs.1) (λ others ho s'. All-append Judged found others hf ho))

    run_single-Judged : m ≡ 0 → Returns (All Judged) (run_single F L ga c va)
    unfolding run_single
    run_single-Judged zero_m =
        let only = new_individual F (F.one ∷ []) F.nought in
        bind-Returns (Fit F L (suc m) c va) (All Judged) (evaluate F L ga c va only) _
          (evaluate-Fit F L (suc m) c va ga same_n only (ap suc (sym zero_m)))
          (λ ind h.
            subst
              (λ k. Returns (All Judged) (λ s.
                continue (λ key. pure (best_solution F L ga c va ind key ∷ []))
                  (solve_key F L (suc k) c va ind.chromosomes s)))
              zero_m (listed-Judged ga ind h))

  empty_Fit :
      (species : List (Specie F))
      → All (λ s. s.individuals ≡ []) species
      → All (FitSpecie F L (suc m) c va) species
  empty_Fit [] h = tt
  empty_Fit (s ∷ species) h =
      (subst (All (Fit F L (suc m) c va)) (sym h.0) tt, empty_Fit species h.1)

  run_search-Judged :
      (ga : OlagsaGa F)
      → ga.num_key_iteration ≡ suc m
      → Returns (All Judged) (run_search F L ga c va)
  unfolding run_search
  run_search-Judged ga same_n =
      bind-Returns (All (Sized F L (suc m))) (All Judged) (initialize_population F L ga) _
        (initialize_population-Sized F L (suc m) ga same_n)
        (λ drawn hd.
          bind-Returns (All (Fit F L (suc m) c va)) (All Judged) (evaluated F L ga c va drawn) _
            (evaluated-Fit F L (suc m) c va ga same_n drawn hd)
            (λ population hp.
              bind-Returns (Opens F L ga) (All Judged) (or_raise (initialize_species F L ga)) _
                (or_raise-Returns (Opens F L ga) (initialize_species F L ga)
                  (initialize_species-Opens F L ga))
                (λ r ho.
                  bind-Returns (All (FitSpecie F L (suc m) c va)) (All Judged)
                    (or_raise (assign_species F L population r.0)) _
                    (or_raise-Returns (All (FitSpecie F L (suc m) c va))
                      (assign_species F L population r.0)
                      (assign_species-Holds F L (Fit F L (suc m) c va) population r.0 hp
                        (empty_Fit r.0 ho.1)))
                    (λ species hs.
                      bind-Returns (All (FitSpecie F L (suc m) c va)) (All Judged)
                        (evolve F L r.1 c va r.1.num_generation (map (start_specie F) species)) _
                        (evolve-Fit F L (suc m) c va r.1 (ho.0 ∙ same_n) r.1.num_generation
                          (map (start_specie F) species)
                          (All-mapped (FitSpecie F L (suc m) c va) (FitSpecie F L (suc m) c va)
                            (start_specie F)
                            (start_specie-Holds F (Fit F L (suc m) c va)
                              (adjusted-Fit F L (suc m) c va))
                            species hs))
                        (λ last hl. collect-Judged r.1 (ho.0 ∙ same_n) last hl)))))

  single_or_search :
      (ga : OlagsaGa F)
      → ga.num_key_iteration ≡ suc m
      → Returns
          (All Judged)
          (if ga.num_key_iteration == 1 then run_single F L ga c va else run_search F L ga c va)
  single_or_search ga same_n =
      if_split (Returns (All Judged)) (ga.num_key_iteration == 1)
        (λ e. run_single-Judged ga same_n (ground (arith, same_n, e)))
        (λ e. run_search-Judged ga same_n)

  -- Whatever is drawn and whatever the solver keeps between its solves, `run` with `m + 1` iterations
  -- raises or returns results of which each has a chromosome of `m + 1` genes, the score of what
  -- `solve_genetic` ends in for that chromosome as its fitness, and what `solve_key` makes of the
  -- same chromosome as its key, which has at most `m + 1` iterations. The two may start from
  -- different states of the solver.
  pub run-Judged :
      (ga : OlagsaGa F) → ga.num_key_iteration ≡ suc m → Returns (All Judged) (run F L ga c va)
  unfolding run
  run-Judged ga same_n =
      if_Returns (All Judged) (same_shape F L c va) _ raise (single_or_search ga same_n) (λ s. tt)
