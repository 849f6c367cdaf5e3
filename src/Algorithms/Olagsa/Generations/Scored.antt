-- ===== src/Algorithms/Olagsa/Generations/Scored.antt =====
-- Every individual of the search has the fitness of its own genes, and so has every result.
use allocation_key_generatio.Base.{
  ℕ, zero, suc, ◌≡◌, refl, sym, subst, Option, List, [], ◌∷◌, map, All, All-append, replicate,
  if◌then◌else◌,
}
use allocation_key_generatio.Base.Num.{Num, below, same}
use allocation_key_generatio.Base.Signs.{All-mapped}
use allocation_key_generatio.Algorithms.Olagsa.Outside.{Outside}
use allocation_key_generatio.Algorithms.Olagsa.Draw.{
  Returns, pure, or_raise, each, bind-Returns, if_Returns, any_Returns, or_raise-Returns, each-All,
  each-Returns, Ran, Returns-Ran, continue,
}
use allocation_key_generatio.Algorithms.Olagsa.Solution.{Solution}
use allocation_key_generatio.Algorithms.Olagsa.WarmStart.{solve_genetic}
use allocation_key_generatio.Algorithms.Olagsa.Species.{Individual, Specie, OlagsaGa}
use allocation_key_generatio.Algorithms.Olagsa.Genes.{
  score, scored, evaluate, mutate, breed_intra, breed_inter,
}
use allocation_key_generatio.Algorithms.Olagsa.Genes.Sized.{
  Sized, SizedSpecie, mutate-Sized, breed_intra-Sized, breed_inter-Sized,
}
use allocation_key_generatio.Algorithms.Olagsa.Selection.{
  adjusted, improve, all_stagnant, selected, total_adjusted,
}
use allocation_key_generatio.Algorithms.Olagsa.Selection.Kept.{improve-Holds, selected-Holds}
use allocation_key_generatio.Algorithms.Olagsa.Placement.{assign_species}
use allocation_key_generatio.Algorithms.Olagsa.Placement.Kept.{assign_species-Holds}
use allocation_key_generatio.Algorithms.Olagsa.Generations.{
  num_children, mates_outside, breed, breed_all, reproduce, evolve, evaluated,
}

module _ (F : Num) (L : Outside F) (n : ℕ) (c va : List (List F.Real)) where
  -- The fitness is the score of what the search's solves of these genes end in, from some state of
  -- the solver.
  abbrev pub Scored : F.Real → List F.Real → Type 0
  Scored fitness genes =
      (sol : Option (Solution F)) × Ran (solve_genetic F L n c va genes) sol
      × (fitness ≡ score F L sol)

  -- An individual with `n` genes and the fitness that its own genes have
  abbrev pub Fit : Individual F → Type 0
  Fit ind = Sized F L n ind × Scored ind.fitness ind.chromosomes

  abbrev pub FitSpecie : Specie F → Type 0
  FitSpecie s = All Fit s.individuals

  Fit-Sized : (inds : List (Individual F)) → All Fit inds → All (Sized F L n) inds
  Fit-Sized [] h = tt
  Fit-Sized (ind ∷ inds) h = (h.0.0, Fit-Sized inds h.1)

  FitSpecie-SizedSpecie :
      (species : List (Specie F)) → All FitSpecie species → All (SizedSpecie F L n) species
  FitSpecie-SizedSpecie [] h = tt
  FitSpecie-SizedSpecie (s ∷ species) h =
      (Fit-Sized s.individuals h.0, FitSpecie-SizedSpecie species h.1)

  pub adjusted-Fit : (size : ℕ) (ind : Individual F) → Fit ind → Fit (adjusted F size ind)
  adjusted-Fit size ind h = h

  module _ (ga : OlagsaGa F) (same_n : ga.num_key_iteration ≡ n) where
    pub evaluate-Fit :
        (ind : Individual F) → Sized F L n ind → Returns Fit (evaluate F L ga c va ind)
    unfolding evaluate
    evaluate-Fit ind h =
        subst
          (λ m. Returns Fit (λ s.
            continue (λ sol. pure (scored F L ind sol))
              (solve_genetic F L m c va ind.chromosomes s)))
          (sym same_n)
          (bind-Returns (Ran (solve_genetic F L n c va ind.chromosomes)) Fit
            (solve_genetic F L n c va ind.chromosomes) (λ sol. pure (scored F L ind sol))
            (Returns-Ran (solve_genetic F L n c va ind.chromosomes))
            (λ sol r s. (h, (sol, r, refl))))

    pub evaluated-Fit :
        (inds : List (Individual F))
        → All (Sized F L n) inds
        → Returns (All Fit) (evaluated F L ga c va inds)
    unfolding evaluated
    evaluated-Fit inds h = each-Returns (Sized F L n) Fit (evaluate F L ga c va) evaluate-Fit inds h

    breed-Fit :
        (species : List (Specie F)) (s : Specie F)
        → All FitSpecie species
        → FitSpecie s
        → Returns Fit (breed F L ga c va species s)
    unfolding breed
    breed-Fit species s hs h =
        bind-Returns (λ b. Unit {0}) Fit (mates_outside F L ga c va) _
          (any_Returns (mates_outside F L ga c va))
          (λ outside u.
            bind-Returns (Sized F L n) Fit
              (if outside then breed_inter F L ga s species else breed_intra F L ga s) _
              (if_Returns (Sized F L n) outside (breed_inter F L ga s species)
                (breed_intra F L ga s)
                (breed_inter-Sized F L n ga s species (Fit-Sized s.individuals h)
                  (FitSpecie-SizedSpecie species hs))
                (breed_intra-Sized F L n ga s (Fit-Sized s.individuals h)))
              (λ child hc.
                bind-Returns (Sized F L n) Fit
                  (if below F F.nought ga.mutation_rate then mutate F L ga child else pure child) _
                  (if_Returns (Sized F L n) (below F F.nought ga.mutation_rate)
                    (mutate F L ga child) (pure child) (mutate-Sized F L n ga child hc) (λ s'. hc))
                  (λ changed hm. evaluate-Fit changed hm)))

    breed_all-Fit :
        (species rest : List (Specie F)) (counts : List ℕ)
        → All FitSpecie species
        → All FitSpecie rest
        → Returns (All Fit) (breed_all F L ga c va species rest counts)
    unfolding breed_all
    breed_all-Fit species [] counts hs h = λ s. tt
    breed_all-Fit species (s ∷ rest) [] hs h = λ s'. tt
    breed_all-Fit species (s ∷ rest) (k ∷ counts) hs h =
        bind-Returns (All Fit) (All Fit) (each (λ x. breed F L ga c va species s) (replicate k tt))
          _
          (each-All Fit (λ x. breed F L ga c va species s) (λ x. breed-Fit species s hs h.0)
            (replicate k tt))
          (λ children hc.
            bind-Returns (All Fit) (All Fit) (breed_all F L ga c va species rest counts) _
              (breed_all-Fit species rest counts hs h.1)
              (λ others ho s'. All-append Fit children others hc ho))

    reproduce-Fit :
        (species : List (Specie F))
        → All FitSpecie species
        → Returns (All FitSpecie) (reproduce F L ga c va species)
    unfolding reproduce
    reproduce-Fit species hs =
        let counts = num_children F L ga (total_adjusted F species) species in
        bind-Returns (λ ns. Unit {0}) (All FitSpecie) (or_raise counts) _
          (any_Returns (or_raise counts))
          (λ ns u.
            bind-Returns (All Fit) (All FitSpecie) (breed_all F L ga c va species species ns) _
              (breed_all-Fit species species ns hs hs)
              (λ children hc.
                or_raise-Returns (All FitSpecie) (assign_species F L children species)
                  (assign_species-Holds F L Fit children species hc hs)))

    pub evolve-Fit :
        (generations : ℕ) (species : List (Specie F))
        → All FitSpecie species
        → Returns (All FitSpecie) (evolve F L ga c va generations species)
    unfolding evolve
    evolve-Fit zero species hs = λ s. hs
    evolve-Fit (suc k) species hs =
        let ranked = map (improve F) species in
        let hr : All FitSpecie ranked =
          All-mapped FitSpecie FitSpecie (improve F) (improve-Holds F Fit adjusted-Fit) species
            hs in
        let hc : All FitSpecie (selected F ranked) = selected-Holds F Fit adjusted-Fit ranked hr in
        if_Returns (All FitSpecie) (all_stagnant F ga ranked) (pure ranked) _ (λ s. hr)
          (if_Returns (All FitSpecie) (same F (total_adjusted F (selected F ranked)) F.nought)
            (pure (selected F ranked)) _ (λ s. hc)
            (bind-Returns (All FitSpecie) (All FitSpecie)
              (reproduce F L ga c va (selected F ranked)) (evolve F L ga c va k)
              (reproduce-Fit (selected F ranked) hc) (λ species' h'. evolve-Fit k species' h')))
