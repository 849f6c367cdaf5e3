-- ===== src/Algorithms/Olagsa/Generations.antt =====
-- ga.py: the loop over the generations, and `run`.
pub mod Scored
pub mod Results
pub mod Best
use allocation_key_generatio.Base.{
  traverse, cons_option, and_then, ℕ, zero, suc, Option, none, some, Bool, false, ◌&&◌, List, [],
  ◌∷◌, ◌++◌, map, length, replicate, ◌==◌, ltb, if◌then◌else◌,
}
use allocation_key_generatio.Base.Num.{Num, below, same}
use allocation_key_generatio.Algorithms.BruteForce.Iteration.{first_row}
use allocation_key_generatio.Algorithms.Olagsa.Outside.{Outside}
use allocation_key_generatio.Algorithms.Olagsa.Draw.{Draw, pure, raise, draw, or_raise, ◌>>=◌, each}
use allocation_key_generatio.Algorithms.Olagsa.Solution.{Key}
use allocation_key_generatio.Algorithms.Olagsa.WarmStart.{solve_key}
use allocation_key_generatio.Algorithms.Olagsa.Species.{
  Individual, Specie, OlagsaGa, new_individual, initialize_species,
}
use allocation_key_generatio.Algorithms.Olagsa.Genes.{
  initialize_population, mutate, evaluate, breed_intra, breed_inter,
}
use allocation_key_generatio.Algorithms.Olagsa.Selection.{
  rank, start_specie, improve, all_stagnant, selected, total_adjusted,
}
use allocation_key_generatio.Algorithms.Olagsa.Placement.{assign_species}

pub record BestSolution (F : Num) : Type 0 where
  pub individual : Individual F
  pub fitness : F.Real
  pub key : Option (Key F)

module _ (F : Num) where
  open F use {Real, nought, over, times, at_most, from_int}

  module _ (L : Outside F) where
    -- The count of `num_children` for one species; `none` is an exception of `int`.
    abbrev pub children_of : OlagsaGa F → Real → List (Individual F) → Option ℕ
    children_of ga total [] = some 0
    children_of ga total (best ∷ others) =
        L.count_of (times (over best.adjusted_fitness total) (from_int ga.population_size))

    -- `num_children`
    unfoldable pub num_children : OlagsaGa F → Real → List (Specie F) → Option (List ℕ)
    num_children ga total species = traverse (λ s. children_of ga total s.individuals) species

    module _ (ga : OlagsaGa F) (c va : List (List Real)) where
      abbrev pub mates_outside : Draw L.Seed Bool
      mates_outside =
          if ltb 1 ga.species_waited
          then (do r ← draw L.random; pure (below F r ga.crossover_rate_inter_species))
          else pure false

      -- One child, bred, mutated and evaluated
      unfoldable pub breed : List (Specie F) → Specie F → Draw L.Seed (Individual F)
      unfolding mutate breed_intra breed_inter evaluate
      breed species s = do
        outside ← mates_outside
        child ← (if outside then breed_inter F L ga s species else breed_intra F L ga s)
        changed ← (if below F nought ga.mutation_rate then mutate F L ga child else pure child)
        evaluate F L ga c va changed

      -- `new_children`; `zip` ends with the shorter list.
      unfoldable pub breed_all :
          List (Specie F) → List (Specie F) → List ℕ → Draw L.Seed (List (Individual F))
      unfolding breed
      breed_all species [] counts = pure []
      breed_all species (s ∷ rest) [] = pure []
      breed_all species (s ∷ rest) (n ∷ counts) = do
        children ← each (λ x. breed species s) (replicate n tt)
        others ← breed_all species rest counts
        pure (children ++ others)

      -- A generation from the species that were selected
      unfoldable pub reproduce : List (Specie F) → Draw L.Seed (List (Specie F))
      unfolding num_children breed_all assign_species
      reproduce species = do
        counts ← or_raise (num_children ga (total_adjusted F species) species)
        children ← breed_all species species counts
        or_raise (assign_species F L children species)

      -- The loop over the generations, of which so many are left
      unfoldable pub evolve : ℕ → List (Specie F) → Draw L.Seed (List (Specie F))
      unfolding improve reproduce selected
      evolve zero species = pure species
      evolve (suc n) species =
          let ranked = map (improve F) species in
          if all_stagnant F ga ranked
          then pure ranked
          else if same F (total_adjusted F (selected F ranked)) nought
          then pure (selected F ranked)
          else (do species' ← reproduce (selected F ranked); evolve n species')

      abbrev pub best_solution : Individual F → Key F → BestSolution F
      best_solution best key = record { individual = best; fitness = best.fitness; key = some key }

      -- What one species adds to the results
      unfoldable pub best_of : List (Individual F) → Draw L.Seed (List (BestSolution F))
      unfolding solve_key
      best_of [] = pure []
      best_of (best ∷ others) = do
        key ← solve_key F L ga.num_key_iteration c va best.chromosomes
        pure (best_solution best key ∷ [])

      -- The last loop of `run`
      unfoldable pub collect : List (Specie F) → Draw L.Seed (List (BestSolution F))
      unfolding rank best_of
      collect [] = pure []
      collect (s ∷ species) = do
        found ← best_of (rank F s.individuals)
        others ← collect species
        pure (found ++ others)

      unfoldable pub evaluated : List (Individual F) → Draw L.Seed (List (Individual F))
      unfolding evaluate
      evaluated = each (evaluate F L ga c va)

      -- The key of a single iteration
      unfoldable pub run_single : Draw L.Seed (List (BestSolution F))
      unfolding evaluate solve_key
      run_single = do
        only ← evaluate F L ga c va (new_individual F (F.one ∷ []) nought)
        key ← solve_key F L 1 c va only.chromosomes
        pure (best_solution only key ∷ [])

    -- The search over several iterations, with the attributes that `_initialize_species` leaves
    unfoldable pub run_search :
        OlagsaGa F → List (List Real) → List (List Real) → Draw L.Seed (List (BestSolution F))
    unfolding initialize_population initialize_species assign_species evolve collect evaluated
    run_search ga c va = do
      drawn ← initialize_population F L ga
      population ← evaluated ga c va drawn
      (empty, ga') ← or_raise (initialize_species F L ga)
      species ← or_raise (assign_species F L population empty)
      last ← evolve ga' c va ga'.num_generation (map (start_specie F) species)
      collect ga' c va last

    -- `C.shape` and `VA.shape` agree, or the constructor of the solver raises.
    abbrev pub same_shape : List (List Real) → List (List Real) → Bool
    same_shape c va = length c == length va && length (first_row c) == length (first_row va)

    unfoldable pub run :
        OlagsaGa F → List (List Real) → List (List Real) → Draw L.Seed (List (BestSolution F))
    unfolding run_single run_search
    run ga c va =
        if same_shape c va
        then (if ga.num_key_iteration == 1 then run_single ga c va else run_search ga c va)
        else raise
