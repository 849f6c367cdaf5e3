-- ===== src/Algorithms/Olagsa/Algorithm.antt =====
-- olagsa/algorithm.py: `run`, from the inputs to the sorted keys.
pub mod Offered
pub mod Ranked
pub mod Single
use allocation_key_generatio.Base.{ℕ, suc, ◌+◌, Option, none, some, List, [], ◌∷◌, ◌++◌, map}
use allocation_key_generatio.Base.Text.{Text, codes}
use allocation_key_generatio.Base.Num.{Num, below}
use allocation_key_generatio.Base.Sorting.{sort_by}
use allocation_key_generatio.Shared.Results.{
  AlgorithmRawData, IterationResult, AllocationKeyResult, AlgorithmResult,
}
use allocation_key_generatio.Crm.Preflight.{join}
use allocation_key_generatio.Algorithms.BruteForce.Algorithm.{
  last, consumer_results_from, final_surplus_of,
}
use allocation_key_generatio.Algorithms.Olagsa.Outside.{Outside}
use allocation_key_generatio.Algorithms.Olagsa.Draw.{Draw, pure, ◌>>=◌}
use allocation_key_generatio.Algorithms.Olagsa.Solution.{Iteration, Key}
use allocation_key_generatio.Algorithms.Olagsa.Species.{OlagsaGa}
use allocation_key_generatio.Algorithms.Olagsa.Generations.{BestSolution}
use allocation_key_generatio.Algorithms.Olagsa.Generations

-- olagsa/inputs.py
pub record OlagsaInput (F : Num) : Type 0 where
  pub iterations : ℕ
  pub generations : ℕ
  pub population_size : ℕ
  pub crossover_rate : F.Real
  pub inter_species_crossover_rate : F.Real
  pub mutation_rate : F.Real
  pub expected_species_count : ℕ
  pub max_generations_without_improvement : ℕ

module _ (F : Num) where
  abbrev pub iteration_result : ℕ → List Text → Iteration F → IterationResult F
  iteration_result idx names it = record {
    number = idx + 1;
    energy_allocated_percentage = it.energy_allocated_percentage;
    surplus_total = it.surplus_total;
    consumers =
        consumer_results_from F 0 (map (λ c. c.energy_allocated_percentage) it.consumers) names;
  }

  -- The loop of `_to_allocation_key_result`, from index `idx` on
  unfoldable pub iteration_results : ℕ → List Text → Key F → List (IterationResult F)
  iteration_results idx names [] = []
  iteration_results idx names (it ∷ its) =
      iteration_result idx names it ∷ iteration_results (suc idx) names its

  unfoldable pub to_allocation_key_result : F.Real → Key F → List Text → AllocationKeyResult F
  unfolding iteration_results
  to_allocation_key_result fitness key names =
      let iterations = iteration_results 0 names key in
      let percentages =
        join (codes ",") (map (λ it. F.rounded it.energy_allocated_percentage) iterations) in
      record {
        name =
            codes "Fitness = "
            ++ (F.rounded fitness
                ++ (codes " / Pourcentage = ("
                    ++ (percentages
                        ++ (codes ") - Surplus à la fin : "
                            ++ F.rounded (final_surplus_of F iterations)))));
        description = codes "Clé obtenue grâce à l'algorithme OLAGSA";
        iterations = iterations;
      }

  abbrev pub key_surplus : Option (Key F) → F.Real
  key_surplus none = F.nought
  key_surplus (some key) = elim (last key) [ none ↦ F.nought | some it ↦ it.surplus_total ]

  -- The sort key of `run`
  abbrev pub solution_surplus : BestSolution F → F.Real
  solution_surplus bs = key_surplus bs.key

  unfoldable pub sort_solutions : List (BestSolution F) → List (BestSolution F)
  unfolding sort_by
  sort_solutions solutions =
      sort_by (λ a b. below F (solution_surplus a) (solution_surplus b)) solutions

  -- What a solution adds to the keys
  unfoldable pub solution_keys : List Text → F.Real → Option (Key F) → List (AllocationKeyResult F)
  unfolding to_allocation_key_result
  solution_keys names fitness none = []
  solution_keys names fitness (some []) = []
  solution_keys names fitness (some (it ∷ its)) =
      to_allocation_key_result fitness (it ∷ its) names ∷ []

  unfoldable pub keys_of : List Text → List (BestSolution F) → List (AllocationKeyResult F)
  unfolding solution_keys
  keys_of names [] = []
  keys_of names (bs ∷ solutions) = solution_keys names bs.fitness bs.key ++ keys_of names solutions

  abbrev pub new_ga : OlagsaInput F → OlagsaGa F
  new_ga inputs = record {
    num_key_iteration = inputs.iterations;
    num_generation = inputs.generations;
    population_size = inputs.population_size;
    crossover_rate = inputs.crossover_rate;
    crossover_rate_inter_species = inputs.inter_species_crossover_rate;
    mutation_rate = inputs.mutation_rate;
    species_waited = inputs.expected_species_count;
    max_iteration_without_improvement = inputs.max_generations_without_improvement;
    last_specie_id = 0;
  }

  unfoldable pub run :
      (L : Outside F) → OlagsaInput F → AlgorithmRawData F → Draw L.Seed (AlgorithmResult F)
  unfolding Generations.run sort_solutions keys_of
  run L inputs raw_data = do
    best_solutions ← Generations.run F L (new_ga inputs) raw_data.C raw_data.va
    pure (record { keys = keys_of raw_data.consumer_names (sort_solutions best_solutions) })
