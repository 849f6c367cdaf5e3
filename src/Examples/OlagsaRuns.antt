-- ===== src/Examples/OlagsaRuns.antt =====
-- The genetic search on two participants and two timesteps, with a solver that shares equally and
-- generators that count.
use allocation_key_generatio.Algorithms.Olagsa.Genes.Rate.{cross_parents-RateBlind}
use allocation_key_generatio.Algorithms.Olagsa.Genes.{cross_parents}
use allocation_key_generatio.Algorithms.Olagsa.Algorithm.Single.{run-Single}
use allocation_key_generatio.Algorithms.Olagsa.Generations.Best.{evolve-Best}
use allocation_key_generatio.Algorithms.Olagsa.Selection.{cull_weakest}
use allocation_key_generatio.Algorithms.Olagsa.Placement.{assign_species}
use allocation_key_generatio.Algorithms.Olagsa.Solution.{Solution}
use allocation_key_generatio.Algorithms.Olagsa.Draw.{Returns}
use allocation_key_generatio.Algorithms.Olagsa.Species.Ids.{Numbered, initialize_species-Numbered}
use allocation_key_generatio.Algorithms.Olagsa.Algorithm.Ranked.{Ranks, run-Ranked}
use allocation_key_generatio.Algorithms.Olagsa.Generations.Results.{Judged, run-Judged}
use allocation_key_generatio.Algorithms.Olagsa.Species.{
  Individual, OlagsaGa, Specie, initialize_species, new_specie, segment_specie,
}
use allocation_key_generatio.Algorithms.Olagsa.Selection.Best.{Halved, cull_weakest-Halved}
use allocation_key_generatio.Algorithms.Olagsa.Placement.Partition.{Gained, assign_species-Gained}
use allocation_key_generatio.Algorithms.Olagsa.Placement.Best.{Champion}
use allocation_key_generatio.Algorithms.Olagsa.WarmStart.Agreement.{Agrees, solve_key-Agrees}
use allocation_key_generatio.Algorithms.Olagsa.WarmStart.{solve_genetic, solve_key}
use allocation_key_generatio.Base.Num.{scale, zip_with}
use allocation_key_generatio.Base.Text.{codes}
use allocation_key_generatio.Algorithms.Olagsa.WarmStart.Total.{
  solve_genetic-Ended, Shapes, Shaped, Returned,
}
use allocation_key_generatio.Algorithms.Olagsa.WarmStart.Guarded.{guarded}
use allocation_key_generatio.Algorithms.Olagsa.WarmStart.Spared.{Spares}
use allocation_key_generatio.Base.{
  subst, ◌≤◌, All, Yields, arith, inl, inr, List, Option, [], length, length-map, map, none, refl,
  replicate, some, ℕ, ◌%◌, ◌*◌, ◌+◌, ◌-◌, ◌/◌, ◌∷◌, ◌≡◌,
}
use allocation_key_generatio.Algorithms.Olagsa.Outside.{OutsideLaws, optimal, Answer, Outside}
use allocation_key_generatio.Shared.Results.{AlgorithmRawData, AlgorithmResult}
use allocation_key_generatio.Algorithms.Olagsa.Algorithm
use allocation_key_generatio.Algorithms.Olagsa.Generations
use allocation_key_generatio.Algorithms.Olagsa.Algorithm.{OlagsaInput, new_ga}
use allocation_key_generatio.Algorithms.Olagsa.Generations.{evolve, BestSolution}
use allocation_key_generatio.Examples.Millis.{Millis, pos, negsuc, millis, millis_laws}

abbrev equal_shares : List (List Millis) → List Millis
equal_shares c = map (λ row. millis.over millis.one (millis.from_int (length c))) c

abbrev shared_out : List (List Millis) → List Millis → List (List Millis)
shared_out c row =
    map (λ demand. scale millis row (millis.over millis.one (millis.from_int (length c)))) c

abbrev excess : List Millis → List Millis → List Millis
excess row demand = map (millis.maximum millis.nought) (zip_with millis millis.minus row demand)

abbrev equal_solver : List Millis → List (List Millis) → Answer millis
equal_solver row c =
    optimal (equal_shares c) (shared_out c row)
      (map (excess (scale millis row (millis.over millis.one (millis.from_int (length c))))) c)

abbrev absolute : Millis → Millis
absolute x = millis.maximum x (millis.negate x)

abbrev whole : Millis → Option ℕ
whole (pos n) = some (n / 1000)
whole (negsuc n) = some 0

abbrev counters : Outside millis
counters = record {
  Seed = ℕ;
  random = λ s. (pos (1 + s * 137 % 1000), s + 1);
  randint = λ a b s. (a + s % (b + 1 - a), s + 1);
  choice = λ n size p s. some (replicate size (s % n), s + 1);
  sqrt = λ x. x;
  absolute = absolute;
  nan_to_num = λ x. x;
  infinity = pos 1_000_000;
  count_of = whole;
  solve = λ row c s. some (equal_solver row c, s + 1);
}

abbrev OfAnswer : List (List Millis) → Option (Answer millis × ℕ) → Type 0
OfAnswer c none = Unit
OfAnswer c (some r) = Shaped millis (length c) r.0

equal_solver-Shaped :
    (row : List Millis) (c : List (List Millis)) (s s' : ℕ) (a : Answer millis)
    → ◌≡◌ {A = Option (Answer millis × ℕ)} (some (equal_solver row c, s + 1)) (some (a, s'))
    → Shaped millis (length c) a
equal_solver-Shaped row c s s' a e =
    let share = λ (demand : List Millis). millis.over millis.one (millis.from_int (length c)) in
    subst (λ o. OfAnswer c o) e
      (
        length-map c share,
        length-map c
            (λ demand. scale millis row (millis.over millis.one (millis.from_int (length c)))),
      )

counters-Shapes : Shapes millis counters
counters-Shapes = equal_solver-Shaped

abbrev demand_a : List Millis
demand_a = pos 2000 ∷ pos 0 ∷ []

abbrev demand_b : List Millis
demand_b = pos 1000 ∷ pos 3000 ∷ []

abbrev demands : List (List Millis)
demands = demand_a ∷ demand_b ∷ []

abbrev produced : List Millis
produced = pos 2000 ∷ pos 4000 ∷ []

abbrev raw : AlgorithmRawData millis
raw = record { C = demands; va = produced ∷ produced ∷ []; consumer_names = codes "A" ∷ [] ∷ [] }

abbrev inputs : ℕ → OlagsaInput millis
inputs n = record {
  iterations = n;
  generations = 2;
  population_size = 3;
  crossover_rate = pos 100;
  inter_species_crossover_rate = pos 100;
  mutation_rate = pos 500;
  expected_species_count = 2;
  max_generations_without_improvement = 10;
}

abbrev num_keys : Option (AlgorithmResult millis × ℕ) → Option ℕ
num_keys none = none
num_keys (some r) = some (length r.0.keys)

run_test : num_keys (Algorithm.run millis counters (inputs 2) raw 5) ≡ some 2
unfolding Algorithm.run
run_test = refl

single_test : num_keys (Algorithm.run millis counters (inputs 1) raw 5) ≡ some 1
unfolding Algorithm.run
single_test = refl

abbrev ga : OlagsaGa millis
ga = new_ga millis (inputs 2)

abbrev tiled : List (List Millis)
tiled = produced ∷ produced ∷ []

abbrev genes : List Millis
genes = pos 400 ∷ pos 600 ∷ []

abbrev aged : Millis → Individual millis
aged fit = record { chromosomes = genes; fitness = fit; adjusted_fitness = millis.nought }

abbrev crowd : Specie millis
crowd = new_specie millis 7 (aged (pos 10) ∷ aged (pos 30) ∷ aged (pos 20) ∷ [])

abbrev left_half : Specie millis
left_half =
    segment_specie millis 0 (record { point_a = (pos 0, pos 1000); point_b = (pos 500, pos 500) })

solve_key-Agrees_example :
    Agrees millis counters
      (pos 600)
      2
      (solve_genetic millis counters 2 demands tiled genes 5)
      (solve_key millis counters 2 demands tiled genes 5)
solve_key-Agrees_example = solve_key-Agrees millis counters tiled genes 1 demands 5

solve_genetic-Ended_example :
    (sol : Option (Solution millis)) × (s : ℕ) × (solve_genetic millis
        (guarded millis counters)
        2
        demands
        tiled
        genes
        5
      ≡ some (sol, s))
    × Returned millis counters sol s (solve_genetic millis counters 2 demands tiled genes 5)
solve_genetic-Ended_example =
    solve_genetic-Ended millis millis_laws counters counters-Shapes 1 produced genes 2 demands 5
      refl (omega arith)

initialize_species-Numbered_example :
    (species : List (Specie millis)) × (ga' : OlagsaGa millis) × (initialize_species millis counters
        ga
      ≡ some (species, ga'))
    × Numbered millis ga 2 species
initialize_species-Numbered_example =
    initialize_species-Numbered millis counters ga (inl (refl, omega arith))

cull_weakest-Halved_example :
    (length crowd.individuals ≡ 1 → cull_weakest millis crowd ≡ crowd)
    × (¬ (length crowd.individuals ≡ 1)
        → Halved millis millis_laws crowd.individuals (cull_weakest millis crowd).individuals)
cull_weakest-Halved_example = cull_weakest-Halved millis millis_laws crowd

assign_species-Gained_example :
    Yields
      (Gained millis (aged (pos 10) ∷ []) (left_half ∷ []))
      (assign_species millis counters (aged (pos 10) ∷ []) (left_half ∷ []))
assign_species-Gained_example =
    assign_species-Gained millis counters (aged (pos 10) ∷ []) (left_half ∷ [])

evolve-Best_example :
    Returns
      (Champion millis 7 (pos 30))
      (evolve millis counters ga demands tiled 2 (crowd ∷ left_half ∷ []))
evolve-Best_example =
    evolve-Best millis millis_laws counters 7 (pos 30) ga demands tiled 2 (crowd ∷ left_half ∷ [])
      (inl (refl, inr (inl refl)))

run-Judged_example :
    Returns
      (All (Judged millis counters 1 demands tiled))
      (Generations.run millis counters ga demands tiled)
run-Judged_example = run-Judged millis counters 1 demands tiled ga refl

run-Ranked_example :
    Ranks millis millis_laws 2
      (Generations.run millis counters ga demands tiled 5)
      (Algorithm.run millis counters (inputs 2) raw 5)
run-Ranked_example = run-Ranked millis millis_laws counters 1 (inputs 2) raw 5 refl

run-Single_example :
    (result : AlgorithmResult millis) × (s : ℕ) × (Algorithm.run millis
        (guarded millis counters)
        (inputs 1)
        raw
        5
      ≡ some (result, s))
    × (length result.keys ≤ 1)
    × Spares (some (result, s)) (Algorithm.run millis counters (inputs 1) raw 5)
run-Single_example =
    run-Single millis millis_laws counters counters-Shapes (inputs 1) raw.consumer_names 1 demand_a
      produced (demand_b ∷ []) 5 refl refl refl

counters_laws : OutsideLaws millis counters
counters_laws = record { randint_bounds = λ a b s h. ground arith }

cross_parents-RateBlind_example :
    cross_parents millis counters ga (aged (pos 10)) (aged (pos 30)) 4
    ≡ cross_parents millis counters
        (record ga { crossover_rate = pos 900 })
        (aged (pos 10))
        (aged (pos 30))
        4
cross_parents-RateBlind_example =
    cross_parents-RateBlind millis counters counters_laws ga
      (record ga { crossover_rate = pos 900 }) (aged (pos 10)) (aged (pos 30)) 4 (refl, refl)
      (refl, refl)
