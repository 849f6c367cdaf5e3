-- ===== src/Algorithms/Olagsa/Genes.antt =====
-- ga.py: the draws, the evaluation and the breeding of individuals.
pub mod Sized
pub mod Rate
use allocation_key_generatio.Base.{
  ℕ, Option, none, some, ◌||◌, List, [], ◌∷◌, ◌++◌, map, is_empty, traverse, length, get_elem?, set,
  take, drop, concat_map, replicate, ◌==◌, if◌then◌else◌,
}
use allocation_key_generatio.Base.Num.{Num, below, same, sum}
use allocation_key_generatio.Algorithms.Olagsa.Outside.{Outside}
use allocation_key_generatio.Algorithms.Olagsa.Draw.{Draw, pure, raise, draw, or_raise, ◌>>=◌, each}
use allocation_key_generatio.Algorithms.Olagsa.Space.{
  Coordinate, flat, solid, point, coord_x, coord_y, coord_z, square,
}
use allocation_key_generatio.Algorithms.Olagsa.Solution.{Solution}
use allocation_key_generatio.Algorithms.Olagsa.WarmStart.{solve_genetic}
use allocation_key_generatio.Algorithms.Olagsa.Species.{
  Individual, Specie, OlagsaGa, new_individual,
}

module _ (F : Num) (L : Outside F) where
  open F use {Real, nought, one, plus, minus, times, over, at_most, from_int, np_sum}

  -- `[x / total for x in genes]`, with `total = sum(genes)`: Python raises ZeroDivisionError.
  unfoldable pub normalised : List Real → Draw L.Seed (List Real)
  normalised [] = pure []
  normalised (x ∷ xs) =
      let total = sum F (x ∷ xs) in
      if same F total nought then raise else pure (map (λ g. over g total) (x ∷ xs))

  unfoldable pub random_allocation : OlagsaGa F → Draw L.Seed (List Real)
  unfolding normalised
  random_allocation ga = do
    allocation ← each (λ x. draw L.random) (replicate ga.num_key_iteration tt)
    normalised allocation

  -- `random.randint(0, len(genes) - 1)`, which raises without a gene
  abbrev pub gene_index : List Real → Draw L.Seed ℕ
  gene_index [] = raise
  gene_index (x ∷ xs) = draw (L.randint 0 (length xs))

  -- `_mutate` of an individual with these chromosomes
  unfoldable pub mutated : List Real → Draw L.Seed (Individual F)
  unfolding normalised
  mutated genes = do
    index ← gene_index genes
    gene ← draw L.random
    shares ← normalised (set genes index gene)
    pure (new_individual F shares nought)

  unfoldable pub mutate : OlagsaGa F → Individual F → Draw L.Seed (Individual F)
  unfolding mutated
  mutate ga individual = do
    r ← draw L.random
    if at_most ga.mutation_rate r
        then pure (new_individual F individual.chromosomes nought)
        else mutated individual.chromosomes

  unfoldable pub initialize_population : OlagsaGa F → Draw L.Seed (List (Individual F))
  unfolding random_allocation
  initialize_population ga =
      each (λ x. do genes ← random_allocation ga; pure (new_individual F genes nought))
        (replicate ga.population_size tt)

  -- `PONDERATION_EXCEDENT`
  abbrev pub ponderation_excedent : Real
  ponderation_excedent = from_int 1000

  -- `none` is None or a status other than "optimal".
  abbrev pub score : Option (Solution F) → Real
  score none = times (from_int 100) ponderation_excedent
  score (some sol) =
      times (over one (plus (np_sum (concat_map (λ row. row) sol.E)) one)) ponderation_excedent

  abbrev pub scored : Individual F → Option (Solution F) → Individual F
  scored individual sol = record individual { fitness = score sol }

  unfoldable pub evaluate :
      OlagsaGa F → List (List Real) → List (List Real) → Individual F → Draw L.Seed (Individual F)
  unfolding solve_genetic
  evaluate ga c va individual = do
    sol ← solve_genetic F L ga.num_key_iteration c va individual.chromosomes
    pure (scored individual sol)

  -- `[population[i] for i in indices]`; `none` is the IndexError.
  abbrev pub picked : List (Individual F) → List ℕ → Option (List (Individual F))
  picked population indices = traverse (get_elem? population) indices

  unfoldable pub roulette_wheel :
      List (Individual F) → List Real → ℕ → Draw L.Seed (List (Individual F))
  roulette_wheel population fitness_values n = do
    let fitness_arr = map L.nan_to_num fitness_values
    let total = np_sum fitness_arr
    indices ← L.choice (length population) n (map (λ f. over f total) fitness_arr)
    or_raise (picked population indices)

  -- `none` is the IndexError of a chromosome with fewer than two genes.
  abbrev pub chromosome_to_coordinate : List Real → Option (Coordinate F)
  chromosome_to_coordinate [] = none
  chromosome_to_coordinate (x ∷ []) = none
  chromosome_to_coordinate (x ∷ y ∷ []) = some (flat x y)
  chromosome_to_coordinate (x ∷ y ∷ z ∷ rest) = some (solid (point F x y z))

  unfoldable pub crossover_chromosomes : Individual F → Individual F → Draw L.Seed (List Real)
  unfolding normalised
  crossover_chromosomes parent_a parent_b = do
    cut ← gene_index parent_a.chromosomes
    side ← draw (L.randint 0 1)
    normalised (
        if side == 0
        then take cut parent_a.chromosomes ++ drop cut parent_b.chromosomes
        else take cut parent_b.chromosomes ++ drop cut parent_a.chromosomes)

  -- One of the parents, by a coin
  abbrev pub copied : Individual F → Individual F → Draw L.Seed (List Real)
  copied parent_a parent_b = do
    coin ← draw (L.randint 0 1)
    pure (if coin == 0 then parent_a.chromosomes else parent_b.chromosomes)

  -- `_breed_intra` of the two parents that the wheel gave
  unfoldable pub cross_parents : OlagsaGa F → Individual F → Individual F → Draw L.Seed (List Real)
  unfolding crossover_chromosomes
  cross_parents ga parent_a parent_b = do
    die ← draw (L.randint 0 1)
    if below F (from_int die) ga.crossover_rate
        then crossover_chromosomes parent_a parent_b
        else copied parent_a parent_b

  -- `parent_a, parent_b = …` raises on another number of parents.
  unfoldable pub both_parents : OlagsaGa F → List (Individual F) → Draw L.Seed (List Real)
  unfolding cross_parents
  both_parents ga (a ∷ b ∷ []) = cross_parents ga a b
  both_parents ga _ = raise

  abbrev pub fitness_of : List (Individual F) → List Real
  fitness_of individuals = map (λ ind. ind.fitness) individuals

  unfoldable pub breed_intra : OlagsaGa F → Specie F → Draw L.Seed (Individual F)
  unfolding roulette_wheel crossover_chromosomes both_parents
  breed_intra ga specie = do
    parents ← roulette_wheel specie.individuals (fitness_of specie.individuals) 2
    offspring ← both_parents ga parents
    pure (new_individual F offspring nought)

  abbrev pub centroid_distance : Coordinate F → Coordinate F → Real
  centroid_distance a b = L.sqrt (
      plus
        (plus (square F (minus (coord_x F a) (coord_x F b)))
          (square F (minus (coord_y F a) (coord_y F b))))
        (square F (minus (coord_z F a) (coord_z F b))))

  -- `none` where the loop of `_breed_inter` continues without a distance.
  abbrev pub partner_distance :
      Specie F → Specie F → Option (Coordinate F) → Option (Coordinate F) → Option Real
  partner_distance specie other none own = none
  partner_distance specie other (some theirs) none = none
  partner_distance specie other (some theirs) (some own) =
      if (other.id == specie.id) || is_empty other.individuals
      then none
      else some (centroid_distance own theirs)

  abbrev pub nearer : Specie F → Option Real → Real × Option (Specie F) → Real × Option (Specie F)
  nearer other none best = best
  nearer other (some dist) best = if below F dist best.0 then (dist, some other) else best

  -- The loop over `species`, with `min_distance` and `nearest`
  unfoldable pub nearest_from :
      Specie F → Real × Option (Specie F) → List (Specie F) → Option (Specie F)
  nearest_from specie best [] = best.1
  nearest_from specie best (other ∷ species) =
      nearest_from specie
        (nearer other (partner_distance specie other other.centroid specie.centroid) best) species

  -- `_roulette_wheel(…, 1)[0]`
  unfoldable pub one_parent : Specie F → Draw L.Seed (Individual F)
  unfolding roulette_wheel
  one_parent specie = do
    parents ← roulette_wheel specie.individuals (fitness_of specie.individuals) 1
    or_raise (get_elem? parents 0)

  unfoldable pub breed_with : OlagsaGa F → Specie F → Option (Specie F) → Draw L.Seed (Individual F)
  unfolding breed_intra crossover_chromosomes one_parent
  breed_with ga specie none = breed_intra ga specie
  breed_with ga specie (some nearest) = do
    parent_a ← one_parent specie
    parent_b ← one_parent nearest
    offspring ← crossover_chromosomes parent_a parent_b
    pure (new_individual F offspring nought)

  unfoldable pub breed_inter : OlagsaGa F → Specie F → List (Specie F) → Draw L.Seed (Individual F)
  unfolding nearest_from breed_intra breed_with
  breed_inter ga specie species =
      breed_with ga specie (nearest_from specie (L.infinity, none) species)
