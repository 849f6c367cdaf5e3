-- ===== src/Algorithms/Olagsa/Selection.antt =====
-- ga.py: the ranking, the culling and the stagnation of the species, `_apply_adjusted_fitness` and
-- `_cull_weakest`.
pub mod Kept
pub mod Best
use allocation_key_generatio.Base.{
  ℕ, suc, ◌/◌, Bool, true, ◌&&◌, not, List, [], ◌∷◌, ◌++◌, map, is_empty, length, take, keep,
  concat_map, ◌==◌, leb, if◌then◌else◌,
}
use allocation_key_generatio.Base.Num.{Num, below, sum}
use allocation_key_generatio.Base.Sorting.{sort_by}
use allocation_key_generatio.Algorithms.Olagsa.Species.{Individual, Specie, OlagsaGa}

module _ (F : Num) where
  open F use {Real, nought, over, times, at_most, from_int}

  -- `sort(key=lambda x: x.fitness, reverse=True)`
  abbrev pub fitter : Individual F → Individual F → Bool
  fitter a b = below F b.fitness a.fitness

  unfoldable pub rank : List (Individual F) → List (Individual F)
  unfolding sort_by
  rank individuals = sort_by fitter individuals

  abbrev pub join_specie : Individual F → Specie F → Specie F
  join_specie ind s = record s { individuals = s.individuals ++ ind ∷ [] }

  abbrev pub adjusted : ℕ → Individual F → Individual F
  adjusted size ind = record ind { adjusted_fitness = over ind.fitness (from_int size) }

  unfoldable pub apply_adjusted_fitness : Specie F → Specie F
  apply_adjusted_fitness s = record s {
    individuals = map (adjusted (length s.individuals)) s.individuals;
  }

  unfoldable pub cull_weakest : Specie F → Specie F
  unfolding rank
  cull_weakest s =
      if length s.individuals == 1
      then s
      else record s { individuals = take (length s.individuals / 2) (rank s.individuals) }

  -- `individuals[0].fitness`, with which `best_fitness` starts
  abbrev pub started : Specie F → List (Individual F) → Specie F
  started s [] = s
  started s (best ∷ others) = record s { individuals = best ∷ others; best_fitness = best.fitness }

  abbrev pub start_specie : Specie F → Specie F
  unfolding rank
  start_specie s = started s (rank s.individuals)

  abbrev pub improved : Specie F → List (Individual F) → Specie F
  improved s [] = s
  improved s (best ∷ others) =
      if at_most s.best_fitness best.fitness
      then record s {
        individuals = best ∷ others;
        iteration_without_improvement = suc s.iteration_without_improvement;
      }
      else record s {
        individuals = best ∷ others;
        best_fitness = best.fitness;
        iteration_without_improvement = 0;
      }

  -- The first loop of a generation, on one species
  unfoldable pub improve : Specie F → Specie F
  unfolding rank
  improve s = improved s (rank s.individuals)

  -- Its entry of `no_improvement`
  abbrev pub is_stagnant : OlagsaGa F → Specie F → Bool
  is_stagnant ga s =
      not (is_empty s.individuals)
      && leb ga.max_iteration_without_improvement s.iteration_without_improvement

  abbrev pub all_stagnant : OlagsaGa F → List (Specie F) → Bool
  all_stagnant ga [] = true
  all_stagnant ga (s ∷ species) = is_stagnant ga s && all_stagnant ga species

  -- The species after adjusting and culling
  unfoldable pub selected : List (Specie F) → List (Specie F)
  unfolding apply_adjusted_fitness cull_weakest
  selected species =
      map cull_weakest
        (map apply_adjusted_fitness (keep (λ s. not (is_empty s.individuals)) species))

  abbrev pub total_adjusted : List (Specie F) → Real
  total_adjusted species =
      sum F (map (λ ind. ind.adjusted_fitness) (concat_map (λ s. s.individuals) species))
