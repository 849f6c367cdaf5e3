-- ===== src/Algorithms/Olagsa/Selection/Kept.antt =====
-- What holds of every individual, and does not depend on its adjusted fitness, is kept by ranking,
-- adjusting and culling.
use allocation_key_generatio.Base.{
  ℕ, zero, suc, ◌/◌, Bool, not, List, [], ◌∷◌, map, keep, is_empty, take, length, All, if_split,
  ◌==◌,
}
use allocation_key_generatio.Base.Num.{Num}
use allocation_key_generatio.Base.Sorting.{sort_by-All}
use allocation_key_generatio.Base.Signs.{All-mapped}
use allocation_key_generatio.Algorithms.Olagsa.Species.{Individual, Specie}
use allocation_key_generatio.Algorithms.Olagsa.Selection.{
  fitter, rank, adjusted, apply_adjusted_fitness, cull_weakest, started, start_specie, improved,
  improve, selected,
}

module _ {A : Type 0} (P : A → Type 0) where
  All-take : (n : ℕ) (xs : List A) → All P xs → All P (take n xs)
  All-take zero xs h = tt
  All-take (suc n) [] h = tt
  All-take (suc n) (x ∷ xs) h = (h.0, All-take n xs h.1)

  All-keep : (p : A → Bool) (xs : List A) → All P xs → All P (keep p xs)
  All-keep p [] h = tt
  All-keep p (x ∷ xs) h =
      if_split (All P) (p x) (λ e. (h.0, All-keep p xs h.1)) (λ e. All-keep p xs h.1)

module _ (F : Num) (P : Individual F → Type 0)
    (keeps : (size : ℕ) (ind : Individual F) → P ind → P (adjusted F size ind)) where
  -- Every individual of the species has the property.
  abbrev pub Holds : Specie F → Type 0
  Holds s = All P s.individuals

  pub rank-Holds : (inds : List (Individual F)) → All P inds → All P (rank F inds)
  unfolding rank
  rank-Holds inds h = sort_by-All (fitter F) P inds h

  started-Holds :
      (s : Specie F) (inds : List (Individual F)) → Holds s → All P inds → Holds (started F s inds)
  started-Holds s [] h k = h
  started-Holds s (best ∷ others) h k = k

  pub start_specie-Holds : (s : Specie F) → Holds s → Holds (start_specie F s)
  unfolding start_specie
  start_specie-Holds s h = started-Holds s (rank F s.individuals) h (rank-Holds s.individuals h)

  improved-Holds :
      (s : Specie F) (inds : List (Individual F)) → Holds s → All P inds → Holds (improved F s inds)
  improved-Holds s [] h k = h
  improved-Holds s (best ∷ others) h k =
      if_split Holds (F.at_most s.best_fitness best.fitness) (λ e. k) (λ e. k)

  pub improve-Holds : (s : Specie F) → Holds s → Holds (improve F s)
  unfolding improve
  improve-Holds s h = improved-Holds s (rank F s.individuals) h (rank-Holds s.individuals h)

  apply_adjusted_fitness-Holds : (s : Specie F) → Holds s → Holds (apply_adjusted_fitness F s)
  unfolding apply_adjusted_fitness
  apply_adjusted_fitness-Holds s h =
      All-mapped P P (adjusted F (length s.individuals)) (keeps (length s.individuals))
        s.individuals h

  cull_weakest-Holds : (s : Specie F) → Holds s → Holds (cull_weakest F s)
  unfolding cull_weakest
  cull_weakest-Holds s h =
      if_split Holds (length s.individuals == 1) (λ e. h)
        (λ e.
          All-take P (length s.individuals / 2) (rank F s.individuals) (rank-Holds s.individuals h))

  pub selected-Holds :
      (species : List (Specie F)) → All Holds species → All Holds (selected F species)
  unfolding selected
  selected-Holds species h =
      let filled = keep (λ (s : Specie F). not (is_empty s.individuals)) species in
      All-mapped Holds Holds (cull_weakest F) cull_weakest-Holds
        (map (apply_adjusted_fitness F) filled)
        (All-mapped Holds Holds (apply_adjusted_fitness F) apply_adjusted_fitness-Holds filled
          (All-keep Holds (λ (s : Specie F). not (is_empty s.individuals)) species h))
