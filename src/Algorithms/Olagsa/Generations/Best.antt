-- ===== src/Algorithms/Olagsa/Generations/Best.antt =====
-- No generation loses the best individual of a species.
use allocation_key_generatio.Algorithms.Olagsa.Generations.{
  breed_all, evolve, num_children, reproduce,
}
use allocation_key_generatio.Algorithms.Olagsa.Placement.{assign_species}
use allocation_key_generatio.Algorithms.Olagsa.Selection.{
  all_stagnant, apply_adjusted_fitness, cull_weakest, improve, improved, rank, selected,
  total_adjusted,
}
use allocation_key_generatio.Algorithms.Olagsa.Draw.{
  Returns, any_Returns, bind-Returns, if_Returns, or_raise, or_raise-Returns, pure,
}
use allocation_key_generatio.Algorithms.Olagsa.Selection.Best.{
  Reaches, apply_adjusted_fitness-Reaches, cull_weakest-Reaches, improve-Reaches,
}
use allocation_key_generatio.Algorithms.Olagsa.Outside.{Outside}
use allocation_key_generatio.Base.Num.{Num, NumLaws, same}
use allocation_key_generatio.Base.{
  is_empty, List, [], if_split, keep, length, map, not, refl, suc, true, zero, ℕ, ◌==◌, ◌∙◌, ◌∷◌,
  ◌≡◌,
}
use allocation_key_generatio.Algorithms.Olagsa.Species.{Individual, OlagsaGa, Specie}
use allocation_key_generatio.Algorithms.Olagsa.Placement.Best.{Champion, assign_species-Champion}
use allocation_key_generatio.Base.Sorting.{Any-keep, Any-mapped}

module _ (F : Num) (laws : NumLaws F) (L : Outside F) (id : ℕ) (x : F.Real) where
  abbrev Best : List (Specie F) → Type 0
  Best = Champion F id x

  filled : (inds : List (Individual F)) → Reaches F x inds → not (is_empty inds) ≡ true
  filled [] h = absurd h
  filled (ind ∷ inds) h = refl

  same_id_adjust : (s : Specie F) → (apply_adjusted_fitness F s).id ≡ s.id
  unfolding apply_adjusted_fitness
  same_id_adjust s = refl

  same_id_cull : (s : Specie F) → (cull_weakest F s).id ≡ s.id
  unfolding cull_weakest
  same_id_cull s =
      if_split (λ (s' : Specie F). s'.id ≡ s.id) (length s.individuals == 1) (λ e. refl) (λ e. refl)

  same_id_improved : (s : Specie F) (inds : List (Individual F)) → (improved F s inds).id ≡ s.id
  same_id_improved s [] = refl
  same_id_improved s (best ∷ others) =
      if_split (λ (s' : Specie F). s'.id ≡ s.id) (F.at_most s.best_fitness best.fitness) (λ e. refl)
        (λ e. refl)

  same_id_improve : (s : Specie F) → (improve F s).id ≡ s.id
  unfolding improve
  same_id_improve s = same_id_improved s (rank F s.individuals)

  is_filled : (s : Specie F) → Reaches F x s.individuals → not (is_empty s.individuals) ≡ true
  is_filled s h = filled s.individuals h

  selected-Best : (species : List (Specie F)) → Best species → Best (selected F species)
  unfolding selected
  selected-Best species h =
      let P = λ (s : Specie F). (s.id ≡ id) × Reaches F x s.individuals in
      let p = λ (s : Specie F). not (is_empty s.individuals) in
      let kept = keep p species in
      Any-mapped P P (cull_weakest F)
        (λ s q. (same_id_cull s ∙ q.0, cull_weakest-Reaches F laws x s q.1))
        (map (apply_adjusted_fitness F) kept)
        (Any-mapped P P (apply_adjusted_fitness F)
          (λ s q. (same_id_adjust s ∙ q.0, apply_adjusted_fitness-Reaches F laws x s q.1)) kept
          (Any-keep P p species (λ s q. is_filled s q.1) h))

  improved-Best : (species : List (Specie F)) → Best species → Best (map (improve F) species)
  improved-Best species h =
      let P = λ (s : Specie F). (s.id ≡ id) × Reaches F x s.individuals in
      Any-mapped P P (improve F) (λ s q. (same_id_improve s ∙ q.0, improve-Reaches F laws x s q.1))
        species h

  module _ (ga : OlagsaGa F) (c va : List (List F.Real)) where
    reproduce-Best :
        (species : List (Specie F)) → Best species → Returns Best (reproduce F L ga c va species)
    unfolding reproduce
    reproduce-Best species h =
        let counts = num_children F L ga (total_adjusted F species) species in
        bind-Returns (λ ns. Unit {0}) Best (or_raise counts) _ (any_Returns (or_raise counts))
          (λ ns u.
            bind-Returns (λ inds. Unit {0}) Best (breed_all F L ga c va species species ns) _
              (any_Returns (breed_all F L ga c va species species ns))
              (λ children v.
                or_raise-Returns Best (assign_species F L children species)
                  (assign_species-Champion F L id x children species h)))

    -- Whatever is drawn, and for any number of generations: if a species has an individual at least
    -- as fit as `x` before the generations, then after them the species of that id is still there
    -- and has one at least as fit as `x`, unless the search raises.
    pub evolve-Best :
        (generations : ℕ) (species : List (Specie F))
        → Champion F id x species
        → Returns (Champion F id x) (evolve F L ga c va generations species)
    unfolding evolve
    evolve-Best zero species h = λ s. h
    evolve-Best (suc k) species h =
        let ranked = map (improve F) species in
        let hr = improved-Best species h in
        let hc = selected-Best ranked hr in
        if_Returns Best (all_stagnant F ga ranked) (pure ranked) _ (λ s. hr)
          (if_Returns Best (same F (total_adjusted F (selected F ranked)) F.nought)
            (pure (selected F ranked)) _ (λ s. hc)
            (bind-Returns Best Best (reproduce F L ga c va (selected F ranked))
              (evolve F L ga c va k) (reproduce-Best (selected F ranked) hc)
              (λ species' h'. evolve-Best k species' h')))
