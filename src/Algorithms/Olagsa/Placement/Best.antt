-- ===== src/Algorithms/Olagsa/Placement/Best.antt =====
-- `_assign_species` adds every individual to one species and loses none.
use allocation_key_generatio.Algorithms.BruteForce.Algorithm.{rest}
use allocation_key_generatio.Algorithms.Olagsa.Genes.{chromosome_to_coordinate}
use allocation_key_generatio.Algorithms.Olagsa.Placement.{assign_species, is_home, place, settle}
use allocation_key_generatio.Algorithms.Olagsa.Selection.Best.{Reaches}
use allocation_key_generatio.Algorithms.Olagsa.Outside.{Outside}
use allocation_key_generatio.Base.Num.{Num}
use allocation_key_generatio.Algorithms.Olagsa.Species.{Individual, Specie}
use allocation_key_generatio.Algorithms.Olagsa.Space.{Coordinate}
use allocation_key_generatio.Base.{
  any_Yields, Bool, List, Option, Yields, [], and_then, and_then-Yields, false, inl, inr, none,
  some, true, ℕ, ◌∷◌, ◌≡◌,
}
use allocation_key_generatio.Base.Sorting.{Any, Any-append_left}

module _ (F : Num) where
  -- The species of this id has an individual at least as fit as `x`.
  abbrev pub Champion : ℕ → F.Real → List (Specie F) → Type 0
  Champion id x = Any (λ s. (s.id ≡ id) × Reaches F x s.individuals)

module _ (F : Num) (L : Outside F) (id : ℕ) (x : F.Real) where
  settle-Champion :
      (ind : Individual F) (s : Specie F) (species : List (Specie F))
      (rest : Option (List (Specie F))) (home : Option Bool)
      → Champion F id x (s ∷ species)
      → (Champion F id x species → Yields (Champion F id x) rest)
      → Yields (Champion F id x) (settle F L ind s species rest home)
  settle-Champion ind s species rest none h k = tt
  settle-Champion ind s species rest (some true) (inl h) k =
      inl (h.0, Any-append_left (λ i. F.at_most x i.fitness ≡ true) s.individuals (ind ∷ []) h.1)
  settle-Champion ind s species rest (some true) (inr h) k = inr h
  settle-Champion ind s species none (some false) h k = tt
  settle-Champion ind s species (some rest) (some false) (inl h) k = inl h
  settle-Champion ind s species (some rest) (some false) (inr h) k = inr (k h)

  place-Champion :
      (ind : Individual F) (c : Coordinate F) (species : List (Specie F))
      → Champion F id x species
      → Yields (Champion F id x) (place F L ind c species)
  unfolding place
  place-Champion ind c [] h = tt
  place-Champion ind c (s ∷ species) h =
      settle-Champion ind s species (place F L ind c species) (is_home F L s.is_same_specie c) h
        (place-Champion ind c species)

  pub assign_species-Champion :
      (population : List (Individual F)) (species : List (Specie F))
      → Champion F id x species
      → Yields (Champion F id x) (assign_species F L population species)
  unfolding assign_species
  assign_species-Champion [] species h = h
  assign_species-Champion (ind ∷ population) species h =
      let at = chromosome_to_coordinate F L ind.chromosomes in
      and_then-Yields (Champion F id x) (Champion F id x)
        (and_then at (λ c. place F L ind c species)) _
        (and_then-Yields (λ c. Unit {0}) (Champion F id x) at (λ c. place F L ind c species)
          (any_Yields at) (λ c u. place-Champion ind c species h))
        (λ species' h'. assign_species-Champion population species' h')
