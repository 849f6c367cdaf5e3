-- ===== src/Algorithms/Olagsa/Placement/Kept.antt =====
-- What holds of every individual holds of every individual of a species after `_assign_species`.
use allocation_key_generatio.Base.{
  Option, none, some, Bool, true, false, List, [], ◌∷◌, All, All-append, Yields, and_then,
  and_then-Yields, cons_option-Yields, any_Yields,
}
use allocation_key_generatio.Base.Num.{Num}
use allocation_key_generatio.Algorithms.Olagsa.Outside.{Outside}
use allocation_key_generatio.Algorithms.Olagsa.Space.{Coordinate}
use allocation_key_generatio.Algorithms.Olagsa.Species.{Individual, Specie}
use allocation_key_generatio.Algorithms.Olagsa.Genes.{chromosome_to_coordinate}
use allocation_key_generatio.Algorithms.Olagsa.Placement.{is_home, settle, place, assign_species}

module _ (F : Num) (L : Outside F) (P : Individual F → Type 0) where
  abbrev Holds : Specie F → Type 0
  Holds s = All P s.individuals

  settle-Holds :
      (ind : Individual F) (s : Specie F) (species : List (Specie F))
      (rest : Option (List (Specie F))) (home : Option Bool)
      → P ind
      → Holds s
      → All Holds species
      → Yields (All Holds) rest
      → Yields (All Holds) (settle F L ind s species rest home)
  settle-Holds ind s species rest none p h hs k = tt
  settle-Holds ind s species rest (some true) p h hs k =
      (All-append P s.individuals (ind ∷ []) h (p, tt), hs)
  settle-Holds ind s species rest (some false) p h hs k = cons_option-Yields Holds (some s) rest h k

  place-Holds :
      (ind : Individual F) (c : Coordinate F) (species : List (Specie F))
      → P ind
      → All Holds species
      → Yields (All Holds) (place F L ind c species)
  unfolding place
  place-Holds ind c [] p hs = tt
  place-Holds ind c (s ∷ species) p hs =
      settle-Holds ind s species (place F L ind c species) (is_home F L s.is_same_specie c) p hs.0
        hs.1 (place-Holds ind c species p hs.1)

  pub assign_species-Holds :
      (population : List (Individual F)) (species : List (Specie F))
      → All P population
      → All Holds species
      → Yields (All Holds) (assign_species F L population species)
  unfolding assign_species
  assign_species-Holds [] species ps hs = hs
  assign_species-Holds (ind ∷ population) species ps hs =
      let at = chromosome_to_coordinate F L ind.chromosomes in
      and_then-Yields (All Holds) (All Holds) (and_then at (λ c. place F L ind c species)) _
        (and_then-Yields (λ c. Unit {0}) (All Holds) at (λ c. place F L ind c species)
          (any_Yields at) (λ c u. place-Holds ind c species ps.0 hs))
        (λ species' hs'. assign_species-Holds population species' ps.1 hs')
