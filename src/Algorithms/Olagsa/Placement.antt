-- ===== src/Algorithms/Olagsa/Placement.antt =====
-- ga.py: `_assign_species`.
pub mod Kept
pub mod Best
pub mod Partition
use allocation_key_generatio.Base.{
  cons_option, Bool, and_then, Option, none, some, true, false, List, [], ◌∷◌,
}
use allocation_key_generatio.Base.Num.{Num}
use allocation_key_generatio.Algorithms.Olagsa.Outside.{Outside}
use allocation_key_generatio.Algorithms.Olagsa.Space.{Coordinate}
use allocation_key_generatio.Algorithms.Olagsa.Species.{Territory, Individual, Specie, contains}
use allocation_key_generatio.Algorithms.Olagsa.Genes.{chromosome_to_coordinate}
use allocation_key_generatio.Algorithms.Olagsa.Selection.{join_specie}

module _ (F : Num) where
  module _ (L : Outside F) where
    -- `specie.is_same_specie is not None and specie.is_same_specie(point)`
    unfoldable pub is_home : Option (Territory F) → Coordinate F → Option Bool
    unfolding contains
    is_home none c = some false
    is_home (some territory) c = contains F L territory c

    abbrev pub settle :
        Individual F
        → Specie F
        → List (Specie F)
        → Option (List (Specie F))
        → Option Bool
        → Option (List (Specie F))
    settle ind s species rest none = none
    settle ind s species rest (some true) = some (join_specie F ind s ∷ species)
    settle ind s species rest (some false) = cons_option (some s) rest

    -- The loop over the species; `none` is an exception of `is_same_specie`, or none being found.
    unfoldable pub place : Individual F → Coordinate F → List (Specie F) → Option (List (Specie F))
    unfolding is_home
    place ind c [] = none
    place ind c (s ∷ species) =
        settle ind s species (place ind c species) (is_home s.is_same_specie c)

    unfoldable pub assign_species : List (Individual F) → List (Specie F) → Option (List (Specie F))
    unfolding place
    assign_species [] species = some species
    assign_species (ind ∷ population) species =
        and_then
          (and_then (chromosome_to_coordinate F L ind.chromosomes) (λ c. place ind c species))
          (assign_species population)
