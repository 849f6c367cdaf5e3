-- ===== src/Algorithms/Olagsa/Placement/Partition.antt =====
-- `_assign_species` puts every individual into exactly one species.
use allocation_key_generatio.Algorithms.BruteForce.Algorithm.{rest}
use allocation_key_generatio.Algorithms.Olagsa.Genes.{chromosome_to_coordinate}
use allocation_key_generatio.Algorithms.Olagsa.Placement.{assign_species, is_home, place, settle}
use allocation_key_generatio.Algorithms.Olagsa.Outside.{Outside}
use allocation_key_generatio.Base.Num.{Num}
use allocation_key_generatio.Algorithms.Olagsa.Species.{Individual, Specie}
use allocation_key_generatio.Algorithms.Olagsa.Space.{Coordinate}
use allocation_key_generatio.Base.{
  Bool, List, Option, Yields, [], and_then, and_then-Yields, any_Yields, ap, concat_map, false, map,
  none, refl, some, subst, sym, true, ◌++◌, ◌∙◌, ◌∷◌, ◌≡◌,
}
use mathlib.Core.List.{Perm, append_assoc}
use mathlib.Core.List.Perm

module _ {A : Type 0} where
  to_front : {a : A} (xs ys : List A) → Perm (xs ++ (a ∷ ys)) (a ∷ (xs ++ ys))
  to_front {a = a} [] ys = Perm.refl (a ∷ ys)
  to_front {a = a} (x ∷ xs) ys =
      Perm.trans (Perm.cons x (to_front xs ys)) (Perm.swap a x (xs ++ ys))

module _ (F : Num) where
  -- The individuals of all species, species by species
  abbrev pub members : List (Specie F) → List (Individual F)
  members species = concat_map (λ s. s.individuals) species

  -- The same species in the same order, with these individuals besides
  abbrev pub Gained : List (Individual F) → List (Specie F) → List (Specie F) → Type 0
  Gained population species species' =
      (map (λ s. s.id) species' ≡ map (λ s. s.id) species)
      × Perm (members species') (population ++ members species)

module _ (F : Num) (L : Outside F) where
  settle-Gained :
      (ind : Individual F) (s : Specie F) (species : List (Specie F))
      (rest : Option (List (Specie F))) (home : Option Bool)
      → Yields (Gained F (ind ∷ []) species) rest
      → Yields (Gained F (ind ∷ []) (s ∷ species)) (settle F L ind s species rest home)
  settle-Gained ind s species rest none h = tt
  settle-Gained ind s species rest (some true) h = (
    refl,
    subst (λ l. Perm l (ind ∷ (s.individuals ++ members F species)))
        (sym (append_assoc s.individuals (ind ∷ []) (members F species)))
        (to_front s.individuals (members F species)),
  )
  settle-Gained ind s species none (some false) h = tt
  settle-Gained ind s species (some others) (some false) h = (
    ap (λ l. s.id ∷ l) h.0,
    Perm.trans (Perm.append_left s.individuals h.1) (to_front s.individuals (members F species)),
  )

  place-Gained :
      (ind : Individual F) (c : Coordinate F) (species : List (Specie F))
      → Yields (Gained F (ind ∷ []) species) (place F L ind c species)
  unfolding place
  place-Gained ind c [] = tt
  place-Gained ind c (s ∷ species) =
      settle-Gained ind s species (place F L ind c species) (is_home F L s.is_same_specie c)
        (place-Gained ind c species)

  one_then_more :
      (ind : Individual F) (population : List (Individual F)) (before between : List (Specie F))
      (o : Option (List (Specie F)))
      → Gained F (ind ∷ []) before between
      → Yields (Gained F population between) o
      → Yields (Gained F (ind ∷ population) before) o
  one_then_more ind population before between none h k = tt
  one_then_more ind population before between (some after) h k = (
    k.0 ∙ h.0,
    Perm.trans k.1
        (Perm.trans (Perm.append_left population h.1) (to_front population (members F before))),
  )

  -- `_assign_species` either raises or keeps the species and their order, and adds every individual
  -- of the population to exactly one of them: the members of the species are afterwards those from
  -- before and the population, up to order.
  pub assign_species-Gained :
      (population : List (Individual F)) (species : List (Specie F))
      → Yields (Gained F population species) (assign_species F L population species)
  unfolding assign_species
  assign_species-Gained [] species = (refl, Perm.refl (members F species))
  assign_species-Gained (ind ∷ population) species =
      let at = chromosome_to_coordinate F L ind.chromosomes in
      and_then-Yields (Gained F (ind ∷ []) species) (Gained F (ind ∷ population) species)
        (and_then at (λ c. place F L ind c species)) (assign_species F L population)
        (and_then-Yields (λ c. Unit {0}) (Gained F (ind ∷ []) species) at
          (λ c. place F L ind c species) (any_Yields at) (λ c u. place-Gained ind c species))
        (λ between h.
          one_then_more ind population species between (assign_species F L population between) h
            (assign_species-Gained population between))
