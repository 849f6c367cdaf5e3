-- ===== src/Algorithms/Olagsa/Algorithm/Offered.antt =====
-- The keys that olagsa's `run` makes, against the results of the search.
use mathlib.Core.List.{Perm}
use mathlib.Core.List.Perm
use allocation_key_generatio.Base.Text.{Text}
use allocation_key_generatio.Base.Sorting.{insert, sort_by}
use allocation_key_generatio.Algorithms.Olagsa.Algorithm.{
  iteration_results, key_surplus, keys_of, solution_keys, to_allocation_key_result,
}
use allocation_key_generatio.Base.Num.{Num}
use allocation_key_generatio.Algorithms.Olagsa.Solution.{Key}
use allocation_key_generatio.Base.{
  Bool, if_split, List, Option, [], ap, map, none, refl, some, suc, ℕ, ◌++◌, ◌∷◌, ◌≡◌,
}
use allocation_key_generatio.Shared.Results.{AllocationKeyResult}
use allocation_key_generatio.Algorithms.BruteForce.Algorithm.{final_surplus, final_surplus_of}
use allocation_key_generatio.Algorithms.Olagsa.Generations.{BestSolution}

module _ (F : Num) where
  pub last_surplus :
      (idx : ℕ) (names : List Text) (key : Key F)
      → final_surplus_of F (iteration_results F idx names key) ≡ key_surplus F (some key)
  unfolding iteration_results
  last_surplus idx names [] = refl
  last_surplus idx names (it ∷ []) = refl
  last_surplus idx names (it ∷ next ∷ its) = last_surplus (suc idx) names (next ∷ its)

  abbrev pub Summary : Type 0
  Summary = List F.Real × F.Real

  -- The shares of a key's iterations, and its final surplus
  abbrev pub summary_of : AllocationKeyResult F → Summary
  summary_of key = (map (λ it. it.energy_allocated_percentage) key.iterations, final_surplus F key)

  -- What a result of the search is to be seen as: nothing, if its key has no iterations
  abbrev pub offer : Option (Key F) → List Summary
  offer none = []
  offer (some []) = []
  offer (some (it ∷ its)) =
      (map (λ i. i.energy_allocated_percentage) (it ∷ its), key_surplus F (some (it ∷ its))) ∷ []

  abbrev pub offered : List (BestSolution F) → List Summary
  offered [] = []
  offered (bs ∷ solutions) = offer bs.key ++ offered solutions

  shares_of :
      (idx : ℕ) (names : List Text) (key : Key F)
      → map (λ it. it.energy_allocated_percentage) (iteration_results F idx names key)
        ≡ map (λ it. it.energy_allocated_percentage) key
  unfolding iteration_results
  shares_of idx names [] = refl
  shares_of idx names (it ∷ its) =
      ap (λ l. it.energy_allocated_percentage ∷ l) (shares_of (suc idx) names its)

  with_offer :
      (names : List Text) (fitness : F.Real) (key : Option (Key F))
      (keys : List (AllocationKeyResult F)) (rest : List Summary)
      → map summary_of keys ≡ rest
      → map summary_of (solution_keys F names fitness key ++ keys) ≡ offer key ++ rest
  unfolding solution_keys to_allocation_key_result
  with_offer names fitness none keys rest h = h
  with_offer names fitness (some []) keys rest h = h
  with_offer names fitness (some (it ∷ its)) keys rest h =
      rw (shares_of 0 names (it ∷ its), last_surplus 0 names (it ∷ its), h) refl

  pub keys_of-offered :
      (names : List Text) (solutions : List (BestSolution F))
      → map summary_of (keys_of F names solutions) ≡ offered solutions
  unfolding keys_of
  keys_of-offered names [] = refl
  keys_of-offered names (bs ∷ solutions) =
      with_offer names bs.fitness bs.key (keys_of F names solutions) (offered solutions)
        (keys_of-offered names solutions)

  offer-Perm :
      (a b : Option (Key F)) (rest ys : List Summary)
      → Perm rest (offer a ++ ys)
      → Perm (offer b ++ rest) (offer a ++ (offer b ++ ys))
  offer-Perm a none rest ys h = h
  offer-Perm a (some []) rest ys h = h
  offer-Perm none (some (it ∷ its)) rest ys h = Perm.cons _ h
  offer-Perm (some []) (some (it ∷ its)) rest ys h = Perm.cons _ h
  offer-Perm (some (i ∷ is)) (some (it ∷ its)) rest ys h =
      Perm.trans (Perm.cons _ h) (Perm.swap _ _ ys)

  module _ (before : BestSolution F → BestSolution F → Bool) where
    offered-insert :
        (x : BestSolution F) (ys : List (BestSolution F))
        → Perm (offered (insert before x ys)) (offered (x ∷ ys))
    offered-insert x [] = Perm.refl (offered (x ∷ []))
    offered-insert x (y ∷ ys) =
        if_split (λ l. Perm (offered l) (offered (x ∷ y ∷ ys))) (before y x)
          (λ e.
            offer-Perm x.key y.key (offered (insert before x ys)) (offered ys)
              (offered-insert x ys))
          (λ e. Perm.refl (offered (x ∷ y ∷ ys)))

    pub offered-sort_by :
        (xs : List (BestSolution F)) → Perm (offered (sort_by before xs)) (offered xs)
    unfolding sort_by
    offered-sort_by [] = Perm.refl []
    offered-sort_by (x ∷ xs) =
        Perm.trans (offered-insert x (sort_by before xs))
          (Perm.append_left (offer x.key) (offered-sort_by xs))
