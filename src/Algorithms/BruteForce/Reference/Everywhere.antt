-- ===== src/Algorithms/BruteForce/Reference/Everywhere.antt =====
-- What holds of the stages of every key of the enumeration.
use allocation_key_generatio.Base.{
  ℕ, ◌+◌, ◌-◌, ◌≤◌, List, [], ◌∷◌, All, range_from, concat_map, All-map, All-concat_map,
  All-range_from, arith,
}
use allocation_key_generatio.Base.Num.{Num}
use allocation_key_generatio.Algorithms.BruteForce.Iteration.{Iteration, AlgoName}
use allocation_key_generatio.Algorithms.BruteForce.Functions.{algo_names}
use allocation_key_generatio.Algorithms.BruteForce.Generator.{tenth, third_share}
use allocation_key_generatio.Algorithms.BruteForce.Reference.{
  Played, play_all, play_one, reference_one, two_stages, reference_two, three_stages, three_shares,
  reference_three,
}

module _ (F : Num) (P : Played F → Type 0) where
  pub reference_one-All :
      (root : Iteration F) → ((a : AlgoName) → P (play_one F root a)) → All P (reference_one F root)
  reference_one-All root h = All-map P (play_one F root) h algo_names

  pub reference_two-All :
      (root : Iteration F) (va : List (List F.Real))
      → ((i : ℕ) (a b : AlgoName)
          → i ≤ 10
          → P (play_all F root va (tenth F i, a) ((F.minus F.one (tenth F i), b) ∷ [])))
      → All P (reference_two F root va)
  reference_two-All root va h =
      All-range_from P (λ i. concat_map (two_stages F root va i) algo_names) 0 11
        (λ i lt.
          All-concat_map P (two_stages F root va i)
            (λ a.
              All-map P
                (λ b. play_all F root va (tenth F i, a) ((F.minus F.one (tenth F i), b) ∷ []))
                (λ b. h i a b (omega arith)) algo_names)
            algo_names)

  pub reference_three-All :
      (root : Iteration F) (va : List (List F.Real))
      → ((i j : ℕ) (a b c : AlgoName)
          → i ≤ 10
          → j ≤ 10
          → P (play_all F root va (tenth F i, a) ((tenth F j, b) ∷ (third_share F i j, c) ∷ [])))
      → All P (reference_three F root va)
  reference_three-All root va h =
      All-range_from P (λ i. concat_map (three_shares F root va i) (range_from 0 (10 - i + 1))) 0 11
        (λ i lt. All-range_from P (three_shares F root va i) 0 (10 - i + 1) (λ j lt'.
          All-concat_map P (λ a. concat_map (three_stages F root va i j a) algo_names)
            (λ a.
              All-concat_map P (three_stages F root va i j a)
                (λ b.
                  All-map P
                    (λ c.
                      play_all F root va (tenth F i, a)
                        ((tenth F j, b) ∷ (third_share F i j, c) ∷ []))
                    (λ c. h i j a b c (omega arith) (omega arith)) algo_names)
                algo_names)
            algo_names))
