-- ===== src/Algorithms/Olagsa/Algorithm/Ranked.antt =====
-- What olagsa's `run` returns: the keys, sorted and numbered.
use allocation_key_generatio.Algorithms.BruteForce.Sort.{below_le, not_below_le}
use mathlib.Core.List.{Perm}
use allocation_key_generatio.Base.Text.{Text}
use allocation_key_generatio.Algorithms.Olagsa.Draw.{Ends, continue, pure}
use allocation_key_generatio.Algorithms.Olagsa.Outside.{Outside}
use allocation_key_generatio.Base.Sorting.{Ordered, sort_by-All, sort_by-Ordered}
use allocation_key_generatio.Algorithms.Olagsa.Algorithm.{
  OlagsaInput, iteration_results, key_surplus, keys_of, new_ga, run, solution_keys,
  solution_surplus, sort_solutions, to_allocation_key_result,
}
use allocation_key_generatio.Base.Num.{Num, NumLaws, below}
use allocation_key_generatio.Algorithms.Olagsa.Solution.{Key}
use allocation_key_generatio.Algorithms.Olagsa.Generations.Results.{Judged, run-Judged}
use allocation_key_generatio.Base.{
  All, All-append, List, Option, [], ap, arith, length, map, none, range_from, refl, some, subst,
  suc, sym, true, ℕ, ◌++◌, ◌+◌, ◌∙◌, ◌∷◌, ◌≡◌, ◌≤◌,
}
use allocation_key_generatio.Shared.Results.{AlgorithmRawData, AlgorithmResult, AllocationKeyResult}
use allocation_key_generatio.Algorithms.Olagsa.Generations
use allocation_key_generatio.Algorithms.BruteForce.Algorithm.{final_surplus}
use allocation_key_generatio.Algorithms.Olagsa.Generations.{BestSolution}
use allocation_key_generatio.Algorithms.Olagsa.Algorithm.Offered.{
  last_surplus, summary_of, offered, keys_of-offered, offered-sort_by,
}

module _ (F : Num) where
  -- The final surplus of the first key is not greater.
  abbrev pub NoMore : AllocationKeyResult F → AllocationKeyResult F → Type 0
  NoMore a b = F.at_most (final_surplus F a) (final_surplus F b) ≡ true

  -- A key of one to `n` iterations, numbered from 1 on
  abbrev pub KeyShape : ℕ → AllocationKeyResult F → Type 0
  KeyShape n key =
      (1 ≤ length key.iterations)
      × ((length key.iterations ≤ n)
          × (map (λ it. it.number) key.iterations ≡ range_from 1 (length key.iterations)))

  abbrev SmallerSolution : BestSolution F → BestSolution F → Type 0
  SmallerSolution a b = F.at_most (solution_surplus F a) (solution_surplus F b) ≡ true

  length-iteration_results :
      (idx : ℕ) (names : List Text) (key : Key F)
      → length (iteration_results F idx names key) ≡ length key
  unfolding iteration_results
  length-iteration_results idx names [] = refl
  length-iteration_results idx names (it ∷ its) =
      ap suc (length-iteration_results (suc idx) names its)

  shift : (idx : ℕ) → suc idx + 1 ≡ suc (idx + 1)
  shift idx = omega arith

  numbers_of :
      (idx : ℕ) (names : List Text) (key : Key F)
      → map (λ it. it.number) (iteration_results F idx names key)
        ≡ range_from (idx + 1) (length (iteration_results F idx names key))
  unfolding iteration_results
  numbers_of idx names [] = refl
  numbers_of idx names (it ∷ its) =
      ap (λ l. (idx + 1) ∷ l)
        (numbers_of (suc idx) names its
          ∙ ap (λ k. range_from k (length (iteration_results F (suc idx) names its))) (shift idx))

  -- The keys of a solution have its surplus.
  solution_keys-All :
      (P : AllocationKeyResult F → Type 0) (names : List Text) (fitness : F.Real)
      (key : Option (Key F))
      → ((k : AllocationKeyResult F) → final_surplus F k ≡ key_surplus F key → P k)
      → All P (solution_keys F names fitness key)
  unfolding solution_keys to_allocation_key_result
  solution_keys-All P names fitness none h = tt
  solution_keys-All P names fitness (some []) h = tt
  solution_keys-All P names fitness (some (it ∷ its)) h = (
    h (to_allocation_key_result F fitness (it ∷ its) names) (last_surplus F 0 names (it ∷ its)),
    tt,
  )

  keys_above :
      (names : List Text) (k : AllocationKeyResult F) (a : BestSolution F)
      (solutions : List (BestSolution F))
      → final_surplus F k ≡ solution_surplus F a
      → All (SmallerSolution a) solutions
      → All (NoMore k) (keys_of F names solutions)
  unfolding keys_of
  keys_above names k a [] e h = tt
  keys_above names k a (bs ∷ solutions) e h =
      All-append (NoMore k) (solution_keys F names bs.fitness bs.key) (keys_of F names solutions)
        (solution_keys-All (NoMore k) names bs.fitness bs.key (λ k' e'.
          subst (λ x. F.at_most x (final_surplus F k') ≡ true) (sym e)
            (subst (λ y. F.at_most (solution_surplus F a) y ≡ true) (sym e') h.0)))
        (keys_above names k a solutions e h.1)

  keys_cons :
      (names : List Text) (fitness : F.Real) (key : Option (Key F))
      (keys : List (AllocationKeyResult F))
      → ((k : AllocationKeyResult F) → final_surplus F k ≡ key_surplus F key → All (NoMore k) keys)
      → Ordered NoMore keys
      → Ordered NoMore (solution_keys F names fitness key ++ keys)
  unfolding solution_keys to_allocation_key_result
  keys_cons names fitness none keys h k = k
  keys_cons names fitness (some []) keys h k = k
  keys_cons names fitness (some (it ∷ its)) keys h k = (
    h (to_allocation_key_result F fitness (it ∷ its) names) (last_surplus F 0 names (it ∷ its)),
    k,
  )

  keys_of-Ordered :
      (names : List Text) (solutions : List (BestSolution F))
      → Ordered SmallerSolution solutions
      → Ordered NoMore (keys_of F names solutions)
  unfolding keys_of
  keys_of-Ordered names [] h = tt
  keys_of-Ordered names (bs ∷ solutions) h =
      keys_cons names bs.fitness bs.key (keys_of F names solutions)
        (λ k e. keys_above names k bs solutions e h.0) (keys_of-Ordered names solutions h.1)

  module _ (n : ℕ) where
    -- A result of the search that has a key of at most `n` iterations
    abbrev Short : BestSolution F → Type 0
    Short bs = (key : Key F) × ((bs.key ≡ some key) × (length key ≤ n))

    solution_keys-Shape :
        (names : List Text) (fitness : F.Real) (key : Key F)
        → length key ≤ n
        → All (KeyShape n) (solution_keys F names fitness (some key))
    unfolding solution_keys to_allocation_key_result
    solution_keys-Shape names fitness [] h = tt
    solution_keys-Shape names fitness (it ∷ its) h = (
      (
        omega (arith, length-iteration_results 0 names (it ∷ its)),
        (
          omega (arith, h, length-iteration_results 0 names (it ∷ its)),
          numbers_of 0 names (it ∷ its),
        ),
      ),
      tt,
    )

    keys_of-Shape :
        (names : List Text) (solutions : List (BestSolution F))
        → All Short solutions
        → All (KeyShape n) (keys_of F names solutions)
    unfolding keys_of
    keys_of-Shape names [] h = tt
    keys_of-Shape names (bs ∷ solutions) h =
        let (key, (e, le)) = h.0 in
        All-append (KeyShape n) (solution_keys F names bs.fitness bs.key)
          (keys_of F names solutions)
          (subst (λ k. All (KeyShape n) (solution_keys F names bs.fitness k)) (sym e)
            (solution_keys-Shape names bs.fitness key le))
          (keys_of-Shape names solutions h.1)

module _ (F : Num) (laws : NumLaws F) where
  sort_solutions-Ordered :
      (solutions : List (BestSolution F)) → Ordered (SmallerSolution F) (sort_solutions F solutions)
  unfolding sort_solutions
  sort_solutions-Ordered solutions =
      sort_by-Ordered (SmallerSolution F)
        (λ a b. below F (solution_surplus F a) (solution_surplus F b))
        (λ a b c h k. laws.trans_le _ _ _ h k) (λ a b h. below_le F laws _ _ h)
        (λ a b h. not_below_le F laws _ _ h) solutions

  All-Judged :
      (L : Outside F) (m : ℕ) (c va : List (List F.Real)) (solutions : List (BestSolution F))
      → All (Judged F L m c va) solutions
      → All (Short F (suc m)) solutions
  All-Judged L m c va [] h = tt
  All-Judged L m c va (bs ∷ solutions) ((size, fit, (key, e, r, le)), hs) =
      ((key, (e, le)), All-Judged L m c va solutions hs)

  -- What `run` makes of what the search ends in, for `n` iterations
  abbrev pub Ranks :
      {S : Type 0}
      → ℕ
      → Option (List (BestSolution F) × S)
      → Option (AlgorithmResult F × S)
      → Type 0
  Ranks n none end = end ≡ none
  Ranks n (some (solutions, s)) end =
      (result : AlgorithmResult F) × (end ≡ some (result, s))
      × Perm (map (summary_of F) result.keys) (offered F solutions)
      × Ordered (NoMore F) result.keys
      × All (KeyShape F n) result.keys

  module _ (L : Outside F) (m : ℕ) (c va : List (List F.Real)) (names : List Text) where
    ranked_of :
        (o : Option (List (BestSolution F) × L.Seed))
        → Ends (All (Judged F L m c va)) o
        → Ranks
            (suc m)
            o
            (continue (λ best. pure (record { keys = keys_of F names (sort_solutions F best) })) o)
    unfolding sort_solutions
    ranked_of none h = refl
    ranked_of (some (solutions, s)) h =
        let sorted = sort_solutions F solutions in
        let before =
          λ (a b : BestSolution F). below F (solution_surplus F a) (solution_surplus F b) in
        (
          record { keys = keys_of F names sorted },
          refl,
          subst (λ l. Perm l (offered F solutions)) (sym (keys_of-offered F names sorted))
              (offered-sort_by F before solutions),
          keys_of-Ordered F names sorted (sort_solutions-Ordered solutions),
          keys_of-Shape F (suc m) names sorted
              (sort_by-All before (Short F (suc m)) solutions (All-Judged L m c va solutions h)),
        )

  -- Over numbers with the laws of `NumLaws`, whatever is drawn and solved: `run` with `m + 1`
  -- iterations raises if the search does, and otherwise returns a key for each result of the search
  -- that has at least one iteration, with the shares of its iterations and its final surplus. The
  -- keys are sorted by their final surplus, smallest first; each has between 1 and `m + 1`
  -- iterations, numbered from 1 on without a gap.
  pub run-Ranked :
      (L : Outside F) (m : ℕ) (inputs : OlagsaInput F) (raw_data : AlgorithmRawData F) (s : L.Seed)
      → inputs.iterations ≡ suc m
      → Ranks
          (suc m)
          (Generations.run F L (new_ga F inputs) raw_data.C raw_data.va s)
          (run F L inputs raw_data s)
  unfolding run
  run-Ranked L m inputs raw_data s h =
      ranked_of L m raw_data.C raw_data.va raw_data.consumer_names
        (Generations.run F L (new_ga F inputs) raw_data.C raw_data.va s)
        (run-Judged F L m raw_data.C raw_data.va (new_ga F inputs) h s)
