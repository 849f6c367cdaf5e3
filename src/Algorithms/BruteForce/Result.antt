-- ===== src/Algorithms/BruteForce/Result.antt =====
-- `run`: what a worker gets from the enumeration.
use mathlib.Core.Option
use mathlib.Core.List.{Perm}
use allocation_key_generatio.Base.{
  ℕ, zero, suc, ◌≡◌, ◌≤◌, refl, ap, ◌∙◌, subst, Option, none, some, List, [], ◌∷◌, map, length,
  length-map, All, arith,
}
use allocation_key_generatio.Base.Text.{Text}
use allocation_key_generatio.Base.Num.{Num, NumLaws}
use allocation_key_generatio.Shared.Results.{AlgorithmResult}
use allocation_key_generatio.Algorithms.BruteForce.Iteration.{Iteration, Node, new_consumer}
use allocation_key_generatio.Algorithms.BruteForce.Generator.{make_root_iteration, generate, trees}
use allocation_key_generatio.Algorithms.BruteForce.Algorithm.{sort_keys, all_keys, run}
use allocation_key_generatio.Algorithms.BruteForce.Reference.{Played, key_of, reference}
use allocation_key_generatio.Algorithms.BruteForce.Reference.Trees.{trees_keys}
use allocation_key_generatio.Algorithms.BruteForce.Reference.Shapes.{
  KeyShape, PlayedShape, OnSome, key_of-KeyShape, reference-PlayedShape,
}
use allocation_key_generatio.Algorithms.BruteForce.Sort.{
  Ascending, sort_keys-All, sort_keys-Perm, sort_keys-length, sort_keys-Ascending,
}

-- How many keys there are for `n` iterations
abbrev pub num_keys : ℕ → ℕ
num_keys zero = 0
num_keys (suc zero) = 3
num_keys (suc (suc zero)) = 99
num_keys (suc (suc (suc zero))) = 1782
num_keys (suc (suc (suc (suc n)))) = 0

module _ (F : Num) where
  abbrev pub ranked : List Text → List (Played F) → AlgorithmResult F
  ranked names played = record { keys = sort_keys F (map (key_of F names) played) }

  ran : List Text → Option (List (Node F)) → Option (AlgorithmResult F)
  ran names roots = elim roots [
    | none ↦ none
    | some roots ↦ some (record { keys = sort_keys F (all_keys F names roots) })
  ]

  ran-map :
      (names : List Text) (roots : Option (List (Node F))) (played : Option (List (Played F)))
      → Option.map (all_keys F names) roots ≡ Option.map (map (key_of F names)) played
      → ran names roots ≡ Option.map (ranked names) played
  unfolding ran
  ran-map names none none h = refl
  ran-map names none (some p) h = cc
  ran-map names (some r) none h = cc
  ran-map names (some r) (some p) h = ap (Option.map (λ keys. record { keys = sort_keys F keys })) h

  -- The result of `run` on at least one participant and one row of production is the reference
  -- enumeration, every key computed on its own stage after stage, sorted by `sort_keys`; and
  -- `run` raises exactly where the reference has no keys, on other numbers of iterations than
  -- 1, 2 and 3.
  pub run-eq-reference :
      (n : ℕ) (row : List F.Real) (c : List (List F.Real)) (p : List F.Real)
      (va : List (List F.Real)) (names : List Text)
      → run F n (record { C = row ∷ c; va = p ∷ va; consumer_names = names })
        ≡ Option.map
            (ranked names)
            (reference F n (make_root_iteration F (row ∷ c) (p ∷ va)) (p ∷ va))
  unfolding run generate ran
  run-eq-reference n row c p va names =
      let root = make_root_iteration F (row ∷ c) (p ∷ va) in
      ran-map names (trees F n root (p ∷ va)) (reference F n root (p ∷ va))
        (trees_keys F names n root (p ∷ va))

  pub reference-some :
      (n : ℕ) (root : Iteration F) (va : List (List F.Real))
      → 1 ≤ n
      → n ≤ 3
      → (played : List (Played F)) × (reference F n root va ≡ some played)
        × (length played ≡ num_keys n)
  reference-some zero root va lo hi = absurd (omega (lo, arith))
  reference-some (suc zero) root va lo hi = (_, refl, refl)
  reference-some (suc (suc zero)) root va lo hi = (_, refl, refl)
  reference-some (suc (suc (suc zero))) root va lo hi = (_, refl, refl)
  reference-some (suc (suc (suc (suc n)))) root va lo hi = absurd (omega (hi, arith))

  keys_KeyShape :
      (n m : ℕ) (names : List Text) (played : List (Played F))
      → All (PlayedShape F n m) played
      → All (KeyShape F n m names) (map (key_of F names) played)
  keys_KeyShape n m names [] h = tt
  keys_KeyShape n m names (p ∷ ps) h =
      (key_of-KeyShape F n m names p h.0, keys_KeyShape n m names ps h.1)

  -- With 1, 2 or 3 iterations, at least one participant and one row of production, `run` returns
  -- 3, 99 or 1782 keys; each has exactly `n` iterations, numbered 1 to `n`, and each iteration
  -- has one share for every participant, in order and under its name.
  pub run-KeyShape :
      (n : ℕ) (row : List F.Real) (c : List (List F.Real)) (p : List F.Real)
      (va : List (List F.Real)) (names : List Text)
      → 1 ≤ n
      → n ≤ 3
      → (result : AlgorithmResult F) × (run F n
            (record { C = row ∷ c; va = p ∷ va; consumer_names = names })
          ≡ some result)
        × (length result.keys ≡ num_keys n)
        × All (KeyShape F n (length (row ∷ c)) names) result.keys
  run-KeyShape n row c p va names lo hi =
      let root = make_root_iteration F (row ∷ c) (p ∷ va) in
      let (played, found, count) = reference-some n root (p ∷ va) lo hi in
      let shapes = subst (OnSome (All (PlayedShape F n (length (row ∷ c))))) found (
        reference-PlayedShape F n (length (row ∷ c)) root (p ∷ va)
          (length-map (row ∷ c) (λ r. new_consumer F r F.nought))) in
      (
        ranked names played,
        run-eq-reference n row c p va names ∙ ap (Option.map (ranked names)) found,
        sort_keys-length F (map (key_of F names) played)
            ∙ (length-map played (key_of F names) ∙ count),
        sort_keys-All F (KeyShape F n (length (row ∷ c)) names) (map (key_of F names) played)
            (keys_KeyShape n (length (row ∷ c)) names played shapes),
      )

  -- For numbers with a total order: with 1, 2 or 3 iterations, at least one participant and one
  -- row of production, `run` returns the keys of the reference enumeration in ascending order of
  -- the surplus of their last iteration, none added and none lost.
  pub run-Ascending :
      (laws : NumLaws F) (n : ℕ) (row : List F.Real) (c : List (List F.Real)) (p : List F.Real)
      (va : List (List F.Real)) (names : List Text)
      → 1 ≤ n
      → n ≤ 3
      → (result : AlgorithmResult F) × (run F n
            (record { C = row ∷ c; va = p ∷ va; consumer_names = names })
          ≡ some result)
        × Ascending F result.keys
        × (played : List (Played F)) × (reference F n
              (make_root_iteration F (row ∷ c) (p ∷ va))
              (p ∷ va)
            ≡ some played)
        × Perm result.keys (map (key_of F names) played)
  run-Ascending laws n row c p va names lo hi =
      let root = make_root_iteration F (row ∷ c) (p ∷ va) in
      let (played, found, count) = reference-some n root (p ∷ va) lo hi in
      (
        ranked names played,
        run-eq-reference n row c p va names ∙ ap (Option.map (ranked names)) found,
        sort_keys-Ascending F laws (map (key_of F names) played),
        played,
        found,
        sort_keys-Perm F (map (key_of F names) played),
      )
