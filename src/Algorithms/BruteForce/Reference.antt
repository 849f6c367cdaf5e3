-- ===== src/Algorithms/BruteForce/Reference.antt =====
-- The enumeration without trees: every key is computed on its own, stage after stage, from its
-- shares and its distribution functions. This is what the trees of the generator stand for.
pub mod Trees
pub mod Everywhere
pub mod Shapes
use allocation_key_generatio.Base.{
  ℕ, zero, suc, ◌+◌, ◌-◌, ◌≡◌, refl, ap, ◌∙◌, sym, List, [], ◌∷◌, ◌++◌, map, Option, none, some,
  range_from, concat_map, concat_map-concat_map, concat_map-map,
}
use allocation_key_generatio.Base.Text.{Text}
use allocation_key_generatio.Base.Num.{Num}
use allocation_key_generatio.Shared.Results.{IterationResult, AllocationKeyResult}
use allocation_key_generatio.Algorithms.BruteForce.Iteration.{
  Iteration, IterationSummary, AlgoName, Node, Nodes, node, nil, cons, copy, summary,
}
use allocation_key_generatio.Algorithms.BruteForce.Functions.{
  algo_names, algo_name, algos, egalitaire, prorata_total, prorata,
}
use allocation_key_generatio.Algorithms.BruteForce.Generator.{
  apply_first, build_next_iteration, add_children, leaves, tenth, two_tree, two_iterations,
  second_tree, three_tree, third_share, three_iterations, one_iteration, trees,
}
use allocation_key_generatio.Algorithms.BruteForce.Algorithm.{
  iteration_result, build_key, walk, walk_children, flatten_node, all_keys,
}

module _ (F : Num) where
  -- The share of the production and the function of one iteration
  abbrev pub Stage : Type 0
  Stage = F.Real × AlgoName

  abbrev pub Played : Type 0
  Played = List (AlgoName × IterationSummary F)

  -- The stages after the first, from the state that the previous one left
  abbrev pub play : Iteration F → List (List F.Real) → Iteration F → List Stage → Played
  play root va previous [] = []
  play root va previous ((pct, algo) ∷ stages) =
      let post = (algos F algo (copy F (build_next_iteration F root previous va pct))).1 in
      (algo, summary F post) ∷ play root va post stages

  abbrev pub play_all : Iteration F → List (List F.Real) → Stage → List Stage → Played
  play_all root va (pct, algo) stages =
      let post = (apply_first F root pct algo).1 in
      (algo, summary F post) ∷ play root va post stages

  -- A single iteration gets the whole production, unscaled.
  abbrev pub play_one : Iteration F → AlgoName → Played
  play_one root algo =
      let it = record (copy F root) { energy_allocated_percentage = F.one } in
      (algo, summary F (algos F algo it).1) ∷ []

  -- The iterations of a key, numbered from `k` on
  abbrev pub numbered : List Text → ℕ → Played → List (IterationResult F)
  numbered consumers k [] = []
  numbered consumers k ((algo, s) ∷ rest) =
      iteration_result F s k consumers ∷ numbered consumers (suc k) rest

  abbrev pub key_of : List Text → Played → AllocationKeyResult F
  key_of consumers played =
      build_key F (numbered consumers 1 played) (map (λ p. algo_name p.0) played)

  -- The stages of every key: 1, 2 or 3 of them, in the order of the enumeration
  abbrev pub reference_one : Iteration F → List Played
  reference_one root = map (play_one root) algo_names

  abbrev pub two_stages : Iteration F → List (List F.Real) → ℕ → AlgoName → List Played
  two_stages root va i a =
      map (λ b. play_all root va (tenth F i, a) ((F.minus F.one (tenth F i), b) ∷ [])) algo_names

  abbrev pub reference_two : Iteration F → List (List F.Real) → List Played
  reference_two root va =
      concat_map (λ i. concat_map (two_stages root va i) algo_names) (range_from 0 11)

  abbrev pub three_stages :
      Iteration F → List (List F.Real) → ℕ → ℕ → AlgoName → AlgoName → List Played
  three_stages root va i j a b =
      map (λ c. play_all root va (tenth F i, a) ((tenth F j, b) ∷ (third_share F i j, c) ∷ []))
        algo_names

  abbrev pub three_shares : Iteration F → List (List F.Real) → ℕ → ℕ → List Played
  three_shares root va i j =
      concat_map (λ a. concat_map (three_stages root va i j a) algo_names) algo_names

  abbrev pub reference_three : Iteration F → List (List F.Real) → List Played
  reference_three root va =
      concat_map (λ i. concat_map (three_shares root va i) (range_from 0 (10 - i + 1)))
        (range_from 0 11)

  abbrev pub reference : ℕ → Iteration F → List (List F.Real) → Option (List Played)
  reference zero root va = none
  reference (suc zero) root va = some (reference_one root)
  reference (suc (suc zero)) root va = some (reference_two root va)
  reference (suc (suc (suc zero))) root va = some (reference_three root va)
  reference (suc (suc (suc (suc n)))) root va = none
