-- ===== src/Algorithms/BruteForce/Reference/Trees.antt =====
-- The trees of the generator, flattened, are the keys of the reference enumeration.
use allocation_key_generatio.Base.{
  ℕ, zero, suc, ◌+◌, ◌-◌, ◌≡◌, refl, ap, List, [], ◌∷◌, map, some, range_from, concat_map,
  concat_map-concat_map, concat_map-map,
}
use mathlib.Core.Option
use allocation_key_generatio.Base.Text.{Text}
use allocation_key_generatio.Base.Num.{Num}
use allocation_key_generatio.Shared.Results.{IterationResult}
use allocation_key_generatio.Algorithms.BruteForce.Iteration.{
  Iteration, AlgoName, node, nil, copy, summary,
}
use allocation_key_generatio.Algorithms.BruteForce.Functions.{
  algo_names, algo_name, algos, egalitaire, prorata_total, prorata,
}
use allocation_key_generatio.Algorithms.BruteForce.Generator.{
  apply_first, tenth, two_tree, two_round, two_iterations, second_tree, three_tree, third_share,
  three_round, three_rounds, three_iterations, one_iteration, trees,
}
use allocation_key_generatio.Algorithms.BruteForce.Algorithm.{
  build_key, walk, walk_children, flatten_node, all_keys,
}
use allocation_key_generatio.Algorithms.BruteForce.Reference.{
  play, play_all, numbered, key_of, reference_one, two_stages, reference_two, three_stages,
  three_shares, reference_three, reference,
}

module _ (F : Num) where
  -- Every function returns a node without children that has the summary of its iteration.
  algos_node :
      (algo : AlgoName) (it : Iteration F)
      → (algos F algo it).0 ≡ node (algo_name algo) (summary F (algos F algo it).1) nil
  unfolding egalitaire prorata_total prorata
  algos_node AlgoName.egalitaire it = refl
  algos_node AlgoName.prorata_total it = refl
  algos_node AlgoName.prorata it = refl

  first_node :
      (root : Iteration F) (pct : F.Real) (algo : AlgoName)
      → (apply_first F root pct algo).0
        ≡ node (algo_name algo) (summary F (apply_first F root pct algo).1) nil
  unfolding apply_first
  first_node root pct algo = algos_node algo _

  one_keys :
      (consumers : List Text) (root : Iteration F)
      → all_keys F consumers (one_iteration F root)
        ≡ map (key_of F consumers) (reference_one F root)
  unfolding walk walk_children
  one_keys consumers root =
      rw
        (
          algos_node AlgoName.egalitaire _,
          algos_node AlgoName.prorata_total _,
          algos_node AlgoName.prorata _,
        )
        refl

  two_tree_keys :
      (consumers : List Text) (root : Iteration F) (va : List (List F.Real)) (p q : F.Real)
      (a : AlgoName)
      → flatten_node F consumers (two_tree F root va p q a)
        ≡ map (key_of F consumers) (map (λ b. play_all F root va (p, a) ((q, b) ∷ [])) algo_names)
  unfolding walk walk_children two_tree
  two_tree_keys consumers root va p q a =
      rw
        (
          first_node root p a,
          algos_node AlgoName.egalitaire _,
          algos_node AlgoName.prorata_total _,
          algos_node AlgoName.prorata _,
        )
        refl

  second_tree_keys :
      (consumers : List Text) (root base : Iteration F) (va : List (List F.Real)) (r : F.Real)
      (b : AlgoName) (it1 : IterationResult F) (name1 : Text)
      → let post2 = (algos F b (copy F base)).1 in
        walk F consumers (second_tree F root base va r b) (it1 ∷ []) (name1 ∷ [])
        ≡ map
            (λ c.
              build_key F
                (it1
                  ∷ numbered F consumers 2
                      ((b, summary F post2) ∷ play F root va post2 ((r, c) ∷ [])))
                (name1 ∷ algo_name b ∷ algo_name c ∷ []))
            algo_names
  unfolding walk walk_children second_tree
  second_tree_keys consumers root base va r b it1 name1 =
      rw
        (
          algos_node b (copy F base),
          algos_node AlgoName.egalitaire _,
          algos_node AlgoName.prorata_total _,
          algos_node AlgoName.prorata _,
        )
        refl

  three_tree_keys :
      (consumers : List Text) (root : Iteration F) (va : List (List F.Real)) (p q r : F.Real)
      (a : AlgoName)
      → flatten_node F consumers (three_tree F root va p q r a)
        ≡ map (key_of F consumers) (
            concat_map
              (λ b. map (λ c. play_all F root va (p, a) ((q, b) ∷ (r, c) ∷ [])) algo_names)
              algo_names)
  unfolding walk walk_children three_tree
  three_tree_keys consumers root va p q r a =
      rw
        (
          first_node root p a,
          second_tree_keys consumers root _ va r AlgoName.egalitaire _ _,
          second_tree_keys consumers root _ va r AlgoName.prorata_total _ _,
          second_tree_keys consumers root _ va r AlgoName.prorata _ _,
        )
        refl

  two_keys :
      (consumers : List Text) (root : Iteration F) (va : List (List F.Real))
      → all_keys F consumers (two_iterations F root va)
        ≡ map (key_of F consumers) (reference_two F root va)
  two_keys consumers root va =
      concat_map-concat_map (flatten_node F consumers) (key_of F consumers) (two_round F root va)
        (λ i. concat_map (two_stages F root va i) algo_names)
        (λ i.
          concat_map-map (flatten_node F consumers) (key_of F consumers)
            (two_tree F root va (tenth F i) (F.minus F.one (tenth F i))) (two_stages F root va i)
            (λ a. two_tree_keys consumers root va (tenth F i) (F.minus F.one (tenth F i)) a)
            algo_names)
        (range_from 0 11)

  three_keys :
      (consumers : List Text) (root : Iteration F) (va : List (List F.Real))
      → all_keys F consumers (three_iterations F root va)
        ≡ map (key_of F consumers) (reference_three F root va)
  three_keys consumers root va =
      let flat = flatten_node F consumers in
      let key = key_of F consumers in
      concat_map-concat_map flat key (three_rounds F root va)
        (λ i. concat_map (three_shares F root va i) (range_from 0 (10 - i + 1)))
        (λ i.
          concat_map-concat_map flat key (three_round F root va i) (three_shares F root va i)
            (λ j.
              concat_map-map flat key
                (three_tree F root va (tenth F i) (tenth F j) (third_share F i j))
                (λ a. concat_map (three_stages F root va i j a) algo_names)
                (λ a.
                  three_tree_keys consumers root va (tenth F i) (tenth F j) (third_share F i j) a)
                algo_names)
            (range_from 0 (10 - i + 1)))
        (range_from 0 11)

  -- The trees of `n` iterations, flattened
  pub trees_keys :
      (consumers : List Text) (n : ℕ) (root : Iteration F) (va : List (List F.Real))
      → Option.map (all_keys F consumers) (trees F n root va)
        ≡ Option.map (map (key_of F consumers)) (reference F n root va)
  trees_keys consumers zero root va = refl
  trees_keys consumers (suc zero) root va = ap some (one_keys consumers root)
  trees_keys consumers (suc (suc zero)) root va = ap some (two_keys consumers root va)
  trees_keys consumers (suc (suc (suc zero))) root va = ap some (three_keys consumers root va)
  trees_keys consumers (suc (suc (suc (suc n)))) root va = refl
