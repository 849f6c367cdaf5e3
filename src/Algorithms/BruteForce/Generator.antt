-- ===== src/Algorithms/BruteForce/Generator.antt =====
-- _impl/generator.py: the trees of 1, 2 or 3 nested iterations.
use allocation_key_generatio.Base.{
  ℕ, zero, suc, ◌+◌, ◌-◌, Option, none, some, List, [], ◌∷◌, map, if◌then◌else◌, length, get_or,
  replicate, range_from, concat_map,
}
use allocation_key_generatio.Base.Num.{Num, below, scale_rows, plus_rows}
use allocation_key_generatio.Algorithms.BruteForce.Iteration.{
  Consumer, Iteration, AlgoName, Node, first_row, add_child, new_consumer, new_iteration, copy,
}
use allocation_key_generatio.Algorithms.BruteForce.Functions.{algo_names, algos}

module _ (F : Num) where
  -- `_reformat_excedents` for a matrix of `va`'s shape
  abbrev pub reformat_excedents : List (List F.Real) → List F.Real → List (List F.Real)
  reformat_excedents va surplus =
      replicate (length va)
        (map (λ i. get_or surplus i F.nought) (range_from 0 (length (first_row va))))

  abbrev pub make_root_iteration : List (List F.Real) → List (List F.Real) → Iteration F
  make_root_iteration c va = new_iteration F (map (λ row. new_consumer F row F.nought) c) va

  unfoldable pub apply_first : Iteration F → F.Real → AlgoName → Node F × Iteration F
  apply_first root pct algo = algos F algo (record (copy F root) {
    energy_allocated_percentage = pct;
    energy_allocated = scale_rows F root.energy_allocated pct;
  })

  abbrev pub roll_down : Consumer F → Consumer F
  roll_down c = record c { consumption = c.residual_volume }

  unfoldable pub build_next_iteration :
      Iteration F → Iteration F → List (List F.Real) → F.Real → Iteration F
  build_next_iteration root previous va pct =
      let next = copy F previous in
      record next {
        energy_allocated_percentage = pct;
        energy_allocated =
            plus_rows F (scale_rows F root.energy_allocated pct)
              (reformat_excedents va previous.surplus);
        consumers = map roll_down next.consumers;
      }

  abbrev pub one_iteration : Iteration F → List (Node F)
  one_iteration root =
      map (λ algo. (algos F algo (record (copy F root) { energy_allocated_percentage = F.one })).0)
        algo_names

  -- `for child in …: node.add_child(child)`
  abbrev pub add_children : Node F → List (Node F) → Node F
  add_children n [] = n
  add_children n (child ∷ children) = add_children (add_child F n child) children

  -- `i / 10`
  abbrev pub tenth : ℕ → F.Real
  tenth i = F.over (F.from_int i) (F.from_int 10)

  -- The loop over the last function: each runs on a copy of `base`.
  abbrev pub leaves : Iteration F → List (Node F)
  leaves base = map (λ algo. (algos F algo (copy F base)).0) algo_names

  -- One round of the loop over `algo1` in `_two_iterations`
  unfoldable pub two_tree : Iteration F → List (List F.Real) → F.Real → F.Real → AlgoName → Node F
  unfolding apply_first build_next_iteration
  two_tree root va pct1 pct2 algo1 =
      let (node1, post1) = apply_first root pct1 algo1 in
      add_children node1 (leaves (build_next_iteration root post1 va pct2))

  abbrev pub two_round : Iteration F → List (List F.Real) → ℕ → List (Node F)
  two_round root va i = map (λ a. two_tree root va (tenth i) (F.minus F.one (tenth i)) a) algo_names

  abbrev pub two_iterations : Iteration F → List (List F.Real) → List (Node F)
  two_iterations root va = concat_map (two_round root va) (range_from 0 11)

  -- One round of the loop over `algo2` in `_three_iterations`
  unfoldable pub second_tree :
      Iteration F → Iteration F → List (List F.Real) → F.Real → AlgoName → Node F
  unfolding build_next_iteration
  second_tree root base va pct3 algo2 =
      let (node2, post2) = algos F algo2 (copy F base) in
      add_children node2 (leaves (build_next_iteration root post2 va pct3))

  unfoldable pub three_tree :
      Iteration F → List (List F.Real) → F.Real → F.Real → F.Real → AlgoName → Node F
  unfolding apply_first build_next_iteration second_tree
  three_tree root va pct1 pct2 pct3 algo1 =
      let (node1, post1) = apply_first root pct1 algo1 in
      let base = build_next_iteration root post1 va pct2 in
      add_children node1 (map (second_tree root base va pct3) algo_names)

  -- `pct3_raw if pct3_raw > 0 else 0`
  abbrev pub third_share : ℕ → ℕ → F.Real
  third_share i j =
      let raw = F.minus (F.minus F.one (tenth i)) (tenth j) in
      if below F F.nought raw then raw else F.nought

  abbrev pub three_round : Iteration F → List (List F.Real) → ℕ → ℕ → List (Node F)
  three_round root va i j =
      map (λ a. three_tree root va (tenth i) (tenth j) (third_share i j) a) algo_names

  abbrev pub three_rounds : Iteration F → List (List F.Real) → ℕ → List (Node F)
  three_rounds root va i = concat_map (three_round root va i) (range_from 0 (10 - i + 1))

  abbrev pub three_iterations : Iteration F → List (List F.Real) → List (Node F)
  three_iterations root va = concat_map (three_rounds root va) (range_from 0 11)

  -- The dispatch on `nb_iterations`; `__init__` refuses other numbers.
  abbrev pub trees : ℕ → Iteration F → List (List F.Real) → Option (List (Node F))
  trees zero root va = none
  trees (suc zero) root va = some (one_iteration root)
  trees (suc (suc zero)) root va = some (two_iterations root va)
  trees (suc (suc (suc zero))) root va = some (three_iterations root va)
  trees (suc (suc (suc (suc n)))) root va = none

  -- `generate`. Without a participant or a row of production the first distribution raises.
  unfoldable pub generate : ℕ → List (List F.Real) → List (List F.Real) → Option (List (Node F))
  unfolding two_tree three_tree
  generate n [] va = none
  generate n (row ∷ c) [] = none
  generate n (row ∷ c) (p ∷ va) = trees n (make_root_iteration (row ∷ c) (p ∷ va)) (p ∷ va)
