-- ===== src/Algorithms/BruteForce/Algorithm.antt =====
-- brute_force/algorithm.py: `run`, from the trees to the sorted keys.
use allocation_key_generatio.Base.{
  ℕ, suc, ◌+◌, Option, none, some, List, [], ◌∷◌, ◌++◌, map, if◌then◌else◌, length, concat_map,
}
use allocation_key_generatio.Base.Text.{Text, codes, decimal}
use allocation_key_generatio.Base.Num.{Num, below}
use allocation_key_generatio.Shared.Results.{
  AlgorithmRawData, ConsumerResult, IterationResult, AllocationKeyResult, AlgorithmResult,
}
use allocation_key_generatio.Crm.Preflight.{join}
use allocation_key_generatio.Algorithms.BruteForce.Iteration.{
  IterationSummary, Node, Nodes, node, nil, cons,
}
use allocation_key_generatio.Algorithms.BruteForce.Generator.{generate}

-- The name of participant `j`: `names` is the list from its own position on.
abbrev pub consumer_name : ℕ → List Text → Text
consumer_name j [] = codes "Consumer " ++ decimal j
consumer_name j ([] ∷ names) = codes "Consumer " ++ decimal j
consumer_name j ((c ∷ s) ∷ names) = c ∷ s

abbrev pub rest {ℓ} : {A : Type ℓ} → List A → List A
rest [] = []
rest (x ∷ xs) = xs

-- `xs[-1]`
abbrev pub last {ℓ} : {A : Type ℓ} → List A → Option A
last [] = none
last (x ∷ []) = some x
last (x ∷ y ∷ ys) = last (y ∷ ys)

module _ (F : Num) where
  -- `_consumer_results`, from participant `j` on
  abbrev pub consumer_results_from : ℕ → List F.Real → List Text → List (ConsumerResult F)
  consumer_results_from j [] names = []
  consumer_results_from j (pct ∷ pcts) names =
      record { name = consumer_name j names; energy_allocated_percentage = pct }
      ∷ consumer_results_from (suc j) pcts (rest names)

  abbrev pub iteration_result : IterationSummary F → ℕ → List Text → IterationResult F
  iteration_result summary number names = record {
    number = number;
    energy_allocated_percentage = summary.energy_allocated_percentage;
    surplus_total = summary.surplus_total;
    consumers = consumer_results_from 0 summary.consumer_percentages names;
  }

  -- The sort key of `run`: `k.iterations[-1].surplus_total if k.iterations else 0.0`
  abbrev pub final_surplus_of : List (IterationResult F) → F.Real
  final_surplus_of its = elim (last its) [ none ↦ F.nought | some it ↦ it.surplus_total ]

  abbrev key_name : Text → Text → Text → List (IterationResult F) → Text
  key_name joined pcts surplus (it ∷ []) =
      joined ++ (codes " / Pourcentage = (" ++ (pcts ++ codes ")"))
  key_name joined pcts surplus its =
      joined ++ (codes " / Pourcentages = (" ++ (pcts ++ (codes ") / Surplus : " ++ surplus)))

  -- `_build_key`
  unfoldable pub build_key : List (IterationResult F) → List Text → AllocationKeyResult F
  build_key its names = record {
    name =
        key_name (join (codes " - ") names)
          (join (codes ",") (map (λ it. F.rounded it.energy_allocated_percentage) its))
          (F.rounded (final_surplus_of its)) its;
    description = codes "Clé obtenue grâce à l'algorithme de brute force";
    iterations = its;
  }

-- `walk`: one key for every leaf, in order
unfoldable mutual
  pub walk :
      (F : Num)
      → List Text
      → Node F
      → List (IterationResult F)
      → List Text
      → List (AllocationKeyResult F)
  walk F consumers (node name summary children) its names =
      walk_children F consumers children
        (its ++ iteration_result F summary (length its + 1) consumers ∷ []) (names ++ name ∷ [])

  pub walk_children :
      (F : Num)
      → List Text
      → Nodes F
      → List (IterationResult F)
      → List Text
      → List (AllocationKeyResult F)
  walk_children F consumers nil its names = build_key F its names ∷ []
  walk_children F consumers (cons child nil) its names = walk F consumers child its names
  walk_children F consumers (cons child (cons c cs)) its names =
      walk F consumers child its names ++ walk_children F consumers (cons c cs) its names

module _ (F : Num) where
  abbrev pub flatten_node : List Text → Node F → List (AllocationKeyResult F)
  unfolding walk walk_children
  flatten_node consumers root = walk F consumers root [] []

  abbrev pub final_surplus : AllocationKeyResult F → F.Real
  final_surplus key = final_surplus_of F key.iterations

  -- `keys.sort(key=…)`, which is stable
  abbrev pub insert_key :
      AllocationKeyResult F → List (AllocationKeyResult F) → List (AllocationKeyResult F)
  insert_key x [] = x ∷ []
  insert_key x (y ∷ ys) =
      let placed = insert_key x ys in
      if below F (final_surplus y) (final_surplus x) then y ∷ placed else x ∷ y ∷ ys

  unfoldable pub sort_keys : List (AllocationKeyResult F) → List (AllocationKeyResult F)
  sort_keys [] = []
  sort_keys (x ∷ xs) = insert_key x (sort_keys xs)

  abbrev pub all_keys : List Text → List (Node F) → List (AllocationKeyResult F)
  all_keys consumers roots = concat_map (flatten_node consumers) roots

  -- `run`, with the number of iterations of `inputs`; `none` is an exception.
  unfoldable pub run : ℕ → AlgorithmRawData F → Option (AlgorithmResult F)
  unfolding sort_keys generate
  run iterations raw_data = elim (generate F iterations raw_data.C raw_data.va) [
    | none ↦ none
    | some roots ↦ some (record { keys = sort_keys (all_keys raw_data.consumer_names roots) })
  ]
