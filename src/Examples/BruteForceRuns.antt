-- ===== src/Examples/BruteForceRuns.antt =====
-- The enumeration on two participants and two timesteps.
use mathlib.Core.Option
use mathlib.Core.List.{Perm}
use allocation_key_generatio.Base.{◌≡◌, refl, some, List, [], ◌∷◌, length, map, All, arith}
use allocation_key_generatio.Base.Text.{Text, codes}
use allocation_key_generatio.Shared.Results.{AlgorithmRawData, AlgorithmResult}
use allocation_key_generatio.Algorithms.BruteForce.Generator.{make_root_iteration}
use allocation_key_generatio.Algorithms.BruteForce.Algorithm.{run}
use allocation_key_generatio.Algorithms.BruteForce.Reference.{Played, key_of, reference}
use allocation_key_generatio.Algorithms.BruteForce.Reference.Shapes.{KeyShape}
use allocation_key_generatio.Algorithms.BruteForce.Result.{
  num_keys, ranked, run-eq-reference, run-KeyShape, run-Ascending,
}
use allocation_key_generatio.Algorithms.BruteForce.Sort.{Ascending}
use allocation_key_generatio.Algorithms.BruteForce.Nonneg.Keys.{KeyNonneg, run-KeyNonneg}
use allocation_key_generatio.Examples.Millis.{Millis, pos, millis, millis_laws}

-- 2 kWh and 1 kWh, then nothing and 3 kWh
abbrev first_demand : List Millis
first_demand = pos 2000 ∷ pos 0 ∷ []

abbrev second_demand : List Millis
second_demand = pos 1000 ∷ pos 3000 ∷ []

abbrev production : List Millis
production = pos 2000 ∷ pos 4000 ∷ []

abbrev names : List Text
names = codes "A" ∷ [] ∷ []

abbrev raw : AlgorithmRawData millis
raw = record {
  C = first_demand ∷ second_demand ∷ [];
  va = production ∷ production ∷ [];
  consumer_names = names;
}

run-eq-reference_example :
    run millis 2 raw
    ≡ Option.map
        (ranked millis names)
        (reference millis 2 (make_root_iteration millis raw.C raw.va) raw.va)
run-eq-reference_example =
    run-eq-reference millis 2 first_demand (second_demand ∷ []) production (production ∷ []) names

run-KeyShape_example :
    (result : AlgorithmResult millis) × (run millis 3 raw ≡ some result)
    × (length result.keys ≡ num_keys 3)
    × All (KeyShape millis 3 2 names) result.keys
run-KeyShape_example =
    run-KeyShape millis 3 first_demand (second_demand ∷ []) production (production ∷ []) names
      (omega arith) (omega arith)

run-Ascending_example :
    (result : AlgorithmResult millis) × (run millis 2 raw ≡ some result)
    × Ascending millis result.keys
    × (played : List (Played millis)) × (reference millis 2
          (make_root_iteration millis raw.C raw.va)
          raw.va
        ≡ some played)
    × Perm result.keys (map (key_of millis names) played)
run-Ascending_example =
    run-Ascending millis millis_laws 2 first_demand (second_demand ∷ []) production
      (production ∷ []) names (omega arith) (omega arith)

run-KeyNonneg_example :
    (result : AlgorithmResult millis) × (run millis 3 raw ≡ some result)
    × All (KeyNonneg millis) result.keys
run-KeyNonneg_example =
    run-KeyNonneg millis millis_laws 3 first_demand (second_demand ∷ []) production
      (production ∷ []) names (omega arith) (omega arith)
      ((refl, (refl, tt)), ((refl, (refl, tt)), tt)) ((refl, (refl, tt)), ((refl, (refl, tt)), tt))
