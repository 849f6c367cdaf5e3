-- ===== src/Algorithms/Olagsa/WarmStart.antt =====
-- _impl/warm_start_solver.py: the solves of the iterations of one key. All solves share one problem,
-- so each goes on from the state that the one before it left.
pub mod Agreement
pub mod Guarded
pub mod Spared
pub mod Total
use allocation_key_generatio.Base.{
  ℕ, zero, suc, Option, none, some, Bool, true, false, ◌&&◌, if◌then◌else◌, List, [], ◌∷◌, ◌++◌,
  map, length, get_elem?, get_or, replicate, range_from,
}
use allocation_key_generatio.Base.Num.{Num, below, same, zip_with, scale_rows, plus_rows}
use allocation_key_generatio.Algorithms.BruteForce.Iteration.{first_row}
use allocation_key_generatio.Algorithms.Olagsa.Draw.{Draw, pure, raise, ◌>>=◌}
use allocation_key_generatio.Algorithms.Olagsa.Outside.{Outside, Answer, optimal, unsolved}
use allocation_key_generatio.Algorithms.Olagsa.Solution.{
  Consumer, Iteration, Solution, Key, positive_part, to_iteration,
}

module _ (F : Num) where
  abbrev pub rows_equal : List F.Real → List F.Real → Bool
  rows_equal [] [] = true
  rows_equal (a ∷ xs) (b ∷ ys) = same F a b && rows_equal xs ys
  rows_equal _ _ = false

  -- `np.array_equal(VA, np.broadcast_to(VA[:1], VA.shape))`
  abbrev pub repeats : List F.Real → List (List F.Real) → Bool
  repeats row [] = true
  repeats row (r ∷ rows) = rows_equal r row && repeats row rows

  -- What a solve that raises nothing ends in: a status other than "optimal", or a solution
  abbrev pub solution_of : List (List F.Real) → List (List F.Real) → Answer F → Option (Solution F)
  solution_of va c unsolved = none
  solution_of va c (optimal p vapa e) =
      some (record { vap = p; va = va; C = c; vapa = vapa; E = e })

  -- `current_C` and `current` after a round
  abbrev pub Round : Type 0
  Round = List (List F.Real) × Option (Solution F)

  -- The `break` of a status that is not "optimal"
  abbrev pub on_optimal :
      {S A : Type 0} → A → (List (List F.Real) → Solution F → Draw S A) → Round → Draw S A
  on_optimal stop go (c, none) = pure stop
  on_optimal stop go (c, some sol) = go c sol

  module _ (L : Outside F) where
    unfoldable pub solve :
        List (List F.Real) → List (List F.Real) → Draw L.Seed (Option (Solution F))
    solve va c =
        if repeats (first_row va) va
        then (do answer ← L.solve (first_row va) c; pure (solution_of va c answer))
        else raise

    -- A solve with the demand that it was given
    abbrev pub with_demand : List (List F.Real) → List (List F.Real) → Draw L.Seed Round
    with_demand va c = do sol ← solve va c; pure (c, sol)

    -- `prev[t]`, summed over the consumers
    abbrev pub carried_at : ℕ → F.Real → List (Consumer F) → F.Real
    carried_at t acc [] = acc
    carried_at t acc (c ∷ cs) =
        let s = get_or c.surplus t F.nought in
        carried_at t (if below F F.nought s then F.plus acc s else acc) cs

    -- `_surplus_from_previous_iteration`; `none` is the IndexError of no consumers.
    abbrev pub surplus_from_previous_iteration : List (Consumer F) → Option (List (List F.Real))
    surplus_from_previous_iteration [] = none
    surplus_from_previous_iteration (c ∷ cs) = some (
        replicate (length (c ∷ cs))
          (map (λ t. carried_at t F.nought (c ∷ cs)) (range_from 0 (length c.surplus))))

    -- `(current_C - current.VAPA + np.abs(current_C - current.VAPA)) / 2`
    abbrev pub next_demand : List (List F.Real) → List (List F.Real) → List (List F.Real)
    next_demand [] vapa = []
    next_demand (c ∷ cs) [] = []
    next_demand (c ∷ cs) (v ∷ vs) =
        map (positive_part F L) (zip_with F F.minus c v) ∷ next_demand cs vs

    -- The round of a later iteration, from the surplus of the one before
    abbrev pub carry_round :
        List (List F.Real)
        → List (List F.Real)
        → F.Real
        → Solution F
        → Option (List (List F.Real))
        → Draw L.Seed Round
    carry_round va c share current none = raise
    carry_round va c share current (some carry) =
        with_demand (plus_rows F (scale_rows F va share) carry) (next_demand c current.vapa)

    -- A round of the loops; `none` for the share is the IndexError of a short chromosome.
    abbrev pub round_of :
        ℕ
        → List (List F.Real)
        → List (List F.Real)
        → Option (Solution F)
        → Option F.Real
        → Draw L.Seed Round
    round_of i va c current none = raise
    round_of zero va c current (some share) = with_demand (scale_rows F va share) c
    round_of (suc i) va c none (some share) = raise
    round_of (suc i) va c (some current) (some share) =
        carry_round va c share current
          (surplus_from_previous_iteration (to_iteration F L current share).consumers)

    module _ (va : List (List F.Real)) (shares : List F.Real) where
      -- From round `i` on; the solution that is not there is None or not "optimal".
      unfoldable pub genetic_rounds :
          ℕ → ℕ → List (List F.Real) → Option (Solution F) → Draw L.Seed (Option (Solution F))
      unfolding solve to_iteration
      genetic_rounds zero i c current = pure current
      genetic_rounds (suc n) i c current = do
        r ← round_of i va c current (get_elem? shares i)
        on_optimal none (λ c' sol. genetic_rounds n (suc i) c' (some sol)) r

      unfoldable pub key_rounds :
          ℕ → ℕ → List (List F.Real) → Option (Solution F) → Key F → Draw L.Seed (Key F)
      unfolding solve to_iteration
      key_rounds zero i c current iterations = pure iterations
      key_rounds (suc n) i c current iterations = do
        r ← round_of i va c current (get_elem? shares i)
        on_optimal iterations
            (λ c' sol.
              key_rounds n (suc i) c' (some sol)
                (iterations ++ to_iteration F L sol (get_or shares i F.nought) ∷ []))
            r

    unfoldable pub solve_genetic :
        ℕ
        → List (List F.Real)
        → List (List F.Real)
        → List F.Real
        → Draw L.Seed (Option (Solution F))
    unfolding genetic_rounds
    solve_genetic n c va shares = genetic_rounds va shares n 0 c none

    unfoldable pub solve_key :
        ℕ → List (List F.Real) → List (List F.Real) → List F.Real → Draw L.Seed (Key F)
    unfolding key_rounds
    solve_key n c va shares = key_rounds va shares n 0 c none []
