-- ===== src/Algorithms/Olagsa/WarmStart/Total.antt =====
-- The solves of a key raise only what the solver raises.
use allocation_key_generatio.Base.{
  ℕ, zero, suc, ◌+◌, ◌≤◌, ◌<◌, ◌≡◌, refl, ◌⊎◌, inl, inr, subst, sym, ap, ◌∙◌, Option, none, some,
  true, List, [], ◌∷◌, map, length, get_elem?, replicate, range_from, length-map, if◌then◌else◌,
  arith,
}
use allocation_key_generatio.Base.Num.{Num, NumLaws, zip_with, scale, scale_rows, plus_rows}
use allocation_key_generatio.Algorithms.Olagsa.Draw.{Draw, pure, raise, continue}
use allocation_key_generatio.Algorithms.Olagsa.Outside.{Outside, Answer, optimal, unsolved}
use allocation_key_generatio.Algorithms.Olagsa.Solution.{
  Consumer, Solution, compute_one, solved_consumers, to_iteration,
}
use allocation_key_generatio.Algorithms.Olagsa.WarmStart.Guarded.{
  answered, guarded, EndAgrees, solve_genetic-EndAgrees,
}
use allocation_key_generatio.Algorithms.Olagsa.WarmStart.{
  Round, rows_equal, repeats, solution_of, solve, with_demand, on_optimal, carried_at,
  surplus_from_previous_iteration, next_demand, carry_round, round_of, genetic_rounds,
  solve_genetic,
}

module _ (F : Num) where
  -- The shapes of the solver's values, for a demand of `n` consumers
  abbrev pub Shaped : ℕ → Answer F → Type 0
  Shaped n (optimal p vapa e) = (length p ≡ n) × (length vapa ≡ n)
  Shaped n unsolved = Unit

  -- The values of a variable and of an expression have its shape.
  abbrev pub Shapes : Outside F → Type 0
  Shapes L =
      (row : List F.Real) (c : List (List F.Real)) (s s' : L.Seed) (a : Answer F)
      → L.solve row c s ≡ some (a, s')
      → Shaped (length c) a

  -- Every solve ends, and its values have the shapes of the problem.
  abbrev pub Solves : Outside F → Type 0
  Solves L =
      (row : List F.Real) (c : List (List F.Real)) (s : L.Seed)
      → (r : Answer F × L.Seed) × ((L.solve row c s ≡ some r) × Shaped (length c) r.0)

  answered-Shaped :
      {S : Type 0} (n : ℕ) (s : S) (o : Option (Answer F × S))
      → ((a : Answer F) (s' : S) → o ≡ some (a, s') → Shaped n a)
      → (r : Answer F × S) × ((answered F s o ≡ some r) × Shaped n r.0)
  answered-Shaped n s none h = ((unsolved, s), (refl, tt))
  answered-Shaped n s (some r) h = (r, (refl, h r.0 r.1 refl))

  pub guarded-Solves : (L : Outside F) → Shapes L → Solves (guarded F L)
  guarded-Solves L shapes row c s =
      answered-Shaped (length c) s (L.solve row c s) (λ a s'. shapes row c s s' a)

  -- One production profile tiled stays one.
  scale_rows-replicate :
      (n : ℕ) (row : List F.Real) (k : F.Real)
      → scale_rows F (replicate n row) k ≡ replicate n (scale F row k)
  scale_rows-replicate zero row k = refl
  scale_rows-replicate (suc n) row k = ap (λ l. scale F row k ∷ l) (scale_rows-replicate n row k)

  plus_rows-replicate :
      (n : ℕ) (row carry : List F.Real)
      → plus_rows F (replicate n row) (replicate n carry)
        ≡ replicate n (zip_with F F.plus row carry)
  plus_rows-replicate zero row carry = refl
  plus_rows-replicate (suc n) row carry =
      ap (λ l. zip_with F F.plus row carry ∷ l) (plus_rows-replicate n row carry)

  module _ (laws : NumLaws F) where
    rows_equal_refl : (row : List F.Real) → rows_equal F row row ≡ true
    rows_equal_refl [] = refl
    rows_equal_refl (x ∷ xs) = ground (arith, laws.refl_le x, rows_equal_refl xs)

    repeats-replicate : (n : ℕ) (row : List F.Real) → repeats F row (replicate n row) ≡ true
    repeats-replicate zero row = refl
    repeats-replicate (suc n) row = ground (arith, rows_equal_refl row, repeats-replicate n row)

  length-next_demand :
      (L : Outside F) (c vapa : List (List F.Real))
      → length c ≡ length vapa
      → length (next_demand F L c vapa) ≡ length c
  length-next_demand L [] vapa h = refl
  length-next_demand L (c ∷ cs) [] h = absurd (omega (arith, h))
  length-next_demand L (c ∷ cs) (v ∷ vs) h = ap suc (length-next_demand L cs vs (omega (arith, h)))

  length-solved_consumers :
      (L : Outside F) (c : List (List F.Real)) (p : List F.Real)
      → length c ≡ length p
      → length (solved_consumers F L c p) ≡ length c
  length-solved_consumers L [] p h = refl
  length-solved_consumers L (c ∷ cs) [] h = absurd (omega (arith, h))
  length-solved_consumers L (c ∷ cs) (x ∷ xs) h =
      ap suc (length-solved_consumers L cs xs (omega (arith, h)))

module _ (F : Num) (laws : NumLaws F) (L : Outside F) (solves : Solves F L) (k : ℕ) where
  -- A solution for `k + 1` consumers
  abbrev Fits : Solution F → Type 0
  Fits sol = (length sol.C ≡ suc k) × ((length sol.vap ≡ suc k) × (length sol.vapa ≡ suc k))

  abbrev Done : Option (Round F × L.Seed) → Type 0
  Done none = ⊥
  Done (some ((c, none), s)) = Unit
  Done (some ((c, some sol), s)) = (length c ≡ suc k) × Fits sol

  answer-Done :
      (va c : List (List F.Real)) (a : Answer F) (s : L.Seed)
      → length c ≡ suc k
      → Shaped F (length c) a
      → Done (some ((c, solution_of F va c a), s))
  answer-Done va c (optimal p vapa e) s h shaped = (h, (h, (shaped.0 ∙ h, shaped.1 ∙ h)))
  answer-Done va c unsolved s h shaped = tt

  solve-Done :
      (row : List F.Real) (c : List (List F.Real)) (s : L.Seed)
      → length c ≡ suc k
      → Done (with_demand F L (replicate (suc k) row) c s)
  unfolding solve
  solve-Done row c s h =
      let va = replicate (suc k) row in
      let (r, solved) = solves row c s in
      let answer : Draw L.Seed (Option (Solution F)) =
        λ s'. continue (λ a. pure (solution_of F va c a)) (L.solve row c s') in
      subst (λ b. Done (continue (λ sol. pure (c, sol)) ((if b then answer else raise) s)))
        (sym (repeats-replicate F laws (suc k) row))
        (subst
          (λ o.
            Done (continue (λ sol. pure (c, sol)) (continue (λ a. pure (solution_of F va c a)) o)))
          (sym solved.0) (answer-Done va c r.0 r.1 h solved.1))

  surplus-Tiled :
      (cs : List (Consumer F))
      → length cs ≡ suc k
      → (carry : List F.Real) × (surplus_from_previous_iteration F L cs
          ≡ some (replicate (suc k) carry))
  surplus-Tiled [] h = absurd (omega (arith, h))
  surplus-Tiled (c ∷ cs) h =
      let carry = map (λ t. carried_at F L t F.nought (c ∷ cs)) (range_from 0 (length c.surplus)) in
      (carry, ap (λ n. some (replicate n carry)) h)

  num_consumers :
      (sol : Solution F) (share : F.Real)
      → Fits sol
      → length (to_iteration F L sol share).consumers ≡ suc k
  unfolding to_iteration
  num_consumers sol share h =
      length-map (solved_consumers F L sol.C sol.vap) (compute_one F L sol.va)
      ∙ (length-solved_consumers F L sol.C sol.vap (h.0 ∙ sym h.1.0) ∙ h.0)

  carry-Done :
      (row : List F.Real) (c : List (List F.Real)) (share : F.Real) (current : Solution F)
      (s : L.Seed)
      → length c ≡ suc k
      → Fits current
      → Done (round_of F L 1 (replicate (suc k) row) c (some current) (some share) s)
  carry-Done row c share current s h fits =
      let va = replicate (suc k) row in
      let (carry, e) =
        surplus-Tiled (to_iteration F L current share).consumers
          (num_consumers current share fits) in
      let c' = next_demand F L c current.vapa in
      subst (λ o. Done (carry_round F L va c share current o s)) (sym e)
        (subst (λ v. Done (with_demand F L v c' s))
          (sym (
            ap (λ v. plus_rows F v (replicate (suc k) carry))
              (scale_rows-replicate F (suc k) row share)
            ∙ plus_rows-replicate F (suc k) (scale F row share) carry))
          (solve-Done (zip_with F F.plus (scale F row share) carry) c' s
            (length-next_demand F L c current.vapa (h ∙ sym fits.1.1) ∙ h)))

  -- There is a solution from the second round on.
  abbrev Ready : ℕ → Option (Solution F) → Type 0
  Ready zero current = Unit
  Ready (suc i) none = ⊥
  Ready (suc i) (some sol) = Fits sol

  round-Done :
      (i : ℕ) (row : List F.Real) (c : List (List F.Real)) (current : Option (Solution F))
      (share : F.Real) (s : L.Seed)
      → length c ≡ suc k
      → Ready i current
      → Done (round_of F L i (replicate (suc k) row) c current (some share) s)
  round-Done zero row c current share s h r =
      subst (λ v. Done (with_demand F L v c s)) (sym (scale_rows-replicate F (suc k) row share))
        (solve-Done (scale F row share) c s h)
  round-Done (suc i) row c none share s h r = absurd r
  round-Done (suc i) row c (some current) share s h r = carry-Done row c share current s h r

  get_elem?-inside :
      (xs : List F.Real) (i : ℕ) → i < length xs → (x : F.Real) × (get_elem? xs i ≡ some x)
  get_elem?-inside [] i h = absurd (omega (arith, h))
  get_elem?-inside (x ∷ xs) zero h = (x, refl)
  get_elem?-inside (x ∷ xs) (suc i) h = get_elem?-inside xs i (omega (arith, h))

  abbrev Ended : Option (Option (Solution F) × L.Seed) → Type 0
  Ended o = (sol : Option (Solution F)) × (s : L.Seed) × (o ≡ some (sol, s))

  on_optimal-Ended :
      (go : List (List F.Real) → Solution F → Draw L.Seed (Option (Solution F)))
      → ((c : List (List F.Real)) (sol : Solution F) (s : L.Seed)
          → length c ≡ suc k
          → Fits sol
          → Ended (go c sol s))
      → (r : Option (Round F × L.Seed)) → Done r
      → Ended (continue (on_optimal F none go) r)
  on_optimal-Ended go f none d = absurd d
  on_optimal-Ended go f (some ((c, none), s)) d = (none, s, refl)
  on_optimal-Ended go f (some ((c, some sol), s)) d = f c sol s d.0 d.1

  module _ (row shares : List F.Real) where
    rounds-Ended :
        (n i : ℕ) (c : List (List F.Real)) (current : Option (Solution F)) (s : L.Seed)
        → length c ≡ suc k
        → i + n ≤ length shares
        → Ready i current
        → Ended (genetic_rounds F L (replicate (suc k) row) shares n i c current s)
    unfolding genetic_rounds
    rounds-Ended zero i c current s h le r = (current, s, refl)
    rounds-Ended (suc n) i c current s h le r =
        let (share, e) = get_elem?-inside shares i (omega (arith, le)) in
        on_optimal-Ended
          (λ c' sol. genetic_rounds F L (replicate (suc k) row) shares n (suc i) c' (some sol))
          (λ c' sol s' h' fits. rounds-Ended n (suc i) c' (some sol) s' h' (omega (arith, le)) fits)
          (round_of F L i (replicate (suc k) row) c current (get_elem? shares i) s)
          (subst (λ o. Done (round_of F L i (replicate (suc k) row) c current o s)) (sym e)
            (round-Done i row c current share s h r))

    pub genetic-Ended :
        (n : ℕ) (c : List (List F.Real)) (s : L.Seed)
        → length c ≡ suc k
        → n ≤ length shares
        → Ended (solve_genetic F L n c (replicate (suc k) row) shares s)
    unfolding solve_genetic
    genetic-Ended n c s h le = rounds-Ended n 0 c none s h (omega (arith, le)) tt

module _ (F : Num) (L : Outside F) where
  first_of : Option (Option (Solution F) × L.Seed) → Option (Solution F)
  first_of none = none
  first_of (some r) = r.0

  -- A run ends as the guarded one, or it raises and the guarded one ends without a solution.
  pub Returned : Option (Solution F) → L.Seed → Option (Option (Solution F) × L.Seed) → Type 0
  Returned sol s real = (real ≡ some (sol, s)) ⊎ ((real ≡ none) × (sol ≡ none))

  agrees-Returned :
      (sol : Option (Solution F)) (s : L.Seed) (safe real : Option (Option (Solution F) × L.Seed))
      → safe ≡ some (sol, s)
      → EndAgrees F L safe real
      → Returned sol s real
  unfolding Returned first_of
  agrees-Returned sol s safe real e (inl same) = inl (same ∙ e)
  agrees-Returned sol s safe real e (inr (raised, s', none_end)) =
      inr (raised, ap first_of (sym e ∙ none_end))

module _ (F : Num) (laws : NumLaws F) (L : Outside F) (shapes : Shapes F L) where
  -- Over numbers with the laws of `NumLaws` and a solver whose values have the shapes of the problem:
  -- for a production that repeats one profile for each of at least one consumers, a demand of as
  -- many rows, and a chromosome with at least as many genes as there are iterations, from every
  -- state, `solve_genetic` raises only where the solver does. With the solver's exceptions taken for
  -- a status that is not "optimal" it always ends, so the checks of the code itself, such as the one
  -- that a later round's production still repeats one profile, never fail; and `solve_genetic`
  -- itself ends in the same way, or raises where that run ends without a solution.
  pub solve_genetic-Ended :
      (k : ℕ) (row shares : List F.Real) (n : ℕ) (c : List (List F.Real)) (s : L.Seed)
      → length c ≡ suc k
      → n ≤ length shares
      → (sol : Option (Solution F)) × (s' : L.Seed) × (solve_genetic F
            (guarded F L)
            n
            c
            (replicate (suc k) row)
            shares
            s
          ≡ some (sol, s'))
        × Returned F L sol s' (solve_genetic F L n c (replicate (suc k) row) shares s)
  solve_genetic-Ended k row shares n c s h le =
      let va = replicate (suc k) row in
      let (sol, s', e) =
        genetic-Ended F laws (guarded F L) (guarded-Solves F L shapes) k row shares n c s h le in
      (
        sol,
        s',
        e,
        agrees-Returned F L sol s' (solve_genetic F (guarded F L) n c va shares s)
            (solve_genetic F L n c va shares s) e (solve_genetic-EndAgrees F L n c va shares s),
      )
