-- ===== src/Algorithms/Olagsa/WarmStart/Agreement.antt =====
-- The search's solves and the key's solves of one chromosome.
use allocation_key_generatio.Base.{
  ℕ, zero, suc, ◌+◌, ◌<◌, ◌≤◌, ◌≡◌, refl, subst, Option, none, some, List, [], ◌∷◌, ◌++◌, length,
  get_elem?, get_or, length-append, arith,
}
use allocation_key_generatio.Base.Num.{Num}
use allocation_key_generatio.Algorithms.BruteForce.Algorithm.{last}
use allocation_key_generatio.Algorithms.Olagsa.Outside.{Outside}
use allocation_key_generatio.Algorithms.Olagsa.Draw.{
  Draw, continue, Returns, bind-Returns, any_Returns,
}
use allocation_key_generatio.Algorithms.Olagsa.Solution.{Solution, Key, to_iteration}
use allocation_key_generatio.Algorithms.Olagsa.WarmStart.{
  Round, round_of, on_optimal, genetic_rounds, key_rounds, solve_genetic, solve_key,
}

last-snoc {ℓ} : {A : Type ℓ} (xs : List A) (x : A) → last (xs ++ x ∷ []) ≡ some x
last-snoc [] x = refl
last-snoc (y ∷ []) x = refl
last-snoc (y ∷ z ∷ zs) x = last-snoc (z ∷ zs) x

module _ (F : Num) (L : Outside F) (share : F.Real) where
  -- What the search and the key's solves end in, for `n` iterations whose last one has the given
  -- share: both raise, or the search ends without a solution and the key has fewer iterations, or
  -- the key has all of them and its last one is read from the search's solution. The state
  -- afterwards is the same.
  abbrev pub Agrees : ℕ → Option (Option (Solution F) × L.Seed) → Option (Key F × L.Seed) → Type 0
  Agrees n none key = key ≡ none
  Agrees n (some (none, s)) key = (its : Key F) × ((key ≡ some (its, s)) × (length its < n))
  Agrees n (some (some sol, s)) key =
      (its : Key F) × ((key ≡ some (its, s))
        × ((length its ≡ n) × (last its ≡ some (to_iteration F L sol share))))

module _ (F : Num) (L : Outside F) (va : List (List F.Real)) (shares : List F.Real) where
  abbrev share_at : ℕ → F.Real
  share_at i = get_or shares i F.nought

  same_index : (i m : ℕ) → m ≡ i + 0 → i ≡ m
  same_index i m e = omega (arith, e)

  -- The rounds agree when the rest of them does.
  step-Agrees :
      (n : ℕ) (share : F.Real) (its : Key F)
      (go : List (List F.Real) → Solution F → Draw L.Seed (Option (Solution F)))
      (key : List (List F.Real) → Solution F → Draw L.Seed (Key F))
      → length its < n
      → ((c : List (List F.Real)) (sol : Solution F) (s : L.Seed)
          → Agrees F L share n (go c sol s) (key c sol s))
      → (r : Option (Round F × L.Seed))
      → Agrees F L share n (continue (on_optimal F none go) r) (continue (on_optimal F its key) r)
  step-Agrees n share its go key h k none = refl
  step-Agrees n share its go key h k (some ((c, none), s)) = (its, (refl, h))
  step-Agrees n share its go key h k (some ((c, some sol), s)) = k c sol s

  rounds-Agrees :
      (n i m : ℕ) (c : List (List F.Real)) (current : Option (Solution F)) (its : Key F)
      (s : L.Seed)
      → m ≡ i + n
      → length its ≡ i
      → Agrees F L
          (share_at m)
          (suc m)
          (genetic_rounds F L va shares (suc n) i c current s)
          (key_rounds F L va shares (suc n) i c current its s)
  unfolding genetic_rounds key_rounds
  rounds-Agrees zero i m c current its s e h =
      step-Agrees (suc m) (share_at m) its _ _ (omega (arith, h, e))
        (λ c' sol s'. (
          its ++ to_iteration F L sol (share_at i) ∷ [],
          (
            refl,
            (
              omega (arith, h, e, length-append its (to_iteration F L sol (share_at i) ∷ [])),
              subst
                  (λ k.
                    last (its ++ to_iteration F L sol (share_at i) ∷ [])
                    ≡ some (to_iteration F L sol (share_at k)))
                  (same_index i m e) (last-snoc its (to_iteration F L sol (share_at i))),
            ),
          ),
        ))
        (round_of F L i va c current (get_elem? shares i) s)
  rounds-Agrees (suc n) i m c current its s e h =
      step-Agrees (suc m) (share_at m) its _ _ (omega (arith, h, e))
        (λ c' sol s'.
          let it = to_iteration F L sol (share_at i) in
          rounds-Agrees n (suc i) m c' (some sol) (its ++ it ∷ []) s' (omega (arith, e))
            (omega (arith, h, length-append its (it ∷ []))))
        (round_of F L i va c current (get_elem? shares i) s)

  -- The solves of one chromosome for at least one iteration, both from one and the same state of the
  -- solver: `solve_key` raises where `solve_genetic` does; where `solve_genetic` ends without an
  -- optimal solution, the key has fewer iterations than asked for; where it ends with one, the key
  -- has all of them, and its last iteration is the one read from that solution; and both leave the
  -- same state.
  pub solve_key-Agrees :
      (n : ℕ) (c : List (List F.Real)) (s : L.Seed)
      → Agrees F L
          (get_or shares n F.nought)
          (suc n)
          (solve_genetic F L (suc n) c va shares s)
          (solve_key F L (suc n) c va shares s)
  unfolding solve_genetic solve_key
  solve_key-Agrees n c s = rounds-Agrees n 0 n c none [] s (omega arith) refl

  on_optimal-Short :
      (bound : ℕ) (its : Key F) (go : List (List F.Real) → Solution F → Draw L.Seed (Key F))
      → length its ≤ bound
      → ((c : List (List F.Real)) (sol : Solution F)
          → Returns (λ key. length key ≤ bound) (go c sol))
      → (r : Round F) → Returns (λ key. length key ≤ bound) (on_optimal F its go r)
  on_optimal-Short bound its go h k (c, none) = λ s. h
  on_optimal-Short bound its go h k (c, some sol) = k c sol

  key_rounds-Short :
      (n i bound : ℕ) (c : List (List F.Real)) (current : Option (Solution F)) (its : Key F)
      → length its + n ≤ bound
      → Returns (λ key. length key ≤ bound) (key_rounds F L va shares n i c current its)
  unfolding key_rounds
  key_rounds-Short zero i bound c current its h = λ s. omega (arith, h)
  key_rounds-Short (suc n) i bound c current its h =
      bind-Returns (λ r. Unit {0}) (λ key. length key ≤ bound)
        (round_of F L i va c current (get_elem? shares i)) _
        (any_Returns (round_of F L i va c current (get_elem? shares i)))
        (λ r u.
          on_optimal-Short bound its _ (omega (arith, h))
            (λ c' sol.
              let it = to_iteration F L sol (share_at i) in
              key_rounds-Short n (suc i) bound c' (some sol) (its ++ it ∷ [])
                (omega (arith, h, length-append its (it ∷ []))))
            r)

  -- A key has at most as many iterations as asked for.
  pub solve_key-Short :
      (n : ℕ) (c : List (List F.Real))
      → Returns (λ key. length key ≤ n) (solve_key F L n c va shares)
  unfolding solve_key
  solve_key-Short n c = key_rounds-Short n 0 n c none [] (omega arith)
