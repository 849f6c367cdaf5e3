-- ===== src/Algorithms/Olagsa/Selection/Best.antt =====
-- Ranking and culling keep the fittest.
use allocation_key_generatio.Algorithms.BruteForce.Result.{ranked}
use mathlib.Core.List.{Perm}
use allocation_key_generatio.Algorithms.Olagsa.Selection.{
  adjusted, apply_adjusted_fitness, cull_weakest, fitter, improve, improved, rank,
}
use allocation_key_generatio.Base.Num.{Num, NumLaws}
use allocation_key_generatio.Algorithms.Olagsa.Species.{Individual, Specie}
use allocation_key_generatio.Base.Sorting.{
  length-sort_by, sort_by-Perm, Any, Any-mapped, Ordered, sort_by-Any, sort_by-Ordered,
}
use allocation_key_generatio.Base.{
  drop, length-take, refl, take-append-drop, zero, ◌++◌, All, Bool-cases, List, [], arith, false,
  if_split, inl, inr, length, subst, suc, sym, take, true, ℕ, ◌-◌, ◌/◌, ◌==◌, ◌∷◌, ◌≡◌,
}

module _ (F : Num) where
  -- `b` is not fitter than `a`.
  abbrev pub AtLeast : Individual F → Individual F → Type 0
  AtLeast a b = F.at_most b.fitness a.fitness ≡ true

  -- Some individual is at least as fit as `x`.
  abbrev pub Reaches : F.Real → List (Individual F) → Type 0
  Reaches x = Any (λ ind. F.at_most x ind.fitness ≡ true)

module _ (F : Num) (laws : NumLaws F) where
  fitter-AtLeast : (a b : Individual F) → fitter F a b ≡ true → AtLeast F a b
  fitter-AtLeast a b h = ground arith

  not_fitter-AtLeast : (a b : Individual F) → fitter F a b ≡ false → AtLeast F b a
  not_fitter-AtLeast a b h = elim (Bool-cases (F.at_most b.fitness a.fitness)) [
    | inl e ↦ ground arith
    | inr e ↦ laws.total_le b.fitness a.fitness e
  ]

  pub rank-Ordered : (inds : List (Individual F)) → Ordered (AtLeast F) (rank F inds)
  unfolding rank
  rank-Ordered inds =
      sort_by-Ordered (AtLeast F) (fitter F)
        (λ a b c h k. laws.trans_le c.fitness b.fitness a.fitness k h) fitter-AtLeast
        not_fitter-AtLeast inds

  pub rank-Reaches :
      (x : F.Real) (inds : List (Individual F)) → Reaches F x inds → Reaches F x (rank F inds)
  unfolding rank
  rank-Reaches x inds h = sort_by-Any (λ ind. F.at_most x ind.fitness ≡ true) (fitter F) inds h

  All-Any :
      (x : F.Real) (best : Individual F) (inds : List (Individual F))
      → All (AtLeast F best) inds
      → Reaches F x inds
      → F.at_most x best.fitness ≡ true
  All-Any x best [] h k = absurd k
  All-Any x best (ind ∷ inds) h (inl p) = laws.trans_le x ind.fitness best.fitness p h.0
  All-Any x best (ind ∷ inds) h (inr k) = All-Any x best inds h.1 k

  -- The front of a ranking has its best.
  take-Reaches :
      (x : F.Real) (n : ℕ) (inds : List (Individual F))
      → Ordered (AtLeast F) inds
      → Reaches F x inds
      → Reaches F x (take (suc n) inds)
  take-Reaches x n [] h k = absurd k
  take-Reaches x n (best ∷ inds) h (inl p) = inl p
  take-Reaches x n (best ∷ inds) h (inr k) = inl (All-Any x best inds h.0 k)

  half_positive : (n : ℕ) → ¬ (n ≡ 1) → ¬ (n ≡ 0) → (k : ℕ) × (n / 2 ≡ suc k)
  half_positive n h k = (n / 2 - 1, ground (arith, h, k))

  Reaches-nonempty :
      (x : F.Real) (inds : List (Individual F)) → Reaches F x inds → ¬ (length inds ≡ 0)
  Reaches-nonempty x [] h e = h
  Reaches-nonempty x (ind ∷ inds) h e = omega (arith, e)

  pub cull_weakest-Reaches :
      (x : F.Real) (s : Specie F)
      → Reaches F x s.individuals
      → Reaches F x (cull_weakest F s).individuals
  unfolding cull_weakest
  cull_weakest-Reaches x s h =
      if_split (λ (s' : Specie F). Reaches F x s'.individuals) (length s.individuals == 1) (λ e. h)
        (λ e.
          let (k, half) =
            half_positive (length s.individuals) (λ one. ground (arith, one, e))
              (Reaches-nonempty x s.individuals h) in
          subst (λ m. Reaches F x (take m (rank F s.individuals))) (sym half)
            (take-Reaches x k (rank F s.individuals) (rank-Ordered s.individuals)
              (rank-Reaches x s.individuals h)))

  started_or_improved :
      (x : F.Real) (s : Specie F) (inds : List (Individual F))
      → Reaches F x s.individuals
      → Reaches F x inds
      → Reaches F x (improved F s inds).individuals
  started_or_improved x s [] h k = h
  started_or_improved x s (best ∷ others) h k =
      if_split (λ (s' : Specie F). Reaches F x s'.individuals)
        (F.at_most s.best_fitness best.fitness) (λ e. k) (λ e. k)

  pub improve-Reaches :
      (x : F.Real) (s : Specie F)
      → Reaches F x s.individuals
      → Reaches F x (improve F s).individuals
  unfolding improve
  improve-Reaches x s h =
      started_or_improved x s (rank F s.individuals) h (rank-Reaches x s.individuals h)

  pub apply_adjusted_fitness-Reaches :
      (x : F.Real) (s : Specie F)
      → Reaches F x s.individuals
      → Reaches F x (apply_adjusted_fitness F s).individuals
  unfolding apply_adjusted_fitness
  apply_adjusted_fitness-Reaches x s h =
      Any-mapped (λ ind. F.at_most x ind.fitness ≡ true) (λ ind. F.at_most x ind.fitness ≡ true)
        (adjusted F (length s.individuals)) (λ a p. p) s.individuals h

  half_length :
      (inds ranked : List (Individual F))
      → length ranked ≡ length inds
      → length (take (length inds / 2) ranked) ≡ length inds / 2
  half_length inds ranked h = omega (arith, h, length-take (length inds / 2) ranked)

  All-drop :
      (P : Individual F → Type 0) (n : ℕ) (inds : List (Individual F))
      → All P inds
      → All P (drop n inds)
  All-drop P zero inds h = h
  All-drop P (suc n) [] h = tt
  All-drop P (suc n) (ind ∷ inds) h = All-drop P n inds h.1

  -- The kept and the dropped individuals of a culling
  abbrev pub Halved : List (Individual F) → List (Individual F) → Type 0
  Halved inds kept =
      (dropped : List (Individual F)) × Perm (kept ++ dropped) inds
      × (length kept ≡ length inds / 2)
      × All (λ k. All (AtLeast F k) dropped) kept

  take-AtLeast :
      (n : ℕ) (inds : List (Individual F))
      → Ordered (AtLeast F) inds
      → All (λ k. All (AtLeast F k) (drop n inds)) (take n inds)
  take-AtLeast zero inds h = tt
  take-AtLeast (suc n) [] h = tt
  take-AtLeast (suc n) (ind ∷ inds) h =
      (All-drop (AtLeast F ind) n inds h.0, take-AtLeast n inds h.1)

  -- A species of one individual is left alone. In any other one, culling keeps half of the
  -- individuals, rounded down; with those that it drops they are the individuals from before, and
  -- no dropped one is fitter than a kept one.
  pub cull_weakest-Halved :
      (s : Specie F)
      → (length s.individuals ≡ 1 → cull_weakest F s ≡ s)
        × (¬ (length s.individuals ≡ 1) → Halved s.individuals (cull_weakest F s).individuals)
  unfolding cull_weakest rank
  cull_weakest-Halved s = (
    λ one. let is_one : (length s.individuals == 1) ≡ true = ground (arith, one) in rw is_one refl,
    λ many.
        let inds = s.individuals in
        let ranked = rank F inds in
        let half = length inds / 2 in
        let not_one : (length inds == 1) ≡ false = ground (arith, many) in
        let kept : Halved inds (take half ranked) = (
          drop half ranked,
          subst (λ l. Perm l inds) (sym (take-append-drop half ranked))
              (sort_by-Perm (fitter F) inds),
          half_length inds ranked (length-sort_by (fitter F) inds),
          take-AtLeast half ranked (rank-Ordered inds),
        ) in
        if_split (λ (s' : Specie F). Halved inds s'.individuals) (length inds == 1)
          (λ e. absurd (many (ground (arith, e)))) (λ e. kept),
  )
