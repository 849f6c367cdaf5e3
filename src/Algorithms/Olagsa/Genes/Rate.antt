-- ===== src/Algorithms/Olagsa/Genes/Rate.antt =====
-- The effect of the crossover rate on the breeding inside a species.
use allocation_key_generatio.Algorithms.Olagsa.Genes.{copied, cross_parents, crossover_chromosomes}
use allocation_key_generatio.Base.{
  ap, arith, false, inl, inr, subst, sym, true, ℕ, ◌∙◌, ◌≡◌, ◌≤◌, ◌⊎◌, if◌then◌else◌,
}
use allocation_key_generatio.Algorithms.Olagsa.Outside.{Outside, OutsideLaws}
use allocation_key_generatio.Base.Num.{Num, below}
use allocation_key_generatio.Algorithms.Olagsa.Species.{Individual, OlagsaGa}

module _ (F : Num) (L : Outside F) (laws : OutsideLaws F L) where
  -- A rate above 0 and at most 1
  abbrev pub Proper : F.Real → Type 0
  Proper rate = (below F (F.from_int 0) rate ≡ true) × (below F (F.from_int 1) rate ≡ false)

  zero_or_one : (n : ℕ) → n ≤ 1 → (n ≡ 0) ⊎ (n ≡ 1)
  zero_or_one n h = ground arith

  same_test :
      (r r' : F.Real) (n : ℕ)
      → Proper r
      → Proper r'
      → n ≤ 1
      → below F (F.from_int n) r ≡ below F (F.from_int n) r'
  same_test r r' n h h' le = elim (zero_or_one n le) [
    | inl e ↦
        subst (λ k. below F (F.from_int k) r ≡ below F (F.from_int k) r') (sym e) (h.0 ∙ sym h'.0)
    | inr e ↦
        subst (λ k. below F (F.from_int k) r ≡ below F (F.from_int k) r') (sym e) (h.1 ∙ sym h'.1)
  ]

  -- Given a `randint` that keeps to its bounds: the child of two parents of one species, and the
  -- state of the generators after it, are the same for any two crossover rates above 0 and at most
  -- 1, other attributes of the search aside.
  pub cross_parents-RateBlind :
      (ga ga' : OlagsaGa F) (a b : Individual F) (s : L.Seed)
      → Proper ga.crossover_rate
      → Proper ga'.crossover_rate
      → cross_parents F L ga a b s ≡ cross_parents F L ga' a b s
  unfolding cross_parents
  cross_parents-RateBlind ga ga' a b s h h' =
      let die = L.randint 0 1 s in
      ap (λ t. (if t then crossover_chromosomes F L a b else copied F L a b) die.1)
        (same_test ga.crossover_rate ga'.crossover_rate die.0 h h'
          (laws.randint_bounds 0 1 s (omega arith)).1)
