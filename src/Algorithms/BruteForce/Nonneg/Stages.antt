-- ===== src/Algorithms/BruteForce/Nonneg/Stages.antt =====
-- No stage of the enumeration reports a negative share or surplus.
use allocation_key_generatio.Base.{
  ℕ, ◌≤◌, ◌≡◌, ◌∙◌, refl, sym, subst, List, [], ◌∷◌, map, length, All, All-map, if_split, arith,
  range_from, get_or,
}
use allocation_key_generatio.Base.Num.{Num, NumLaws, Nonneg, below, scale_rows}
use allocation_key_generatio.Base.Signs.{
  All-mapped, All-get_or, All-replicate, Signed, nought-Nonneg, scale_rows-Signed, plus_rows-Signed,
}
use allocation_key_generatio.Algorithms.BruteForce.Iteration.{
  Consumer, Iteration, IterationSummary, AlgoName, summary, copy, copy_consumer,
  reported_percentage, first_row,
}
use allocation_key_generatio.Algorithms.BruteForce.Functions.{
  algos, egalitaire, prorata_total, prorata,
}
use allocation_key_generatio.Algorithms.BruteForce.Generator.{
  apply_first, build_next_iteration, reformat_excedents, roll_down, tenth, third_share,
}
use allocation_key_generatio.Algorithms.BruteForce.Reference.{
  Stage, Played, play, play_all, play_one,
}
use allocation_key_generatio.Algorithms.BruteForce.Nonneg.{
  Demand, Settled, Ready, Closed, algos-Closed,
}

module _ (F : Num) (laws : NumLaws F) where
  abbrev Pos : List F.Real → Type 0
  Pos = Signed F laws

  copied-Settled :
      (cs : List (Consumer F))
      → All (Settled F laws) cs
      → All (Settled F laws) (map (copy_consumer F) cs)
  copied-Settled cs h =
      All-mapped (Settled F laws) (Settled F laws) (copy_consumer F)
        (λ c s. record {
          allocated = s.allocated;
          residual = s.residual;
          left = s.left;
          left_total = s.left_total;
        })
        cs h

  copied-Ready : (it : Iteration F) → Ready F laws it → Ready F laws (copy F it)
  copied-Ready it h = (
    All-mapped (Demand F laws) (Demand F laws) (copy_consumer F) (λ c d. d) it.consumers h.0,
    h.1,
  )

  reformat-Pos :
      (va : List (List F.Real)) (surplus : List F.Real)
      → Pos surplus
      → All Pos (reformat_excedents F va surplus)
  reformat-Pos va surplus h = All-replicate Pos (length va) _ (
      All-map (Nonneg F) (λ i. get_or surplus i F.nought)
        (λ i. All-get_or (Nonneg F) surplus i F.nought h (nought-Nonneg F laws))
        (range_from 0 (length (first_row va))))

  next-Ready :
      (root previous : Iteration F) (va : List (List F.Real)) (pct : F.Real)
      → Ready F laws root
      → Closed F laws previous
      → Nonneg F pct
      → Ready F laws (build_next_iteration F root previous va pct)
  unfolding build_next_iteration
  next-Ready root previous va pct r c p = (
    All-mapped (Settled F laws) (Demand F laws) (roll_down F) (λ x s. s.residual)
        (map (copy_consumer F) previous.consumers) (copied-Settled previous.consumers c.consumers),
    plus_rows-Signed F laws (scale_rows F root.energy_allocated pct) _
        (scale_rows-Signed F laws root.energy_allocated pct r.1 p)
        (reformat-Pos va previous.surplus c.surplus),
  )

  first-Closed :
      (root : Iteration F) (pct : F.Real) (algo : AlgoName)
      → Ready F laws root
      → Nonneg F pct
      → Closed F laws (apply_first F root pct algo).1
  unfolding apply_first
  first-Closed root pct algo r p =
      algos-Closed F laws algo _
        ((copied-Ready root r).0, scale_rows-Signed F laws root.energy_allocated pct r.1 p)

  -- The functions keep the share of the production.
  algos_share :
      (algo : AlgoName) (it : Iteration F)
      → (algos F algo it).1.energy_allocated_percentage ≡ it.energy_allocated_percentage
  unfolding egalitaire prorata_total prorata
  algos_share AlgoName.egalitaire it = refl
  algos_share AlgoName.prorata_total it = refl
  algos_share AlgoName.prorata it = refl

  reported-Nonneg :
      (total : F.Real) (c : Consumer F)
      → Settled F laws c
      → Nonneg F (reported_percentage F total c)
  reported-Nonneg total c s =
      if_split (Nonneg F) (F.at_most F.nought c.energy_allocated_percentage) (λ e. e)
        (λ e.
          if_split (Nonneg F) (below F F.nought total)
            (λ b. laws.over_nonneg _ total (laws.np_sum_nonneg c.energy_allocated s.allocated) b)
            (λ b. nought-Nonneg F laws))

  abbrev pub SummaryNonneg : IterationSummary F → Type 0
  SummaryNonneg s =
      Nonneg F s.energy_allocated_percentage
      × Nonneg F s.surplus_total
      × All (Nonneg F) s.consumer_percentages

  summary-Nonneg :
      (it : Iteration F)
      → Closed F laws it
      → Nonneg F it.energy_allocated_percentage
      → SummaryNonneg (summary F it)
  summary-Nonneg it c p = (
    p,
    c.surplus_total,
    All-mapped (Settled F laws) (Nonneg F) _ (λ x s. reported-Nonneg _ x s) it.consumers
        c.consumers,
  )

  abbrev pub PlayedNonneg : Played F → Type 0
  PlayedNonneg p = All (λ s. SummaryNonneg s.1) p

  next_share :
      (root previous : Iteration F) (va : List (List F.Real)) (pct : F.Real)
      → (build_next_iteration F root previous va pct).energy_allocated_percentage ≡ pct
  unfolding build_next_iteration
  next_share root previous va pct = refl

  first_share :
      (root : Iteration F) (pct : F.Real) (algo : AlgoName)
      → (apply_first F root pct algo).1.energy_allocated_percentage ≡ pct
  unfolding apply_first
  first_share root pct algo = algos_share algo _

  play-Nonneg :
      (root previous : Iteration F) (va : List (List F.Real)) (stages : List (Stage F))
      → Ready F laws root
      → Closed F laws previous
      → All (λ s. Nonneg F s.0) stages
      → PlayedNonneg (play F root va previous stages)
  play-Nonneg root previous va [] r c p = tt
  play-Nonneg root previous va ((pct, algo) ∷ stages) r c p =
      let next = copy F (build_next_iteration F root previous va pct) in
      let post = (algos F algo next).1 in
      let closed = algos-Closed F laws algo next (
        copied-Ready (build_next_iteration F root previous va pct)
          (next-Ready root previous va pct r c p.0)) in
      let share = algos_share algo next ∙ next_share root previous va pct in
      (
        summary-Nonneg post closed (subst (Nonneg F) (sym share) p.0),
        play-Nonneg root post va stages r closed p.1,
      )

  pub play_all-Nonneg :
      (root : Iteration F) (va : List (List F.Real)) (stage : Stage F) (stages : List (Stage F))
      → Ready F laws root
      → All (λ s. Nonneg F s.0) (stage ∷ stages)
      → PlayedNonneg (play_all F root va stage stages)
  play_all-Nonneg root va (pct, algo) stages r p =
      let post = (apply_first F root pct algo).1 in
      let closed = first-Closed root pct algo r p.0 in
      (
        summary-Nonneg post closed (subst (Nonneg F) (sym (first_share root pct algo)) p.0),
        play-Nonneg root post va stages r closed p.1,
      )

  pub play_one-nonneg :
      (root : Iteration F) (algo : AlgoName)
      → Ready F laws root
      → PlayedNonneg (play_one F root algo)
  play_one-nonneg root algo r =
      let it = record (copy F root) { energy_allocated_percentage = F.one } in
      (
        summary-Nonneg (algos F algo it).1 (algos-Closed F laws algo it (copied-Ready root r))
            (subst (Nonneg F) (sym (algos_share algo it)) laws.one_nonneg),
        tt,
      )

  -- The shares of the production
  pub tenth-Nonneg : (i : ℕ) → Nonneg F (tenth F i)
  tenth-Nonneg i = laws.over_nonneg _ _ (laws.int_nonneg i) (laws.int_positive 10 (omega arith))

  pub rest-Nonneg : (i : ℕ) → i ≤ 10 → Nonneg F (F.minus F.one (tenth F i))
  rest-Nonneg i h = laws.minus_nonneg _ _ (laws.tenth_at_most_one i h)

  pub third_share-Nonneg : (i j : ℕ) → Nonneg F (third_share F i j)
  third_share-Nonneg i j =
      let raw = F.minus (F.minus F.one (tenth F i)) (tenth F j) in
      if_split (Nonneg F) (below F F.nought raw) (λ e. ground arith) (λ e. nought-Nonneg F laws)
