-- ===== src/Algorithms/BruteForce/Nonneg/Keys.antt =====
-- No key of `run` reports a negative share or surplus.
use mathlib.Core.Option
use allocation_key_generatio.Base.{
  ℕ, zero, suc, ◌≤◌, ◌≡◌, ◌∙◌, ap, subst, some, List, [], ◌∷◌, map, All,
}
use allocation_key_generatio.Base.Text.{Text}
use allocation_key_generatio.Base.Num.{Num, NumLaws, Nonneg}
use allocation_key_generatio.Base.Signs.{Signed, All-mapped}
use allocation_key_generatio.Shared.Results.{IterationResult, AllocationKeyResult, AlgorithmResult}
use allocation_key_generatio.Algorithms.BruteForce.Iteration.{Iteration, new_consumer}
use allocation_key_generatio.Algorithms.BruteForce.Generator.{
  make_root_iteration, tenth, third_share,
}
use allocation_key_generatio.Algorithms.BruteForce.Algorithm.{
  rest, consumer_results_from, build_key, run,
}
use allocation_key_generatio.Algorithms.BruteForce.Reference.{Played, numbered, key_of, reference}
use allocation_key_generatio.Algorithms.BruteForce.Reference.Everywhere.{
  reference_one-All, reference_two-All, reference_three-All,
}
use allocation_key_generatio.Algorithms.BruteForce.Reference.Shapes.{OnSome}
use allocation_key_generatio.Algorithms.BruteForce.Sort.{sort_keys-All}
use allocation_key_generatio.Algorithms.BruteForce.Result.{ranked, reference-some, run-eq-reference}
use allocation_key_generatio.Algorithms.BruteForce.Nonneg.{Demand, Ready}
use allocation_key_generatio.Algorithms.BruteForce.Nonneg.Stages.{
  PlayedNonneg, play_all-Nonneg, play_one-nonneg, tenth-Nonneg, rest-Nonneg, third_share-Nonneg,
}

module _ (F : Num) where
  -- Every figure that a key reports is at least 0.
  pub record FiguresNonneg (it : IterationResult F) : Type 0 where
    pub share : Nonneg F it.energy_allocated_percentage
    pub surplus : Nonneg F it.surplus_total
    pub participants : All (λ c. Nonneg F c.energy_allocated_percentage) it.consumers

  abbrev pub KeyNonneg : AllocationKeyResult F → Type 0
  KeyNonneg key = All FiguresNonneg key.iterations

module _ (F : Num) (laws : NumLaws F) where
  consumer_results-Nonneg :
      (j : ℕ) (pcts : List F.Real) (names : List Text)
      → All (Nonneg F) pcts
      → All (λ c. Nonneg F c.energy_allocated_percentage) (consumer_results_from F j pcts names)
  consumer_results-Nonneg j [] names h = tt
  consumer_results-Nonneg j (p ∷ ps) names h =
      (h.0, consumer_results-Nonneg (suc j) ps (rest names) h.1)

  numbered-nonneg :
      (names : List Text) (k : ℕ) (p : Played F)
      → PlayedNonneg F laws p
      → All (FiguresNonneg F) (numbered F names k p)
  numbered-nonneg names k [] h = tt
  numbered-nonneg names k (s ∷ p) h = (
    record {
      share = h.0.0;
      surplus = h.0.1;
      participants = consumer_results-Nonneg 0 s.1.consumer_percentages names h.0.2;
    },
    numbered-nonneg names (suc k) p h.1,
  )

  key_of-nonneg :
      (names : List Text) (p : Played F) → PlayedNonneg F laws p → KeyNonneg F (key_of F names p)
  unfolding build_key
  key_of-nonneg names p h = numbered-nonneg names 1 p h

  reference-nonneg :
      (n : ℕ) (root : Iteration F) (va : List (List F.Real))
      → Ready F laws root
      → OnSome (All (PlayedNonneg F laws)) (reference F n root va)
  reference-nonneg zero root va r = tt
  reference-nonneg (suc zero) root va r =
      reference_one-All F (PlayedNonneg F laws) root (λ a. play_one-nonneg F laws root a r)
  reference-nonneg (suc (suc zero)) root va r =
      reference_two-All F (PlayedNonneg F laws) root va (λ i a b le.
        play_all-Nonneg F laws root va (tenth F i, a) ((F.minus F.one (tenth F i), b) ∷ []) r
          (tenth-Nonneg F laws i, (rest-Nonneg F laws i le, tt)))
  reference-nonneg (suc (suc (suc zero))) root va r =
      reference_three-All F (PlayedNonneg F laws) root va (λ i j a b c le le'.
        play_all-Nonneg F laws root va (tenth F i, a) ((tenth F j, b) ∷ (third_share F i j, c) ∷ [])
          r (tenth-Nonneg F laws i, (tenth-Nonneg F laws j, (third_share-Nonneg F laws i j, tt))))
  reference-nonneg (suc (suc (suc (suc n)))) root va r = tt

  -- For demand and production without negative readings, with 1, 2 or 3 iterations, at least one
  -- participant and one row of production: `run` returns keys in which every share of an
  -- iteration, every share of a participant and every surplus is at least 0. In particular the
  -- marker -1 of a time-varying allocation never reaches a key.
  pub run-KeyNonneg :
      (n : ℕ) (row : List F.Real) (c : List (List F.Real)) (p : List F.Real)
      (va : List (List F.Real)) (names : List Text)
      → 1 ≤ n
      → n ≤ 3
      → All (Signed F laws) (row ∷ c)
      → All (Signed F laws) (p ∷ va)
      → (result : AlgorithmResult F) × (run F n
            (record { C = row ∷ c; va = p ∷ va; consumer_names = names })
          ≡ some result)
        × All (KeyNonneg F) result.keys
  run-KeyNonneg n row c p va names lo hi demand production =
      let root = make_root_iteration F (row ∷ c) (p ∷ va) in
      let (played, found, count) = reference-some F n root (p ∷ va) lo hi in
      let ready : Ready F laws root = (
        All-mapped (Signed F laws) (Demand F laws) (λ r. new_consumer F r F.nought) (λ r h. h)
            (row ∷ c) demand,
        production,
      ) in
      let nonneg =
        subst (OnSome (All (PlayedNonneg F laws))) found (reference-nonneg n root (p ∷ va) ready) in
      (
        ranked F names played,
        run-eq-reference F n row c p va names ∙ ap (Option.map (ranked F names)) found,
        sort_keys-All F (KeyNonneg F) (map (key_of F names) played) (
            All-mapped (PlayedNonneg F laws) (KeyNonneg F) (key_of F names) (key_of-nonneg names)
              played nonneg),
      )
