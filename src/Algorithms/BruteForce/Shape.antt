-- ===== src/Algorithms/BruteForce/Shape.antt =====
-- The shape of what the enumeration works on: no function adds or drops a participant.
use allocation_key_generatio.Base.{
  ℕ, zero, suc, ◌≡◌, refl, ap, ◌∙◌, List, [], ◌∷◌, map, length, length-map, if_split,
}
use allocation_key_generatio.Base.Num.{Num, below, same}
use allocation_key_generatio.Algorithms.BruteForce.Iteration.{
  Consumer, Iteration, AlgoName, copy_consumer, copy,
}
use allocation_key_generatio.Algorithms.BruteForce.Functions.{
  algos, egalitaire, prorata_total, prorata, all_to_first, distribute_total, each_time, step_time,
  dump_at, num_times, reset, settled, by_total, demand_at, share_at, at_time,
}
use allocation_key_generatio.Algorithms.BruteForce.Generator.{
  apply_first, build_next_iteration, roll_down,
}

module _ (F : Num) where
  abbrev pub size : Iteration F → ℕ
  size it = length it.consumers

  all_to_first-length :
      (profile : List F.Real) (cs : List (Consumer F))
      → length (all_to_first F profile cs) ≡ length cs
  all_to_first-length profile [] = refl
  all_to_first-length profile (c ∷ cs) = ap suc (length-map cs _)

  distribute_total-length :
      (total : F.Real) (profile : List F.Real) (cs : List (Consumer F))
      → length (distribute_total F total profile cs) ≡ length cs
  distribute_total-length total profile cs =
      if_split (λ l. length l ≡ length cs) (same F total F.nought)
        (λ e. all_to_first-length profile cs) (λ e. length-map cs (by_total F total profile))

  dump_at-length :
      (t : ℕ) (energy : F.Real) (cs : List (Consumer F))
      → length (dump_at F t energy cs) ≡ length cs
  dump_at-length t energy [] = refl
  dump_at-length t energy (c ∷ cs) = refl

  step_time-length :
      (t : ℕ) (energy : F.Real) (cs : List (Consumer F))
      → length (step_time F t energy cs) ≡ length cs
  step_time-length t energy cs =
      if_split (λ l. length l ≡ length cs) (below F F.nought (demand_at F t cs))
        (λ e. length-map cs (share_at F t energy (demand_at F t cs)))
        (λ e. dump_at-length t energy cs)

  each_time-length :
      (profile : List F.Real) (t n : ℕ) (cs : List (Consumer F))
      → length (each_time F profile t n cs) ≡ length cs
  each_time-length profile t zero cs = refl
  each_time-length profile t (suc n) cs =
      each_time-length profile (suc t) n (step_time F t (at_time F t profile) cs)
      ∙ step_time-length t (at_time F t profile) cs

  algos-size : (algo : AlgoName) (it : Iteration F) → size (algos F algo it).1 ≡ size it
  unfolding egalitaire prorata_total prorata
  algos-size AlgoName.egalitaire it = length-map it.consumers _
  algos-size AlgoName.prorata_total it = distribute_total-length _ _ it.consumers
  algos-size AlgoName.prorata it =
      length-map _ (settled F)
      ∙ (each_time-length _ 0 (num_times F it.consumers)
            (map (reset F (num_times F it.consumers)) it.consumers)
          ∙ length-map it.consumers (reset F (num_times F it.consumers)))

  pub copied-size :
      (algo : AlgoName) (it : Iteration F) → size (algos F algo (copy F it)).1 ≡ size it
  copied-size algo it = algos-size algo (copy F it) ∙ length-map it.consumers (copy_consumer F)

  pub apply_first-size :
      (root : Iteration F) (pct : F.Real) (algo : AlgoName)
      → size (apply_first F root pct algo).1 ≡ size root
  unfolding apply_first
  apply_first-size root pct algo = algos-size algo _ ∙ length-map root.consumers (copy_consumer F)

  pub build_next_iteration-size :
      (root previous : Iteration F) (va : List (List F.Real)) (pct : F.Real)
      → size (build_next_iteration F root previous va pct) ≡ size previous
  unfolding build_next_iteration
  build_next_iteration-size root previous va pct =
      length-map (map (copy_consumer F) previous.consumers) (roll_down F)
      ∙ length-map previous.consumers (copy_consumer F)

  pub one-size :
      (algo : AlgoName) (root : Iteration F) (pct : F.Real)
      → size (algos F algo (record (copy F root) { energy_allocated_percentage = pct })).1
        ≡ size root
  one-size algo root pct = algos-size algo _ ∙ length-map root.consumers (copy_consumer F)
