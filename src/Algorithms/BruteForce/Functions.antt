-- ===== src/Algorithms/BruteForce/Functions.antt =====
-- _impl/functions.py: the three distribution functions.
use allocation_key_generatio.Base.{
  ℕ, zero, suc, List, [], ◌∷◌, map, if◌then◌else◌, length, get_or, set,
}
use allocation_key_generatio.Base.Text.{Text, codes}
use allocation_key_generatio.Base.Num.{Num, below, same, sum, zeros, scale}
use allocation_key_generatio.Algorithms.BruteForce.Iteration.{
  Consumer, Iteration, AlgoName, Node, first_row, new_node, compute_residual_volume_and_surplus,
  compute_energy_allocated_consumed, compute_consumption_total, compute_surplus,
  compute_surplus_total, summary,
}

abbrev pub algo_names : List AlgoName
algo_names = AlgoName.egalitaire ∷ AlgoName.prorata_total ∷ AlgoName.prorata ∷ []

abbrev pub algo_name : AlgoName → Text
algo_name AlgoName.egalitaire = codes "egalitaire"
algo_name AlgoName.prorata_total = codes "prorata_total"
algo_name AlgoName.prorata = codes "prorata"

module _ (F : Num) where
  abbrev pub energy_profile : Iteration F → List F.Real
  energy_profile it = first_row it.energy_allocated

  -- The two calls that follow every allocation
  abbrev pub settled : Consumer F → Consumer F
  settled c = compute_residual_volume_and_surplus F (compute_energy_allocated_consumed F c)

  abbrev pub allocate : F.Real → List F.Real → Consumer F → Consumer F
  allocate share energy c =
      settled (record c { energy_allocated_percentage = share; energy_allocated = energy })

  -- The aggregates and the node that every function returns
  abbrev pub closed : AlgoName → Iteration F → Node F × Iteration F
  closed name it =
      let done = compute_surplus_total F (compute_surplus F it) in
      (new_node F (algo_name name) (summary F done), done)

  unfoldable pub egalitaire : Iteration F → Node F × Iteration F
  egalitaire it =
      let share = F.over F.one (F.from_int (length it.consumers)) in
      let profile = energy_profile it in
      closed AlgoName.egalitaire
        (record it { consumers = map (allocate share (scale F profile share)) it.consumers })

  -- Without demand the first consumer gets everything.
  abbrev pub all_to_first : List F.Real → List (Consumer F) → List (Consumer F)
  all_to_first profile [] = []
  all_to_first profile (c ∷ cs) =
      allocate F.one (scale F profile F.one) c
      ∷ map (allocate F.nought (zeros F (length profile))) cs

  abbrev pub by_total : F.Real → List F.Real → Consumer F → Consumer F
  by_total total profile c =
      let share = F.over (F.np_sum c.consumption) total in allocate share (scale F profile share) c

  abbrev pub distribute_total : F.Real → List F.Real → List (Consumer F) → List (Consumer F)
  distribute_total total profile cs =
      if same F total F.nought then all_to_first profile cs else map (by_total total profile) cs

  unfoldable pub prorata_total : Iteration F → Node F × Iteration F
  prorata_total it =
      let counted = compute_consumption_total F it in
      closed AlgoName.prorata_total (record counted {
        consumers =
            distribute_total counted.consumption_total (energy_profile it) counted.consumers;
      })

  -- Marks a consumer as time-varying.
  abbrev pub reset : ℕ → Consumer F → Consumer F
  reset n c = record c {
    energy_allocated_percentage = F.negate F.one;
    energy_allocated_percentage_time = zeros F n;
    energy_allocated = zeros F n;
  }

  abbrev pub at_time : ℕ → List F.Real → F.Real
  at_time t xs = get_or xs t F.nought

  abbrev pub write_at : ℕ → F.Real → F.Real → Consumer F → Consumer F
  write_at t share energy c = record c {
    energy_allocated_percentage_time = set c.energy_allocated_percentage_time t share;
    energy_allocated = set c.energy_allocated t energy;
  }

  abbrev pub share_at : ℕ → F.Real → F.Real → Consumer F → Consumer F
  share_at t energy demand c =
      let own = at_time t c.consumption in
      if below F F.nought own
      then (let share = F.over own demand in write_at t share (F.times energy share) c)
      else c

  abbrev pub dump_at : ℕ → F.Real → List (Consumer F) → List (Consumer F)
  dump_at t energy [] = []
  dump_at t energy (c ∷ cs) = write_at t F.one energy c ∷ cs

  abbrev pub demand_at : ℕ → List (Consumer F) → F.Real
  demand_at t cs = sum F (map (λ c. at_time t c.consumption) cs)

  abbrev pub step_time : ℕ → F.Real → List (Consumer F) → List (Consumer F)
  step_time t energy cs =
      let demand = demand_at t cs in
      if below F F.nought demand then map (share_at t energy demand) cs else dump_at t energy cs

  -- `for t in range(T)`, from `t` on with `n` steps left
  abbrev pub each_time : List F.Real → ℕ → ℕ → List (Consumer F) → List (Consumer F)
  each_time profile t zero cs = cs
  each_time profile t (suc n) cs = each_time profile (suc t) n (step_time t (at_time t profile) cs)

  abbrev pub num_times : List (Consumer F) → ℕ
  num_times [] = 0
  num_times (c ∷ cs) = length c.consumption

  unfoldable pub prorata : Iteration F → Node F × Iteration F
  prorata it =
      let n = num_times it.consumers in
      closed AlgoName.prorata (record it {
        consumers = map settled (each_time (energy_profile it) 0 n (map (reset n) it.consumers));
      })

  -- `ALGOS[name]`
  abbrev pub algos : AlgoName → Iteration F → Node F × Iteration F
  algos AlgoName.egalitaire = egalitaire
  algos AlgoName.prorata_total = prorata_total
  algos AlgoName.prorata = prorata
