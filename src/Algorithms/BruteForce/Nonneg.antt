-- ===== src/Algorithms/BruteForce/Nonneg.antt =====
-- On demand and production without negative numbers, no distribution function produces one.
pub mod Stages
pub mod Keys
use allocation_key_generatio.Base.{
  ℕ, zero, suc, ◌≤◌, ◌≡◌, Bool, true, false, List, [], ◌∷◌, map, length, All, All-map, if_split,
  arith, set, get_or, not, ◌&&◌,
}
use allocation_key_generatio.Base.Num.{
  Num, NumLaws, Nonneg, below, same, sum, zeros, scale, zip_with,
}
use allocation_key_generatio.Base.Signs.{
  All-mapped, All-set, All-get_or, Signed, nought-Nonneg, scale-Signed, zip_plus-Signed, sum-Nonneg,
  zeros-Signed, maximum-Signed, surplus-Signed,
}
use allocation_key_generatio.Algorithms.BruteForce.Iteration.{
  Consumer, Iteration, AlgoName, first_row, add_surplus, num_surplus, compute_surplus,
  compute_consumption_total, compute_surplus_total,
}
use allocation_key_generatio.Algorithms.BruteForce.Functions.{
  algos, egalitaire, prorata_total, prorata, energy_profile, settled, allocate, all_to_first,
  by_total, distribute_total, reset, at_time, write_at, share_at, dump_at, demand_at, step_time,
  each_time, num_times,
}

module _ (F : Num) (laws : NumLaws F) where
  abbrev Pos : List F.Real → Type 0
  Pos = Signed F laws

  abbrev pub Demand : Consumer F → Type 0
  Demand c = Pos c.consumption

  -- The arrays of a consumer after an allocation
  pub record Settled (c : Consumer F) : Type 0 where
    pub allocated : Pos c.energy_allocated
    pub residual : Pos c.residual_volume
    pub left : Pos c.surplus
    pub left_total : Nonneg F c.surplus_total

  -- An iteration before and after its function
  abbrev pub Ready : Iteration F → Type 0
  Ready it = All Demand it.consumers × All Pos it.energy_allocated

  pub record Closed (it : Iteration F) : Type 0 where
    pub consumers : All Settled it.consumers
    pub energy : All Pos it.energy_allocated
    pub surplus : Pos it.surplus
    pub surplus_total : Nonneg F it.surplus_total

  settled-Settled : (c : Consumer F) → Pos c.energy_allocated → Settled (settled F c)
  settled-Settled c h = record {
    allocated = h;
    residual = maximum-Signed F laws _;
    left = surplus-Signed F laws _;
    left_total = laws.np_sum_nonneg _ (surplus-Signed F laws _);
  }

  allocate-Settled :
      (share : F.Real) (energy : List F.Real) (c : Consumer F)
      → Pos energy
      → Settled (allocate F share energy c)
  allocate-Settled share energy c h =
      settled-Settled (record c { energy_allocated_percentage = share; energy_allocated = energy })
        h

  profile-Pos : (rows : List (List F.Real)) → All Pos rows → Pos (first_row rows)
  profile-Pos [] h = tt
  profile-Pos (r ∷ rows) h = h.0

  add_surplus-Pos :
      (out : List F.Real) (cs : List (Consumer F))
      → Pos out
      → All Settled cs
      → Pos (add_surplus F out cs)
  add_surplus-Pos out [] p h = p
  add_surplus-Pos out (c ∷ cs) p h =
      add_surplus-Pos (zip_with F F.plus out c.surplus) cs
        (zip_plus-Signed F laws out c.surplus p h.0.left) h.1

  -- The aggregates that end every function
  aggregates-Closed :
      (it : Iteration F) (cs : List (Consumer F))
      → All Settled cs
      → All Pos it.energy_allocated
      → Closed (compute_surplus_total F (compute_surplus F (record it { consumers = cs })))
  aggregates-Closed it cs h e = record {
    consumers = h;
    energy = e;
    surplus = add_surplus-Pos _ cs (zeros-Signed F laws (num_surplus F cs)) h;
    surplus_total =
        sum-Nonneg F laws _
          (All-mapped Settled (Nonneg F) (λ c. c.surplus_total) (λ c s. s.left_total) cs h);
  }

  equal_shares :
      (profile : List F.Real) (cs : List (Consumer F))
      → Pos profile
      → let share = F.over F.one (F.from_int (length cs)) in
        All Settled (map (allocate F share (scale F profile share)) cs)
  equal_shares profile [] p = tt
  equal_shares profile (c ∷ cs) p =
      let share = F.over F.one (F.from_int (length (c ∷ cs))) in
      let positive =
        laws.over_nonneg F.one _ laws.one_nonneg
          (laws.int_positive (length (c ∷ cs)) (omega arith)) in
      let energy = scale-Signed F laws profile share p positive in
      All-map Settled (allocate F share (scale F profile share))
        (λ x. allocate-Settled share _ x energy) (c ∷ cs)

  all_to_first-Settled :
      (profile : List F.Real) (cs : List (Consumer F))
      → Pos profile
      → All Settled (all_to_first F profile cs)
  all_to_first-Settled profile [] p = tt
  all_to_first-Settled profile (c ∷ cs) p = (
    allocate-Settled F.one _ c (scale-Signed F laws profile F.one p laws.one_nonneg),
    All-map Settled (allocate F F.nought (zeros F (length profile)))
        (λ x. allocate-Settled F.nought _ x (zeros-Signed F laws (length profile))) cs,
  )

  positive_total :
      (total : F.Real)
      → Nonneg F total
      → same F total F.nought ≡ false
      → below F F.nought total ≡ true
  positive_total total p h = ground arith

  distribute_total-Settled :
      (total : F.Real) (profile : List F.Real) (cs : List (Consumer F))
      → Pos profile
      → Nonneg F total
      → All Demand cs
      → All Settled (distribute_total F total profile cs)
  distribute_total-Settled total profile cs p t d =
      if_split (All Settled) (same F total F.nought) (λ e. all_to_first-Settled profile cs p)
        (λ e.
          All-mapped Demand Settled (by_total F total profile)
            (λ c dc. allocate-Settled _ _ c (
              scale-Signed F laws profile _ p (
                laws.over_nonneg _ total (laws.np_sum_nonneg c.consumption dc)
                  (positive_total total t e))))
            cs d)

  -- A consumer during `prorata`
  abbrev Filling : Consumer F → Type 0
  Filling c = Demand c × Pos c.energy_allocated

  write_at-Filling :
      (t : ℕ) (share energy : F.Real) (c : Consumer F)
      → Nonneg F energy
      → Filling c
      → Filling (write_at F t share energy c)
  write_at-Filling t share energy c p h =
      (h.0, All-set (Nonneg F) c.energy_allocated t energy h.1 p)

  at_time-Nonneg : (t : ℕ) (xs : List F.Real) → Pos xs → Nonneg F (at_time F t xs)
  at_time-Nonneg t xs h = All-get_or (Nonneg F) xs t F.nought h (nought-Nonneg F laws)

  share_at-Filling :
      (t : ℕ) (energy demand : F.Real) (c : Consumer F)
      → Nonneg F energy
      → below F F.nought demand ≡ true
      → Filling c
      → Filling (share_at F t energy demand c)
  share_at-Filling t energy demand c p d h =
      if_split Filling (below F F.nought (at_time F t c.consumption))
        (λ e.
          write_at-Filling t (F.over (at_time F t c.consumption) demand) _ c
            (laws.times_nonneg energy _ p
              (laws.over_nonneg _ demand (at_time-Nonneg t c.consumption h.0) d))
            h)
        (λ e. h)

  dump_at-Filling :
      (t : ℕ) (energy : F.Real) (cs : List (Consumer F))
      → Nonneg F energy
      → All Filling cs
      → All Filling (dump_at F t energy cs)
  dump_at-Filling t energy [] p h = tt
  dump_at-Filling t energy (c ∷ cs) p h = (write_at-Filling t F.one energy c p h.0, h.1)

  each_time-Filling :
      (profile : List F.Real) (t n : ℕ) (cs : List (Consumer F))
      → Pos profile
      → All Filling cs
      → All Filling (each_time F profile t n cs)
  each_time-Filling profile t zero cs p h = h
  each_time-Filling profile t (suc n) cs p h =
      let energy = at_time F t profile in
      let demand = demand_at F t cs in
      let positive = at_time-Nonneg t profile p in
      each_time-Filling profile (suc t) n (step_time F t energy cs) p (
        if_split (All Filling) (below F F.nought demand)
          (λ e.
            All-mapped Filling Filling (share_at F t energy demand)
              (λ c hc. share_at-Filling t energy demand c positive e hc) cs h)
          (λ e. dump_at-Filling t energy cs positive h))

  -- Every function takes a ready iteration to a closed one.
  pub algos-Closed : (algo : AlgoName) (it : Iteration F) → Ready it → Closed (algos F algo it).1
  unfolding egalitaire prorata_total prorata
  algos-Closed AlgoName.egalitaire it h =
      aggregates-Closed it _ (equal_shares _ it.consumers (profile-Pos it.energy_allocated h.1)) h.1
  algos-Closed AlgoName.prorata_total it h =
      aggregates-Closed (compute_consumption_total F it) _
        (distribute_total-Settled _ _ it.consumers (profile-Pos it.energy_allocated h.1)
          (sum-Nonneg F laws _ (
            All-mapped Demand (Nonneg F) (λ c. F.np_sum c.consumption)
              (λ c d. laws.np_sum_nonneg c.consumption d) it.consumers h.0))
          h.0)
        h.1
  algos-Closed AlgoName.prorata it h =
      let n = num_times F it.consumers in
      aggregates-Closed it _
        (All-mapped Filling Settled (settled F) (λ c f. settled-Settled c f.1) _
          (each_time-Filling (energy_profile F it) 0 n (map (reset F n) it.consumers)
            (profile-Pos it.energy_allocated h.1)
            (All-mapped Demand Filling (reset F n) (λ c d. (d, zeros-Signed F laws n)) it.consumers
              h.0)))
        h.1
