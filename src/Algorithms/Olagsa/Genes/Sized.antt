-- ===== src/Algorithms/Olagsa/Genes/Sized.antt =====
-- Drawing, mutating and breeding keep the number of genes.
use allocation_key_generatio.Base.{
  ℕ, zero, suc, ◌≡◌, ap, ◌∙◌, Option, none, some, List, [], ◌∷◌, ◌++◌, map, All, length, get_elem?,
  set, take, drop, replicate, length-append, length-take, length-drop, length-set, length-map,
  length-replicate, Yields, traverse-Yields, if_split, if◌then◌else◌, ◌==◌, arith,
}
use allocation_key_generatio.Base.Num.{Num, same, sum, below}
use allocation_key_generatio.Algorithms.Olagsa.Outside.{Outside}
use allocation_key_generatio.Algorithms.Olagsa.Draw.{
  Returns, draw, raise, bind-Returns, if_Returns, any_Returns, or_raise-Returns, length-each,
  each-All, any_All,
}
use allocation_key_generatio.Algorithms.Olagsa.Species.{Individual, Specie, OlagsaGa}
use allocation_key_generatio.Algorithms.Olagsa.Genes.{
  normalised, random_allocation, gene_index, mutated, mutate, initialize_population, picked,
  roulette_wheel, crossover_chromosomes, copied, cross_parents, both_parents, fitness_of,
  breed_intra, partner_distance, nearer, nearest_from, one_parent, breed_with, breed_inter,
}

module _ (F : Num) (L : Outside F) (n : ℕ) where
  abbrev Long : List F.Real → Type 0
  Long genes = length genes ≡ n

  -- An individual with `n` genes
  abbrev pub Sized : Individual F → Type 0
  Sized ind = Long ind.chromosomes

  normalised-Long : (genes : List F.Real) → Long genes → Returns Long (normalised F L genes)
  unfolding normalised
  normalised-Long [] h = λ s. h
  normalised-Long (x ∷ xs) h =
      if_Returns Long (same F (sum F (x ∷ xs)) F.nought) raise _ (λ s. tt)
        (λ s. ap suc (length-map xs (λ g. F.over g (sum F (x ∷ xs)))) ∙ h)

  random_allocation-Long :
      (ga : OlagsaGa F) → ga.num_key_iteration ≡ n → Returns Long (random_allocation F L ga)
  unfolding random_allocation
  random_allocation-Long ga h =
      bind-Returns (λ ys. length ys ≡ length (replicate ga.num_key_iteration (tt {0}))) Long _ _
        (length-each (λ x. draw L.random) (replicate ga.num_key_iteration tt))
        (λ ys e. normalised-Long ys (e ∙ (length-replicate ga.num_key_iteration tt ∙ h)))

  pub initialize_population-Sized :
      (ga : OlagsaGa F)
      → ga.num_key_iteration ≡ n
      → Returns (All Sized) (initialize_population F L ga)
  unfolding initialize_population
  initialize_population-Sized ga h =
      each-All Sized _
        (λ u.
          bind-Returns Long Sized (random_allocation F L ga) _ (random_allocation-Long ga h)
            (λ genes e s. e))
        (replicate ga.population_size tt)

  mutated-Sized : (genes : List F.Real) → Long genes → Returns Sized (mutated F L genes)
  unfolding mutated
  mutated-Sized genes h =
      bind-Returns (λ i. Unit {0}) Sized (gene_index F L genes) _
        (any_Returns (gene_index F L genes))
        (λ i u s.
          bind-Returns Long Sized (normalised F L (set genes i (L.random s).0)) _
            (normalised-Long (set genes i (L.random s).0) (length-set genes i (L.random s).0 ∙ h))
            (λ shares e s'. e) (L.random s).1)

  pub mutate-Sized :
      (ga : OlagsaGa F) (ind : Individual F) → Sized ind → Returns Sized (mutate F L ga ind)
  unfolding mutate
  mutate-Sized ga ind h s =
      if_Returns Sized (F.at_most ga.mutation_rate (L.random s).0) _ (mutated F L ind.chromosomes)
        (λ s. h) (mutated-Sized ind.chromosomes h) (L.random s).1

  cut-Long : (cut : ℕ) (xs ys : List F.Real) → Long xs → Long ys → Long (take cut xs ++ drop cut ys)
  cut-Long cut xs ys h k = omega (
    arith,
    h,
    k,
    length-append (take cut xs) (drop cut ys),
    length-take cut xs,
    length-drop cut ys,
  )

  crossover-Long :
      (a b : Individual F) → Sized a → Sized b → Returns Long (crossover_chromosomes F L a b)
  unfolding crossover_chromosomes
  crossover-Long a b h k =
      bind-Returns (λ i. Unit {0}) Long (gene_index F L a.chromosomes) _
        (any_Returns (gene_index F L a.chromosomes))
        (λ i u s.
          let side = L.randint 0 1 s in
          normalised-Long
            (if side.0 == 0
              then take i a.chromosomes ++ drop i b.chromosomes
              else take i b.chromosomes ++ drop i a.chromosomes)
            (if_split Long (side.0 == 0) (λ e. cut-Long i a.chromosomes b.chromosomes h k)
              (λ e. cut-Long i b.chromosomes a.chromosomes k h))
            side.1)

  copied-Long : (a b : Individual F) → Sized a → Sized b → Returns Long (copied F L a b)
  copied-Long a b h k s = if_split Long ((L.randint 0 1 s).0 == 0) (λ e. h) (λ e. k)

  cross_parents-Long :
      (ga : OlagsaGa F) (a b : Individual F)
      → Sized a
      → Sized b
      → Returns Long (cross_parents F L ga a b)
  unfolding cross_parents
  cross_parents-Long ga a b h k s =
      let die = L.randint 0 1 s in
      if_Returns Long (below F (F.from_int die.0) ga.crossover_rate) (crossover_chromosomes F L a b)
        (copied F L a b) (crossover-Long a b h k) (copied-Long a b h k) die.1

  both_parents-Long :
      (ga : OlagsaGa F) (parents : List (Individual F))
      → All Sized parents
      → Returns Long (both_parents F L ga parents)
  unfolding both_parents
  both_parents-Long ga [] h = λ s. tt
  both_parents-Long ga (a ∷ []) h = λ s. tt
  both_parents-Long ga (a ∷ b ∷ []) h = cross_parents-Long ga a b h.0 h.1.0
  both_parents-Long ga (a ∷ b ∷ c ∷ rest) h = λ s. tt

  get_elem?-Sized :
      (xs : List (Individual F)) (i : ℕ) → All Sized xs → Yields Sized (get_elem? xs i)
  get_elem?-Sized [] i h = tt
  get_elem?-Sized (x ∷ xs) zero h = h.0
  get_elem?-Sized (x ∷ xs) (suc i) h = get_elem?-Sized xs i h.1

  roulette_wheel-Sized :
      (population : List (Individual F)) (values : List F.Real) (size : ℕ)
      → All Sized population
      → Returns (All Sized) (roulette_wheel F L population values size)
  unfolding roulette_wheel
  roulette_wheel-Sized population values size h =
      let weights = map L.nan_to_num values in
      let shares = map (λ f. F.over f (F.np_sum weights)) weights in
      bind-Returns (λ i. Unit {0}) (All Sized) (L.choice (length population) size shares) _
        (any_Returns (L.choice (length population) size shares))
        (λ indices u. or_raise-Returns (All Sized) (picked F L population indices) (
          traverse-Yields (λ i. Unit {0}) Sized (get_elem? population)
            (λ i v. get_elem?-Sized population i h) indices (any_All indices)))

  -- A species whose individuals have `n` genes
  abbrev pub SizedSpecie : Specie F → Type 0
  SizedSpecie s = All Sized s.individuals

  pub breed_intra-Sized :
      (ga : OlagsaGa F) (s : Specie F) → SizedSpecie s → Returns Sized (breed_intra F L ga s)
  unfolding breed_intra
  breed_intra-Sized ga s h =
      bind-Returns (All Sized) Sized
        (roulette_wheel F L s.individuals (fitness_of F L s.individuals) 2) _
        (roulette_wheel-Sized s.individuals (fitness_of F L s.individuals) 2 h)
        (λ parents hs.
          bind-Returns Long Sized (both_parents F L ga parents) _ (both_parents-Long ga parents hs)
            (λ genes e s'. e))

  one_parent-Sized : (s : Specie F) → SizedSpecie s → Returns Sized (one_parent F L s)
  unfolding one_parent
  one_parent-Sized s h =
      bind-Returns (All Sized) Sized
        (roulette_wheel F L s.individuals (fitness_of F L s.individuals) 1) _
        (roulette_wheel-Sized s.individuals (fitness_of F L s.individuals) 1 h)
        (λ parents hs. or_raise-Returns Sized (get_elem? parents 0) (get_elem?-Sized parents 0 hs))

  nearer-Sized :
      (other : Specie F) (dist : Option F.Real) (best : F.Real × Option (Specie F))
      → SizedSpecie other
      → Yields SizedSpecie best.1
      → Yields SizedSpecie (nearer F L other dist best).1
  nearer-Sized other none best h k = k
  nearer-Sized other (some dist) best h k =
      if_split (λ (b : F.Real × Option (Specie F)). Yields SizedSpecie b.1) (below F dist best.0)
        (λ e. h) (λ e. k)

  nearest_from-Sized :
      (s : Specie F) (best : F.Real × Option (Specie F)) (species : List (Specie F))
      → Yields SizedSpecie best.1
      → All SizedSpecie species
      → Yields SizedSpecie (nearest_from F L s best species)
  unfolding nearest_from
  nearest_from-Sized s best [] h hs = h
  nearest_from-Sized s best (other ∷ species) h hs =
      let dist = partner_distance F L s other other.centroid s.centroid in
      nearest_from-Sized s (nearer F L other dist best) species
        (nearer-Sized other dist best hs.0 h) hs.1

  breed_with-Sized :
      (ga : OlagsaGa F) (s : Specie F) (partner : Option (Specie F))
      → SizedSpecie s
      → Yields SizedSpecie partner
      → Returns Sized (breed_with F L ga s partner)
  unfolding breed_with
  breed_with-Sized ga s none h k = breed_intra-Sized ga s h
  breed_with-Sized ga s (some nearest) h k =
      bind-Returns Sized Sized (one_parent F L s) _ (one_parent-Sized s h) (λ a ha.
        bind-Returns Sized Sized (one_parent F L nearest) _ (one_parent-Sized nearest k) (λ b hb.
          bind-Returns Long Sized (crossover_chromosomes F L a b) _ (crossover-Long a b ha hb)
            (λ genes e s'. e)))

  pub breed_inter-Sized :
      (ga : OlagsaGa F) (s : Specie F) (species : List (Specie F))
      → SizedSpecie s
      → All SizedSpecie species
      → Returns Sized (breed_inter F L ga s species)
  unfolding breed_inter
  breed_inter-Sized ga s species h hs =
      breed_with-Sized ga s (nearest_from F L s (L.infinity, none) species) h
        (nearest_from-Sized s (L.infinity, none) species tt hs)
