-- ===== src/Algorithms/Olagsa/Species/Ids.antt =====
-- How many species there are, and their ids.
use allocation_key_generatio.Base.{
  none, some, if_split, Yields, ℕ, zero, suc, ◌*◌, ◌≤◌, ◌≡◌, refl, ap, ◌∙◌, some, List, [], ◌∷◌,
  ◌++◌, map, ◌⊎◌, inl, inr, ◌==◌, true, false, if◌then◌else◌, length, length-append, range_from,
  All, arith,
}
use allocation_key_generatio.Base.Num.{Num}
use allocation_key_generatio.Algorithms.Olagsa.Outside.{Outside}
use allocation_key_generatio.Algorithms.Olagsa.Space.{Coordinate3D, point}
use allocation_key_generatio.Algorithms.Olagsa.Species.{
  Option, Specie, OlagsaGa, midpoints_from, find_midpoints, segments_from, build_segments, middle,
  segment_specie, triangle_specie, number_species, divide_triangle, segment_species,
  triangle_species, initialize_species,
}

-- `4 ** depth`
abbrev pub four_to : ℕ → ℕ
four_to zero = 1
four_to (suc depth) = 4 * four_to depth

module _ (F : Num) where
  -- The ids of these species are the next ones of `ga`, and none has an individual yet.
  abbrev pub Numbered : OlagsaGa F → ℕ → List (Specie F) → Type 0
  Numbered ga n species =
      (map (λ s. s.id) species ≡ range_from ga.last_specie_id n)
      × All (λ s. s.individuals ≡ []) species

  module _ {T : Type 0} (make : ℕ → T → Specie F) where
    ids_of_number_species :
        ((id : ℕ) (t : T) → (make id t).id ≡ id)
        → (ga : OlagsaGa F) (ts : List T)
        → map (λ s. s.id) (number_species F make ga ts).0 ≡ range_from ga.last_specie_id (length ts)
    unfolding number_species
    ids_of_number_species h ga [] = refl
    ids_of_number_species h ga (t ∷ ts) =
        ap
          (λ i.
            i
            ∷ map (λ s. s.id)
                (number_species F make (record ga { last_specie_id = suc ga.last_specie_id }) ts).0)
          (h ga.last_specie_id t)
        ∙ ap (λ l. ga.last_specie_id ∷ l)
            (ids_of_number_species h (record ga { last_specie_id = suc ga.last_specie_id }) ts)

    number_species-Fresh :
        ((id : ℕ) (t : T) → (make id t).individuals ≡ [])
        → (ga : OlagsaGa F) (ts : List T)
        → All (λ s. s.individuals ≡ []) (number_species F make ga ts).0
    unfolding number_species
    number_species-Fresh h ga [] = tt
    number_species-Fresh h ga (t ∷ ts) = (
      h ga.last_specie_id t,
      number_species-Fresh h (record ga { last_specie_id = suc ga.last_specie_id }) ts,
    )

  length-midpoints_from : (n : ℕ) (base value : F.Real) → length (midpoints_from F n base value) ≡ n
  length-midpoints_from zero base value = refl
  length-midpoints_from (suc n) base value =
      ap suc (length-midpoints_from n base (F.plus value base))

  length-segments_from :
      (start : F.Real × F.Real) (mids : List (F.Real × F.Real))
      → length (segments_from F start mids) ≡ suc (length mids)
  length-segments_from start [] = refl
  length-segments_from start (mid ∷ mids) = ap suc (length-segments_from mid mids)

  segments-Numbered :
      (L : Outside F) (ga : OlagsaGa F) (n : ℕ)
      → 1 ≤ n
      → (species : List (Specie F)) × (ga' : OlagsaGa F) × (segment_species F L ga
            (find_midpoints F n)
          ≡ some (species, ga'))
        × Numbered ga n species
  unfolding segment_species
  segments-Numbered L ga zero h = absurd (omega (arith, h))
  segments-Numbered L ga (suc n) h =
      let base = F.over F.one (F.from_int (suc n)) in
      let segs = build_segments F (midpoints_from F n base base) in
      let made = number_species F (segment_specie F) ga segs in
      let count : length segs ≡ suc n =
        length-segments_from _ (midpoints_from F n base base)
        ∙ ap suc (length-midpoints_from n base base) in
      (
        made.0,
        made.1,
        refl,
        (
          ids_of_number_species (segment_specie F) (λ id t. refl) ga segs
              ∙ ap (range_from ga.last_specie_id) count,
          number_species-Fresh (segment_specie F) (λ id t. refl) ga segs,
        ),
      )

  module _ (L : Outside F) where
    -- Dividing a triangle to a depth gives `4 ** depth` triangles.
    length-divide_triangle :
        (depth : ℕ) (a b c : Coordinate3D F)
        → length (divide_triangle F L depth a b c) ≡ four_to depth
    unfolding divide_triangle
    length-divide_triangle zero a b c = refl
    length-divide_triangle (suc depth) a b c =
        let ab = middle F a b in
        let ac = middle F a c in
        let bc = middle F b c in
        let t1 = divide_triangle F L depth a ab ac in
        let t2 = divide_triangle F L depth b ab bc in
        let t3 = divide_triangle F L depth c ac bc in
        let t4 = divide_triangle F L depth ab ac bc in
        omega (
          arith,
          length-append t1 (t2 ++ (t3 ++ t4)),
          length-append t2 (t3 ++ t4),
          length-append t3 t4,
          length-divide_triangle depth a ab ac,
          length-divide_triangle depth b ab bc,
          length-divide_triangle depth c ac bc,
          length-divide_triangle depth ab ac bc,
        )

    -- With two iterations and at least one expected species, `_initialize_species` makes as many
    -- species as are expected; with three iterations it makes 4 to the power of the expected
    -- number. The ids of the species are the next ones of the search, each used once, and no
    -- species has an individual yet.
    pub initialize_species-Numbered :
        (ga : OlagsaGa F)
        → ((ga.num_key_iteration ≡ 2) × (1 ≤ ga.species_waited)) ⊎ (ga.num_key_iteration ≡ 3)
        → (species : List (Specie F)) × (ga' : OlagsaGa F) × (initialize_species F L ga
            ≡ some (species, ga'))
          × Numbered ga
              (if ga.num_key_iteration == 2 then ga.species_waited else four_to ga.species_waited)
              species
    unfolding initialize_species triangle_species number_species
    initialize_species-Numbered ga (inl (two, h)) =
        let is_two : (ga.num_key_iteration == 2) ≡ true = ground (arith, two) in
        rw is_two (segments-Numbered L ga ga.species_waited h)
    initialize_species-Numbered ga (inr three) =
        let not_two : (ga.num_key_iteration == 2) ≡ false = ground (arith, three) in
        let is_three : (ga.num_key_iteration == 3) ≡ true = ground (arith, three) in
        let triangles =
          divide_triangle F L ga.species_waited (point F F.one F.nought F.nought)
            (point F F.nought F.one F.nought) (point F F.nought F.nought F.one) in
        let made = triangle_species F L ga triangles in
        rw (not_two, is_three)
          (
            made.0,
            made.1,
            refl,
            (
              ids_of_number_species (triangle_specie F) (λ id t. refl) ga triangles
                  ∙ ap (range_from ga.last_specie_id)
                      (length-divide_triangle ga.species_waited _ _ _),
              number_species-Fresh (triangle_specie F) (λ id t. refl) ga triangles,
            ),
          )

    same_iterations :
        {T : Type 0} (make : ℕ → T → Specie F) (g : OlagsaGa F) (ts : List T)
        → (number_species F make g ts).1.num_key_iteration ≡ g.num_key_iteration
    unfolding number_species
    same_iterations make g [] = refl
    same_iterations make g (t ∷ ts) =
        same_iterations make (record g { last_specie_id = suc g.last_specie_id }) ts

    -- The attributes that are left keep the number of iterations, and the species are empty.
    abbrev pub Opens : OlagsaGa F → List (Specie F) × OlagsaGa F → Type 0
    Opens ga r = (r.1.num_key_iteration ≡ ga.num_key_iteration) × All (λ s. s.individuals ≡ []) r.0

    segments-Opens :
        (ga : OlagsaGa F) (mids : Option (List (F.Real × F.Real)))
        → Yields (Opens ga) (segment_species F L ga mids)
    unfolding segment_species
    segments-Opens ga none = tt
    segments-Opens ga (some mids) = (
      same_iterations (segment_specie F) ga (build_segments F mids),
      number_species-Fresh (segment_specie F) (λ id t. refl) ga (build_segments F mids),
    )

    pub initialize_species-Opens : (ga : OlagsaGa F) → Yields (Opens ga) (initialize_species F L ga)
    unfolding initialize_species triangle_species
    initialize_species-Opens ga =
        let triangles =
          divide_triangle F L ga.species_waited (point F F.one F.nought F.nought)
            (point F F.nought F.one F.nought) (point F F.nought F.nought F.one) in
        if_split (Yields (Opens ga)) (ga.num_key_iteration == 2)
          (λ e. segments-Opens ga (find_midpoints F ga.species_waited))
          (λ e.
            if_split (Yields (Opens ga)) (ga.num_key_iteration == 3)
              (λ e'. (
                same_iterations (triangle_specie F) ga triangles,
                number_species-Fresh (triangle_specie F) (λ id t. refl) ga triangles,
              ))
              (λ e'. tt))
