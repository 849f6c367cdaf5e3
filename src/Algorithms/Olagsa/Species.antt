-- ===== src/Algorithms/Olagsa/Species.antt =====
-- ga.py: the species, and the parts of the space of chromosomes that they stand for. `none` is an
-- exception.
pub mod Ids
use allocation_key_generatio.Base.{
  ℕ, zero, suc, ◌-◌, Option, none, some, Bool, List, [], ◌∷◌, ◌++◌, length, ◌==◌, if◌then◌else◌,
}
use allocation_key_generatio.Base.Num.{Num}
use allocation_key_generatio.Algorithms.Olagsa.Outside.{Outside}
use allocation_key_generatio.Algorithms.Olagsa.Space.{
  Coordinate, Coordinate3D, flat, solid, Segment, Triangle, point, sum_coordinates_3d, divide,
  new_triangle, segment_within, triangle_within,
}

pub record Individual (F : Num) : Type 0 where
  pub chromosomes : List F.Real
  pub fitness : F.Real
  pub adjusted_fitness : F.Real

-- What `is_same_specie` of a species tests
pub data Territory (F : Num) : Type 0 where
  segment : Segment F → Territory F
  triangle : Triangle F → Territory F

pub record Specie (F : Num) : Type 0 where
  pub id : ℕ
  pub individuals : List (Individual F)
  pub iteration_without_improvement : ℕ
  pub best_fitness : F.Real
  pub is_same_specie : Option (Territory F)
  pub centroid : Option (Coordinate F)

-- The attributes of `OlagsaGA`
pub record OlagsaGa (F : Num) : Type 0 where
  pub num_key_iteration : ℕ
  pub num_generation : ℕ
  pub population_size : ℕ
  pub crossover_rate : F.Real
  pub crossover_rate_inter_species : F.Real
  pub mutation_rate : F.Real
  pub species_waited : ℕ
  pub max_iteration_without_improvement : ℕ
  pub last_specie_id : ℕ

module _ (F : Num) where
  open F use {Real, nought, one, plus, negate, over, from_int}

  -- `Individual(chromosomes, fitness)`
  abbrev pub new_individual : List Real → Real → Individual F
  new_individual genes fit = record {
    chromosomes = genes;
    fitness = fit;
    adjusted_fitness = nought;
  }

  -- `Specie(specie_id, individuals)`
  abbrev pub new_specie : ℕ → List (Individual F) → Specie F
  new_specie id individuals = record {
    id = id;
    individuals = individuals;
    iteration_without_improvement = 0;
    best_fitness = nought;
    is_same_specie = none;
    centroid = none;
  }

  abbrev pub next_specie_id : OlagsaGa F → ℕ × OlagsaGa F
  next_specie_id ga = (ga.last_specie_id, record ga { last_specie_id = suc ga.last_specie_id })

  abbrev pub line_func : Real → Real
  line_func x = plus (negate x) one

  -- The loop of `_find_midpoints`, with its `value`
  abbrev pub midpoints_from : ℕ → Real → Real → List (Real × Real)
  midpoints_from zero base value = []
  midpoints_from (suc n) base value =
      (value, line_func value) ∷ midpoints_from n base (plus value base)

  -- `none` is the ZeroDivisionError of depth 0.
  abbrev pub find_midpoints : ℕ → Option (List (Real × Real))
  find_midpoints zero = none
  find_midpoints (suc n) =
      let base = over one (from_int (suc n)) in some (midpoints_from n base base)

  -- `_build_segments`, from its `start` on
  abbrev pub segments_from : Real × Real → List (Real × Real) → List (Segment F)
  segments_from start [] = record { point_a = start; point_b = (one, nought) } ∷ []
  segments_from start (mid ∷ mids) =
      record { point_a = start; point_b = mid } ∷ segments_from mid mids

  abbrev pub build_segments : List (Real × Real) → List (Segment F)
  build_segments mids = segments_from (nought, one) mids

  -- `sum_coordinates_3d(a, b).divide(2)`
  abbrev pub middle : Coordinate3D F → Coordinate3D F → Coordinate3D F
  middle a b = divide F (sum_coordinates_3d F a b) (from_int 2)

  -- The species of a segment and of a triangle
  abbrev pub segment_specie : ℕ → Segment F → Specie F
  segment_specie id seg = record (new_specie id []) {
    is_same_specie = some (segment seg);
    centroid = some (
        flat (over (plus seg.point_a.0 seg.point_b.0) (from_int 2))
          (over (plus seg.point_a.1 seg.point_b.1) (from_int 2)));
  }

  abbrev third : Real → Real → Real → Real
  third a b c = over (plus (plus a b) c) (from_int 3)

  abbrev pub triangle_specie : ℕ → Triangle F → Specie F
  triangle_specie id tri = record (new_specie id []) {
    is_same_specie = some (triangle tri);
    centroid = some (
        solid (
          point F (third tri.point_a.x tri.point_b.x tri.point_c.x)
            (third tri.point_a.y tri.point_b.y tri.point_c.y)
            (third tri.point_a.z tri.point_b.z tri.point_c.z)));
  }

  -- The loops of `_initialize_species`: each part of the space gets the next id.
  unfoldable pub number_species :
      {T : Type 0} → (ℕ → T → Specie F) → OlagsaGa F → List T → List (Specie F) × OlagsaGa F
  number_species make ga [] = ([], ga)
  number_species make ga (t ∷ ts) =
      let (id, ga') = next_specie_id ga in
      let (species, last) = number_species make ga' ts in (make id t ∷ species, last)

  module _ (L : Outside F) where
    unfoldable pub divide_triangle :
        ℕ → Coordinate3D F → Coordinate3D F → Coordinate3D F → List (Triangle F)
    divide_triangle zero a b c = new_triangle F L a b c ∷ []
    divide_triangle (suc depth) a b c =
        let ab = middle a b in
        let ac = middle a c in
        let bc = middle b c in
        divide_triangle depth a ab ac
        ++ (divide_triangle depth b ab bc
            ++ (divide_triangle depth c ac bc ++ divide_triangle depth ab ac bc))

    unfoldable pub contains : Territory F → Coordinate F → Option Bool
    unfolding segment_within triangle_within
    contains (segment s) c = some (segment_within F L s c)
    contains (triangle t) c = triangle_within F L t c

    unfoldable pub segment_species :
        OlagsaGa F → Option (List (Real × Real)) → Option (List (Specie F) × OlagsaGa F)
    unfolding number_species
    segment_species ga none = none
    segment_species ga (some mids) = some (number_species segment_specie ga (build_segments mids))

    unfoldable pub triangle_species : OlagsaGa F → List (Triangle F) → List (Specie F) × OlagsaGa F
    unfolding number_species
    triangle_species ga triangles =
        let (species, ga') = number_species triangle_specie ga triangles in
        (species, record ga' { species_waited = length triangles })

    -- `none` is the ValueError of another number of iterations, or of `_find_midpoints`.
    unfoldable pub initialize_species : OlagsaGa F → Option (List (Specie F) × OlagsaGa F)
    unfolding divide_triangle segment_species triangle_species
    initialize_species ga =
        if ga.num_key_iteration == 2
        then segment_species ga (find_midpoints ga.species_waited)
        else if ga.num_key_iteration == 3
        then some (
            triangle_species ga (
              divide_triangle ga.species_waited (point F one nought nought)
                (point F nought one nought) (point F nought nought one)))
        else none
