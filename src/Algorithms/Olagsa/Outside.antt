-- ===== src/Algorithms/Olagsa/Outside.antt =====
-- What the genetic algorithm takes from elsewhere: Python's `random` and `math`, numpy's `choice`
-- and `nan_to_num`, and the convex solver. A call passes the state of the generators and of the
-- solver on.
use allocation_key_generatio.Base.{ℕ, ◌≤◌, Option, List}
use allocation_key_generatio.Base.Num.{Num}

-- What `problem.solve` leaves behind: the values of `p`, `VAPA` and `E` are there after a solve
-- that ends as "optimal".
pub data Answer (F : Num) : Type 0 where
  optimal : (p : List F.Real) (vapa e : List (List F.Real)) → Answer F
  unsolved : Answer F

pub record Outside (F : Num) : Type 1 where
  -- The state of the generators, and of the problem that all solves of a run share: a solve may start
  -- from what the one before it left.
  pub Seed : Type 0
  -- `random.random()` and `random.randint(a, b)`
  pub random : Seed → F.Real × Seed
  pub randint : ℕ → ℕ → Seed → ℕ × Seed
  -- `np.random.choice(n, size, p=p)`; `none` is its ValueError.
  pub choice : ℕ → ℕ → List F.Real → Seed → Option (List ℕ × Seed)
  -- `math.sqrt`, `np.abs`, `np.nan_to_num`, `math.inf`
  pub sqrt : F.Real → F.Real
  pub absolute : F.Real → F.Real
  pub nan_to_num : F.Real → F.Real
  pub infinity : F.Real
  -- `range(int(x))`: how often it runs, or `none` for the exception of a NaN or an infinity
  pub count_of : F.Real → Option ℕ
  -- The values of the problem's parameters set to the production row and the demand, and its solve;
  -- `none` is an exception of either, such as the one for a negative parameter.
  pub solve : List F.Real → List (List F.Real) → Seed → Option (Answer F × Seed)

-- What the documentation of `randint` promises.
pub record OutsideLaws (F : Num) (L : Outside F) : Type 0 where
  pub randint_bounds :
      (a b : ℕ) (s : L.Seed) → a ≤ b → (a ≤ (L.randint a b s).0) × ((L.randint a b s).0 ≤ b)
