-- ===== src/Base/Num.antt =====
-- The numbers that the program computes with (Python floats and numpy's float64), as an interface,
-- and the array operations of the program. The definitions take the operations alone; a theorem
-- that needs laws takes `NumLaws` besides.
use Prim.Native.Nat.{ℕ, ◌≤◌}
use mathlib.Core.Path.{◌≡◌}
use mathlib.Core.Bool.{Bool, true, false, not, ◌&&◌}
use mathlib.Core.List.{List, [], ◌∷◌, map}
use allocation_key_generatio.Base.Lists.{All, replicate}
use allocation_key_generatio.Base.Text.{Text}

pub record Num : Type 1 where
  pub Real : Type 0
  pub nought : Real
  pub one : Real
  pub plus : Real → Real → Real
  pub minus : Real → Real → Real
  pub times : Real → Real → Real
  pub over : Real → Real → Real
  pub negate : Real → Real
  -- `a <= b`
  pub at_most : Real → Real → Bool
  pub from_int : ℕ → Real
  -- `np.maximum`, `np.minimum` and `np.sum`
  pub maximum : Real → Real → Real
  pub minimum : Real → Real → Real
  pub np_sum : List Real → Real
  -- `f"{round(x, 2)}"`
  pub rounded : Real → Text

module _ (F : Num) where
  open F use {Real, nought, plus, minus, times, at_most, negate, maximum, minimum}

  -- `a < b`
  abbrev pub below : Real → Real → Bool
  below a b = at_most a b && not (at_most b a)

  -- `a == b`
  abbrev pub same : Real → Real → Bool
  same a b = at_most a b && at_most b a

  -- `sum(xs)`, which starts at 0 and adds from the left
  abbrev pub sum_from : Real → List Real → Real
  sum_from acc [] = acc
  sum_from acc (x ∷ xs) = sum_from (plus acc x) xs

  abbrev pub sum : List Real → Real
  sum xs = sum_from nought xs

  -- `np.zeros`
  abbrev pub zeros : ℕ → List Real
  zeros n = replicate n nought

  -- An elementwise operation on two arrays of one shape
  abbrev pub zip_with : (Real → Real → Real) → List Real → List Real → List Real
  zip_with op [] ys = []
  zip_with op (x ∷ xs) [] = []
  zip_with op (x ∷ xs) (y ∷ ys) = op x y ∷ zip_with op xs ys

  -- `a * x` of an array, and of a matrix
  abbrev pub scale : List Real → Real → List Real
  scale xs k = map (λ x. times x k) xs

  abbrev pub scale_rows : List (List Real) → Real → List (List Real)
  scale_rows rows k = map (λ r. scale r k) rows

  -- `a + b` of two matrices of one shape
  abbrev pub plus_rows : List (List Real) → List (List Real) → List (List Real)
  plus_rows [] bs = []
  plus_rows (a ∷ rows) [] = []
  plus_rows (a ∷ rows) (b ∷ bs) = zip_with plus a b ∷ plus_rows rows bs

  -- `a >= 0`
  abbrev pub Nonneg : Real → Type 0
  Nonneg a = at_most nought a ≡ true

-- What is relied on of numbers that are not NaN, in floating point as in exact arithmetic.
pub record NumLaws (F : Num) : Type 0 where
  pub refl_le : (a : F.Real) → F.at_most a a ≡ true
  pub trans_le :
      (a b c : F.Real) → F.at_most a b ≡ true → F.at_most b c ≡ true → F.at_most a c ≡ true
  pub total_le : (a b : F.Real) → F.at_most a b ≡ false → F.at_most b a ≡ true
  pub one_nonneg : Nonneg F F.one
  pub int_nonneg : (n : ℕ) → Nonneg F (F.from_int n)
  pub int_positive : (n : ℕ) → 1 ≤ n → below F F.nought (F.from_int n) ≡ true
  pub plus_nonneg : (a b : F.Real) → Nonneg F a → Nonneg F b → Nonneg F (F.plus a b)
  pub minus_nonneg : (a b : F.Real) → F.at_most a b ≡ true → Nonneg F (F.minus b a)
  pub times_nonneg : (a b : F.Real) → Nonneg F a → Nonneg F b → Nonneg F (F.times a b)
  pub over_nonneg : (a b : F.Real) → Nonneg F a → below F F.nought b ≡ true → Nonneg F (F.over a b)
  pub maximum_nonneg : (a : F.Real) → Nonneg F (F.maximum F.nought a)
  pub np_sum_nonneg : (xs : List F.Real) → All (Nonneg F) xs → Nonneg F (F.np_sum xs)
  -- `i / 10 <= 1`
  pub tenth_at_most_one :
      (i : ℕ) → i ≤ 10 → F.at_most (F.over (F.from_int i) (F.from_int 10)) F.one ≡ true
