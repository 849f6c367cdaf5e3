-- ===== src/Examples/Millis.antt =====
-- Fixed-point numbers, in thousandths: a concrete `Num` for the runs.
use allocation_key_generatio.Base.{
  ℕ, zero, suc, ◌+◌, ◌-◌, ◌*◌, ◌/◌, ◌≤◌, ◌≡◌, refl, Bool, true, false, List, [], ◌∷◌, leb,
  if◌then◌else◌, All, arith,
}
use allocation_key_generatio.Base.Text.{Text, decimal}
use allocation_key_generatio.Base.Num.{Num, NumLaws, Nonneg, below}

pub data Millis : Type 0 where
  pos negsuc : ℕ → Millis

abbrev at_most : Millis → Millis → Bool
at_most (pos a) (pos b) = leb a b
at_most (pos a) (negsuc b) = false
at_most (negsuc a) (pos b) = true
at_most (negsuc a) (negsuc b) = leb b a

-- `a - b`
abbrev difference : ℕ → ℕ → Millis
difference a b = if leb b a then pos (a - b) else negsuc (b - a - 1)

abbrev plus : Millis → Millis → Millis
plus (pos a) (pos b) = pos (a + b)
plus (pos a) (negsuc b) = difference a (b + 1)
plus (negsuc a) (pos b) = difference b (a + 1)
plus (negsuc a) (negsuc b) = negsuc (a + b + 1)

abbrev negate : Millis → Millis
negate (pos zero) = pos 0
negate (pos (suc n)) = negsuc n
negate (negsuc n) = pos (suc n)

abbrev times : Millis → Millis → Millis
times (pos a) (pos b) = pos (a * b / 1000)
times (pos a) (negsuc b) = negate (pos (a * (b + 1) / 1000))
times (negsuc a) (pos b) = negate (pos ((a + 1) * b / 1000))
times (negsuc a) (negsuc b) = pos ((a + 1) * (b + 1) / 1000)

abbrev over : Millis → Millis → Millis
over (pos a) (pos b) = pos (a * 1000 / b)
over (pos a) (negsuc b) = negate (pos (a * 1000 / (b + 1)))
over (negsuc a) (pos b) = negate (pos ((a + 1) * 1000 / b))
over (negsuc a) (negsuc b) = pos ((a + 1) * 1000 / (b + 1))

abbrev total : List Millis → Millis
total [] = pos 0
total (x ∷ xs) = plus x (total xs)

abbrev shown : Millis → Text
shown (pos n) = decimal n
shown (negsuc n) = 45 ∷ decimal (n + 1)

abbrev pub millis : Num
millis = record {
  Real = Millis;
  nought = pos 0;
  one = pos 1000;
  plus = plus;
  minus = λ a b. plus a (negate b);
  times = times;
  over = over;
  negate = negate;
  at_most = at_most;
  from_int = λ n. pos (n * 1000);
  maximum = λ a b. if at_most a b then b else a;
  minimum = λ a b. if at_most a b then a else b;
  np_sum = total;
  rounded = shown;
}

at_most_refl : (a : Millis) → at_most a a ≡ true
at_most_refl (pos a) = ground arith
at_most_refl (negsuc a) = ground arith

at_most_trans : (a b c : Millis) → at_most a b ≡ true → at_most b c ≡ true → at_most a c ≡ true
at_most_trans (pos a) (pos b) (pos c) h k = ground arith
at_most_trans (pos a) (pos b) (negsuc c) h k = cc
at_most_trans (pos a) (negsuc b) c h k = cc
at_most_trans (negsuc a) b (pos c) h k = refl
at_most_trans (negsuc a) (pos b) (negsuc c) h k = cc
at_most_trans (negsuc a) (negsuc b) (negsuc c) h k = ground arith

at_most-total : (a b : Millis) → at_most a b ≡ false → at_most b a ≡ true
at_most-total (pos a) (pos b) h = ground arith
at_most-total (pos a) (negsuc b) h = refl
at_most-total (negsuc a) (pos b) h = cc
at_most-total (negsuc a) (negsuc b) h = ground arith

plus-Nonneg : (a b : Millis) → Nonneg millis a → Nonneg millis b → Nonneg millis (plus a b)
plus-Nonneg (pos a) (pos b) h k = ground arith
plus-Nonneg (pos a) (negsuc b) h k = cc
plus-Nonneg (negsuc a) b h k = cc

minus-Nonneg : (a b : Millis) → at_most a b ≡ true → Nonneg millis (plus b (negate a))
minus-Nonneg (pos zero) (pos b) h = ground arith
minus-Nonneg (pos (suc a)) (pos b) h = ground arith
minus-Nonneg (pos a) (negsuc b) h = cc
minus-Nonneg (negsuc a) (pos b) h = ground arith
minus-Nonneg (negsuc a) (negsuc b) h = ground arith

times-Nonneg : (a b : Millis) → Nonneg millis a → Nonneg millis b → Nonneg millis (times a b)
times-Nonneg (pos a) (pos b) h k = ground arith
times-Nonneg (pos a) (negsuc b) h k = cc
times-Nonneg (negsuc a) b h k = cc

over-Nonneg :
    (a b : Millis) → Nonneg millis a → below millis (pos 0) b ≡ true → Nonneg millis (over a b)
over-Nonneg (pos a) (pos b) h k = ground arith
over-Nonneg (pos a) (negsuc b) h k = cc
over-Nonneg (negsuc a) b h k = cc

maximum-Nonneg : (a : Millis) → Nonneg millis (if at_most (pos 0) a then a else pos 0)
maximum-Nonneg (pos a) = ground arith
maximum-Nonneg (negsuc a) = refl

total-Nonneg : (xs : List Millis) → All (Nonneg millis) xs → Nonneg millis (total xs)
total-Nonneg [] h = refl
total-Nonneg (x ∷ xs) h = plus-Nonneg x (total xs) h.0 (total-Nonneg xs h.1)

positive : (n : ℕ) → 1 ≤ n → below millis (pos 0) (pos (n * 1000)) ≡ true
positive n h = ground arith

tenth : (i : ℕ) → i ≤ 10 → at_most (pos (i * 1000 * 1000 / 10000)) (pos 1000) ≡ true
tenth i h = ground arith

at_least : (n : ℕ) → Nonneg millis (pos (n * 1000))
at_least n = ground arith

pub millis_laws : NumLaws millis
millis_laws = record {
  refl_le = at_most_refl;
  trans_le = at_most_trans;
  total_le = at_most-total;
  one_nonneg = refl;
  int_nonneg = at_least;
  int_positive = positive;
  plus_nonneg = plus-Nonneg;
  minus_nonneg = minus-Nonneg;
  times_nonneg = times-Nonneg;
  over_nonneg = over-Nonneg;
  maximum_nonneg = maximum-Nonneg;
  np_sum_nonneg = total-Nonneg;
  tenth_at_most_one = tenth;
}
