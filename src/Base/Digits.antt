-- ===== src/Base/Digits.antt =====
-- The decimal digits of a number, read back.
use Prim.Native.Nat.{ℕ, zero, suc, ◌+◌, ◌-◌, ◌*◌, ◌/◌, ◌%◌, ◌≤◌, ◌<◌}
use mathlib.Core.Path.{◌≡◌, refl, sym, ap, ◌∙◌}
use mathlib.Core.Logic.{inl, inr}
use mathlib.Core.List.{[], ◌∷◌, ◌++◌}
use native.Mathlib.Omega.{arith}
use allocation_key_generatio.Base.Tests.{ltb, Bool-cases, ltb→lt, not_ltb→le, if_split}
use allocation_key_generatio.Base.Lists.{All, All-append}
use allocation_key_generatio.Base.Text.{Text, decimal, decimal_digits}

abbrev value : ℕ → Text → ℕ
value acc [] = acc
value acc (c ∷ s) = value (acc * 10 + (c - 48)) s

value-append : (acc : ℕ) (s : Text) (c : ℕ) → value acc (s ++ c ∷ []) ≡ value acc s * 10 + (c - 48)
value-append acc [] c = refl
value-append acc (d ∷ s) c = value-append (acc * 10 + (d - 48)) s c

recombine : (n m : ℕ) → m ≡ n / 10 → m * 10 + (48 + n % 10 - 48) ≡ n
recombine n m h = omega arith

value-decimal_digits : (f n : ℕ) → n < f → value 0 (decimal_digits f n) ≡ n
unfolding decimal_digits
value-decimal_digits zero n h = omega (arith, h)
value-decimal_digits (suc f) n h = elim (Bool-cases (ltb n 10)) [
  | inl small ↦ rw small (omega arith)
  | inr large ↦ rw large (
      value-append 0 (decimal_digits f (n / 10)) (48 + n % 10)
      ∙ recombine n (value 0 (decimal_digits f (n / 10)))
          (value-decimal_digits f (n / 10) (omega (arith, h, not_ltb→le n 10 large))))
]

value-decimal : (n : ℕ) → value 0 (decimal n) ≡ n
unfolding decimal
value-decimal n = value-decimal_digits (suc n) n (omega arith)

pub decimal_injective : (m n : ℕ) → decimal m ≡ decimal n → m ≡ n
decimal_injective m n h = sym (value-decimal m) ∙ ap (value 0) h ∙ value-decimal n

-- A decimal digit
unfoldable pub Digit : ℕ → Type 0
Digit c = (48 ≤ c) × (c ≤ 57)

decimal_digits-Digit : (f n : ℕ) → All Digit (decimal_digits f n)
unfolding decimal_digits Digit
decimal_digits-Digit zero n = tt
decimal_digits-Digit (suc f) n =
    if_split (All Digit) (ltb n 10) (λ small. ((omega arith, omega (arith, ltb→lt n 10 small)), tt))
      (λ large.
        All-append Digit (decimal_digits f (n / 10)) ((48 + n % 10) ∷ [])
          (decimal_digits-Digit f (n / 10)) ((omega arith, omega arith), tt))

pub decimal-Digit : (n : ℕ) → All Digit (decimal n)
unfolding decimal
decimal-Digit n = decimal_digits-Digit (suc n) n
