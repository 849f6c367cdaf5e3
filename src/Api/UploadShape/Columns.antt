-- ===== src/Api/UploadShape/Columns.antt =====
-- The letters of a spreadsheet's columns, and the number that api/generation/upload_shape.py reads.
use allocation_key_generatio.Base.{
  ℕ, zero, suc, ◌+◌, ◌-◌, ◌*◌, ◌/◌, ◌%◌, ◌≤◌, [], ◌∷◌, ◌++◌, map, ◌≡◌, ◌∙◌, refl, ap, arith,
}
use allocation_key_generatio.Base.Text.{Text}
use allocation_key_generatio.Api.UploadShape.{column_number, number_from, upper_letter}

-- The name of the n-th column: no letters for 0, then A to Z, AA, AB and on. The fuel is n itself.
abbrev name_letters : ℕ → ℕ → Text
name_letters fuel zero = []
name_letters zero (suc n) = []
name_letters (suc fuel) (suc n) = name_letters fuel (n / 26) ++ (65 + n % 26) ∷ []

unfoldable pub column_name : ℕ → Text
column_name n = name_letters n n

number_from-append :
    (k : ℕ) (s : Text) (c : ℕ) → number_from k (s ++ c ∷ []) ≡ number_from k s * 26 + (c - 65) + 1
number_from-append k [] c = refl
number_from-append k (d ∷ s) c = number_from-append (k * 26 + (d - 65) + 1) s c

recombine : (n m : ℕ) → m ≡ n / 26 → m * 26 + (65 + n % 26 - 65) + 1 ≡ suc n
recombine n m h = omega arith

number_from-letters : (fuel n : ℕ) → n ≤ fuel → number_from 0 (name_letters fuel n) ≡ n
number_from-letters fuel zero h = refl
number_from-letters zero (suc n) h = omega (arith, h)
number_from-letters (suc fuel) (suc n) h =
    number_from-append 0 (name_letters fuel (n / 26)) (65 + n % 26)
    ∙ recombine n (number_from 0 (name_letters fuel (n / 26)))
        (number_from-letters fuel (n / 26) (omega (arith, h)))

-- The letters of the n-th column, in either case, are read as n.
pub column_number-column_name :
    (n : ℕ) (letters : Text) → map upper_letter letters ≡ column_name n → column_number letters ≡ n
unfolding column_number column_name
column_number-column_name n letters h = ap (number_from 0) h ∙ number_from-letters n n (omega arith)
