-- ===== src/Examples/UploadRuns.antt =====
-- The shape of a small CSV file, and the number of a column.
use allocation_key_generatio.Base.{suc, ◌==◌, if◌then◌else◌, ℕ, none, some, [], ◌∷◌, ◌≡◌, refl}
use allocation_key_generatio.Base.Text.{Text, codes, text_eq}
use allocation_key_generatio.Shared.DataLoading.{extension}
use allocation_key_generatio.Api.UploadShape.{
  Bytes, ShapeOps, column_number, lstrip, measure, measure_csv,
}
use allocation_key_generatio.Api.UploadShape.Columns.{column_number-column_name, column_name}
use allocation_key_generatio.Api.UploadShape.Lines.{measure_csv-lines_of, lines_of, shape_by_lines}

abbrev commas : Text → ℕ
commas [] = 1
commas (c ∷ s) = let rest = commas s in if c == b',' then suc rest else rest

-- No archive can be opened.
abbrev ops : ShapeOps Unit Unit
ops = record {
  decode = λ s. s;
  fields = λ s. some (commas s);
  open_zip = λ s. none;
  file_size = λ a n. none;
  read = λ a n. none;
  read_head = λ a n. none;
  first_sheet = λ s. none;
  relationships = λ s. [];
  rel_id = λ r. none;
  rel_target = λ r. none;
  strict_decode = λ s. some s;
  below_xl = λ p. p;
  dimension = λ s. none;
}

-- A blank line, a header of two columns, and two rows.
abbrev file : Bytes
file = 13 ∷ 10 ∷ 97 ∷ 44 ∷ 98 ∷ 10 ∷ 49 ∷ 44 ∷ 50 ∷ 10 ∷ 51 ∷ 44 ∷ 52 ∷ []

measure_test : measure ops file (codes "meters.CSV") ≡ some (2, 2)
unfolding measure measure_csv extension text_eq
measure_test = refl

measure_csv-lines_of_example : measure_csv ops file ≡ shape_by_lines ops (lines_of (lstrip file))
measure_csv-lines_of_example = measure_csv-lines_of ops file

column_number-column_name_example : column_number (codes "aB") ≡ 28
unfolding column_name
column_number-column_name_example = column_number-column_name 28 (codes "aB") refl
