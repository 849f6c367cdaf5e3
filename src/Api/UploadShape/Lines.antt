-- ===== src/Api/UploadShape/Lines.antt =====
-- The count of api/generation/upload_shape.py against the lines of a file.
use allocation_key_generatio.Base.{
  ℕ, suc, ◌==◌, ◌+◌, ◌-◌, Option, none, some, List, [], ◌∷◌, length, and_then, if◌then◌else◌,
  Bool-cases, inl, inr, ◌≡◌, ◌∙◌, refl, ap, sym, arith,
}
use allocation_key_generatio.Api.UploadShape.{
  Bytes, ShapeOps, lstrip, before_newline, rstrip, count_newlines, ends_in_newline, measure_lines,
  measure_csv,
}

abbrev extended : ℕ → List Bytes → List Bytes
extended c [] = (c ∷ []) ∷ []
extended c (line ∷ lines) = (c ∷ line) ∷ lines

-- The lines of a file, each without its newline; nothing follows a newline at the end.
abbrev pub lines_of : Bytes → List Bytes
lines_of [] = []
lines_of (c ∷ s) = let rest = lines_of s in if c == 10 then [] ∷ rest else extended c rest

-- The first line is what stands before the first newline.
lines-header :
    (c : ℕ) (s : Bytes) → (lines : List Bytes) × (lines_of (c ∷ s) ≡ before_newline (c ∷ s) ∷ lines)
lines-header c [] = elim (Bool-cases (c == 10)) [
  | inl e ↦ rw e ([], refl)
  | inr e ↦ rw e ([], refl)
]
lines-header c (d ∷ s) =
    let (lines, h) = lines-header d s in
    elim (Bool-cases (c == 10)) [
      | inl e ↦ rw e (lines_of (d ∷ s), refl)
      | inr e ↦ rw e (lines, ap (extended c) h)
    ]

length-extended :
    (c : ℕ) (line : Bytes) (lines all : List Bytes)
    → all ≡ line ∷ lines
    → length (extended c all) ≡ length all
length-extended c line lines [] h = cc
length-extended c line lines (x ∷ xs) h = refl

count_newlines-lines_of :
    (c : ℕ) (s : Bytes)
    → count_newlines (c ∷ s) + (if ends_in_newline (c ∷ s) then 0 else 1)
      ≡ length (lines_of (c ∷ s))
count_newlines-lines_of c [] = elim (Bool-cases (c == 10)) [ inl e ↦ rw e refl | inr e ↦ rw e refl ]
count_newlines-lines_of c (d ∷ s) =
    let (lines, h) = lines-header d s in
    elim (Bool-cases (c == 10)) [
      | inl e ↦ rw e (omega (arith, count_newlines-lines_of d s))
      | inr e ↦ rw e (
          count_newlines-lines_of d s
          ∙ sym (length-extended c (before_newline (d ∷ s)) lines (lines_of (d ∷ s)) h))
    ]

fewer : (m n : ℕ) → m ≡ suc n → m - 1 ≡ n
fewer m n h = omega (arith, h)

module _ {Archive Relationship : Type 0} (ops : ShapeOps Archive Relationship) where
  -- The shape of a file by its lines: the fields of the first, and how many follow
  abbrev pub shape_by_lines : List Bytes → Option (Option (ℕ × ℕ))
  shape_by_lines [] = some none
  shape_by_lines (header ∷ rows) =
      and_then (ops.fields (rstrip (ops.decode header)))
        (λ columns. some (some (columns, length rows)))

  measure-lines : (content : Bytes) → measure_lines ops content ≡ shape_by_lines (lines_of content)
  measure-lines [] = refl
  measure-lines (c ∷ content) =
      let (lines, h) = lines-header c content in
      let header = rstrip (ops.decode (before_newline (c ∷ content))) in
      ap (λ n. and_then (ops.fields header) (λ columns. some (some (columns, n))))
        (fewer (count_newlines (c ∷ content) + (if ends_in_newline (c ∷ content) then 0 else 1))
          (length lines) (count_newlines-lines_of c content ∙ ap length h))
      ∙ sym (ap shape_by_lines h)

  -- The count of a CSV file is that of its lines, from the first that is not blank: the fields of
  -- that line, and one row for each line after it, whether or not the file ends in a newline.
  pub measure_csv-lines_of :
      (content : Bytes) → measure_csv ops content ≡ shape_by_lines (lines_of (lstrip content))
  unfolding measure_csv
  measure_csv-lines_of content = measure-lines (lstrip content)
