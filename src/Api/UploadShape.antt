-- ===== src/Api/UploadShape.antt =====
-- api/generation/upload_shape.py: the columns and rows of a file, counted without parsing it. The CSV
-- reader, the archive and the regular expressions are parameters, `none` where they raise.
pub mod Columns
pub mod Lines
use allocation_key_generatio.Base.{
  ℕ, suc, Bool, true, false, ◌==◌, ◌||◌, ◌+◌, ◌-◌, ◌*◌, ltb, leb, ◌&&◌, Option, none, some, List,
  [], ◌∷◌, drop, map, and_then, if◌then◌else◌,
}
use allocation_key_generatio.Base.Text.{Text, codes, text_eq}
use allocation_key_generatio.Shared.DataLoading.{extension}

abbrev pub Bytes : Type 0
Bytes = List ℕ

abbrev pub max_index_part_bytes : ℕ
max_index_part_bytes = 2 * 1024 * 1024

-- What the module calls of csv, zipfile, re and posixpath
pub record ShapeOps (Archive Relationship : Type 0) : Type 0 where
  -- `.decode("utf-8", errors="replace")`
  pub decode : Bytes → Text
  -- `len(next(csv.reader([header])))`
  pub fields : Text → Option ℕ
  pub open_zip : Bytes → Option Archive
  -- `archive.getinfo(name).file_size`, `archive.read(name)`
  pub file_size : Archive → Text → Option ℕ
  pub read : Archive → Text → Option Bytes
  -- the first 64 KB of a part
  pub read_head : Archive → Text → Option Bytes
  -- group 1 of `_FIRST_SHEET.search`, and the matches of `_RELATIONSHIP`
  pub first_sheet : Bytes → Option Bytes
  pub relationships : Bytes → List Relationship
  pub rel_id : Relationship → Option Bytes
  pub rel_target : Relationship → Option Bytes
  -- `.decode()`, which raises on bytes that are not UTF-8
  pub strict_decode : Bytes → Option Text
  -- `posixpath.normpath(posixpath.join("xl", path))`
  pub below_xl : Text → Text
  -- the groups of `_DIMENSION.search`: the column's letters and the row's number
  pub dimension : Bytes → Option (Text × ℕ)

-- `str.upper` of an ASCII letter
abbrev pub upper_letter : ℕ → ℕ
upper_letter c = if leb b'a' c && leb c b'z' then c - 32 else c

-- The loop of `_column_number`, from the number so far
abbrev pub number_from : ℕ → Text → ℕ
number_from number [] = number
number_from number (letter ∷ letters) = number_from (number * 26 + (letter - 65) + 1) letters

unfoldable pub column_number : Text → ℕ
column_number letters = number_from 0 (map upper_letter letters)

-- `content.lstrip(b"\r\n")`
abbrev pub lstrip : Bytes → Bytes
lstrip [] = []
lstrip (c ∷ s) = let rest = lstrip s in if c == 13 || c == 10 then rest else c ∷ s

-- `content.split(b"\n", 1)[0]`
abbrev pub before_newline : Bytes → Bytes
before_newline [] = []
before_newline (c ∷ s) = let rest = before_newline s in if c == 10 then [] else c ∷ rest

-- `.rstrip("\r")`
abbrev pub keep_unless_last : ℕ → Text → Text
keep_unless_last c [] = if c == 13 then [] else c ∷ []
keep_unless_last c (d ∷ s) = c ∷ d ∷ s

abbrev pub rstrip : Text → Text
rstrip [] = []
rstrip (c ∷ s) = keep_unless_last c (rstrip s)

-- `content.count(b"\n")`
abbrev pub count_newlines : Bytes → ℕ
count_newlines [] = 0
count_newlines (c ∷ s) = let rest = count_newlines s in if c == 10 then suc rest else rest

-- `content.endswith(b"\n")`
abbrev pub ends_in_newline : Bytes → Bool
ends_in_newline [] = false
ends_in_newline (c ∷ []) = c == 10
ends_in_newline (c ∷ d ∷ s) = ends_in_newline (d ∷ s)

module _ {Archive Relationship : Type 0} (ops : ShapeOps Archive Relationship) where
  abbrev pub measure_lines : Bytes → Option (Option (ℕ × ℕ))
  measure_lines [] = some none
  measure_lines (c ∷ content) =
      let header = rstrip (ops.decode (before_newline (c ∷ content))) in
      let lines = count_newlines (c ∷ content) + (if ends_in_newline (c ∷ content) then 0 else 1) in
      and_then (ops.fields header) (λ columns. some (some (columns, lines - 1)))

  -- `none` is an exception, `some none` a shape that cannot be told.
  unfoldable pub measure_csv : Bytes → Option (Option (ℕ × ℕ))
  measure_csv content = measure_lines (lstrip content)

  abbrev pub read_index_part : Archive → Text → Option Bytes
  read_index_part archive name =
      and_then (ops.file_size archive name)
        (λ size. if ltb max_index_part_bytes size then none else ops.read archive name)

  -- The part at a path: from the root of the archive, or below `xl`
  abbrev pub lstrip_slashes : Text → Text
  lstrip_slashes [] = []
  lstrip_slashes (c ∷ s) = let rest = lstrip_slashes s in if c == b'/' then rest else c ∷ s

  abbrev pub located : Text → Text
  located [] = ops.below_xl []
  located (c ∷ path) = if c == b'/' then lstrip_slashes (c ∷ path) else ops.below_xl (c ∷ path)

  -- A relationship with both attributes, whose id is the sheet's
  abbrev pub matched : Bytes → Option Bytes → Option Bytes → Option Bytes
  matched sheet (some rel_id) (some target) = if text_eq rel_id sheet then some target else none
  matched sheet _ _ = none

  abbrev pub first_target : Bytes → List Relationship → Option Bytes
  first_target sheet [] = none
  first_target sheet (r ∷ rs) =
      let later = first_target sheet rs in
      elim (matched sheet (ops.rel_id r) (ops.rel_target r)) [
        | none ↦ later
        | some target ↦ some target
      ]

  infixl 5 ◌>>=◌
  abbrev ◌>>=◌ : {A B : Type 0} → Option A → (A → Option B) → Option B
  o >>= f = and_then o f

  abbrev pub first_sheet_part : Archive → Option Text
  first_sheet_part archive = do
    workbook ← read_index_part archive (codes "xl/workbook.xml")
    sheet ← ops.first_sheet workbook
    rels ← read_index_part archive (codes "xl/_rels/workbook.xml.rels")
    target ← first_target sheet (ops.relationships rels)
    path ← ops.strict_decode target
    some (located path)

  abbrev pub shape_of : Option (Text × ℕ) → Option (ℕ × ℕ)
  shape_of none = none
  shape_of (some (last_column, last_row)) = some (column_number last_column, last_row - 1)

  abbrev pub measure_xlsx : Bytes → Option (Option (ℕ × ℕ))
  measure_xlsx content = do
    archive ← ops.open_zip content
    sheet_part ← first_sheet_part archive
    head ← ops.read_head archive sheet_part
    some (shape_of (ops.dimension head))

  -- `except Exception: return None`
  abbrev pub caught : Option (Option (ℕ × ℕ)) → Option (ℕ × ℕ)
  caught none = none
  caught (some shape) = shape

  unfoldable pub measure : Bytes → Text → Option (ℕ × ℕ)
  measure content file_name =
      let ext = extension file_name in
      if text_eq ext (codes "csv")
      then caught (measure_csv content)
      else if text_eq ext (codes "xlsx") || text_eq ext (codes "xls")
      then caught (measure_xlsx content)
      else none
