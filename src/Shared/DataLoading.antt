-- ===== src/Shared/DataLoading.antt =====
-- shared/data_loading.py: from a parsed table to the matrices of an algorithm. pandas' parsers are
-- parameters.
use allocation_key_generatio.Base.{
  ℕ, not, ◌||◌, Option, none, some, List, [], ◌∷◌, ◌++◌, map, ◌==◌, leb, ◌&&◌, ◌+◌, if◌then◌else◌,
  length, replicate, keep,
}
use allocation_key_generatio.Base.Text.{Text, codes, text_eq}
use allocation_key_generatio.Base.Num.{Num}
use allocation_key_generatio.Shared.Results.{AlgorithmRawData}

-- `str.lower` on ASCII letters
lower : ℕ → ℕ
lower c = if leb b'A' c && leb c b'Z' then c + 32 else c

-- The text after the last dot, or all of it: `file_name.rsplit(".", 1)[-1]`. `seen` is what
-- follows the last dot so far.
last_part : Text → Text → Text
last_part seen [] = seen
last_part seen (c ∷ s) = last_part (if c == b'.' then [] else seen ++ c ∷ []) s

unfoldable pub extension : Text → Text
unfolding lower last_part
extension file_name = map lower (last_part [] file_name)

-- `repr` of a text without quotes or escapes
pub quoted : Text → Text
quoted s = 39 ∷ (s ++ 39 ∷ [])

pub record Frame (F : Num) : Type 0 where
  pub columns : List (Text × List F.Real)

-- What `load` raises: one of its own two errors, or anything else.
pub data Loaded (F : Num) : Type 0 where
  loaded : AlgorithmRawData F → Loaded F
  rejected : Text → Loaded F
  crashed : Text → Loaded F

-- pandas: a table, or the message of the exception
pub record Pandas (F : Num) (Bytes : Type 0) : Type 0 where
  pub read_csv : Bytes → Option (Frame F)
  pub read_excel : Bytes → Option (Frame F)
  pub message : Bytes → Text

module _ (F : Num) where
  pub find_column : Text → List (Text × List F.Real) → Option (List F.Real)
  find_column name [] = none
  find_column name ((n, v) ∷ cs) = if text_eq n name then some v else find_column name cs

  unfoldable pub to_algorithm_raw_data : Frame F → Text → Loaded F
  unfolding find_column
  to_algorithm_raw_data frame injection_name = elim (find_column injection_name frame.columns) [
    | none ↦
        rejected
          (codes "Injection column " ++ (quoted injection_name ++ codes " not found in file"))
    | some production_series ↦
        let consumers = keep (λ c. not (text_eq c.0 injection_name)) frame.columns in
        loaded (record {
          C = map (λ c. c.1) consumers;
          va = replicate (length consumers) production_series;
          consumer_names = map (λ c. c.0) consumers;
        })
  ]

  parsed : {Bytes : Type 0} → Pandas F Bytes → Bytes → Option (Frame F) → Text → Loaded F
  unfolding to_algorithm_raw_data
  parsed pandas content none injection_name = crashed (pandas.message content)
  parsed pandas content (some frame) injection_name = to_algorithm_raw_data frame injection_name

  unfoldable pub load : {Bytes : Type 0} → Pandas F Bytes → Bytes → Text → Text → Loaded F
  unfolding parsed extension
  load pandas content file_name injection_name =
      let ext = extension file_name in
      if text_eq ext (codes "csv")
      then parsed pandas content (pandas.read_csv content) injection_name
      else if text_eq ext (codes "xlsx") || text_eq ext (codes "xls")
      then parsed pandas content (pandas.read_excel content) injection_name
      else rejected (codes "Unsupported file extension: " ++ quoted ext)
