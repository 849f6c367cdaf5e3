-- ===== src/Crm/Timeseries.antt =====
-- shared/crm_timeseries.py: from readings to the wide frame of an upload. pandas is a parameter.
use allocation_key_generatio.Base.{
  ℕ, Bool, false, not, ◌||◌, keep, Option, none, some, List, [], ◌∷◌, ◌++◌, map, if◌then◌else◌,
}
use allocation_key_generatio.Base.Text.{Text, codes, text_eq}
use allocation_key_generatio.Base.Num.{Num}
use allocation_key_generatio.Shared.DataLoading.{Frame, quoted}
use allocation_key_generatio.Crm.Repository.{ConsumptionRow}

abbrev pub injection_column : Text
injection_column = codes "__injection__"

-- The result of `frame.pivot(index="timestamp", columns="ean", values="gross")`; `none` is NaN.
pub record PivotTable (F : Num) : Type 0 where
  pub index : List ℕ
  pub columns : List (Text × List (Option F.Real))

-- How pandas' `pivot` ends: a table, the ValueError for duplicates, or another exception.
pub data Pivot (F : Num) : Type 0 where
  pivoted : PivotTable F → Pivot F
  value_error pandas_raised : Text → Pivot F

-- The calls of pandas in `build_dataframe`
pub record PivotOps (F : Num) : Type 0 where
  pub pivot : List (ConsumptionRow F) → Pivot F
  -- `groupby("timestamp")["inj_gross"].sum()`, at a timestamp
  pub injected : List (ConsumptionRow F) → ℕ → Option F.Real
  -- `sort_index().reset_index(drop=True)` of a frame with the given index
  pub sort_index : List ℕ → Frame F → Frame F

-- `build_dataframe` returns a frame, raises `CrmPivotError`, or lets an exception through.
pub data Pivoted (F : Num) : Type 0 where
  framed : Frame F → Pivoted F
  crm_pivot_error pivot_crashed : Text → Pivoted F

abbrev pub contains : Text → List Text → Bool
contains e [] = false
contains e (x ∷ xs) = text_eq x e || contains e xs

-- `repr` of a list of texts
abbrev quoted_items : List Text → Text
quoted_items [] = []
quoted_items (e ∷ []) = quoted e
quoted_items (e ∷ f ∷ es) = quoted e ++ (codes ", " ++ quoted_items (f ∷ es))

module _ (F : Num) where
  abbrev pub column : Text → List (Text × List (Option F.Real)) → Option (List (Option F.Real))
  column e [] = none
  column e ((n, v) ∷ cs) = if text_eq n e then some v else column e cs

  abbrev pub fill : Option F.Real → F.Real
  fill none = F.nought
  fill (some x) = x

  -- A column of `reindex(columns=…)`: NaN throughout where the table lacks it
  abbrev pub reindexed : PivotTable F → Text → List (Option F.Real)
  reindexed table e = elim (column e table.columns) [
    | none ↦ map (λ t. none) table.index
    | some v ↦ v
  ]

  abbrev pub missing : PivotTable F → List Text → List Text
  missing table eans = keep (λ e. not (contains e (map (λ c. c.0) table.columns))) eans

  abbrev pub wide_frame : PivotOps F → List (ConsumptionRow F) → List Text → PivotTable F → Frame F
  wide_frame ops rows eans table = ops.sort_index table.index (record {
    columns =
        map (λ e. (e, map fill (reindexed table e))) eans
        ++ (injection_column, map (λ t. fill (ops.injected rows t)) table.index) ∷ [];
  })

  abbrev pub assemble : PivotOps F → List (ConsumptionRow F) → List Text → PivotTable F → Pivoted F
  assemble ops rows eans table = elim (missing table eans) [
    | [] ↦ framed (wide_frame ops rows eans table)
    | e ∷ es ↦ crm_pivot_error (
        codes "no readings for requested participant(s): [" ++ (quoted_items (e ∷ es) ++ codes "]"))
  ]

  abbrev pub pivot_rows : PivotOps F → List (ConsumptionRow F) → List Text → Pivoted F
  pivot_rows ops rows eans = elim (ops.pivot rows) [
    | value_error exc ↦ crm_pivot_error (codes "duplicate (ean, timestamp) readings: " ++ exc)
    | pandas_raised exc ↦ pivot_crashed exc
    | pivoted table ↦ assemble ops rows eans table
  ]

  unfoldable pub build_dataframe : PivotOps F → List (ConsumptionRow F) → List Text → Pivoted F
  build_dataframe ops [] eans = crm_pivot_error (codes "no readings to pivot")
  build_dataframe ops (r ∷ rows) [] = crm_pivot_error (codes "no consumer EANs requested")
  build_dataframe ops (r ∷ rows) (e ∷ eans) =
      if contains injection_column (e ∷ eans)
      then crm_pivot_error
          (quoted injection_column ++ codes " is reserved and cannot be a participant")
      else pivot_rows ops (r ∷ rows) (e ∷ eans)
