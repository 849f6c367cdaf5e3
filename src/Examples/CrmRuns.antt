-- ===== src/Examples/CrmRuns.antt =====
-- The pre-flight of two meters over two hours.
use allocation_key_generatio.Shared.ProblemSize.{too_large, max_problem_cells}
use allocation_key_generatio.Crm.Timeseries.{
  PivotTable, PivotOps, pivoted, contains, build_dataframe,
}
use allocation_key_generatio.Crm.Accepted.Frame.{Framed, PivotLaws, evaluate-Framed}
use allocation_key_generatio.Crm.Accepted.Rows.{contains-distinct}
use allocation_key_generatio.Crm.Repository.{text_lt, fetch_rows, consumer_eans}
use allocation_key_generatio.Base.{◌||◌, ◌∙◌, ◌*◌, ◌≤◌, ap, length}
use allocation_key_generatio.Base.{
  ◌&&◌, ◌==◌, if◌then◌else◌, ltb, none, map, Option, ℕ, ◌≡◌, ◌≢◌, ◌↔◌, refl, true, some, List, [],
  ◌∷◌,
}
use allocation_key_generatio.Base.Text.{Text, codes, text_eq}
use allocation_key_generatio.Crm.Repository.{
  distinct, ConsumptionRow, MeterConsumption, CrmDataSummary, summarize,
}
use allocation_key_generatio.Crm.Preflight.{is_ok, evaluate}
use allocation_key_generatio.Crm.Preflight.Accepts.{Acceptable, evaluate-Acceptable}
use allocation_key_generatio.Examples.Millis.{Millis, pos, millis}

abbrev pub reading : Text → ℕ → Millis → Millis → MeterConsumption millis
reading e t drawn injected = record {
  id_community = 4;
  id_sharing_operation = 2;
  ean = e;
  timestamp = t;
  gross = some drawn;
  inj_gross = some injected;
}

abbrev pub readings : List (MeterConsumption millis)
readings =
    reading (codes "541") 3600 (pos 1500) (pos 0)
    ∷ reading (codes "542") 3600 (pos 0) (pos 900)
    ∷ reading (codes "541") 7200 (pos 700) (pos 0)
    ∷ []

abbrev readings_summary : CrmDataSummary millis
readings_summary = summarize millis readings

evaluate-Acceptable_example :
    (is_ok (evaluate millis readings_summary) ≡ true)
    ↔ ((readings_summary.eans ≢ []) × Acceptable millis readings_summary)
evaluate-Acceptable_example = evaluate-Acceptable millis readings_summary

readings_ok : is_ok (evaluate millis readings_summary) ≡ true
unfolding is_ok evaluate summarize too_large text_eq
readings_ok = refl

-- A pivot as pandas documents it: a column for each meter, a row for each timestamp.
abbrev reading_at : Text → ℕ → List (ConsumptionRow millis) → Option Millis
reading_at e t [] = none
reading_at e t (r ∷ rows) =
    if text_eq r.ean e && r.timestamp == t then some r.gross else reading_at e t rows

abbrev injected_at : List (ConsumptionRow millis) → ℕ → Option Millis
injected_at [] t = none
injected_at (r ∷ rows) t = if r.timestamp == t then some r.inj_gross else injected_at rows t

abbrev hours : List (ConsumptionRow millis) → List ℕ
hours rows = distinct ltb (map (λ r. r.timestamp) rows)

abbrev pivot_columns : List (ConsumptionRow millis) → List Text → List (Text × List (Option Millis))
pivot_columns rows [] = []
pivot_columns rows (e ∷ es) =
    (e, map (λ t. reading_at e t rows) (hours rows)) ∷ pivot_columns rows es

abbrev pivot_table : List (ConsumptionRow millis) → PivotTable millis
pivot_table rows = record {
  index = hours rows;
  columns = pivot_columns rows (distinct text_lt (map (λ r. r.ean) rows));
}

abbrev millis_pivot : PivotOps millis
millis_pivot = record {
  pivot = λ rows. pivoted (pivot_table rows);
  injected = injected_at;
  sort_index = λ index frame. frame;
}

columns_named :
    (rows : List (ConsumptionRow millis)) (es : List Text) (e : Text)
    → contains e (map (λ c. c.0) (pivot_columns rows es)) ≡ contains e es
columns_named rows [] e = refl
columns_named rows (x ∷ es) e = ap (λ b. text_eq x e || b) (columns_named rows es e)

millis_pivot-PivotLaws : PivotLaws millis millis_pivot
millis_pivot-PivotLaws = record {
  pivots = λ rows once. (
    pivot_table rows,
    refl,
    λ e.
        columns_named rows (distinct text_lt (map (λ r. r.ean) rows)) e
        ∙ contains-distinct e (map (λ r. r.ean) rows),
  );
  sorts = λ index frame. refl;
}

evaluate-Framed_example :
    Framed millis millis_pivot
      (fetch_rows millis readings)
      (consumer_eans millis (summarize millis readings))
      (build_dataframe millis millis_pivot
        (fetch_rows millis readings)
        (consumer_eans millis (summarize millis readings)))
    × (length (consumer_eans millis (summarize millis readings))
          * (summarize millis readings).grid_size
        ≤ max_problem_cells)
unfolding text_eq
evaluate-Framed_example =
    evaluate-Framed millis millis_pivot millis_pivot-PivotLaws readings refl readings_ok
