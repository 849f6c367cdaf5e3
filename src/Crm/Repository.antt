-- ===== src/Crm/Repository.antt =====
-- shared/crm_meter_repository.py: the two SELECTs over `meter_consumption`, on a table of readings.
use allocation_key_generatio.Base.{
  ℕ, ◌+◌, Bool, true, false, not, ◌&&◌, Option, none, some, List, [], ◌∷◌, map, ◌==◌, ltb, leb,
  if◌then◌else◌, length, keep,
}
use allocation_key_generatio.Base.Text.{Text, text_eq}
use allocation_key_generatio.Base.Num.{Num, sum, below}

-- A row of `meter_consumption`. Timestamps are instants in seconds.
pub record MeterConsumption (F : Num) : Type 0 where
  pub id_community : ℕ
  pub id_sharing_operation : ℕ
  pub ean : Text
  pub timestamp : ℕ
  pub gross : Option F.Real
  pub inj_gross : Option F.Real

pub record ConsumptionRow (F : Num) : Type 0 where
  pub timestamp : ℕ
  pub ean : Text
  pub gross : F.Real
  pub inj_gross : F.Real

pub record EanCoverage (F : Num) : Type 0 where
  pub ean : Text
  pub row_count : ℕ
  pub distinct_ts : ℕ
  pub consumption_kwh : F.Real
  pub injection_kwh : F.Real

pub record CrmDataSummary (F : Num) : Type 0 where
  pub eans : List (EanCoverage F)
  pub grid_size : ℕ
  pub first_timestamp : Option ℕ
  pub last_timestamp : Option ℕ

-- The order of texts, by code points
abbrev pub text_lt : Text → Text → Bool
text_lt [] [] = false
text_lt [] (b ∷ t) = true
text_lt (a ∷ s) [] = false
text_lt (a ∷ s) (b ∷ t) = if ltb a b then true else if a == b then text_lt s t else false

-- The distinct values of a column, in order
module _ {ℓ} {A : Type ℓ} (lt : A → A → Bool) where
  abbrev pub insert_distinct : A → List A → List A
  insert_distinct x [] = x ∷ []
  insert_distinct x (y ∷ ys) =
      if lt x y then x ∷ y ∷ ys else if lt y x then y ∷ insert_distinct x ys else y ∷ ys

  abbrev pub distinct : List A → List A
  distinct [] = []
  distinct (x ∷ xs) = insert_distinct x (distinct xs)

-- `period_bounds`. The first instant of a day in Brussels is a parameter.
abbrev pub period_bounds : (ℕ → ℕ) → ℕ → ℕ → ℕ × ℕ
period_bounds midnight period_start period_end = (midnight period_start, midnight (period_end + 1))

module _ (F : Num) where
  abbrev pub has_duplicate_rows : EanCoverage F → Bool
  has_duplicate_rows e = not (e.row_count == e.distinct_ts)

  abbrev pub is_consumer : EanCoverage F → Bool
  is_consumer e = below F F.nought e.consumption_kwh

  abbrev pub sum_rows : List (EanCoverage F) → ℕ
  sum_rows [] = 0
  sum_rows (e ∷ es) = e.row_count + sum_rows es

  abbrev pub total_rows : CrmDataSummary F → ℕ
  total_rows s = sum_rows s.eans

  abbrev pub total_injection_kwh : CrmDataSummary F → F.Real
  total_injection_kwh s = sum F (map (λ e. e.injection_kwh) s.eans)

  abbrev pub all_eans : CrmDataSummary F → List Text
  all_eans s = map (λ e. e.ean) s.eans

  abbrev pub consumer_eans : CrmDataSummary F → List Text
  consumer_eans s = map (λ e. e.ean) (keep is_consumer s.eans)

  abbrev pub duplicate_eans : CrmDataSummary F → List Text
  duplicate_eans s = map (λ e. e.ean) (keep has_duplicate_rows s.eans)

  abbrev pub incomplete : CrmDataSummary F → List (EanCoverage F)
  incomplete s = keep (λ e. ltb e.distinct_ts s.grid_size) s.eans

  -- `COALESCE(x, 0)`
  abbrev pub coalesce : Option F.Real → F.Real
  coalesce none = F.nought
  coalesce (some x) = x

  -- The WHERE clause that both statements share
  abbrev pub in_period : (ℕ → ℕ) → ℕ → ℕ → ℕ → ℕ → MeterConsumption F → Bool
  in_period midnight cid op period_start period_end mc =
      let (start, end_excl) = period_bounds midnight period_start period_end in
      mc.id_community == cid
      && (mc.id_sharing_operation == op && (leb start mc.timestamp && ltb mc.timestamp end_excl))

  abbrev pub of_ean : Text → List (MeterConsumption F) → List (MeterConsumption F)
  of_ean e = keep (λ mc. text_eq mc.ean e)

  abbrev pub timestamps : List (MeterConsumption F) → List ℕ
  timestamps rows = distinct ltb (map (λ mc. mc.timestamp) rows)

  -- One group of `GROUP BY mc.ean`
  abbrev pub coverage : List (MeterConsumption F) → Text → EanCoverage F
  coverage rows e = record {
    ean = e;
    row_count = length (of_ean e rows);
    distinct_ts = length (timestamps (of_ean e rows));
    consumption_kwh = sum F (map (λ mc. coalesce mc.gross) (of_ean e rows));
    injection_kwh = sum F (map (λ mc. coalesce mc.inj_gross) (of_ean e rows));
  }

  abbrev pub first_of_list : List ℕ → Option ℕ
  first_of_list [] = none
  first_of_list (t ∷ ts) = some t

  abbrev pub last_of_list : List ℕ → Option ℕ
  last_of_list [] = none
  last_of_list (t ∷ []) = some t
  last_of_list (t ∷ u ∷ ts) = last_of_list (u ∷ ts)

  unfoldable pub summarize : List (MeterConsumption F) → CrmDataSummary F
  summarize rows = record {
    eans = map (coverage rows) (distinct text_lt (map (λ mc. mc.ean) rows));
    grid_size = length (timestamps rows);
    first_timestamp = first_of_list (timestamps rows);
    last_timestamp = last_of_list (timestamps rows);
  }

  abbrev pub to_row : MeterConsumption F → ConsumptionRow F
  to_row mc = record {
    timestamp = mc.timestamp;
    ean = mc.ean;
    gross = coalesce mc.gross;
    inj_gross = coalesce mc.inj_gross;
  }

  -- `ORDER BY mc.timestamp, mc.ean`
  abbrev pub row_lt : ConsumptionRow F → ConsumptionRow F → Bool
  row_lt a b =
      if ltb a.timestamp b.timestamp
      then true
      else if a.timestamp == b.timestamp
      then text_lt a.ean b.ean
      else false

  abbrev pub insert_row : ConsumptionRow F → List (ConsumptionRow F) → List (ConsumptionRow F)
  insert_row x [] = x ∷ []
  insert_row x (y ∷ ys) = if row_lt y x then y ∷ insert_row x ys else x ∷ y ∷ ys

  unfoldable pub fetch_rows : List (MeterConsumption F) → List (ConsumptionRow F)
  fetch_rows [] = []
  fetch_rows (mc ∷ rows) = insert_row (to_row mc) (fetch_rows rows)
