-- ===== src/Crm/Preflight.antt =====
-- shared/crm_preflight.py: blockers and warnings of a period.
mod Verdict
pub mod Accepts
unfoldable pub use Verdict.*
use allocation_key_generatio.Base.{
  is_empty, ℕ, ◌-◌, Bool, true, false, Option, none, some, List, [], ◌∷◌, ◌++◌, map, ltb,
  if◌then◌else◌, length,
}
use allocation_key_generatio.Base.Text.{Text, codes, decimal}
use allocation_key_generatio.Base.Num.{Num}
use allocation_key_generatio.Shared.ProblemSize.{too_large}
use allocation_key_generatio.Crm.Repository.{
  EanCoverage, CrmDataSummary, total_rows, total_injection_kwh, consumer_eans, duplicate_eans,
  incomplete,
}

abbrev pub max_reading_rows : ℕ
max_reading_rows = 5000000

-- `sep.join(parts)`
abbrev pub join : Text → List Text → Text
join sep [] = []
join sep (p ∷ []) = p
join sep (p ∷ q ∷ ps) = p ++ (sep ++ join sep (q ∷ ps))

abbrev pub only_if : Bool → Blocker → List Blocker
only_if b x = if b then x ∷ [] else []

module _ (F : Num) where
  abbrev pub range_blocker : CrmDataSummary F → List Blocker
  range_blocker s = only_if (ltb max_reading_rows (total_rows F s)) (record {
    error = crm_range_too_large;
    detail =
        decimal (total_rows F s)
        ++ (codes " readings exceed the "
            ++ (decimal max_reading_rows ++ codes " limit; choose a shorter period"));
  })

  abbrev pub duplicate_blocker : List Text → List Blocker
  duplicate_blocker [] = []
  duplicate_blocker (e ∷ es) =
      record {
        error = crm_duplicate_readings;
        detail =
            codes "the same timestamp appears more than once for meter(s) "
            ++ (join (codes ", ") (e ∷ es) ++ codes " — the data was most likely imported twice");
      }
      ∷ []

  abbrev pub oversize_blocker : Option Text → List Blocker
  oversize_blocker none = []
  oversize_blocker (some detail) = record { error = problem_too_large; detail = detail } ∷ []

  abbrev pub consumer_blocker : List Text → ℕ → List Blocker
  consumer_blocker [] grid =
      record {
        error = crm_no_consumers;
        detail = codes "no meter drew any energy over this period";
      }
      ∷ []
  consumer_blocker (e ∷ es) grid = oversize_blocker (too_large (length (e ∷ es)) grid)

  abbrev pub injection_blocker : CrmDataSummary F → List Blocker
  injection_blocker s = only_if (F.at_most (total_injection_kwh F s) F.nought) (record {
    error = crm_no_injection;
    detail = codes "no energy was injected over this period — there is nothing to share";
  })

  abbrev pub warning : CrmDataSummary F → EanCoverage F → IncompleteMeter
  warning s e = record {
    ean = e.ean;
    readings = e.distinct_ts;
    expected = s.grid_size;
    missing = s.grid_size - e.distinct_ts;
  }

  abbrev pub warnings_of : CrmDataSummary F → List (EanCoverage F) → Option (List IncompleteMeter)
  warnings_of s [] = none
  warnings_of s (e ∷ es) = some (map (warning s) (e ∷ es))

  abbrev pub evaluate_meters : CrmDataSummary F → Preflight
  evaluate_meters s = record {
    consumer_eans = consumer_eans F s;
    blockers =
        range_blocker s
        ++ (duplicate_blocker (duplicate_eans F s)
            ++ (consumer_blocker (consumer_eans F s) s.grid_size ++ injection_blocker s));
    warnings = warnings_of s (incomplete F s);
  }

  -- The early return for a period without readings
  abbrev pub evaluate_any : Bool → CrmDataSummary F → Preflight
  evaluate_any true s = record {
    consumer_eans = [];
    blockers =
        record {
          error = crm_no_data;
          detail = codes "no readings for this sharing operation over this period";
        }
        ∷ [];
    warnings = none;
  }
  evaluate_any false s = evaluate_meters s

  -- `evaluate`
  unfoldable pub evaluate : CrmDataSummary F → Preflight
  evaluate s = evaluate_any (is_empty s.eans) s
