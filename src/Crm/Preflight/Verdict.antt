-- ===== src/Crm/Preflight/Verdict.antt =====
-- The data types of shared/crm_preflight.py.
use allocation_key_generatio.Base.{ℕ, Bool, true, false, Option, List, [], ◌∷◌}
use allocation_key_generatio.Base.Text.{Text}

-- The members of `errors.generation` that the pre-flight reports
pub data Error : Type 0 where
  crm_no_data crm_range_too_large crm_duplicate_readings crm_no_consumers : Error
  problem_too_large crm_no_injection : Error

pub record Blocker : Type 0 where
  pub error : Error
  pub detail : Text

pub record IncompleteMeter : Type 0 where
  pub ean : Text
  pub readings : ℕ
  pub expected : ℕ
  pub missing : ℕ

-- `Preflight`, whose summary is the argument of `evaluate`
pub record Preflight : Type 0 where
  pub consumer_eans : List Text
  pub blockers : List Blocker
  pub warnings : Option (List IncompleteMeter)

abbrev pub no_blockers : List Blocker → Bool
no_blockers [] = true
no_blockers (b ∷ bs) = false

-- `Preflight.ok`
unfoldable pub is_ok : Preflight → Bool
is_ok p = no_blockers p.blockers
