-- ===== src/Shared/Results.antt =====
-- algorithms/base.py: what an algorithm is given and what it returns.
use allocation_key_generatio.Base.{ℕ, List}
use allocation_key_generatio.Base.Text.{Text}
use allocation_key_generatio.Base.Num.{Num}

-- A numpy matrix is the list of its rows.
pub record AlgorithmRawData (F : Num) : Type 0 where
  pub C : List (List F.Real)
  pub va : List (List F.Real)
  pub consumer_names : List Text

pub record ConsumerResult (F : Num) : Type 0 where
  pub name : Text
  pub energy_allocated_percentage : F.Real

pub record IterationResult (F : Num) : Type 0 where
  pub number : ℕ
  pub energy_allocated_percentage : F.Real
  pub surplus_total : F.Real
  pub consumers : List (ConsumerResult F)

pub record AllocationKeyResult (F : Num) : Type 0 where
  pub name : Text
  pub description : Text
  pub iterations : List (IterationResult F)

pub record AlgorithmResult (F : Num) : Type 0 where
  pub keys : List (AllocationKeyResult F)
