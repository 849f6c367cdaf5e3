-- ===== src/Shared/Const.antt =====
-- shared/const.py.
use allocation_key_generatio.Base.{Bool, true, false}

-- `GenerationStatus`
pub data Status : Type 0 where
  pending success failed : Status

-- `DataSource`
pub data DataSource : Type 0 where
  file crm : DataSource

abbrev pub is_pending : Status → Bool
is_pending Status.pending = true
is_pending Status.success = false
is_pending Status.failed = false
