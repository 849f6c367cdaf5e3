-- ===== src/Api/Env.antt =====
-- What one request of api/generation meets outside of the service.
use allocation_key_generatio.Base.{ℕ, Bool, Option, List}
use allocation_key_generatio.Base.Text.{Text}
use allocation_key_generatio.Worker.Persistence.{Commit}

-- The fields of `AlgorithmMetadata` that the service reads
pub record Metadata : Type 0 where
  pub name : Text
  pub version : Text
  pub queue : Text

-- How `storage.upload` ends: the object is stored, not stored with an exception, or stored with
-- an exception because the answer is lost.
pub data Upload : Type 0 where
  stored not_stored stored_unanswered : Upload

-- How `send_event` ends, in the same way
pub data Publish : Type 0 where
  published not_published published_unanswered : Publish

-- The two databases during `_mark_failed_to_queue`
pub record Marking : Type 0 where
  pub read_raises : Bool
  pub commit : Commit
  pub audit_works : Bool
  pub audit_commit_raises : Bool

pub record RequestEnv : Type 0 where
  -- the registry
  pub metadata : Text → Option Metadata
  -- `model_validate` and `model_dump` of an algorithm's inputs
  pub validate : Text → Text → Option Text
  -- `upload_shape.measure`
  pub measure : List ℕ → Text → Option (ℕ × ℕ)
  pub uuid : Text
  pub upload : Upload
  pub commit : Commit
  pub audit_works : Bool
  pub publish : Publish
  -- the text of the exception of `send_event`
  pub publish_error : Text
  pub marking : Marking
  -- whether `storage.delete` gets through; it never raises
  pub deletes : Bool
