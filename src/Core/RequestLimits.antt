-- ===== src/Core/RequestLimits.antt =====
-- core/middleware/request_limits.py: the gate on the declared size of a request, and its timeout.
-- `str.upper`, `int` and the rest of the application are parameters.
pub mod Gate
use allocation_key_generatio.Api.Upload.{upload_max_body_bytes}
use allocation_key_generatio.Base.Text.{
  not_a_number, negative, number, Parsed, Text, codes, text_eq,
}
use allocation_key_generatio.Base.{
  Bool, List, Option, [], false, ltb, none, some, ℕ, ◌&&◌, ◌*◌, ◌∷◌, if◌then◌else◌,
}

abbrev pub max_body_bytes : ℕ
max_body_bytes = 2 * 1024 * 1024

-- `_UPLOAD_ROUTES`: pairs of a method and a path
abbrev pub upload_routes : List (Text × Text)
upload_routes = (codes "POST", codes "/") ∷ []

pub record Request : Type 0 where
  pub request_method : Text
  pub path : Text
  -- the header, where the request has it
  pub content_length : Option Text

-- How `call_next` ends within the timeout: with a response, not at all, or with an exception
pub data Downstream (R : Type 0) : Type 0 where
  responded : R → Downstream R
  out_of_time crashed : Downstream R

-- What the middleware answers: 413, 504, the application's response, or its exception
pub data Reply (R : Type 0) : Type 0 where
  payload_too_large request_timeout request_failed : Reply R
  forwarded : R → Reply R

module _ (upper : Text → Text) (parse_int : Text → Parsed) where
  abbrev pub cap_of : Text → Text → List (Text × Text) → ℕ
  cap_of verb path [] = max_body_bytes
  cap_of verb path (route ∷ routes) =
      if text_eq verb route.0 && text_eq path route.1
      then upload_max_body_bytes
      else cap_of verb path routes

  unfoldable pub max_body_for : Request → ℕ
  max_body_for r = cap_of (upper r.request_method) r.path upload_routes

  abbrev pub number_over : ℕ → Parsed → Bool
  number_over limit not_a_number = false
  number_over limit negative = false
  number_over limit (number n) = ltb limit n

  abbrev pub is_over : ℕ → Option Text → Bool
  is_over limit none = false
  is_over limit (some text) = number_over limit (parse_int text)

  module _ {R : Type 0} where
    abbrev pub within_timeout : Downstream R → Reply R
    within_timeout (responded r) = forwarded r
    within_timeout out_of_time = request_timeout
    within_timeout crashed = request_failed

  module _ {R A : Type 0} where
    -- The reply to what the application did, with its state
    abbrev pub replied : Downstream R × A → Reply R × A
    replied (d, app) = (within_timeout d, app)

    -- `dispatch`, on the state of the application, which `call_next` changes
    unfoldable pub dispatch : (Request → A → Downstream R × A) → Request → A → Reply R × A
    unfolding max_body_for
    dispatch call_next r app =
        if is_over (max_body_for r) r.content_length
        then (payload_too_large, app)
        else replied (call_next r app)
