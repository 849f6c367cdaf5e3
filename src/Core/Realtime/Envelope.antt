-- ===== src/Core/Realtime/Envelope.antt =====
-- core/realtime/envelope.py: an envelope, or nothing where the contract is violated. `json.dumps`,
-- the random id and the clock are parameters.
use allocation_key_generatio.Base.{
  ℕ, Bool, true, false, ◌||◌, ltb, Option, none, some, List, [], ◌∷◌, length, traverse, is_empty,
  if◌then◌else◌,
}
use allocation_key_generatio.Base.Text.{Text, codes, text_eq, decimal}

abbrev pub max_envelope_bytes : ℕ
max_envelope_bytes = 1024

abbrev pub topics : List Text
topics =
    codes "notification.created"
    ∷ codes "generation.finished"
    ∷ codes "simulation.finished"
    ∷ codes "billing_run.finished"
    ∷ codes "session.revoked"
    ∷ []

abbrev pub is_topic : Text → List Text → Bool
is_topic topic [] = false
is_topic topic (t ∷ ts) = text_eq t topic || is_topic topic ts

-- What a hint can hold: `None`, a scalar of Python, or anything else
pub data Value (Float : Type 0) : Type 0 where
  none_value : Value Float
  text_value : Text → Value Float
  int_value : ℕ → Value Float
  float_value : Float → Value Float
  bool_value : Bool → Value Float
  structured : Value Float

-- The second part of `resource`: a text, a number, or `None`
pub data RefId : Type 0 where
  no_ref : RefId
  text_ref : Text → RefId
  int_ref : ℕ → RefId

pub record Envelope (Float : Type 0) : Type 0 where
  pub id : Text
  pub topic : Text
  pub at : Text
  pub community_id : Option ℕ
  pub kind : Text
  pub ref_id : Text
  pub hint : List (Text × Value Float)

-- What `emit` is called with, but for the audience
pub record Call (Float : Type 0) : Type 0 where
  pub topic : Text
  pub kind : Text
  pub ref_id : RefId
  -- the entries of `hint or {}`
  pub hint : List (Text × Value Float)
  pub scope_community_id : Option ℕ

-- `secrets.token_hex(8)`, the time, and the envelope's JSON in UTF-8, `none` where that raises
pub record EnvelopeOps (Float : Type 0) : Type 0 where
  pub token : Text
  pub now : Text
  pub dumps : Envelope Float → Option (List ℕ)

-- What `build_envelope` does: it returns an envelope or `None`, or lets an exception through.
pub data Built (Float : Type 0) : Type 0 where
  built : Envelope Float → Built Float
  rejected raised : Built Float

-- `str(ref_id)`, where it is not `None`
abbrev pub ref_text : RefId → Option Text
ref_text no_ref = none
ref_text (text_ref s) = some s
ref_text (int_ref n) = some (decimal n)

module _ {Float : Type 0} where
  abbrev pub is_scalar : Value Float → Bool
  is_scalar structured = false
  is_scalar _ = true

  -- The loop over the hint's items, which returns at the first that is no scalar
  abbrev pub flatten : List (Text × Value Float) → Option (List (Text × Value Float))
  flatten kvs = traverse (λ kv. if is_scalar kv.1 then some kv else none) kvs

  abbrev pub sized : Envelope Float → Option (List ℕ) → Built Float
  sized e none = raised
  sized e (some body) = if ltb max_envelope_bytes (length body) then rejected else built e

  abbrev pub make :
      EnvelopeOps Float
      → Call Float
      → Option Text
      → Option (List (Text × Value Float))
      → Built Float
  make ops call none flat = rejected
  make ops call (some ref) none = rejected
  make ops call (some ref) (some flat) =
      let envelope : Envelope Float = record {
        id = ops.token;
        topic = call.topic;
        at = ops.now;
        community_id = call.scope_community_id;
        kind = call.kind;
        ref_id = ref;
        hint = flat;
      } in
      sized envelope (ops.dumps envelope)

  unfoldable pub build_envelope : EnvelopeOps Float → Call Float → Built Float
  build_envelope ops call =
      if is_topic call.topic topics
      then if is_empty call.kind
        then rejected
        else make ops call (ref_text call.ref_id) (flatten call.hint)
      else rejected
