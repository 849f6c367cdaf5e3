-- ===== src/Core/Realtime/Intended.antt =====
-- What core/realtime/bus.py publishes, against the contract of an envelope.
use allocation_key_generatio.Base.{
  ℕ, suc, Bool, true, false, not, ltb, ◌||◌, ◌&&◌, Option, none, some, List, [], ◌∷◌, map, take,
  length, is_empty, cons_option, if◌then◌else◌, Bool-cases, Option-cases, inl, inr, ap, ◌≡◌, ◌∙◌,
  refl,
}
use allocation_key_generatio.Base.Text.{Text}
use allocation_key_generatio.Core.Realtime.Channels.{Audience, channels}
use allocation_key_generatio.Core.Realtime.Envelope.{
  Value, is_scalar, flatten, is_topic, topics, ref_text, rejected, Call, Envelope, EnvelopeOps,
  build_envelope, sized, make, max_envelope_bytes,
}
use allocation_key_generatio.Core.Realtime.Bus.{
  Settings, Sent, acked, lost, arrived, Redis, after_publish, caught, returned, threw, Effect,
  publish_each, publish_body, publish_built, emit,
}

-- How many channels a message reaches: those before the first publish that fails, and that one
-- where its message arrived
abbrev pub reached_after : Sent → ℕ → ℕ
reached_after acked rest = suc rest
reached_after lost rest = 0
reached_after arrived rest = 1

abbrev pub reached : Redis → List Text → ℕ
reached redis [] = 0
reached redis (c ∷ cs) = reached_after (redis.publish c) (reached redis cs)

after_publish-reached_after :
    {A B : Type 0} (f : A → B) (s : Sent) (n : ℕ) (c : A) (cs : List A)
    → after_publish s (f c) (map f (take n cs)) ≡ map f (take (reached_after s n) (c ∷ cs))
after_publish-reached_after f acked n c cs = refl
after_publish-reached_after f lost n c cs = refl
after_publish-reached_after f arrived n c cs = refl

publish_each-reached :
    (redis : Redis) (body : List ℕ) (cs : List Text)
    → (publish_each redis body cs).1 ≡ map (λ c. (c, body)) (take (reached redis cs) cs)
publish_each-reached redis body [] = refl
publish_each-reached redis body (c ∷ cs) =
    ap (after_publish (redis.publish c) (c, body)) (publish_each-reached redis body cs)
    ∙ after_publish-reached_after (λ x. (x, body)) (redis.publish c) (reached redis cs) c cs

caught_lem : (effect : Effect) → caught effect ≡ (returned, effect.1)
caught_lem (returned, messages) = refl
caught_lem (threw, messages) = refl

-- A body of at most 1024 bytes
abbrev pub within : Option (List ℕ) → Option (List ℕ)
within none = none
within (some body) = if ltb max_envelope_bytes (length body) then none else some body

abbrev pub sent_to : List Text → Option (List ℕ) → List (Text × List ℕ)
sent_to cs none = []
sent_to cs (some body) = map (λ c. (c, body)) cs

flat_step :
    {A : Type 0} (a b : Bool) (x : A) (xs : List A)
    → cons_option (if a then some x else none) (if b then some xs else none)
      ≡ (if a && b then some (x ∷ xs) else none)
flat_step true true x xs = refl
flat_step true false x xs = refl
flat_step false b x xs = refl

module _ {Float : Type 0} where
  abbrev pub all_scalar : List (Text × Value Float) → Bool
  all_scalar [] = true
  all_scalar (kv ∷ kvs) = is_scalar kv.1 && all_scalar kvs

  flatten-all_scalar :
      (kvs : List (Text × Value Float)) → flatten kvs ≡ (if all_scalar kvs then some kvs else none)
  flatten-all_scalar [] = refl
  flatten-all_scalar (kv ∷ kvs) =
      ap (cons_option (if is_scalar kv.1 then some kv else none)) (flatten-all_scalar kvs)
      ∙ flat_step (is_scalar kv.1) (all_scalar kvs) kv kvs

  -- A call that keeps to the contract of an envelope, and a publisher that is set up
  abbrev pub is_allowed : Settings → Redis → Call Float → Bool
  is_allowed settings redis call =
      settings.realtime_enabled
      && (not (is_empty settings.realtime_redis_url)
          && (is_topic call.topic topics
              && (not (is_empty call.kind) && (all_scalar call.hint && redis.connects))))

  abbrev pub envelope_of : EnvelopeOps Float → Call Float → Text → Envelope Float
  envelope_of ops call ref = record {
    id = ops.token;
    topic = call.topic;
    at = ops.now;
    community_id = call.scope_community_id;
    kind = call.kind;
    ref_id = ref;
    hint = call.hint;
  }

  -- The one message that a call is meant to publish, if any
  abbrev pub message_with : EnvelopeOps Float → Call Float → Bool → Option Text → Option (List ℕ)
  message_with ops call allowed none = none
  message_with ops call allowed (some ref) =
      if allowed then within (ops.dumps (envelope_of ops call ref)) else none

  abbrev pub message_of : EnvelopeOps Float → Settings → Redis → Call Float → Option (List ℕ)
  message_of ops settings redis call =
      message_with ops call (is_allowed settings redis call) (ref_text call.ref_id)

  module _ (ops : EnvelopeOps Float) (redis : Redis) (audience : Audience) where
    sent : Option (List ℕ) → List (Text × List ℕ)
    sent = sent_to (take (reached redis (channels audience)) (channels audience))

    nothing :
        (b : Bool) → ◌≡◌ {A = Effect} (returned, []) (returned, sent (if b then none else none))
    unfolding sent
    nothing true = refl
    nothing false = refl

    body_sent :
        (body : List ℕ)
        → caught (publish_body redis audience (some body))
          ≡ (returned, sent (if redis.connects then some body else none))
    unfolding sent
    body_sent body = elim (Bool-cases redis.connects) [
      | inl e ↦ rw e (
          caught_lem (publish_each redis body (channels audience))
          ∙ ap (λ l. (returned, l)) (publish_each-reached redis body (channels audience)))
      | inr e ↦ rw e refl
    ]

    emit_built :
        (e : Envelope Float)
        → caught (publish_built redis ops audience (sized e (ops.dumps e)))
          ≡ (returned, sent (if redis.connects then within (ops.dumps e) else none))
    unfolding sent
    emit_built e = elim (Option-cases (ops.dumps e)) [
      | inl h ↦ rw h (nothing redis.connects)
      | inr (body, h) ↦ elim (Bool-cases (ltb max_envelope_bytes (length body))) [
        | inl large ↦ rw (h, large) (nothing redis.connects)
        | inr small ↦ rw (h, small, h) (body_sent body)
      ]
    ]

    gate :
        (call : Call Float) (a b t k s : Bool) (o : Option Text)
        → (if not a || b
            then (returned, [])
            else caught (
                publish_built redis ops audience (
                  if t
                  then if k then rejected else make ops call o (if s then some call.hint else none)
                  else rejected)))
          ≡ (
            returned,
            sent
                (message_with ops call (a && (not b && (t && (not k && (s && redis.connects))))) o),
          )
    unfolding sent
    gate call true false true false true (some ref) = emit_built (envelope_of ops call ref)
    gate call true false true false false (some ref) = refl
    gate call true false true true s (some ref) = refl
    gate call true false false k s (some ref) = refl
    gate call true true t k s (some ref) = refl
    gate call false b t k s (some ref) = refl
    gate call true false true false s none = refl
    gate call true false true true s none = refl
    gate call true false false k s none = refl
    gate call true true t k s none = refl
    gate call false b t k s none = refl

  -- Whatever Redis does and whether or not the JSON can be made, `emit` returns: no exception leaves
  -- it. It publishes nothing unless publishing is set up and the call keeps to the contract (a known
  -- topic, a kind and a reference, only scalars in the hint, at most 1024 bytes); then it publishes
  -- one and the same envelope on the channels of the audience, in order, up to the first publish
  -- that fails.
  pub emit-message_of :
      (ops : EnvelopeOps Float) (settings : Settings) (redis : Redis) (call : Call Float)
      (audience : Audience)
      → emit redis ops settings call audience ≡ (
        returned,
        sent_to
            (take (reached redis (channels audience)) (channels audience))
            (message_of ops settings redis call),
      )
  unfolding emit build_envelope sent
  emit-message_of ops settings redis call audience = rw (flatten-all_scalar call.hint) (
      gate ops redis audience call settings.realtime_enabled (is_empty settings.realtime_redis_url)
        (is_topic call.topic topics) (is_empty call.kind) (all_scalar call.hint)
        (ref_text call.ref_id))
