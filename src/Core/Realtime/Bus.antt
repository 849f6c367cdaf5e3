-- ===== src/Core/Realtime/Bus.antt =====
-- core/realtime/bus.py: the publishing of a hint, and the address that is logged. Redis and the
-- settings are parameters; the cancellation of the task from outside is not modelled.
use allocation_key_generatio.Base.{
  ℕ, Bool, false, ◌==◌, ◌||◌, not, take, drop, Option, none, some, List, [], ◌∷◌, ◌++◌, is_empty,
  if◌then◌else◌,
}
use allocation_key_generatio.Base.Text.{Text, codes, text_eq}
use allocation_key_generatio.Core.Realtime.Channels.{Audience, channels}
use allocation_key_generatio.Core.Realtime.Envelope.{
  Built, built, rejected, raised, Call, EnvelopeOps, build_envelope,
}

pub record Settings : Type 0 where
  pub realtime_enabled : Bool
  pub realtime_redis_url : Text

-- How a `publish` ends within the time that `emit` has: it returns, or it raises or is cut off,
-- with the message lost or not.
pub data Sent : Type 0 where
  acked lost arrived : Sent

-- Redis: whether a client is made, and how each publish on a channel ends
pub record Redis : Type 0 where
  pub connects : Bool
  pub publish : Text → Sent

-- How a block ends: it returns, or an exception leaves it.
pub data Ended : Type 0 where
  returned threw : Ended

-- How a block ends and what it has brought to Redis: messages with their channels
abbrev pub Effect : Type 0
Effect = Ended × List (Text × List ℕ)

-- The loop goes on after a publish that returns, and ends at an exception.
abbrev pub after_publish : {A : Type 0} → Sent → A → List A → List A
after_publish acked message rest = message ∷ rest
after_publish lost message rest = []
after_publish arrived message rest = message ∷ []

abbrev pub end_after : Sent → Ended → Ended
end_after acked rest = rest
end_after lost rest = threw
end_after arrived rest = threw

-- `except Exception`, which only logs
abbrev pub caught : Effect → Effect
caught (returned, messages) = (returned, messages)
caught (threw, messages) = (returned, messages)

module _ (redis : Redis) where
  -- The loop over the channels
  abbrev pub publish_each : List ℕ → List Text → Effect
  publish_each body [] = (returned, [])
  publish_each body (c ∷ cs) =
      let rest = publish_each body cs in
      (end_after (redis.publish c) rest.0, after_publish (redis.publish c) (c, body) rest.1)

  abbrev pub publish_body : Audience → Option (List ℕ) → Effect
  publish_body audience none = (threw, [])
  publish_body audience (some body) =
      if redis.connects then publish_each body (channels audience) else (threw, [])

  module _ {Float : Type 0} (ops : EnvelopeOps Float) where
    abbrev pub publish_built : Audience → Built Float → Effect
    publish_built audience rejected = (returned, [])
    publish_built audience raised = (threw, [])
    publish_built audience (built envelope) = publish_body audience (ops.dumps envelope)

    unfoldable pub emit : Settings → Call Float → Audience → Effect
    emit settings call audience =
        if not settings.realtime_enabled || is_empty settings.realtime_redis_url
        then (returned, [])
        else caught (publish_built audience (build_envelope ops call))

abbrev pub pushed : ℕ → Option (Text × Text) → Option (Text × Text)
pushed c none = none
pushed c (some (before, rest)) = some (c ∷ before, rest)

-- `url.partition("://")`: the texts around the first separator, if there is one
unfoldable pub partition : Text → Option (Text × Text)
partition [] = none
partition (c ∷ s) =
    let later = partition s in
    if text_eq (take 3 (c ∷ s)) (codes "://") then some ([], drop 3 (c ∷ s)) else pushed c later

-- `"@" in rest`
abbrev pub has_at : Text → Bool
has_at [] = false
has_at (c ∷ s) = c == b'@' || has_at s

-- `rest.rpartition("@")[2]`: what follows the last one, or all of it
abbrev pub after_last_at : Text → Text
after_last_at [] = []
after_last_at (c ∷ s) =
    let later = after_last_at s in if has_at s then later else if c == b'@' then s else c ∷ s

abbrev pub shown : Text → Option (Text × Text) → Text
shown url none = url
shown url (some (scheme, rest)) =
    if has_at rest then scheme ++ (codes "://***@" ++ after_last_at rest) else url

unfoldable pub redacted_url : Text → Text
redacted_url url = shown url (partition url)
