-- ===== src/Examples/RealtimeRuns.antt =====
-- A hint to two users and one to the managers of a community.
use allocation_key_generatio.Base.{
  ◌+◌, ℕ, true, some, List, [], ◌∷◌, ◌++◌, All, length, replicate, take, if◌then◌else◌, ◌≡◌, refl,
}
use allocation_key_generatio.Base.Text.{Text, codes, text_eq, decimal}
use allocation_key_generatio.Core.Realtime.Channels.{
  Audience, users_audience, community_audience, manager, channels, user_channel, community_channel,
}
use allocation_key_generatio.Core.Realtime.Isolated.{Recipient, channel_of}
use allocation_key_generatio.Core.Realtime.Addressed.{
  addresses, published, Meant, channels-addresses,
}
use allocation_key_generatio.Core.Realtime.Envelope.{
  Call, EnvelopeOps, Envelope, text_value, int_ref, build_envelope,
}
use allocation_key_generatio.Core.Realtime.Bus.{
  Settings, Redis, acked, lost, returned, Sent, emit, redacted_url,
}
use allocation_key_generatio.Core.Realtime.Intended.{reached, sent_to, message_of, emit-message_of}
use allocation_key_generatio.Core.Realtime.Redacted.{redacted_url-user}

abbrev two_users : Audience
two_users = users_audience (7 ∷ 12 ∷ 7 ∷ [])

abbrev managers : Audience
managers = community_audience 4 manager

channels_test : channels managers ≡ codes "notify:v1:c:4:MANAGER" ∷ []
unfolding channels community_channel decimal
channels_test = refl

channels-addresses_example :
    ((r : Recipient)
      → published (channel_of r) (channels two_users) ≡ (if addresses two_users r then 1 else 0))
    × All (Meant two_users) (channels two_users)
channels-addresses_example = channels-addresses two_users

abbrev finished : Call ℕ
finished = record {
  topic = codes "generation.finished";
  kind = codes "generation";
  ref_id = int_ref 31;
  hint = (codes "status", text_value (codes "SUCCESS")) ∷ [];
  scope_community_id = some 4;
}

-- A body of as many bytes as the texts of the envelope
abbrev dumped : Envelope ℕ → List ℕ
dumped e = replicate (length e.kind + length e.ref_id) 123

abbrev ops : EnvelopeOps ℕ
ops = record {
  token = codes "0123456789abcdef";
  now = codes "2026-01-01T00:00:00Z";
  dumps = λ e. some (dumped e);
}

abbrev configured : Settings
configured = record { realtime_enabled = true; realtime_redis_url = codes "redis://redis:6379" }

-- A server that loses what is for user 12.
abbrev lossy : Text → Sent
lossy c = if text_eq c (codes "notify:v1:u:12") then lost else acked

abbrev redis : Redis
redis = record { connects = true; publish = lossy }

emit_test :
    emit redis ops configured finished two_users
    ≡ (returned, (codes "notify:v1:u:7", replicate 12 123) ∷ [])
unfolding emit build_envelope channels user_channel decimal text_eq
emit_test = refl

emit-message_of_example : emit redis ops configured finished two_users ≡ (
  returned,
  sent_to
      (take (reached redis (channels two_users)) (channels two_users))
      (message_of ops configured redis finished),
)
emit-message_of_example = emit-message_of ops configured redis finished two_users

redacted_url-user_example :
    redacted_url
      (codes "redis" ++ (codes "://" ++ (codes ":p@ss://word" ++ (b'@' ∷ codes "redis:6379/0"))))
    ≡ codes "redis://***@redis:6379/0"
redacted_url-user_example =
    redacted_url-user (codes "redis") (codes ":p@ss://word") (codes "redis:6379/0")
      (cc, (cc, (cc, (cc, (cc, tt)))))
      (cc, (cc, (cc, (cc, (cc, (cc, (cc, (cc, (cc, (cc, (cc, (cc, tt))))))))))))
