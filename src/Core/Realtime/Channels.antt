-- ===== src/Core/Realtime/Channels.antt =====
-- core/realtime/channels.py: the names of the channels. The internal keys are natural numbers.
use allocation_key_generatio.Base.{ℕ, not, ◌==◌, List, [], ◌∷◌, ◌++◌, map, keep}
use allocation_key_generatio.Base.Text.{Text, codes, decimal}

pub data Tier : Type 0 where
  member manager : Tier

abbrev pub tier_value : Tier → Text
tier_value member = codes "MEMBER"
tier_value manager = codes "MANAGER"

abbrev pub prefix : Text
prefix = codes "notify:v1"

unfoldable pub user_channel : ℕ → Text
user_channel internal_user_id = prefix ++ (codes ":u:" ++ decimal internal_user_id)

unfoldable pub community_channel : ℕ → Tier → Text
community_channel internal_community_id tier =
    prefix ++ (codes ":c:" ++ (decimal internal_community_id ++ (codes ":" ++ tier_value tier)))

pub data Audience : Type 0 where
  user_audience : ℕ → Audience
  users_audience : List ℕ → Audience
  community_audience : ℕ → Tier → Audience

-- `dict.fromkeys`: each key once, where it stands first
abbrev pub from_keys : List ℕ → List ℕ
from_keys [] = []
from_keys (x ∷ xs) = x ∷ keep (λ y. not (y == x)) (from_keys xs)

unfoldable pub channels : Audience → List Text
channels (user_audience user_id) = user_channel user_id ∷ []
channels (users_audience user_ids) = map user_channel (from_keys user_ids)
channels (community_audience community_id tier) = community_channel community_id tier ∷ []
