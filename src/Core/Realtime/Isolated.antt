-- ===== src/Core/Realtime/Isolated.antt =====
-- The recipients of core/realtime/channels.py and the names of their channels.
use allocation_key_generatio.Base.{
  ℕ, Bool, true, false, ◌==◌, [], ◌∷◌, ◌++◌, if◌then◌else◌, All, ◌≡◌, ◌∙◌, sym, ap, arith, refl,
  subst, ==_iff, drop, ◌&&◌,
}
use allocation_key_generatio.Base.Text.{Text, decimal, text_eq, text_eq_refl, text_eq→≡}
use allocation_key_generatio.Base.Digits.{Digit, decimal-Digit, decimal_injective}
use allocation_key_generatio.Core.Realtime.Channels.{
  Tier, member, manager, tier_value, user_channel, community_channel,
}

-- What stands before and after the first colon.
before_colon : Text → Text
before_colon [] = []
before_colon (c ∷ s) = if c == b':' then [] else c ∷ before_colon s

after_colon : Text → Text
after_colon [] = []
after_colon (c ∷ s) = if c == b':' then s else after_colon s

before_colon-digits : (s t : Text) → All Digit s → before_colon (s ++ (b':' ∷ t)) ≡ s
unfolding before_colon Digit
before_colon-digits [] t h = refl
before_colon-digits (c ∷ s) t h = ground (arith, before_colon-digits s t h.1, h.0)

after_colon-digits : (s t : Text) → All Digit s → after_colon (s ++ (b':' ∷ t)) ≡ t
unfolding after_colon Digit
after_colon-digits [] t h = refl
after_colon-digits (c ∷ s) t h = ground (arith, after_colon-digits s t h.1, h.0)

tier_value_injective : (s t : Tier) → tier_value s ≡ tier_value t → s ≡ t
tier_value_injective member member h = refl
tier_value_injective manager manager h = refl
tier_value_injective member manager h = cc
tier_value_injective manager member h = cc

user_channel_injective : (m n : ℕ) → user_channel m ≡ user_channel n → m ≡ n
unfolding user_channel
user_channel_injective m n h = decimal_injective m n (ap (drop 12) h)

community_channel_injective :
    (m n : ℕ) (s t : Tier) → community_channel m s ≡ community_channel n t → (m ≡ n) × (s ≡ t)
unfolding community_channel
community_channel_injective m n s t h =
    let rest = ap (drop 12) h in
    (
      decimal_injective m n (
          sym (before_colon-digits (decimal m) (tier_value s) (decimal-Digit m))
          ∙ ap before_colon rest
          ∙ before_colon-digits (decimal n) (tier_value t) (decimal-Digit n)),
      tier_value_injective s t (
          sym (after_colon-digits (decimal m) (tier_value s) (decimal-Digit m))
          ∙ ap after_colon rest
          ∙ after_colon-digits (decimal n) (tier_value t) (decimal-Digit n)),
    )

-- Whom a channel is for: a user, or a tier of a community
pub data Recipient : Type 0 where
  one_user : ℕ → Recipient
  one_tier : ℕ → Tier → Recipient

abbrev pub channel_of : Recipient → Text
channel_of (one_user u) = user_channel u
channel_of (one_tier c t) = community_channel c t

abbrev pub same_tier : Tier → Tier → Bool
same_tier member member = true
same_tier manager manager = true
same_tier _ _ = false

abbrev pub same_recipient : Recipient → Recipient → Bool
same_recipient (one_user m) (one_user n) = m == n
same_recipient (one_tier m s) (one_tier n t) = m == n && same_tier s t
same_recipient _ _ = false

same_tier_refl : (t : Tier) → same_tier t t ≡ true
same_tier_refl member = refl
same_tier_refl manager = refl

same_tier→≡ : (s t : Tier) → same_tier s t ≡ true → s ≡ t
same_tier→≡ member member h = refl
same_tier→≡ manager manager h = refl
same_tier→≡ member manager h = cc
same_tier→≡ manager member h = cc

iff_bool : (a b : Bool) → (a ≡ true → b ≡ true) → (b ≡ true → a ≡ true) → a ≡ b
iff_bool true b h k = sym (h refl)
iff_bool false true h k = k refl
iff_bool false false h k = refl

same_text : (s t : Text) → s ≡ t → text_eq s t ≡ true
same_text s t h = subst (λ x. text_eq s x ≡ true) h (text_eq_refl s)

and_parts : (a b : Bool) → (a && b) ≡ true → (a ≡ true) × (b ≡ true)
and_parts true b h = (refl, h)
and_parts false b h = cc

pub tiers_same : (m n : ℕ) (s t : Tier) → m ≡ n → s ≡ t → (m == n && same_tier s t) ≡ true
tiers_same m n s t h k = rw ((==_iff m n).1 h, k) (same_tier_refl t)

-- The names of two channels are the same text only for the same recipient.
pub channels_apart : (p r : Recipient) → text_eq (channel_of p) (channel_of r) ≡ same_recipient p r
unfolding text_eq user_channel community_channel
channels_apart (one_user m) (one_user n) =
    iff_bool (text_eq (user_channel m) (user_channel n)) (m == n)
      (λ e.
        (==_iff m n).1 (user_channel_injective m n (text_eq→≡ (user_channel m) (user_channel n) e)))
      (λ e. same_text (user_channel m) (user_channel n) (ap user_channel ((==_iff m n).0 e)))
channels_apart (one_tier m s) (one_tier n t) =
    iff_bool (text_eq (community_channel m s) (community_channel n t)) (m == n && same_tier s t)
      (λ e.
        let (h, k) =
          community_channel_injective m n s t
            (text_eq→≡ (community_channel m s) (community_channel n t) e) in
        tiers_same m n s t h k)
      (λ e.
        let (h, k) = and_parts (m == n) (same_tier s t) e in
        same_text (community_channel m s) (community_channel n t) (
          ap (λ x. community_channel x s) ((==_iff m n).0 h)
          ∙ ap (community_channel n) (same_tier→≡ s t k)))
channels_apart (one_user m) (one_tier n t) = refl
channels_apart (one_tier n t) (one_user m) = refl
