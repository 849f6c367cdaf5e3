-- ===== src/Core/Realtime/Addressed.antt =====
-- Whom an audience of core/realtime/channels.py reaches, and how often.
use allocation_key_generatio.Core.Realtime.Isolated.{
  Recipient, one_user, one_tier, channel_of, same_recipient, channels_apart, tiers_same,
}
use allocation_key_generatio.Core.Realtime.Channels.{
  Audience, user_audience, users_audience, community_audience, channels, from_keys, user_channel,
}
use allocation_key_generatio.Base.Text.{Text, text_eq}
use allocation_key_generatio.Base.{
  ℕ, suc, Bool, true, false, not, ◌==◌, ==_iff, ◌||◌, List, [], ◌∷◌, map, keep, if◌then◌else◌, All,
  Bool-cases, if_split, inl, inr, ◌≡◌, ◌∙◌, ap, arith, refl,
}

-- How often a text is in a list of channels
abbrev pub published : Text → List Text → ℕ
published c [] = 0
published c (x ∷ xs) = if text_eq x c then suc (published c xs) else published c xs

abbrev listed : ℕ → List ℕ → Bool
listed u [] = false
listed u (x ∷ xs) = x == u || listed u xs

abbrev pub addresses : Audience → Recipient → Bool
addresses (user_audience m) r = same_recipient (one_user m) r
addresses (users_audience ms) (one_user u) = listed u ms
addresses (users_audience ms) (one_tier c t) = false
addresses (community_audience m s) r = same_recipient (one_tier m s) r

abbrev count : ℕ → List ℕ → ℕ
count u [] = 0
count u (x ∷ xs) = if x == u then suc (count u xs) else count u xs

count-keep :
    (u x : ℕ) (ys : List ℕ)
    → count u (keep (λ y. not (y == x)) ys) ≡ (if x == u then 0 else count u ys)
count-keep u x [] = ground arith
count-keep u x (y ∷ ys) = ground (arith, count-keep u x ys)

count-from_keys : (u : ℕ) (xs : List ℕ) → count u (from_keys xs) ≡ (if listed u xs then 1 else 0)
count-from_keys u [] = refl
count-from_keys u (x ∷ xs) = elim (Bool-cases (x == u)) [
  | inl e ↦ rw (e, count-keep u x (from_keys xs), e) refl
  | inr e ↦ rw (e, count-keep u x (from_keys xs), e) (count-from_keys u xs)
]

users_counted :
    (u : ℕ) (ms : List ℕ) → published (user_channel u) (map user_channel ms) ≡ count u ms
users_counted u [] = refl
users_counted u (m ∷ ms) = rw (channels_apart (one_user m) (one_user u), users_counted u ms) refl

no_tier :
    (r : Recipient) (ms : List ℕ)
    → ((m : ℕ) → same_recipient (one_user m) r ≡ false)
    → published (channel_of r) (map user_channel ms) ≡ 0
no_tier r [] h = refl
no_tier r (m ∷ ms) h = rw (channels_apart (one_user m) r ∙ h m) (no_tier r ms h)

true_or : (a b : Bool) → b ≡ true → (a || b) ≡ true
true_or true b h = refl
true_or false b h = h

wider :
    (x : ℕ) (xs : List ℕ) (p : ℕ → Bool) (ys : List ℕ)
    → All (λ m. listed m xs ≡ true) ys
    → All (λ m. listed m (x ∷ xs) ≡ true) (keep p ys)
wider x xs p [] h = tt
wider x xs p (y ∷ ys) h =
    if_split (All (λ m. listed m (x ∷ xs) ≡ true)) (p y)
      (λ e. (true_or (x == y) (listed y xs) h.0, wider x xs p ys h.1)) (λ e. wider x xs p ys h.1)

-- Every channel that an audience publishes on is that of a recipient that it addresses.
unfoldable pub Meant : Audience → Text → Type 0
Meant a c = (r : Recipient) × (addresses a r ≡ true) × (channel_of r ≡ c)

from_keys-listed : (ms : List ℕ) → All (λ m. listed m ms ≡ true) (from_keys ms)
from_keys-listed [] = tt
from_keys-listed (x ∷ xs) = (
  ap (λ b. b || listed x xs) ((==_iff x x).1 refl),
  wider x xs (λ y. not (y == x)) (from_keys xs) (from_keys-listed xs),
)

named_users :
    (ms xs : List ℕ)
    → All (λ m. listed m ms ≡ true) xs
    → All (Meant (users_audience ms)) (map user_channel xs)
unfolding Meant
named_users ms [] h = tt
named_users ms (x ∷ xs) h = ((one_user x, h.0, refl), named_users ms xs h.1)

users_published :
    (ms : List ℕ) (r : Recipient)
    → published (channel_of r) (map user_channel (from_keys ms))
      ≡ (if addresses (users_audience ms) r then 1 else 0)
users_published ms (one_user u) = users_counted u (from_keys ms) ∙ count-from_keys u ms
users_published ms (one_tier c t) = no_tier (one_tier c t) (from_keys ms) (λ m. refl)

-- An audience publishes on the channel of a recipient once if it addresses that recipient, and
-- never otherwise, and only on channels of recipients: no community hears what is for a user, no
-- other community or tier hears what is for one, and nobody hears anything twice.
pub channels-addresses :
    (a : Audience)
    → ((r : Recipient) → published (channel_of r) (channels a) ≡ (if addresses a r then 1 else 0))
      × All (Meant a) (channels a)
unfolding channels Meant
channels-addresses (user_audience m) = (
  (λ r. ap (λ b. if b then 1 else 0) (channels_apart (one_user m) r)),
  ((one_user m, (==_iff m m).1 refl, refl), tt),
)
channels-addresses (community_audience m s) = (
  (λ r. ap (λ b. if b then 1 else 0) (channels_apart (one_tier m s) r)),
  ((one_tier m s, tiers_same m m s s refl refl, refl), tt),
)
channels-addresses (users_audience ms) =
    (users_published ms, named_users ms (from_keys ms) (from_keys-listed ms))
