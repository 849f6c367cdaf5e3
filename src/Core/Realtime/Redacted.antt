-- ===== src/Core/Realtime/Redacted.antt =====
-- The address that core/realtime/bus.py logs.
use allocation_key_generatio.Base.{
  ℕ, true, false, ◌==◌, some, [], ◌∷◌, ◌++◌, All, Bool-cases, inl, inr, ap, ◌≡◌, ◌≢◌, ◌∙◌, refl,
  arith,
}
use allocation_key_generatio.Base.Text.{Text, codes, text_eq}
use allocation_key_generatio.Core.Realtime.Bus.{
  partition, has_at, after_last_at, redacted_url, shown,
}

other : (a b : ℕ) → a ≢ b → (a == b) ≡ false
other a b h = ground arith

partition-scheme :
    (scheme rest : Text)
    → All (λ c. c ≢ b':') scheme
    → partition (scheme ++ (codes "://" ++ rest)) ≡ some (scheme, rest)
unfolding partition text_eq
partition-scheme [] rest h = refl
partition-scheme (c ∷ scheme) rest h = rw (other c b':' h.0, partition-scheme scheme rest h.1) refl

no_at : (host : Text) → All (λ c. c ≢ b'@') host → has_at host ≡ false
no_at [] h = refl
no_at (c ∷ host) h = rw (other c b'@' h.0) (no_at host h.1)

has_at-user : (user host : Text) → has_at (user ++ (b'@' ∷ host)) ≡ true
has_at-user [] host = refl
has_at-user (c ∷ user) host = elim (Bool-cases (c == b'@')) [
  | inl e ↦ rw e refl
  | inr e ↦ rw e (has_at-user user host)
]

after_last_at-host :
    (user host : Text) → All (λ c. c ≢ b'@') host → after_last_at (user ++ (b'@' ∷ host)) ≡ host
after_last_at-host [] host h = rw (no_at host h) refl
after_last_at-host (c ∷ user) host h = rw (has_at-user user host) (after_last_at-host user host h)

-- The logged address of a server has nothing of what stands before the host, whatever characters
-- the user and the password have: with a scheme without a colon and a host without an at sign,
-- `scheme://user@host` is logged as `scheme://***@host`.
pub redacted_url-user :
    (scheme user host : Text)
    → All (λ c. c ≢ b':') scheme
    → All (λ c. c ≢ b'@') host
    → redacted_url (scheme ++ (codes "://" ++ (user ++ (b'@' ∷ host))))
      ≡ scheme ++ (codes "://***@" ++ host)
unfolding redacted_url
redacted_url-user scheme user host h k =
    let url = scheme ++ (codes "://" ++ (user ++ (b'@' ∷ host))) in
    ap (shown url) (partition-scheme scheme (user ++ (b'@' ∷ host)) h)
    ∙ rw (has_at-user user host, after_last_at-host user host k) refl
