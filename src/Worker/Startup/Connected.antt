-- ===== src/Worker/Startup/Connected.antt =====
-- The retries of the connection.
use allocation_key_generatio.Base.Num.{sum}
use allocation_key_generatio.Algorithms.BruteForce.Algorithm.{last}
use allocation_key_generatio.Worker.Startup.{
  after_delay, connect_delay, connect_nats_with_retry, Startup, connect_from,
  nats_connect_max_attempts, nats_connect_max_delay_seconds,
}
use allocation_key_generatio.Base.{
  [], if_split, refl, true, ◌==◌, All, Bool, arith, false, length, suc, sym, zero, ℕ, ◌+◌, ◌<◌, ◌≡◌,
  ◌≤◌,
}

module _ (init_nats : ℕ → Bool) where
  -- No attempt from `a` on, `n` of them, succeeds.
  abbrev pub Fails : ℕ → ℕ → Type 0
  Fails zero a = Unit
  Fails (suc n) a = (init_nats a ≡ false) × Fails n (suc a)

  -- How the loop ends that begins at attempt `a` with `n` attempts left: it connects at the first
  -- attempt that succeeds, or raises after the last one; between two attempts it sleeps, each time
  -- at most the maximal delay.
  abbrev pub Retried : ℕ → ℕ → Startup → Type 0
  Retried n a s =
      (a + length s.delays ≡ s.attempts)
      × (s.attempts < a + n)
      × All (λ d. d ≤ nats_connect_max_delay_seconds) s.delays
      × Fails (length s.delays) a
      × (s.connected ≡ init_nats s.attempts)
      × (s.connected ≡ false → s.attempts + 1 ≡ a + n)

  good_Retried :
      (n a : ℕ)
      → init_nats a ≡ true
      → Retried (suc n) a (record { connected = true; attempts = a; delays = [] })
  good_Retried n a good = (omega arith, omega arith, tt, tt, sym good, λ h. cc)

  delay_bounded : (a : ℕ) → connect_delay a ≤ nats_connect_max_delay_seconds
  delay_bounded a = omega arith

  retry-Retried :
      (n a : ℕ) (s : Startup)
      → init_nats a ≡ false
      → Retried n (suc a) s
      → Retried (suc n) a (after_delay (connect_delay a) s)
  retry-Retried n a s bad (sum, below_end, short, failed, last, end) = (
    omega (arith, sum),
    omega (arith, below_end),
    (delay_bounded a, short),
    (bad, failed),
    last,
    λ h. omega (arith, end h),
  )

  connect_from-Retried :
      (n a : ℕ)
      → a + suc n ≡ nats_connect_max_attempts + 1
      → Retried (suc n) a (connect_from init_nats (suc n) a)
  unfolding connect_from
  connect_from-Retried zero a e =
      let at_end : (a == nats_connect_max_attempts) ≡ true = ground (arith, e) in
      if_split (Retried 1 a) (init_nats a) (λ good. good_Retried 0 a good)
        (λ bad. rw at_end (omega arith, omega arith, tt, tt, sym bad, λ h. omega arith))
  connect_from-Retried (suc n) a e =
      let not_end : (a == nats_connect_max_attempts) ≡ false = ground (arith, e) in
      if_split (Retried (suc (suc n)) a) (init_nats a) (λ good. good_Retried (suc n) a good)
        (λ bad. rw not_end (
          retry-Retried (suc n) a (connect_from init_nats (suc n) (suc a)) bad
            (connect_from-Retried n (suc a) (omega (arith, e)))))

  -- Whichever attempts succeed, the worker tries to connect at most ten times. It is connected
  -- exactly when its last attempt succeeds, every attempt before that one failed, and it gives up
  -- only after the tenth; it sleeps between two attempts, never more than 30 seconds.
  pub connect_nats_with_retry-Retried : Retried 10 1 (connect_nats_with_retry init_nats)
  unfolding connect_nats_with_retry
  connect_nats_with_retry-Retried = connect_from-Retried 9 1 refl
