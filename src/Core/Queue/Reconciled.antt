-- ===== src/Core/Queue/Reconciled.antt =====
-- What `ensure_consumer_config` leaves at the broker.

use allocation_key_generatio.Base.Text.{text_eq_refl, Text, text_eq, text_eq→≡}
use allocation_key_generatio.Core.Queue.{
  done, value_error, runtime_error, raised, stored, refused, lost, stored_unanswered, Broker, Ended,
  Weather, add_consumer, checked_reconcile, ensure_consumer_config, reconcile, write_drift,
  declared_names, drift, evolve, unsupported, ConfigClass, ConsumerConfig, is_declared, member,
  reconciled_consumer_fields,
}
use allocation_key_generatio.Base.{
  Option, if_split, none, some, ◌+◌, ◌≢◌, ◌≤◌, All, ap, arith, not, sym, ◌||◌, ◌∙◌, Bool,
  Bool-cases, List, [], false, inl, inr, keep, refl, subst, true, ◌&&◌, ◌↔◌, ◌⊎◌, ◌∷◌, ◌≡◌,
}

module _ (K : ConfigClass) where
  -- `==` of values tells equal values.
  abbrev pub Exact : Type 0
  Exact = (a b : K.Value) → (K.equal a b ≡ true) ↔ (a ≡ b)

  -- Every field of the class that `config` sets has its value, and all else is as before.
  abbrev pub Matches : ConsumerConfig K → ConsumerConfig K → ConsumerConfig K → Type 0
  Matches config before after =
      (name : Text)
      → (member name K.fields ≡ true
          → is_declared K config name ≡ true
          → (after name ≡ config name) × (member name reconciled_consumer_fields ≡ true))
        × (is_declared K config name ≡ false → after name ≡ before name)
        × (member name K.fields ≡ false → after name ≡ before name)

and_false : (b : Bool) → (b && false) ≡ false
and_false true = refl
and_false false = refl

member-keep :
    (p : Text → Bool) (xs : List Text) (name : Text)
    → member name (keep p xs) ≡ (member name xs && p name)
member-keep p [] name = refl
member-keep p (x ∷ xs) name = elim (Bool-cases (p x)) [
  | inl holds ↦ elim (Bool-cases (text_eq x name)) [
    | inl hit ↦
        let kept_p : p name ≡ true = subst (λ n. p n ≡ true) (text_eq→≡ x name hit) holds in
        rw (holds, hit, kept_p) refl
    | inr other ↦ rw (holds, other) (member-keep p xs name)
  ]
  | inr fails ↦ elim (Bool-cases (text_eq x name)) [
    | inl hit ↦
        let kept_p : p name ≡ false = subst (λ n. p n ≡ false) (text_eq→≡ x name hit) fails in
        rw (fails, member-keep p xs name, hit, kept_p) (and_false (member name xs))
    | inr other ↦ rw (fails, other) (member-keep p xs name)
  ]
]

or_right : (a b : Bool) → b ≡ true → (a || b) ≡ true
or_right true b h = refl
or_right false b h = h

last_step : (a b c : Bool) → a ≡ true → b ≡ true → ((a && b) && not c) ≡ false → c ≡ true
last_step a b c ha hb h = ground arith

member-All :
    (P : Text → Type 0) (xs : List Text)
    → ((name : Text) → member name xs ≡ true → P name)
    → All P xs
member-All P [] h = tt
member-All P (x ∷ xs) h = (
  h x (ap (λ b. b || member x xs) (text_eq_refl x)),
  member-All P xs (λ name k. h name (or_right (text_eq x name) (member name xs) k)),
)

keep-nil : (p : Text → Bool) (xs : List Text) → All (λ n. p n ≡ false) xs → keep p xs ≡ []
keep-nil p [] h = refl
keep-nil p (x ∷ xs) h = rw h.0 (keep-nil p xs h.1)

absurd_names : {name : Text} {names : List Text} → name ∷ names ≡ [] → ⊥
absurd_names e = cc

module _ (K : ConfigClass) (exact : Exact K) where
  member-drift :
      (config current : ConsumerConfig K) (name : Text)
      → member name (drift K config current) ≡ (
          (member name K.fields && is_declared K config name)
          && not (K.equal (current name) (config name)))
  unfolding drift declared_names
  member-drift config current name =
      member-keep (λ n. not (K.equal (current n) (config n))) (keep (is_declared K config) K.fields)
        name
      ∙ ap (λ b. b && not (K.equal (current name) (config name)))
          (member-keep (is_declared K config) K.fields name)

  supported :
      (config : ConsumerConfig K) (name : Text)
      → unsupported K config ≡ []
      → member name K.fields ≡ true
      → is_declared K config name ≡ true
      → member name reconciled_consumer_fields ≡ true
  unfolding unsupported declared_names
  supported config name h inside given =
      let p = λ (n : Text). not (member n reconciled_consumer_fields) in
      let e : member name (unsupported K config)
          ≡ ((member name K.fields && is_declared K config name) && p name) =
        member-keep p (keep (is_declared K config) K.fields) name
        ∙ ap (λ b. b && p name) (member-keep (is_declared K config) K.fields name) in
      last_step (member name K.fields) (is_declared K config name)
        (member name reconciled_consumer_fields) inside given (sym e ∙ ap (member name) h)

  evolve-Matches :
      (config current : ConsumerConfig K)
      → unsupported K config ≡ []
      → Matches K config current (evolve K config current (drift K config current))
  evolve-Matches config current h name = (
    λ inside given. (
      elim (Bool-cases (K.equal (current name) (config name))) [
        | inl holds ↦
            rw (member-drift config current name, inside, given, holds)
              ((exact (current name) (config name)).0 holds)
        | inr fails ↦ rw (member-drift config current name, inside, given, fails) refl
      ],
      supported config name h inside given,
    ),
    λ unset. rw (member-drift config current name, unset, and_false (member name K.fields)) refl,
    λ outside. rw (member-drift config current name, outside) refl,
  )

  -- The durable has the settings of `config`, after at most one write.
  abbrev pub Updated : ConsumerConfig K → Broker K → ConsumerConfig K → Broker K → Type 0
  Updated config b current b' =
      (after : ConsumerConfig K) × (b'.durable ≡ some after)
      × Matches K config current after
      × (b'.writes ≤ b.writes + 1)

  -- What a call has done to the broker, by how it ended; the durable from before is given apart.
  abbrev pub Reconciles :
      ConsumerConfig K → Broker K → Option (ConsumerConfig K) → Ended × Broker K → Type 0
  Reconciles config b none (done, b') = b' ≡ b
  Reconciles config b (some current) (done, b') = Updated config b current b'
  Reconciles config b before (value_error, b') = (b' ≡ b) × (unsupported K config ≢ [])
  Reconciles config b before (runtime_error, b') = b' ≡ b
  Reconciles config b none (raised, b') = b' ≡ b
  Reconciles config b (some current) (raised, b') = (b' ≡ b) ⊎ Updated config b current b'

  raised_lem :
      (config : ConsumerConfig K) (b : Broker K) (before : Option (ConsumerConfig K))
      → Reconciles config b before (raised, b)
  raised_lem config b none = refl
  raised_lem config b (some current) = inl refl

  write_drift-Reconciles :
      (w : Weather) (config current : ConsumerConfig K) (b : Broker K) (names : List Text)
      → b.durable ≡ some current
      → Matches K config current (evolve K config current names)
      → Reconciles config b (some current) (write_drift K w config current b names)
  write_drift-Reconciles w config current b [] e h = (current, e, h, omega arith)
  write_drift-Reconciles w config current b (name ∷ names) e h =
      elim w.update
        as (λ u.
          Reconciles config b (some current)
            (add_consumer K u (evolve K config current (name ∷ names)) b)) [
              | stored ↦ (evolve K config current (name ∷ names), refl, h, omega arith)
              | refused ↦ refl
              | lost ↦ inl refl
              | stored_unanswered ↦
                  inr (evolve K config current (name ∷ names), refl, h, omega arith)
            ]

  reconcile-Reconciles :
      (w : Weather) (config : ConsumerConfig K) (b : Broker K) (before : Option (ConsumerConfig K))
      → b.durable ≡ before
      → unsupported K config ≡ []
      → Reconciles config b before (reconcile K w config b before)
  unfolding reconcile
  reconcile-Reconciles w config b none e h = refl
  reconcile-Reconciles w config b (some current) e h =
      write_drift-Reconciles w config current b (drift K config current) e
        (evolve-Matches config current h)

  checked-Reconciles :
      (w : Weather) (config : ConsumerConfig K) (b : Broker K) (before : Option (ConsumerConfig K))
      (names : List Text)
      → b.durable ≡ before
      → unsupported K config ≡ names
      → Reconciles config b before (checked_reconcile K w config b names)
  unfolding checked_reconcile
  checked-Reconciles w config b before [] e h =
      if_split (Reconciles config b before) w.info_raises (λ r. raised_lem config b before)
        (λ r.
          subst (λ o. Reconciles config b before (reconcile K w config b o)) (sym e)
            (reconcile-Reconciles w config b before e h))
  checked-Reconciles w config b none (name ∷ names) e h =
      (refl, λ no_names. absurd_names (sym h ∙ no_names))
  checked-Reconciles w config b (some current) (name ∷ names) e h =
      (refl, λ no_names. absurd_names (sym h ∙ no_names))

  -- Given that `==` of values is equality, and whatever the broker does: if
  -- `ensure_consumer_config` returns and the durable exists, then every field that `config` sets
  -- has that value at the broker, every other field keeps its value, and there was at most one
  -- write; if it does not exist, nothing is written. It raises ValueError only if `config` sets
  -- a field that cannot be changed. A call that raises ValueError or RuntimeError leaves the broker as
  -- it was; one that raises anything else leaves it so or, where the durable exists, as after a
  -- return.
  pub ensure_consumer_config-Reconciles :
      (w : Weather) (config : ConsumerConfig K) (b : Broker K)
      → Reconciles config b b.durable (ensure_consumer_config K w config b)
  unfolding ensure_consumer_config
  ensure_consumer_config-Reconciles w config b =
      checked-Reconciles w config b b.durable (unsupported K config) refl refl
