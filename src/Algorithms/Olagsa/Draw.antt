-- ===== src/Algorithms/Olagsa/Draw.antt =====
-- Code that draws random numbers, solves or raises: a function of the state outside.
use allocation_key_generatio.Base.{
  Option, none, some, List, [], ◌∷◌, All, Bool, true, false, if◌then◌else◌, Yields, ◌≡◌, refl, ap,
  suc, length,
}

abbrev pub Draw : Type 0 → Type 0 → Type 0
Draw S A = S → Option (A × S)

module _ {S A : Type 0} where
  abbrev pub pure : A → Draw S A
  pure a s = some (a, s)

  abbrev pub raise : Draw S A
  raise s = none

  -- A draw that cannot fail
  abbrev pub draw : (S → A × S) → Draw S A
  draw f s = some (f s)

  abbrev pub or_raise : Option A → Draw S A
  or_raise none s = none
  or_raise (some a) s = some (a, s)

module _ {S A B : Type 0} where
  abbrev pub continue : (A → Draw S B) → Option (A × S) → Option (B × S)
  continue f none = none
  continue f (some r) = f r.0 r.1

  infixl 5 ◌>>=◌
  abbrev pub ◌>>=◌ : Draw S A → (A → Draw S B) → Draw S B
  ◌>>=◌ m f s = continue f (m s)

module _ {S A B : Type 0} where
  -- The rounds of a loop that appends what they return
  abbrev pub each : (A → Draw S B) → List A → Draw S (List B)
  each f [] = pure []
  each f (x ∷ xs) = do y ← f x; ys ← each f xs; pure (y ∷ ys)

module _ {S A : Type 0} where
  -- What holds of the value, if no exception is raised.
  abbrev pub Ends : (A → Type 0) → Option (A × S) → Type 0
  Ends P none = Unit
  Ends P (some r) = P r.0

  abbrev pub Returns : (A → Type 0) → Draw S A → Type 0
  Returns P m = (s : S) → Ends P (m s)

module _ {S A : Type 0} where
  -- From some state, the draw returns the value.
  abbrev pub Ran : Draw S A → A → Type 0
  Ran m a = (s : S) × (s' : S) × (m s ≡ some (a, s'))

  Ran-of : (m : Draw S A) (s : S) (o : Option (A × S)) → m s ≡ o → Ends (Ran m) o
  Ran-of m s none e = tt
  Ran-of m s (some r) e = (s, r.1, e)

  pub Returns-Ran : (m : Draw S A) → Returns (Ran m) m
  Returns-Ran m s = Ran-of m s (m s) refl

  both_Ends :
      (P Q : A → Type 0) (o : Option (A × S)) → Ends P o → Ends Q o → Ends (λ a. P a × Q a) o
  both_Ends P Q none h k = tt
  both_Ends P Q (some r) h k = (h, k)

  pub both_Returns :
      (P Q : A → Type 0) (m : Draw S A) → Returns P m → Returns Q m → Returns (λ a. P a × Q a) m
  both_Returns P Q m h k s = both_Ends P Q (m s) (h s) (k s)

module _ {S A B : Type 0} (P : A → Type 0) (Q : B → Type 0) where
  continue-Ends :
      (o : Option (A × S)) (f : A → Draw S B)
      → Ends P o
      → ((a : A) → P a → Returns Q (f a))
      → Ends Q (continue f o)
  continue-Ends none f h k = tt
  continue-Ends (some r) f h k = k r.0 h r.1

  pub bind-Returns :
      (m : Draw S A) (f : A → Draw S B)
      → Returns P m
      → ((a : A) → P a → Returns Q (f a))
      → Returns Q (m >>= f)
  bind-Returns m f h k s = continue-Ends (m s) f (h s) k

module _ {S A : Type 0} (P : A → Type 0) where
  pub if_Returns :
      (b : Bool) (m n : Draw S A) → Returns P m → Returns P n → Returns P (if b then m else n)
  if_Returns true m n h k = h
  if_Returns false m n h k = k

module _ {S A : Type 0} where
  -- of a draw of which nothing is asked
  any_Ends : (o : Option (A × S)) → Ends (λ _. Unit {0}) o
  any_Ends none = tt
  any_Ends (some r) = tt

  lifted_Ends : (P : A → Type 0) → ((a : A) → P a) → (o : Option (A × S)) → Ends P o
  lifted_Ends P h none = tt
  lifted_Ends P h (some r) = h r.0

  pub any_Returns : (m : Draw S A) → Returns (λ _. Unit {0}) m
  any_Returns m s = any_Ends (m s)

  pub lifted_Returns : (P : A → Type 0) → ((a : A) → P a) → (m : Draw S A) → Returns P m
  lifted_Returns P h m s = lifted_Ends P h (m s)

module _ {S A B : Type 0} (P : A → Type 0) (Q : B → Type 0) where
  pub each-Returns :
      (f : A → Draw S B)
      → ((a : A) → P a → Returns Q (f a))
      → (xs : List A) → All P xs
      → Returns (All Q) (each f xs)
  each-Returns f h [] p = λ s. tt
  each-Returns f h (x ∷ xs) p = bind-Returns Q (All Q) (f x) _ (h x p.0) (λ y q.
      bind-Returns (All Q) (All Q) (each f xs) _ (each-Returns f h xs p.1) (λ ys qs s. (q, qs)))

module _ {S A : Type 0} (P : A → Type 0) where
  pub or_raise-Returns : (o : Option A) → Yields P o → Returns {S = S} P (or_raise o)
  or_raise-Returns none h = λ s. tt
  or_raise-Returns (some a) h = λ s. h

module _ {A : Type 0} where
  pub any_All : (xs : List A) → All (λ x. Unit {0}) xs
  any_All [] = tt
  any_All (x ∷ xs) = (tt, any_All xs)

module _ {S A B : Type 0} where
  pub length-each :
      (f : A → Draw S B) (xs : List A) → Returns (λ ys. length ys ≡ length xs) (each f xs)
  length-each f [] = λ s. refl
  length-each f (x ∷ xs) =
      bind-Returns (λ y. Unit {0}) (λ ys. length ys ≡ length (x ∷ xs)) (f x) _ (any_Returns (f x))
        (λ y u.
          bind-Returns (λ ys. length ys ≡ length xs) (λ ys. length ys ≡ length (x ∷ xs)) (each f xs)
            _ (length-each f xs) (λ ys h s. ap suc h))

  pub each-All :
      (Q : B → Type 0) (f : A → Draw S B)
      → ((a : A) → Returns Q (f a))
      → (xs : List A) → Returns (All Q) (each f xs)
  each-All Q f h xs = each-Returns (λ x. Unit {0}) Q f (λ a u. h a) xs (any_All xs)
