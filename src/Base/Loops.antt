-- ===== src/Base/Loops.antt =====
-- Loops that append to their result.
use Prim.Native.Nat.{ℕ, zero, suc, ◌+◌, ◌<◌}
use native.Mathlib.Omega.{arith}
use mathlib.Core.Path.{◌≡◌, refl, ap, sym, ◌∙◌}
use mathlib.Core.List.{List, [], ◌∷◌, ◌++◌, map, map-append, append_assoc}
use mathlib.Core.Option.{Option, none, some}
use allocation_key_generatio.Base.Lists.{All, All-append}

-- `range(n)`, from `i` on
abbrev pub range_from : ℕ → ℕ → List ℕ
range_from i zero = []
range_from i (suc n) = i ∷ range_from (suc i) n

-- A `for` loop that appends to its result
abbrev pub concat_map {ℓ κ} : {A : Type ℓ} {B : Type κ} → (A → List B) → List A → List B
concat_map f [] = []
concat_map f (x ∷ xs) = f x ++ concat_map f xs

module _ {B C : Type 0} where
  pub concat_map-append :
      (f : B → List C) (xs ys : List B)
      → concat_map f (xs ++ ys) ≡ concat_map f xs ++ concat_map f ys
  concat_map-append f [] ys = refl
  concat_map-append f (x ∷ xs) ys =
      ap (λ l. f x ++ l) (concat_map-append f xs ys)
      ∙ sym (append_assoc (f x) (concat_map f xs) (concat_map f ys))

module _ {A B C D : Type 0} (f : B → List C) (k : D → C) where
  -- Two loops that agree round by round
  pub concat_map-concat_map :
      (g : A → List B) (h : A → List D)
      → ((x : A) → concat_map f (g x) ≡ map k (h x))
      → (xs : List A) → concat_map f (concat_map g xs) ≡ map k (concat_map h xs)
  concat_map-concat_map g h e [] = refl
  concat_map-concat_map g h e (x ∷ xs) =
      concat_map-append f (g x) (concat_map g xs)
      ∙ (ap (λ l. l ++ concat_map f (concat_map g xs)) (e x)
          ∙ (ap (λ l. map k (h x) ++ l) (concat_map-concat_map g h e xs)
              ∙ sym (map-append k (h x) (concat_map h xs))))

  pub concat_map-map :
      (g : A → B) (h : A → List D)
      → ((x : A) → f (g x) ≡ map k (h x))
      → (xs : List A) → concat_map f (map g xs) ≡ map k (concat_map h xs)
  concat_map-map g h e [] = refl
  concat_map-map g h e (x ∷ xs) =
      ap (λ l. l ++ concat_map f (map g xs)) (e x)
      ∙ (ap (λ l. map k (h x) ++ l) (concat_map-map g h e xs)
          ∙ sym (map-append k (h x) (concat_map h xs)))

module _ {A B : Type 0} where
  pub All-map :
      (P : B → Type 0) (f : A → B) → ((x : A) → P (f x)) → (xs : List A) → All P (map f xs)
  All-map P f h [] = tt
  All-map P f h (x ∷ xs) = (h x, All-map P f h xs)

  pub All-concat_map :
      (P : B → Type 0) (f : A → List B)
      → ((x : A) → All P (f x))
      → (xs : List A) → All P (concat_map f xs)
  All-concat_map P f h [] = tt
  All-concat_map P f h (x ∷ xs) =
      All-append P (f x) (concat_map f xs) (h x) (All-concat_map P f h xs)

module _ {B : Type 0} where
  pub All-range_from :
      (P : B → Type 0) (f : ℕ → List B) (i n : ℕ)
      → ((k : ℕ) → k < i + n → All P (f k))
      → All P (concat_map f (range_from i n))
  All-range_from P f i zero h = tt
  All-range_from P f i (suc n) h =
      All-append P (f i) (concat_map f (range_from (suc i) n)) (h i (omega arith))
        (All-range_from P f (suc i) n (λ k lt. h k (omega arith)))

-- Loops whose rounds may raise (`none`)
module _ {A B : Type 0} where
  abbrev pub and_then : Option A → (A → Option B) → Option B
  and_then none f = none
  and_then (some a) f = f a

module _ {B : Type 0} where
  abbrev pub cons_option : Option B → Option (List B) → Option (List B)
  cons_option none ys = none
  cons_option (some y) none = none
  cons_option (some y) (some ys) = some (y ∷ ys)

module _ {A B : Type 0} where
  abbrev pub traverse : (A → Option B) → List A → Option (List B)
  traverse f [] = some []
  traverse f (x ∷ xs) = cons_option (f x) (traverse f xs)

module _ {B : Type 0} where
  -- What holds of the value, if there is one
  abbrev pub Yields : (B → Type 0) → Option B → Type 0
  Yields R none = Unit
  Yields R (some b) = R b

module _ {B : Type 0} where
  pub cons_option-Yields :
      (Q : B → Type 0) (o : Option B) (r : Option (List B))
      → Yields Q o
      → Yields (All Q) r
      → Yields (All Q) (cons_option o r)
  cons_option-Yields Q none r h k = tt
  cons_option-Yields Q (some b) none h k = tt
  cons_option-Yields Q (some b) (some bs) h k = (h, k)

module _ {A B : Type 0} where
  pub and_then-Yields :
      (P : A → Type 0) (Q : B → Type 0) (o : Option A) (f : A → Option B)
      → Yields P o
      → ((a : A) → P a → Yields Q (f a))
      → Yields Q (and_then o f)
  and_then-Yields P Q none f h k = tt
  and_then-Yields P Q (some a) f h k = k a h

  pub traverse-Yields :
      (P : A → Type 0) (Q : B → Type 0) (f : A → Option B)
      → ((a : A) → P a → Yields Q (f a))
      → (xs : List A) → All P xs
      → Yields (All Q) (traverse f xs)
  traverse-Yields P Q f h [] p = tt
  traverse-Yields P Q f h (x ∷ xs) p =
      cons_option-Yields Q (f x) (traverse f xs) (h x p.0) (traverse-Yields P Q f h xs p.1)

module _ {A : Type 0} where
  pub any_Yields : (o : Option A) → Yields (λ a. Unit {0}) o
  any_Yields none = tt
  any_Yields (some a) = tt
