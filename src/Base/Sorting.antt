-- ===== src/Base/Sorting.antt =====
-- Python's stable sort, for any test that tells whether an item goes before another.
use mathlib.Core.Path.{◌≡◌, refl, ap, ◌∙◌}
use mathlib.Core.Bool.{Bool, true, false}
use mathlib.Core.List.{List, [], ◌∷◌, ◌++◌, map, Perm}
use mathlib.Core.Logic.{◌⊎◌, inl, inr}
use mathlib.Core.List.Perm
use Prim.Native.Nat.{suc}
use allocation_key_generatio.Base.Tests.{if◌then◌else◌, if_split}
use allocation_key_generatio.Base.Lists.{All, length, keep}

module _ {A : Type 0} (before : A → A → Bool) where
  abbrev pub insert : A → List A → List A
  insert x [] = x ∷ []
  insert x (y ∷ ys) = let placed = insert x ys in if before y x then y ∷ placed else x ∷ y ∷ ys

  unfoldable pub sort_by : List A → List A
  sort_by [] = []
  sort_by (x ∷ xs) = insert x (sort_by xs)

  insert-Perm : (x : A) (ys : List A) → Perm (insert x ys) (x ∷ ys)
  insert-Perm x [] = Perm.refl (x ∷ [])
  insert-Perm x (y ∷ ys) =
      if_split (λ l. Perm l (x ∷ y ∷ ys)) (before y x)
        (λ e. Perm.trans (Perm.cons y (insert-Perm x ys)) (Perm.swap x y ys))
        (λ e. Perm.refl (x ∷ y ∷ ys))

  pub sort_by-Perm : (xs : List A) → Perm (sort_by xs) xs
  unfolding sort_by
  sort_by-Perm [] = Perm.refl []
  sort_by-Perm (x ∷ xs) = Perm.trans (insert-Perm x (sort_by xs)) (Perm.cons x (sort_by-Perm xs))

  length-insert : (x : A) (ys : List A) → length (insert x ys) ≡ suc (length ys)
  length-insert x [] = refl
  length-insert x (y ∷ ys) =
      if_split (λ l. length l ≡ suc (suc (length ys))) (before y x)
        (λ e. ap suc (length-insert x ys)) (λ e. refl)

  pub length-sort_by : (xs : List A) → length (sort_by xs) ≡ length xs
  unfolding sort_by
  length-sort_by [] = refl
  length-sort_by (x ∷ xs) = length-insert x (sort_by xs) ∙ ap suc (length-sort_by xs)

  module _ (P : A → Type 0) where
    insert-All : (x : A) (ys : List A) → P x → All P ys → All P (insert x ys)
    insert-All x [] p ps = (p, tt)
    insert-All x (y ∷ ys) p ps =
        if_split (All P) (before y x) (λ e. (ps.0, insert-All x ys p ps.1)) (λ e. (p, ps))

    pub sort_by-All : (xs : List A) → All P xs → All P (sort_by xs)
    unfolding sort_by
    sort_by-All [] ps = tt
    sort_by-All (x ∷ xs) ps = insert-All x (sort_by xs) ps.0 (sort_by-All xs ps.1)

module _ {A : Type 0} (R : A → A → Type 0) where
  -- Every item is followed only by items to which it is related.
  abbrev pub Ordered : List A → Type 0
  Ordered [] = Unit
  Ordered (x ∷ xs) = All (R x) xs × Ordered xs

  All-trans :
      ((a b c : A) → R a b → R b c → R a c)
      → (x y : A) (ys : List A) → R x y
      → All (R y) ys
      → All (R x) ys
  All-trans t x y [] h hs = tt
  All-trans t x y (z ∷ zs) h hs = (t x y z h hs.0, All-trans t x y zs h hs.1)

  module _ (before : A → A → Bool) (trans : (a b c : A) → R a b → R b c → R a c)
      (yes : (a b : A) → before a b ≡ true → R a b)
      (no : (a b : A) → before a b ≡ false → R b a) where
    insert-Ordered : (x : A) (ys : List A) → Ordered ys → Ordered (insert before x ys)
    insert-Ordered x [] h = (tt, tt)
    insert-Ordered x (y ∷ ys) h =
        if_split Ordered (before y x)
          (λ e. (insert-All before (R y) x ys (yes y x e) h.0, insert-Ordered x ys h.1))
          (λ e. let le = no y x e in ((le, All-trans trans x y ys le h.0), h))

    pub sort_by-Ordered : (xs : List A) → Ordered (sort_by before xs)
    unfolding sort_by
    sort_by-Ordered [] = tt
    sort_by-Ordered (x ∷ xs) = insert-Ordered x (sort_by before xs) (sort_by-Ordered xs)

module _ {A : Type 0} where
  -- Holds of some item.
  abbrev pub Any : (A → Type 0) → List A → Type 0
  Any P [] = ⊥
  Any P (x ∷ xs) = P x ⊎ Any P xs

module _ {A : Type 0} (P : A → Type 0) where
  pub Any-append_left : (xs ys : List A) → Any P xs → Any P (xs ++ ys)
  Any-append_left [] ys h = absurd h
  Any-append_left (x ∷ xs) ys (inl p) = inl p
  Any-append_left (x ∷ xs) ys (inr h) = inr (Any-append_left xs ys h)

  pub Any-keep :
      (p : A → Bool) (xs : List A) → ((a : A) → P a → p a ≡ true) → Any P xs → Any P (keep p xs)
  Any-keep p [] h k = absurd k
  Any-keep p (x ∷ xs) h (inl px) = rw (h x px) (inl px)
  Any-keep p (x ∷ xs) h (inr k) =
      if_split (Any P) (p x) (λ e. inr (Any-keep p xs h k)) (λ e. Any-keep p xs h k)

  module _ (before : A → A → Bool) where
    insert-Any : (x : A) (ys : List A) → P x ⊎ Any P ys → Any P (insert before x ys)
    insert-Any x [] h = h
    insert-Any x (y ∷ ys) (inl p) =
        if_split (Any P) (before y x) (λ e. inr (insert-Any x ys (inl p))) (λ e. inl p)
    insert-Any x (y ∷ ys) (inr (inl p)) =
        if_split (Any P) (before y x) (λ e. inl p) (λ e. inr (inl p))
    insert-Any x (y ∷ ys) (inr (inr h)) =
        if_split (Any P) (before y x) (λ e. inr (insert-Any x ys (inr h))) (λ e. inr (inr h))

    pub sort_by-Any : (xs : List A) → Any P xs → Any P (sort_by before xs)
    unfolding sort_by
    sort_by-Any [] h = absurd h
    sort_by-Any (x ∷ xs) (inl p) = insert-Any x (sort_by before xs) (inl p)
    sort_by-Any (x ∷ xs) (inr h) = insert-Any x (sort_by before xs) (inr (sort_by-Any xs h))

module _ {A B : Type 0} (P : A → Type 0) (Q : B → Type 0) where
  pub Any-mapped :
      (f : A → B) → ((a : A) → P a → Q (f a)) → (xs : List A) → Any P xs → Any Q (map f xs)
  Any-mapped f h [] k = absurd k
  Any-mapped f h (x ∷ xs) (inl p) = inl (h x p)
  Any-mapped f h (x ∷ xs) (inr k) = inr (Any-mapped f h xs k)
