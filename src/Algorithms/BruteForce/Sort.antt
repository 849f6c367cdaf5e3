-- ===== src/Algorithms/BruteForce/Sort.antt =====
-- `keys.sort`: the result is ordered by the final surplus and holds the same keys.
use allocation_key_generatio.Base.{
  suc, ◌≡◌, refl, ap, ◌∙◌, true, false, List, [], ◌∷◌, All, length, arith, Bool-cases, inl, inr,
  if_split,
}
use allocation_key_generatio.Base.Num.{Num, NumLaws, below}
use allocation_key_generatio.Shared.Results.{AllocationKeyResult}
use allocation_key_generatio.Algorithms.BruteForce.Algorithm.{final_surplus, insert_key, sort_keys}
use mathlib.Core.List.{Perm}
use mathlib.Core.List.Perm

module _ (F : Num) where
  abbrev NoMore : AllocationKeyResult F → AllocationKeyResult F → Type 0
  NoMore x y = F.at_most (final_surplus F x) (final_surplus F y) ≡ true

  -- Every key is followed by keys with no smaller surplus.
  abbrev pub Ascending : List (AllocationKeyResult F) → Type 0
  Ascending [] = Unit
  Ascending (x ∷ xs) = All (NoMore x) xs × Ascending xs

  module _ (P : AllocationKeyResult F → Type 0) where
    insert_key-All :
        (x : AllocationKeyResult F) (ys : List (AllocationKeyResult F))
        → P x
        → All P ys
        → All P (insert_key F x ys)
    insert_key-All x [] p ps = (p, tt)
    insert_key-All x (y ∷ ys) p ps =
        if_split (All P) (below F (final_surplus F y) (final_surplus F x))
          (λ e. (ps.0, insert_key-All x ys p ps.1)) (λ e. (p, ps))

    pub sort_keys-All : (xs : List (AllocationKeyResult F)) → All P xs → All P (sort_keys F xs)
    unfolding sort_keys
    sort_keys-All [] ps = tt
    sort_keys-All (x ∷ xs) ps = insert_key-All x (sort_keys F xs) ps.0 (sort_keys-All xs ps.1)

  insert_key-Perm :
      (x : AllocationKeyResult F) (ys : List (AllocationKeyResult F))
      → Perm (insert_key F x ys) (x ∷ ys)
  insert_key-Perm x [] = Perm.refl (x ∷ [])
  insert_key-Perm x (y ∷ ys) =
      if_split (λ l. Perm l (x ∷ y ∷ ys)) (below F (final_surplus F y) (final_surplus F x))
        (λ e. Perm.trans (Perm.cons y (insert_key-Perm x ys)) (Perm.swap x y ys))
        (λ e. Perm.refl (x ∷ y ∷ ys))

  pub sort_keys-Perm : (xs : List (AllocationKeyResult F)) → Perm (sort_keys F xs) xs
  unfolding sort_keys
  sort_keys-Perm [] = Perm.refl []
  sort_keys-Perm (x ∷ xs) =
      Perm.trans (insert_key-Perm x (sort_keys F xs)) (Perm.cons x (sort_keys-Perm xs))

  insert_key-length :
      (x : AllocationKeyResult F) (ys : List (AllocationKeyResult F))
      → length (insert_key F x ys) ≡ suc (length ys)
  insert_key-length x [] = refl
  insert_key-length x (y ∷ ys) =
      if_split (λ l. length l ≡ suc (suc (length ys)))
        (below F (final_surplus F y) (final_surplus F x)) (λ e. ap suc (insert_key-length x ys))
        (λ e. refl)

  pub sort_keys-length : (xs : List (AllocationKeyResult F)) → length (sort_keys F xs) ≡ length xs
  unfolding sort_keys
  sort_keys-length [] = refl
  sort_keys-length (x ∷ xs) = insert_key-length x (sort_keys F xs) ∙ ap suc (sort_keys-length xs)

  module _ (laws : NumLaws F) where
    pub below_le : (a b : F.Real) → below F a b ≡ true → F.at_most a b ≡ true
    below_le a b h = ground arith

    pub not_below_le : (a b : F.Real) → below F a b ≡ false → F.at_most b a ≡ true
    not_below_le a b h = elim (Bool-cases (F.at_most a b)) [
      | inl e ↦ ground arith
      | inr e ↦ laws.total_le a b e
    ]

    lower_All :
        (x y : AllocationKeyResult F) (ys : List (AllocationKeyResult F))
        → NoMore x y
        → All (NoMore y) ys
        → All (NoMore x) ys
    lower_All x y [] h hs = tt
    lower_All x y (z ∷ zs) h hs = (laws.trans_le _ _ _ h hs.0, lower_All x y zs h hs.1)

    insert_key-Ascending :
        (x : AllocationKeyResult F) (ys : List (AllocationKeyResult F))
        → Ascending ys
        → Ascending (insert_key F x ys)
    insert_key-Ascending x [] h = (tt, tt)
    insert_key-Ascending x (y ∷ ys) h =
        if_split Ascending (below F (final_surplus F y) (final_surplus F x))
          (λ e.
            (insert_key-All (NoMore y) x ys (below_le _ _ e) h.0, insert_key-Ascending x ys h.1))
          (λ e.
            let le = not_below_le (final_surplus F y) (final_surplus F x) e in
            ((le, lower_All x y ys le h.0), h))

    pub sort_keys-Ascending : (xs : List (AllocationKeyResult F)) → Ascending (sort_keys F xs)
    unfolding sort_keys
    sort_keys-Ascending [] = tt
    sort_keys-Ascending (x ∷ xs) = insert_key-Ascending x (sort_keys F xs) (sort_keys-Ascending xs)
