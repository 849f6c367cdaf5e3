-- ===== src/Crm/Accepted/Distinct.antt =====
-- Distinct values of a column: what is in them, and when nothing was dropped.
-- How often a number stands in a list
use allocation_key_generatio.Base.Num.{same}
use allocation_key_generatio.Crm.Repository.{distinct, insert_distinct}
use allocation_key_generatio.Base.{
  subst, ◌≤◌, All, Bool-cases, List, [], ap, arith, false, if_split, inl, inr, length, ltb, ltb→lt,
  refl, suc, ℕ, ◌<◌, ◌==◌, ◌∷◌, ◌≡◌, ◌⊎◌, if◌then◌else◌,
}

abbrev pub occurrences : ℕ → List ℕ → ℕ
occurrences t [] = 0
occurrences t (x ∷ xs) = if x == t then suc (occurrences t xs) else occurrences t xs

Above : ℕ → List ℕ → Type 0
Above x = All (λ y. x < y)

Strict : List ℕ → Type 0
Strict [] = Unit
Strict (x ∷ xs) = Above x xs × Strict xs

Above-trans : (x y : ℕ) (ys : List ℕ) → x < y → Above y ys → Above x ys
unfolding Above
Above-trans x y [] h k = tt
Above-trans x y (z ∷ zs) h k = (omega (arith, h, k.0), Above-trans x y zs h k.1)

insert-Above : (z x : ℕ) (ys : List ℕ) → z < x → Above z ys → Above z (insert_distinct ltb x ys)
unfolding Above
insert-Above z x [] h k = (h, tt)
insert-Above z x (y ∷ ys) h k =
    if_split (All (λ y. z < y)) (ltb x y) (λ e. (h, k))
      (λ e.
        if_split (All (λ y. z < y)) (ltb y x) (λ e'. (k.0, insert-Above z x ys h k.1)) (λ e'. k))

insert-Strict : (x : ℕ) (ys : List ℕ) → Strict ys → Strict (insert_distinct ltb x ys)
unfolding Above Strict
insert-Strict x [] h = (tt, tt)
insert-Strict x (y ∷ ys) h =
    if_split Strict (ltb x y) (λ e. ((ltb→lt x y e, Above-trans x y ys (ltb→lt x y e) h.0), h))
      (λ e.
        if_split Strict (ltb y x)
          (λ e'. (insert-Above y x ys (ltb→lt y x e') h.0, insert-Strict x ys h.1)) (λ e'. h))

distinct-Strict : (xs : List ℕ) → Strict (distinct ltb xs)
unfolding Strict
distinct-Strict [] = tt
distinct-Strict (x ∷ xs) = insert-Strict x (distinct ltb xs) (distinct-Strict xs)

occurrences-Above : (t : ℕ) (ys : List ℕ) → Above t ys → occurrences t ys ≡ 0
unfolding Above
occurrences-Above t [] h = refl
occurrences-Above t (y ∷ ys) h = ground (arith, occurrences-Above t ys h.1, h.0)

shifted :
    (x y : ℕ) (ys : List ℕ)
    → y < x
    → ((length (insert_distinct ltb x ys) ≡ suc (length ys)) × (occurrences x ys ≡ 0))
      ⊎ (length (insert_distinct ltb x ys) ≡ length ys)
    → ((suc (length (insert_distinct ltb x ys)) ≡ suc (suc (length ys)))
        × ((if y == x then suc (occurrences x ys) else occurrences x ys) ≡ 0))
      ⊎ (suc (length (insert_distinct ltb x ys)) ≡ suc (length ys))
shifted x y ys h (inl (e, none_left)) =
    let apart : (y == x) ≡ false = ground (arith, h) in inl (ap suc e, rw apart none_left)
shifted x y ys h (inr e) = inr (ap suc e)

-- An insertion into a strict list lengthens it exactly where the number was not there.
insert_occurrences :
    (x : ℕ) (ys : List ℕ)
    → Strict ys
    → ((length (insert_distinct ltb x ys) ≡ suc (length ys)) × (occurrences x ys ≡ 0))
      ⊎ (length (insert_distinct ltb x ys) ≡ length ys)
unfolding Strict Above
insert_occurrences x [] h = inl (refl, refl)
insert_occurrences x (y ∷ ys) h = elim (Bool-cases (ltb x y)) [
  | inl e ↦ rw e (
      inl
        (refl, occurrences-Above x (y ∷ ys) (ltb→lt x y e, Above-trans x y ys (ltb→lt x y e) h.0)))
  | inr e ↦ elim (Bool-cases (ltb y x)) [
    | inl e' ↦ rw (e, e') (shifted x y ys (ltb→lt y x e') (insert_occurrences x ys h.1))
    | inr e' ↦ rw (e, e') (inr refl)
  ]
]

head_absent :
    (t x : ℕ) (ys : List ℕ)
    → occurrences t (x ∷ ys) ≡ 0
    → ((x == t) ≡ false) × (occurrences t ys ≡ 0)
head_absent t x ys h = ground arith

Absent : ℕ → ℕ → List ℕ → List ℕ → Type 0
Absent t x ys zs = occurrences t zs ≡ 0 → ((x == t) ≡ false) × (occurrences t ys ≡ 0)

tail_absent :
    (t x y : ℕ) (ys zs : List ℕ)
    → (occurrences t zs ≡ 0 → ((x == t) ≡ false) × (occurrences t ys ≡ 0))
    → occurrences t (y ∷ zs) ≡ 0
    → ((x == t) ≡ false) × (occurrences t (y ∷ ys) ≡ 0)
tail_absent t x y ys zs k h =
    let (apart, absent) = head_absent t y zs h in ((k absent).0, rw apart (k absent).1)

same_absent :
    (t x y : ℕ) (ys : List ℕ)
    → ltb x y ≡ false
    → ltb y x ≡ false
    → occurrences t (y ∷ ys) ≡ 0
    → ((x == t) ≡ false) × (occurrences t (y ∷ ys) ≡ 0)
same_absent t x y ys e e' h =
    let (apart, absent) = head_absent t y ys h in (ground (arith, e, e', apart), h)

insert-Absent : (t x : ℕ) (ys : List ℕ) → Absent t x ys (insert_distinct ltb x ys)
unfolding Absent
insert-Absent t x [] = head_absent t x []
insert-Absent t x (y ∷ ys) =
    if_split (Absent t x (y ∷ ys)) (ltb x y) (λ e. head_absent t x (y ∷ ys))
      (λ e.
        if_split (Absent t x (y ∷ ys)) (ltb y x)
          (λ e' h. tail_absent t x y ys (insert_distinct ltb x ys) (insert-Absent t x ys) h)
          (λ e' h. same_absent t x y ys e e' h))

-- What is not among the distinct values is not in the column.
pub distinct_absent :
    (t : ℕ) (xs : List ℕ) → occurrences t (distinct ltb xs) ≡ 0 → occurrences t xs ≡ 0
unfolding Absent
distinct_absent t [] h = refl
distinct_absent t (x ∷ xs) h =
    let (apart, absent) = insert-Absent t x (distinct ltb xs) h in
    rw apart (distinct_absent t xs absent)

length-distinct_le : (xs : List ℕ) → length (distinct ltb xs) ≤ length xs
length-distinct_le [] = omega arith
length-distinct_le (x ∷ xs) = elim (insert_occurrences x (distinct ltb xs) (distinct-Strict xs)) [
  | inl (e, absent) ↦ omega (arith, e, length-distinct_le xs)
  | inr e ↦ omega (arith, e, length-distinct_le xs)
]

-- A column with as many distinct values as rows has each value at most once.
pub all_once : (xs : List ℕ) → length xs ≡ length (distinct ltb xs) → (t : ℕ) → occurrences t xs ≤ 1
all_once [] h t = omega arith
all_once (x ∷ xs) h t = elim (insert_occurrences x (distinct ltb xs) (distinct-Strict xs)) [
  | inl (e, absent) ↦
      let once = all_once xs (omega (arith, h, e)) t in
      let gone = distinct_absent x xs absent in
      elim (Bool-cases (x == t)) [
        | inl same ↦ rw same (
            let here : x ≡ t = ground (arith, same) in
            let none_left : occurrences t xs ≡ 0 = subst (λ k. occurrences k xs ≡ 0) here gone in
            omega (arith, none_left))
        | inr other ↦ rw other once
      ]
  | inr e ↦ absurd (omega (arith, h, e, length-distinct_le xs))
]
