-- ===== src/Crm/Accepted/Rows.antt =====
-- The readings of a period as the two statements see them: by meter, and in order.
use allocation_key_generatio.Crm.Accepted.Distinct.{occurrences}
use allocation_key_generatio.Crm.Timeseries.{contains}
use allocation_key_generatio.Base.Text.{Text, text_eq, text_eq_refl, text_eq→≡}
use allocation_key_generatio.Base.Num.{Num}
use allocation_key_generatio.Crm.Repository.{
  ConsumptionRow, MeterConsumption, distinct, fetch_rows, insert_distinct, insert_row, of_ean,
  row_lt, text_lt, to_row,
}
use allocation_key_generatio.Base.{
  All, Bool, Bool-cases, List, [], ap, arith, false, if_split, inl, inr, map, refl, subst, suc, sym,
  true, ℕ, ◌&&◌, ◌==◌, ◌||◌, ◌∙◌, ◌∷◌, ◌≡◌, if◌then◌else◌,
}

or_swap : (a b c : Bool) → (a || (b || c)) ≡ (b || (a || c))
or_swap true true c = refl
or_swap true false c = refl
or_swap false true c = refl
or_swap false false c = refl

or_twice : (a c : Bool) → (a || c) ≡ (a || (a || c))
or_twice true c = refl
or_twice false c = refl

or_right : (a b : Bool) → b ≡ true → (a || b) ≡ true
or_right true b h = refl
or_right false b h = h

or_false : (a b : Bool) → (a || b) ≡ false → (a ≡ false) × (b ≡ false)
or_false true b h = cc
or_false false b h = (refl, h)

step_swap :
    (a b : Bool) (m n : ℕ)
    → m ≡ (if b then suc n else n)
    → (if a then suc m else m)
      ≡ (if b then suc (if a then suc n else n) else if a then suc n else n)
step_swap true true m n h = ap suc h
step_swap true false m n h = ap suc h
step_swap false true m n h = h
step_swap false false m n h = h

-- The order of texts tells different texts.
text_lt_total : (a b : Text) → text_lt a b ≡ false → text_lt b a ≡ false → a ≡ b
text_lt_total [] [] h k = refl
text_lt_total [] (b ∷ t) h k = cc
text_lt_total (a ∷ s) [] h k = cc
text_lt_total (a ∷ s) (b ∷ t) h k = ground (arith, text_lt_total s t)

contains-insert :
    (e x : Text) (ys : List Text)
    → contains e (insert_distinct text_lt x ys) ≡ (text_eq x e || contains e ys)
contains-insert e x [] = refl
contains-insert e x (y ∷ ys) = elim (Bool-cases (text_lt x y)) [
  | inl lt ↦ rw lt refl
  | inr ge ↦ elim (Bool-cases (text_lt y x)) [
    | inl gt ↦
        rw (ge, gt, contains-insert e x ys) (or_swap (text_eq y e) (text_eq x e) (contains e ys))
    | inr le ↦ rw (ge, le, text_lt_total x y ge le) (or_twice (text_eq y e) (contains e ys))
  ]
]

pub contains-distinct :
    (e : Text) (xs : List Text) → contains e (distinct text_lt xs) ≡ contains e xs
contains-distinct e [] = refl
contains-distinct e (x ∷ xs) =
    contains-insert e x (distinct text_lt xs) ∙ ap (λ b. text_eq x e || b) (contains-distinct e xs)

-- What holds of every item holds of an item that is there.
pub contains-All :
    (P : Text → Type 0) (xs : List Text) (e : Text) → All P xs → contains e xs ≡ true → P e
contains-All P [] e h k = cc
contains-All P (x ∷ xs) e h k = elim (Bool-cases (text_eq x e)) [
  | inl hit ↦ subst P (text_eq→≡ x e hit) h.0
  | inr miss ↦ contains-All P xs e h.1 (ap (λ b. b || contains e xs) (sym miss) ∙ k)
]

pub All-contains :
    (P : Text → Type 0) (xs : List Text) → ((e : Text) → contains e xs ≡ true → P e) → All P xs
All-contains P [] h = tt
All-contains P (x ∷ xs) h = (
  h x (ap (λ b. b || contains x xs) (text_eq_refl x)),
  All-contains P xs (λ e k. h e (or_right (text_eq x e) (contains e xs) k)),
)

module _ (F : Num) where
  -- How many readings a meter has at a timestamp
  abbrev pub pairs : Text → ℕ → List (ConsumptionRow F) → ℕ
  pairs e t [] = 0
  pairs e t (r ∷ rows) =
      if text_eq r.ean e && r.timestamp == t then suc (pairs e t rows) else pairs e t rows

  pairs-insert :
      (e : Text) (t : ℕ) (x : ConsumptionRow F) (ys : List (ConsumptionRow F))
      → pairs e t (insert_row F x ys) ≡ pairs e t (x ∷ ys)
  pairs-insert e t x [] = refl
  pairs-insert e t x (y ∷ ys) =
      if_split (λ l. pairs e t l ≡ pairs e t (x ∷ y ∷ ys)) (row_lt F y x)
        (λ h.
          step_swap (text_eq y.ean e && y.timestamp == t) (text_eq x.ean e && x.timestamp == t)
            (pairs e t (insert_row F x ys)) (pairs e t ys) (pairs-insert e t x ys))
        (λ h. refl)

  -- `fetch_rows` has a reading of a meter at a timestamp as often as the table.
  pub pairs-fetch_rows :
      (e : Text) (t : ℕ) (rows : List (MeterConsumption F))
      → pairs e t (fetch_rows F rows) ≡ occurrences t (map (λ mc. mc.timestamp) (of_ean F e rows))
  unfolding fetch_rows
  pairs-fetch_rows e t [] = refl
  pairs-fetch_rows e t (mc ∷ rows) =
      pairs-insert e t (to_row F mc) (fetch_rows F rows) ∙ elim (Bool-cases (text_eq mc.ean e)) [
        | inl hit ↦ rw (hit, pairs-fetch_rows e t rows) refl
        | inr miss ↦ rw miss (pairs-fetch_rows e t rows)
      ]

  eans-insert :
      (e : Text) (x : ConsumptionRow F) (ys : List (ConsumptionRow F))
      → contains e (map (λ r. r.ean) (insert_row F x ys))
        ≡ (text_eq x.ean e || contains e (map (λ r. r.ean) ys))
  eans-insert e x [] = refl
  eans-insert e x (y ∷ ys) =
      if_split
        (λ (l : List (ConsumptionRow F)).
          contains e (map (λ r. r.ean) l)
          ≡ (text_eq x.ean e || (text_eq y.ean e || contains e (map (λ r. r.ean) ys))))
        (row_lt F y x)
        (λ h.
          ap (λ b. text_eq y.ean e || b) (eans-insert e x ys)
          ∙ or_swap (text_eq y.ean e) (text_eq x.ean e) (contains e (map (λ r. r.ean) ys)))
        (λ h. refl)

  pub eans-fetch_rows :
      (e : Text) (rows : List (MeterConsumption F))
      → contains e (map (λ r. r.ean) (fetch_rows F rows)) ≡ contains e (map (λ mc. mc.ean) rows)
  unfolding fetch_rows
  eans-fetch_rows e [] = refl
  eans-fetch_rows e (mc ∷ rows) =
      eans-insert e (to_row F mc) (fetch_rows F rows)
      ∙ ap (λ b. text_eq mc.ean e || b) (eans-fetch_rows e rows)

  -- A meter that is not in the table has no rows.
  pub of_ean-none :
      (e : Text) (rows : List (MeterConsumption F))
      → contains e (map (λ mc. mc.ean) rows) ≡ false
      → of_ean F e rows ≡ []
  of_ean-none e [] h = refl
  of_ean-none e (mc ∷ rows) h =
      let parts = or_false (text_eq mc.ean e) (contains e (map (λ r. r.ean) rows)) h in
      rw parts.0 (of_ean-none e rows parts.1)
