-- ===== src/Algorithms/Registry/Dict.antt =====
-- Dicts as lists of items: writing a key, and distinct keys.
use allocation_key_generatio.Base.Num.{same}
use allocation_key_generatio.Algorithms.Registry.{assign, lookup}
use allocation_key_generatio.Base.Text.{text_eq_refl, Text, text_eq, text_eq→≡}
use allocation_key_generatio.Base.{
  none, Bool-cases, List, Option, [], ap, false, inl, inr, refl, some, subst, sym, true, ◌∙◌, ◌∷◌,
  ◌≡◌, if◌then◌else◌,
}

apart :
    (a key name : Text) → text_eq a key ≡ false → text_eq a name ≡ true → text_eq key name ≡ false
apart a key name h k = elim (Bool-cases (text_eq key name)) [
  | inl e ↦
      let same : text_eq a key ≡ true =
        subst (λ t. text_eq a t ≡ true) (sym (text_eq→≡ key name e)) k in
      (let no : false ≡ true = sym h ∙ same in cc)
  | inr e ↦ e
]

other_way : (a b : Text) → text_eq a b ≡ false → text_eq b a ≡ false
other_way a b h = elim (Bool-cases (text_eq b a)) [
  | inl e ↦
      let same : text_eq a b ≡ true =
        subst (λ t. text_eq a t ≡ true) (sym (text_eq→≡ b a e)) (text_eq_refl a) in
      let no : false ≡ true = sym h ∙ same in cc
  | inr e ↦ e
]

module _ {V : Type 0} where
  -- A function, changed at one name
  abbrev pub update : (Text → Option V) → Text → V → Text → Option V
  update f key value name = if text_eq key name then some value else f name

  pub lookup-assign :
      (items : List (Text × V)) (key : Text) (value : V) (name : Text)
      → lookup (assign items key value) name ≡ update (lookup items) key value name
  lookup-assign [] key value name = refl
  lookup-assign (item ∷ items) key value name = elim (Bool-cases (text_eq item.0 key)) [
    | inl same ↦
        let e = text_eq→≡ item.0 key same in
        rw same (elim (Bool-cases (text_eq item.0 name)) [
          | inl hit ↦ rw (hit, sym (ap (λ k. text_eq k name) e) ∙ hit) refl
          | inr miss ↦ rw (miss, sym (ap (λ k. text_eq k name) e) ∙ miss) refl
        ])
    | inr other ↦ rw other (elim (Bool-cases (text_eq item.0 name)) [
      | inl hit ↦ rw (hit, apart item.0 key name other hit) refl
      | inr miss ↦ rw miss (lookup-assign items key value name)
    ])
  ]

  -- No name stands twice.
  abbrev pub Distinct : List (Text × V) → Type 0
  Distinct [] = Unit
  Distinct (item ∷ items) = (lookup items item.0 ≡ none) × Distinct items

  pub assign-Distinct :
      (items : List (Text × V)) (key : Text) (value : V)
      → Distinct items
      → Distinct (assign items key value)
  assign-Distinct [] key value h = (refl, tt)
  assign-Distinct (item ∷ items) key value h = elim (Bool-cases (text_eq item.0 key)) [
    | inl same ↦ rw same h
    | inr other ↦ rw other (
      lookup-assign items key value item.0
          ∙ (ap (λ b. if b then some value else lookup items item.0) (other_way item.0 key other)
              ∙ h.0),
      assign-Distinct items key value h.1,
    )
  ]
