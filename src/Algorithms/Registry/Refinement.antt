-- ===== src/Algorithms/Registry/Refinement.antt =====
-- The registry read as two functions on names.
use allocation_key_generatio.Algorithms.Registry.Dict.{
  Distinct, assign-Distinct, lookup-assign, update,
}
use allocation_key_generatio.Worker.Dispatcher.{found}
use allocation_key_generatio.Algorithms.Registry.{
  is_some, new_registry, AlgorithmRegistry, implementation, metadata, register_implementation,
  register_metadata, assign, lookup,
}
use allocation_key_generatio.Base.Text.{Text, text_eq, text_eq→≡}
use allocation_key_generatio.Base.{
  none, Bool-cases, List, Option, [], ap, false, inl, inr, refl, some, subst, sym, ◌∙◌, ◌∷◌, ◌≡◌,
  if◌then◌else◌,
}
use mathlib.Core.Path.{fun_ext}

-- A registration, in the order in which the modules make them
pub data Registration (M I : Type 0) : Type 0 where
  of_metadata : M → Registration M I
  of_implementation : I → Registration M I

-- What a registry answers
pub record Known (M I : Type 0) : Type 0 where
  pub metadata_at : Text → Option M
  pub implementation_at : Text → Option I

module _ {M I : Type 0} (name_of : M → Text) (metadata_of : I → M) where
  abbrev or_same : AlgorithmRegistry M I → Option (AlgorithmRegistry M I) → AlgorithmRegistry M I
  or_same r none = r
  or_same r (some r') = r'

  abbrev pub apply : Registration M I → AlgorithmRegistry M I → AlgorithmRegistry M I
  unfolding register_metadata register_implementation
  apply (of_metadata m) r = or_same r (register_metadata name_of metadata_of m r)
  apply (of_implementation i) r = register_implementation name_of metadata_of i r

  unfoldable pub apply_all : List (Registration M I) → AlgorithmRegistry M I → AlgorithmRegistry M I
  unfolding apply
  apply_all [] r = r
  apply_all (op ∷ ops) r = apply_all ops (apply op r)

  -- The first metadata of a name stays, the last implementation counts.
  abbrev pub first : Text → M → Known M I → Text → Option M
  first name m k =
      if is_some (k.metadata_at name) then k.metadata_at else update k.metadata_at name m

  abbrev pub record_one : Registration M I → Known M I → Known M I
  record_one (of_metadata m) k = record k { metadata_at = first (name_of m) m k }
  record_one (of_implementation i) k =
      let m = metadata_of i in
      record {
        metadata_at = first (name_of m) m k;
        implementation_at = update k.implementation_at (name_of m) i;
      }

  pub record_all : List (Registration M I) → Known M I → Known M I
  record_all [] k = k
  record_all (op ∷ ops) k = record_all ops (record_one op k)

  abbrev pub answers : AlgorithmRegistry M I → Known M I
  unfolding metadata implementation
  answers r = record {
    metadata_at = metadata name_of metadata_of r;
    implementation_at = implementation name_of metadata_of r;
  }

  -- The names of either dict are distinct, and every implementation has metadata.
  pub record IsValid (r : AlgorithmRegistry M I) : Type 0 where
    pub metadata_distinct : Distinct r.metadata_dict
    pub implementations_distinct : Distinct r.implementations_dict
    pub covered :
        (name : Text)
        → lookup r.metadata_dict name ≡ none
        → lookup r.implementations_dict name ≡ none

  -- The metadata dict after a registration that keeps what is there
  abbrev settled : AlgorithmRegistry M I → M → Option M → List (Text × M)
  settled r m found =
      if is_some found then r.metadata_dict else assign r.metadata_dict (name_of m) m

  abbrev first_of : AlgorithmRegistry M I → M → Option M → Text → Option M
  first_of r m found =
      if is_some found
      then lookup r.metadata_dict
      else update (lookup r.metadata_dict) (name_of m) m

  settled-first_of :
      (r : AlgorithmRegistry M I) (m : M) (found : Option M)
      → lookup (settled r m found) ≡ first_of r m found
  settled-first_of r m none = fun_ext (λ name. lookup-assign r.metadata_dict (name_of m) m name)
  settled-first_of r m (some old) = refl

  settled-Distinct :
      (r : AlgorithmRegistry M I) (m : M) (found : Option M)
      → Distinct r.metadata_dict
      → Distinct (settled r m found)
  settled-Distinct r m none h = assign-Distinct r.metadata_dict (name_of m) m h
  settled-Distinct r m (some old) h = h

  -- What is unknown afterwards was unknown before and has another name.
  settled-covers :
      (r : AlgorithmRegistry M I) (m : M) (found : Option M) (name : Text)
      → lookup r.metadata_dict (name_of m) ≡ found
      → lookup (settled r m found) name ≡ none
      → (lookup r.metadata_dict name ≡ none) × (text_eq (name_of m) name ≡ false)
  settled-covers r m none name e h = elim (Bool-cases (text_eq (name_of m) name)) [
    | inl hit ↦
        let there : some m ≡ none =
          ap (λ b. if b then some m else lookup r.metadata_dict name) (sym hit)
          ∙ (sym (lookup-assign r.metadata_dict (name_of m) m name) ∙ h) in
        cc
    | inr miss ↦ (
      ap (λ b. if b then some m else lookup r.metadata_dict name) (sym miss)
          ∙ (sym (lookup-assign r.metadata_dict (name_of m) m name) ∙ h),
      miss,
    )
  ]
  settled-covers r m (some old) name e h = elim (Bool-cases (text_eq (name_of m) name)) [
    | inl hit ↦
        let there : some old ≡ none =
          sym e ∙ (ap (lookup r.metadata_dict) (text_eq→≡ (name_of m) name hit) ∙ h) in
        cc
    | inr miss ↦ (h, miss)
  ]

  or_same_lem :
      (r : AlgorithmRegistry M I) (m : M) (found : Option M)
      → or_same r (
          if is_some found
          then none
          else some (record r { metadata_dict = assign r.metadata_dict (name_of m) m }))
        ≡ record r { metadata_dict = settled r m found }
  or_same_lem r m none = refl
  or_same_lem r m (some old) = refl

  answers-apply :
      (op : Registration M I) (r : AlgorithmRegistry M I)
      → answers (apply op r) ≡ record_one op (answers r)
  unfolding answers apply
  answers-apply (of_metadata m) r =
      let found = lookup r.metadata_dict (name_of m) in
      ap answers (or_same_lem r m found)
      ∙ ap
          (λ (f : Text → Option M). record {
            metadata_at = f;
            implementation_at = lookup r.implementations_dict;
          })
          (settled-first_of r m found)
  answers-apply (of_implementation i) r =
      let m = metadata_of i in
      let found = lookup r.metadata_dict (name_of m) in
      let known : (Text → Option M) → (Text → Option I) → Known M I =
        λ f g. record { metadata_at = f; implementation_at = g } in
      ap (λ f. known f (lookup (assign r.implementations_dict (name_of m) i)))
        (settled-first_of r m found)
      ∙ ap (known (first_of r m found))
          (fun_ext (λ name. lookup-assign r.implementations_dict (name_of m) i name))

  apply-IsValid :
      (op : Registration M I) (r : AlgorithmRegistry M I) → IsValid r → IsValid (apply op r)
  unfolding apply
  apply-IsValid (of_metadata m) r h =
      let found = lookup r.metadata_dict (name_of m) in
      subst IsValid (sym (or_same_lem r m found)) (record {
        metadata_distinct = settled-Distinct r m found h.metadata_distinct;
        implementations_distinct = h.implementations_distinct;
        covered = λ name e. h.covered name (settled-covers r m found name refl e).0;
      })
  apply-IsValid (of_implementation i) r h =
      let m = metadata_of i in
      let found = lookup r.metadata_dict (name_of m) in
      record {
        metadata_distinct = settled-Distinct r m found h.metadata_distinct;
        implementations_distinct =
            assign-Distinct r.implementations_dict (name_of m) i h.implementations_distinct;
        covered = λ name e.
            let (unknown, miss) = settled-covers r m found name refl e in
            lookup-assign r.implementations_dict (name_of m) i name
            ∙ (ap (λ b. if b then some i else lookup r.implementations_dict name) miss
                ∙ h.covered name unknown);
      }

  run_refines :
      (ops : List (Registration M I)) (r : AlgorithmRegistry M I)
      → IsValid r
      → IsValid (apply_all ops r) × (answers (apply_all ops r) ≡ record_all ops (answers r))
  unfolding apply_all record_all
  run_refines [] r h = (h, refl)
  run_refines (op ∷ ops) r h =
      let (valid, e) = run_refines ops (apply op r) (apply-IsValid op r h) in
      (valid, e ∙ ap (record_all ops) (answers-apply op r))

  -- After any registrations on a new registry, those that raise included: no name stands twice,
  -- every implementation has metadata, and for every name the registry answers with the metadata
  -- that was registered first and the implementation that was registered last.
  pub apply_all-IsValid :
      (ops : List (Registration M I))
      → IsValid (apply_all ops (new_registry name_of metadata_of))
        × (answers (apply_all ops (new_registry name_of metadata_of))
            ≡ record_all ops (record { metadata_at = λ n. none; implementation_at = λ n. none }))
  unfolding answers
  apply_all-IsValid ops =
      run_refines ops (new_registry name_of metadata_of)
        (record { metadata_distinct = tt; implementations_distinct = tt; covered = λ name e. refl })
