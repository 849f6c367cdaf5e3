-- ===== src/Algorithms/Registry.antt =====
-- algorithms/registry.py: the algorithms that a process knows. A dict is the list of its items in
-- the order of their insertion; a registration that raises leaves the registry as it was.
use allocation_key_generatio.Base.Text.{Text, text_eq}
use allocation_key_generatio.Base.{
  Bool, List, Option, [], false, map, none, some, true, ◌∷◌, if◌then◌else◌,
}
pub mod Dict
pub mod Refinement

module _ {V : Type 0} where
  abbrev pub lookup : List (Text × V) → Text → Option V
  lookup [] key = none
  lookup (item ∷ items) key = if text_eq item.0 key then some item.1 else lookup items key

  -- `d[key] = value`
  abbrev pub assign : List (Text × V) → Text → V → List (Text × V)
  assign [] key value = (key, value) ∷ []
  assign (item ∷ items) key value =
      if text_eq item.0 key then (item.0, value) ∷ items else item ∷ assign items key value

abbrev pub is_some {ℓ} : {A : Type ℓ} → Option A → Bool
is_some none = false
is_some (some a) = true

-- A metadata object has a name; an implementation brings its metadata.
pub record AlgorithmRegistry (M I : Type 0) : Type 0 where
  pub metadata_dict : List (Text × M)
  pub implementations_dict : List (Text × I)

module _ {M I : Type 0} (name_of : M → Text) (metadata_of : I → M) where
  abbrev pub new_registry : AlgorithmRegistry M I
  new_registry = record { metadata_dict = []; implementations_dict = [] }

  abbrev pub contains : AlgorithmRegistry M I → Text → Bool
  contains r name = is_some (lookup r.metadata_dict name)

  -- `none` is the ValueError of a name that is taken.
  unfoldable pub register_metadata : M → AlgorithmRegistry M I → Option (AlgorithmRegistry M I)
  register_metadata meta r =
      if contains r (name_of meta)
      then none
      else some (record r { metadata_dict = assign r.metadata_dict (name_of meta) meta })

  unfoldable pub register_implementation : I → AlgorithmRegistry M I → AlgorithmRegistry M I
  register_implementation cls r =
      let name = name_of (metadata_of cls) in
      record {
        metadata_dict =
            if contains r name
            then r.metadata_dict
            else assign r.metadata_dict name (metadata_of cls);
        implementations_dict = assign r.implementations_dict name cls;
      }

  -- `none` is the KeyError of an unknown name.
  unfoldable pub metadata : AlgorithmRegistry M I → Text → Option M
  metadata r name = lookup r.metadata_dict name

  unfoldable pub implementation : AlgorithmRegistry M I → Text → Option I
  implementation r name = lookup r.implementations_dict name

  unfoldable pub list_all : AlgorithmRegistry M I → List M
  list_all r = map (λ item. item.1) r.metadata_dict
