-- ===== src/Api/Keys/Saved.antt =====
-- What `save_key` adds to the CRM.
use allocation_key_generatio.Base.{
  ℕ, ◌≡◌, refl, ap, ◌⊎◌, inl, inr, Bool, true, false, Option, none, some, List, map, [], ◌∷◌, ◌++◌,
  ◌==◌, if_split, ==_iff,
}
use allocation_key_generatio.Base.Num.{Num}
use allocation_key_generatio.Worker.World.{
  ConsumerGeneratedModel, IterationGeneratedModel, AllocationKeyGeneratedModel,
}
use allocation_key_generatio.Worker.Persistence.{Commit, commits, rolls_back, unacknowledged}
use allocation_key_generatio.Api.World.{
  ConsumerModel, IterationModel, AllocationKeyModel, Answer, answered, refused, failed, Database,
  served, commit_crm,
}
use allocation_key_generatio.Api.Keys.{
  stage_key, scoped_key, save_found, save_key, to_allocation_key_crm, to_iteration_crm,
  to_consumer_crm,
}

module _ {A B : Type 0} (R : A → B → Type 0) where
  -- The lists have as many items, and those at the same place are related.
  abbrev pub Pairwise : List A → List B → Type 0
  Pairwise [] [] = Unit
  Pairwise (x ∷ xs) (y ∷ ys) = R x y × Pairwise xs ys
  Pairwise _ _ = ⊥

  Pairwise-map : (f : A → B) → ((x : A) → R x (f x)) → (xs : List A) → Pairwise xs (map f xs)
  Pairwise-map f h [] = tt
  Pairwise-map f h (x ∷ xs) = (h x, Pairwise-map f h xs)

module _ {F : Num} where
  pub record SameConsumer (c : ConsumerGeneratedModel F) (copy : ConsumerModel F) : Type 0 where
    pub name : copy.name ≡ c.name
    pub share : copy.energy_allocated_percentage ≡ c.energy_allocated_percentage
    pub community : copy.id_community ≡ c.id_community

  pub record SameIteration (it : IterationGeneratedModel F) (copy : IterationModel F) : Type 0 where
    pub number : copy.number ≡ it.number
    pub share : copy.energy_allocated_percentage ≡ it.energy_allocated_percentage
    pub community : copy.id_community ≡ it.id_community
    pub consumers : Pairwise SameConsumer it.consumers copy.consumers

  -- The CRM's key has all that the generated key has in common with it.
  pub record SameKey (key : AllocationKeyGeneratedModel F) (copy : AllocationKeyModel F)
      : Type 0 where
    pub name : copy.name ≡ key.name
    pub description : copy.description ≡ key.description
    pub community : copy.id_community ≡ key.id_community
    pub iterations : Pairwise SameIteration key.iterations copy.iterations

  same_consumer : (c : ConsumerGeneratedModel F) → SameConsumer c (to_consumer_crm c)
  same_consumer c = record { name = refl; share = refl; community = refl }

  same_iteration : (it : IterationGeneratedModel F) → SameIteration it (to_iteration_crm it)
  same_iteration it = record {
    number = refl;
    share = refl;
    community = refl;
    consumers = Pairwise-map SameConsumer to_consumer_crm same_consumer it.consumers;
  }

  same_key : (key : AllocationKeyGeneratedModel F) → SameKey key (to_allocation_key_crm key)
  same_key key = record {
    name = refl;
    description = refl;
    community = refl;
    iterations = Pairwise-map SameIteration to_iteration_crm same_iteration key.iterations;
  }

  -- The CRM has one key more, a copy of a key of the community.
  abbrev pub Copied : ℕ → ℕ → Database F → Database F → Type 0
  Copied community id v w =
      (key : AllocationKeyGeneratedModel F) × (copy : AllocationKeyModel F) × (v.keys id ≡ some key)
      × (key.id_community ≡ community)
      × SameKey key copy
      × (w.crm_keys ≡ v.crm_keys ++ copy ∷ [])

  -- The database after the commit
  to_copy :
      (community id : ℕ) (key : AllocationKeyGeneratedModel F) (v : Database F)
      → v.staged_keys ≡ []
      → v.keys id ≡ some key
      → key.id_community ≡ community
      → Copied community id v (commit_crm (stage_key (to_allocation_key_crm key) v))
  to_copy community id key v h found owned = (
    key,
    to_allocation_key_crm key,
    found,
    owned,
    same_key key,
    ap (λ l. v.crm_keys ++ (l ++ to_allocation_key_crm key ∷ [])) h,
  )

  abbrev pub CopiedOrSame : ℕ → ℕ → Database F → Answer (Unit {0}) × Database F → Type 0
  CopiedOrSame community id v (answered u, w) = Copied community id v w
  CopiedOrSame community id v (refused e c, w) = w.crm_keys ≡ v.crm_keys
  CopiedOrSame community id v (failed, w) = (w.crm_keys ≡ v.crm_keys) ⊎ Copied community id v w

  save_found-CopiedOrSame :
      (ending : Commit) (works : Bool) (community id : ℕ) (key : AllocationKeyGeneratedModel F)
      (v : Database F)
      → v.staged_keys ≡ []
      → v.keys id ≡ some key
      → key.id_community ≡ community
      → CopiedOrSame community id v (served (save_found ending works id (some key)) v)
  save_found-CopiedOrSame commits true community id key v h found owned =
      to_copy community id key v h found owned
  save_found-CopiedOrSame commits false community id key v h found owned =
      to_copy community id key v h found owned
  save_found-CopiedOrSame rolls_back works community id key v h found owned = inl refl
  save_found-CopiedOrSame unacknowledged works community id key v h found owned =
      inr (to_copy community id key v h found owned)

  scoped-CopiedOrSame :
      (ending : Commit) (works : Bool) (community id : ℕ)
      (row : Option (AllocationKeyGeneratedModel F)) (v : Database F)
      → v.staged_keys ≡ []
      → v.keys id ≡ row
      → CopiedOrSame community id v
          (served (save_found ending works id (scoped_key community row)) v)
  scoped-CopiedOrSame ending works community id none v h found = refl
  scoped-CopiedOrSame ending works community id (some key) v h found =
      if_split (λ o. CopiedOrSame community id v (served (save_found ending works id o) v))
        (key.id_community == community)
        (λ e.
          save_found-CopiedOrSame ending works community id key v h found
            ((==_iff key.id_community community).0 e))
        (λ e. refl)

  -- On a request whose CRM session starts empty, however its commit ends: where `save_key` returns,
  -- the CRM has one key more, a copy of the key with the given id, which belongs to the community of
  -- the request; where it is refused, the CRM has no key more; and where it raises something else,
  -- one of the two holds. The copy has the name, the description and the community of that key,
  -- and, in the same order, its iterations with their numbers, shares and communities, and of each
  -- its consumers with their names, shares and communities.
  pub save_key-CopiedOrSame :
      (ending : Commit) (works : Bool) (community id : ℕ) (v : Database F)
      → v.staged_keys ≡ []
      → CopiedOrSame community id v (served (save_key ending works community id) v)
  unfolding save_key
  save_key-CopiedOrSame ending works community id v h =
      scoped-CopiedOrSame ending works community id (v.keys id) v h refl
