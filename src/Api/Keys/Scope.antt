-- ===== src/Api/Keys/Scope.antt =====
-- What deleting and saving can touch, and what becomes of their audit entries.
use allocation_key_generatio.Base.{
  ℕ, ◌≡◌, refl, ap, ◌∙◌, ◌⊎◌, inl, inr, Bool, true, false, Option, none, some, [], ◌++◌, Bool-cases,
  ◌==◌, arith, if_split, ==_iff,
}
use mathlib.Core.List.{append-nil}
use allocation_key_generatio.Base.Num.{Num}
use allocation_key_generatio.Worker.World.{GenerationModel, AllocationKeyGeneratedModel}
use allocation_key_generatio.Worker.Persistence.{Commit, commits, rolls_back, unacknowledged}
use allocation_key_generatio.Api.World.{Database, served}
use allocation_key_generatio.Api.Keys.{
  scoped_generation, scoped_key, remove, delete_found, delete_generation, delete_key_found,
  delete_key, save_found, save_key,
}

module _ {F : Num} where
  save_found-audits :
      (ending : Commit) (works : Bool) (id : ℕ) (key : Option (AllocationKeyGeneratedModel F))
      (v : Database F)
      → v.staged_audits ≡ []
      → (served (save_found ending works id key) v).1.audits ≡ v.audits
  save_found-audits ending works id none v h = refl
  save_found-audits commits true id (some key) v h = ap (λ l. v.audits ++ l) h ∙ append-nil v.audits
  save_found-audits commits false id (some key) v h =
      ap (λ l. v.audits ++ l) h ∙ append-nil v.audits
  save_found-audits rolls_back works id (some key) v h = refl
  save_found-audits unacknowledged works id (some key) v h =
      ap (λ l. v.audits ++ l) h ∙ append-nil v.audits

  delete_found-audits :
      (ending : Commit) (works : Bool) (id : ℕ) (g : Option GenerationModel) (v : Database F)
      → (served (delete_found ending works id g) v).1.audits ≡ v.audits
  delete_found-audits ending works id none v = refl
  delete_found-audits commits true id (some g) v = refl
  delete_found-audits commits false id (some g) v = refl
  delete_found-audits rolls_back works id (some g) v = refl
  delete_found-audits unacknowledged works id (some g) v = refl

  delete_key_found-audits :
      (ending : Commit) (works : Bool) (id : ℕ) (key : Option (AllocationKeyGeneratedModel F))
      (v : Database F)
      → (served (delete_key_found ending works id key) v).1.audits ≡ v.audits
  delete_key_found-audits ending works id none v = refl
  delete_key_found-audits commits true id (some key) v = refl
  delete_key_found-audits commits false id (some key) v = refl
  delete_key_found-audits rolls_back works id (some key) v = refl
  delete_key_found-audits unacknowledged works id (some key) v = refl

  -- On a request whose CRM session starts empty: saving a key, deleting a generation and deleting
  -- a key add no committed audit entry, whether they succeed or not, because each entry is staged
  -- after the last commit of its session.
  pub served-audits :
      (ending : Commit) (works : Bool) (community id : ℕ) (v : Database F)
      → v.staged_audits ≡ []
      → ((served (save_key ending works community id) v).1.audits ≡ v.audits)
        × ((served (delete_generation ending works community id) v).1.audits ≡ v.audits)
        × ((served (delete_key ending works community id) v).1.audits ≡ v.audits)
  unfolding save_key delete_generation delete_key
  served-audits ending works community id v h = (
    save_found-audits ending works id (scoped_key community (v.keys id)) v h,
    delete_found-audits ending works id (scoped_generation community (v.generations id)) v,
    delete_key_found-audits ending works id (scoped_key community (v.keys id)) v,
  )

-- A row that is gone from, or the same as in, `v`; gone only within the community
abbrev pub GoneOrSame : ℕ → ℕ → (ℕ → Option GenerationModel) → (ℕ → Option GenerationModel) → Type 0
GoneOrSame community id before after =
    (k : ℕ)
    → (after k ≡ before k)
      ⊎ ((k ≡ id) × (g : GenerationModel) × (before k ≡ some g) × (g.id_community ≡ community))

removed-GoneOrSame :
    (community id : ℕ) (before : ℕ → Option GenerationModel) (g : GenerationModel)
    → before id ≡ some g
    → g.id_community ≡ community
    → GoneOrSame community id before (remove id before)
removed-GoneOrSame community id before g found owned k = elim (Bool-cases (k == id)) [
  | inl e ↦ let same = (==_iff k id).0 e in inr (same, g, ap before same ∙ found, owned)
  | inr e ↦ inl (ground arith)
]

module _ {F : Num} where
  deleted-GoneOrSame :
      (ending : Commit) (works : Bool) (community id : ℕ) (g : GenerationModel) (v : Database F)
      → v.generations id ≡ some g
      → g.id_community ≡ community
      → GoneOrSame community id v.generations
          (served (delete_found ending works id (some g)) v).1.generations
  deleted-GoneOrSame commits true community id g v found owned =
      removed-GoneOrSame community id v.generations g found owned
  deleted-GoneOrSame commits false community id g v found owned =
      removed-GoneOrSame community id v.generations g found owned
  deleted-GoneOrSame rolls_back works community id g v found owned = λ k. inl refl
  deleted-GoneOrSame unacknowledged works community id g v found owned =
      removed-GoneOrSame community id v.generations g found owned

  scoped-GoneOrSame :
      (ending : Commit) (works : Bool) (community id : ℕ) (row : Option GenerationModel)
      (v : Database F)
      → v.generations id ≡ row
      → GoneOrSame community id v.generations
          (served (delete_found ending works id (scoped_generation community row)) v).1.generations
  scoped-GoneOrSame ending works community id none v found = λ k. inl refl
  scoped-GoneOrSame ending works community id (some g) v found =
      if_split
        (λ o.
          GoneOrSame community id v.generations
            (served (delete_found ending works id o) v).1.generations)
        (g.id_community == community)
        (λ e.
          deleted-GoneOrSame ending works community id g v found
            ((==_iff g.id_community community).0 e))
        (λ e k. inl refl)

  -- A request of one community to delete generation `id`, however its commit ends, leaves every
  -- row of the generation table as it was, except possibly row `id`, and that only if it belongs
  -- to the community.
  pub delete_generation-GoneOrSame :
      (ending : Commit) (works : Bool) (community id : ℕ) (v : Database F)
      → GoneOrSame community id v.generations
          (served (delete_generation ending works community id) v).1.generations
  unfolding delete_generation
  delete_generation-GoneOrSame ending works community id v =
      scoped-GoneOrSame ending works community id (v.generations id) v refl
