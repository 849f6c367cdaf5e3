-- ===== src/Api/Start/Recovery.antt =====
-- The recovery of `start_generation` after a publish that raised.
use allocation_key_generatio.Base.{
  ℕ, ◌≡◌, ◌≢◌, refl, sym, ap, ◌∙◌, subst, ◌⊎◌, inl, inr, Bool, true, false, not, Option, some, List,
  [], ◌∷◌, ◌++◌, keep, Bool-cases, ◌==◌, ==_iff, arith,
}
use mathlib.Core.List.{append-nil}
use allocation_key_generatio.Base.Text.{Text, text_eq, text_eq_refl}
use allocation_key_generatio.Base.Num.{Num}
use allocation_key_generatio.Shared.Const.{is_pending}
use allocation_key_generatio.Worker.World.{GenerationModel, set_row, without}
use allocation_key_generatio.Worker.Persistence.{Commit, commits, rolls_back, unacknowledged}
use allocation_key_generatio.Api.World.{
  Database, ApiError, Answer, answered, refused, failed, Request, ◌>>◌, modify, refuse,
}
use allocation_key_generatio.Api.Env.{stored_unanswered, published, RequestEnv}
use allocation_key_generatio.Api.Start.{
  fail_to_queue, delete_object, mark_read, mark_row, not_queued,
}

-- The recovery raises.
abbrev pub Raises : Bool → Commit → Bool → Type 0
Raises broken ending audit_raises = (broken ≡ true) ⊎ (ending ≢ commits) ⊎ (audit_raises ≡ true)

-- What can leave an object behind: a storage that has it although the upload raised, a delete that
-- does not get through, and a recovery that raises before the delete
abbrev pub ObjectTrouble : RequestEnv → Type 0
ObjectTrouble env =
    (env.upload ≡ stored_unanswered)
    ⊎ (env.deletes ≡ false)
    ⊎ ((env.publish ≢ published)
        × Raises env.marking.read_raises env.marking.commit env.marking.audit_commit_raises)

-- What can leave the new row PENDING: a commit that takes effect although it raised, and a recovery
-- that cannot read the row or cannot commit
abbrev pub RowTrouble : RequestEnv → Type 0
RowTrouble env =
    (env.commit ≡ unacknowledged)
    ⊎ ((env.publish ≢ published)
        × ((env.marking.read_raises ≡ true) ⊎ (env.marking.commit ≡ rolls_back)))

module _ {F : Num} (env : RequestEnv) where
  -- A generation `id` with the stored object `key`, announced once, on `queue`
  pub record Accepted (queue key : Text) (id : ℕ) (v w : Database F) : Type 0 where
    pub row : GenerationModel
    pub inserted : w.generations id ≡ some row
    pub pending : is_pending row.status ≡ true
    pub source : row.file_storage_key ≡ some key
    pub object : w.objects ≡ v.objects ++ key ∷ []
    pub event : w.events ≡ v.events ++ (queue, id) ∷ []

  -- No object is left, and no generation became pending, but for the named troubles, and then only
  -- the object of the request and the row of the next id.
  pub record Undone (key : Text) (v w : Database F) : Type 0 where
    pub objects :
        (w.objects ≡ v.objects) ⊎ ((w.objects ≡ v.objects ++ key ∷ []) × ObjectTrouble env)
    pub rows :
        (k : ℕ)
        → (w.generations k ≡ v.generations k)
          ⊎ ((row : GenerationModel) × (w.generations k ≡ some row)
              × (is_pending row.status ≡ false))
          ⊎ ((k ≡ v.next_id) × RowTrouble env)

  abbrev pub Ended : Text → Text → Database F → Answer ℕ × Database F → Type 0
  Ended queue key v (answered id, w) = Accepted queue key id v w
  Ended queue key v (refused e c, w) = Undone key v w
  Ended queue key v (failed, w) = Undone key v w

  pub Undone-refl : (key : Text) (v : Database F) → Undone key v v
  Undone-refl key v = record { objects = inl refl; rows = λ k. inl refl }

module _ {A : Type 0} where
  pub set_row_self : (id : ℕ) (r : A) (rows : ℕ → Option A) → set_row id r rows id ≡ some r
  set_row_self id r rows = ground arith

  keep-append : (p : A → Bool) (xs ys : List A) → keep p (xs ++ ys) ≡ keep p xs ++ keep p ys
  keep-append p [] ys = refl
  keep-append p (x ∷ xs) ys = let rest = keep-append p xs ys in ground (arith, rest)

pub without_fresh :
    (key : Text) (objects : List Text)
    → without key objects ≡ objects
    → without key (objects ++ key ∷ []) ≡ objects
without_fresh key objects h =
    keep-append (λ k. not (text_eq k key)) objects (key ∷ [])
    ∙ rw (text_eq_refl key) (append-nil _ ∙ h)

set_row_twice :
    (id : ℕ) (r failed_row : GenerationModel) (rows : ℕ → Option GenerationModel) (k : ℕ)
    → is_pending failed_row.status ≡ false
    → let after = set_row id failed_row (set_row id r rows) in
      (after k ≡ rows k)
      ⊎ ((row : GenerationModel) × (after k ≡ some row) × (is_pending row.status ≡ false))
set_row_twice id r failed_row rows k h = elim (Bool-cases (k == id)) [
  | inl e ↦ inr (failed_row, ground arith, h)
  | inr e ↦ inl (ground arith)
]

pub set_row_other :
    (id : ℕ) (r : GenerationModel) (rows : ℕ → Option GenerationModel) (k : ℕ)
    → (set_row id r rows k ≡ rows k) ⊎ (k ≡ id)
set_row_other id r rows k = elim (Bool-cases (k == id)) [
  | inl e ↦ inr ((==_iff k id).0 e)
  | inr e ↦ inl (ground arith)
]

-- The recovery after a publish that raised, by what it meets
module _ {F : Num} (id : ℕ) (reason key : Text) where
  abbrev recover : Bool → Commit → Bool → Bool → Bool → Option GenerationModel → Request F ℕ
  recover broken ending works raises deletes found = do
    mark_read broken (mark_row ending works raises id reason found)
    modify (delete_object deletes key)
    refuse ApiError.start_generation 500

  -- What the recovery leaves of `w`
  record Left (broken : Bool) (ending : Commit) (raises deletes : Bool) (row : GenerationModel)
      (w u : Database F) : Type 0 where
    objects :
        (u.objects ≡ without key w.objects)
        ⊎ ((u.objects ≡ w.objects) × ((deletes ≡ false) ⊎ Raises broken ending raises))
    rows :
        (u.generations ≡ set_row id (fail_to_queue reason row) w.generations)
        ⊎ ((u.generations ≡ w.generations) × ((broken ≡ true) ⊎ (ending ≡ rolls_back)))

  abbrev Recovered :
      Bool → Commit → Bool → Bool → GenerationModel → Database F → Answer ℕ × Database F → Type 0
  Recovered broken ending raises deletes row w (answered i, u) = ⊥
  Recovered broken ending raises deletes row w (refused e c, u) =
      Left broken ending raises deletes row w u
  Recovered broken ending raises deletes row w (failed, u) =
      Left broken ending raises deletes row w u

  recover-Recovered :
      (broken : Bool) (ending : Commit) (works raises deletes : Bool) (row : GenerationModel)
      (w : Database F)
      → Recovered broken ending raises deletes row w
          (recover broken ending works raises deletes (some row) w)
  recover-Recovered true ending works raises deletes row w = record {
    objects = inr (refl, inr (inl refl));
    rows = inr (refl, inl refl);
  }
  recover-Recovered false rolls_back works raises deletes row w = record {
    objects = inr (refl, inr (inr (inl cc)));
    rows = inr (refl, inr refl);
  }
  recover-Recovered false unacknowledged works raises deletes row w = record {
    objects = inr (refl, inr (inr (inl cc)));
    rows = inl refl;
  }
  recover-Recovered false commits works true deletes row w = record {
    objects = inr (refl, inr (inr (inr refl)));
    rows = inl refl;
  }
  recover-Recovered false commits true false true row w = record {
    objects = inl refl;
    rows = inl refl;
  }
  recover-Recovered false commits false false true row w = record {
    objects = inl refl;
    rows = inl refl;
  }
  recover-Recovered false commits true false false row w = record {
    objects = inr (refl, inl refl);
    rows = inl refl;
  }
  recover-Recovered false commits false false false row w = record {
    objects = inr (refl, inl refl);
    rows = inl refl;
  }

module _ {F : Num} (env : RequestEnv) where
  not_queued-Recovered :
      (key : Text) (id : ℕ) (row : GenerationModel) (w : Database F)
      → w.generations id ≡ some row
      → Recovered id env.publish_error key env.marking.read_raises env.marking.commit
          env.marking.audit_commit_raises env.deletes row w
          (not_queued env key id w)
  unfolding not_queued
  not_queued-Recovered key id row w found =
      let m = env.marking in
      subst
        (λ o.
          Recovered id env.publish_error key m.read_raises m.commit m.audit_commit_raises
            env.deletes row w
            (recover id env.publish_error key m.read_raises m.commit m.audit_works
              m.audit_commit_raises env.deletes o w))
        (sym found)
        (recover-Recovered id env.publish_error key m.read_raises m.commit m.audit_works
          m.audit_commit_raises env.deletes row w)

  -- `w` is `v` with the object and the pending row.
  pub record Placed (key : Text) (row : GenerationModel) (v w : Database F) : Type 0 where
    pub rows : w.generations ≡ set_row v.next_id row v.generations
    pub objects : w.objects ≡ v.objects ++ key ∷ []
    pub events : w.events ≡ v.events

  module _ (key : Text) (row : GenerationModel) (v w : Database F)
      (unqueued : env.publish ≢ published) (fresh : without key v.objects ≡ v.objects)
      (rows : w.generations ≡ set_row v.next_id row v.generations)
      (held : w.objects ≡ v.objects ++ key ∷ []) where
    left_objects :
        (u : Database F)
        → (u.objects ≡ without key w.objects)
          ⊎ ((u.objects ≡ w.objects)
              × ((env.deletes ≡ false)
                  ⊎ Raises env.marking.read_raises env.marking.commit
                      env.marking.audit_commit_raises))
        → (u.objects ≡ v.objects) ⊎ ((u.objects ≡ v.objects ++ key ∷ []) × ObjectTrouble env)
    left_objects u (inl e) = inl (e ∙ ap (without key) held ∙ without_fresh key v.objects fresh)
    left_objects u (inr (e, inl d)) = inr (e ∙ held, inr (inl d))
    left_objects u (inr (e, inr m)) = inr (e ∙ held, inr (inr (unqueued, m)))

    left_rows :
        (u : Database F)
        → (u.generations ≡ set_row v.next_id (fail_to_queue env.publish_error row) w.generations)
          ⊎ ((u.generations ≡ w.generations)
              × ((env.marking.read_raises ≡ true) ⊎ (env.marking.commit ≡ rolls_back)))
        → (k : ℕ)
        → (u.generations k ≡ v.generations k)
          ⊎ ((x : GenerationModel) × (u.generations k ≡ some x) × (is_pending x.status ≡ false))
          ⊎ ((k ≡ v.next_id) × RowTrouble env)
    left_rows u (inl e) k =
        subst
          (λ (g : ℕ → Option GenerationModel).
            (g k ≡ v.generations k)
            ⊎ ((x : GenerationModel) × (g k ≡ some x) × (is_pending x.status ≡ false))
            ⊎ ((k ≡ v.next_id) × RowTrouble env))
          (sym (e ∙ ap (set_row v.next_id (fail_to_queue env.publish_error row)) rows))
          (elim (set_row_twice v.next_id row (fail_to_queue env.publish_error row) v.generations k
            refl) [ inl same ↦ inl same | inr settled ↦ inr (inl settled) ])
    left_rows u (inr (e, trouble)) k = elim (set_row_other v.next_id row v.generations k) [
      | inl same ↦ inl (ap (λ g. g k) (e ∙ rows) ∙ same)
      | inr own ↦ inr (inr (own, inr (unqueued, trouble)))
    ]

    Recovered-Ended :
        (queue : Text) (end : Answer ℕ × Database F)
        → Recovered v.next_id env.publish_error key env.marking.read_raises env.marking.commit
            env.marking.audit_commit_raises env.deletes row w end
        → Ended env queue key v end
    Recovered-Ended queue (answered id, u) r = absurd r
    Recovered-Ended queue (refused e c, u) r = record {
      objects = left_objects u r.objects;
      rows = left_rows u r.rows;
    }
    Recovered-Ended queue (failed, u) r = record {
      objects = left_objects u r.objects;
      rows = left_rows u r.rows;
    }

    pub not_queued-Ended : (queue : Text) → Ended env queue key v (not_queued env key v.next_id w)
    not_queued-Ended queue = Recovered-Ended queue (not_queued env key v.next_id w) (
        not_queued-Recovered key v.next_id row w
          (ap (λ g. g v.next_id) rows ∙ set_row_self v.next_id row v.generations))
