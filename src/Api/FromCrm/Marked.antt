-- ===== src/Api/FromCrm/Marked.antt =====
-- What `_mark_failed_to_queue` leaves as it was.
use allocation_key_generatio.Base.{ℕ, ◌≡◌, refl, Bool, true, false, Option, none, some, ◌==◌, arith}
use allocation_key_generatio.Base.Text.{Text}
use allocation_key_generatio.Base.Num.{Num}
use allocation_key_generatio.Worker.World.{GenerationModel}
use allocation_key_generatio.Worker.Persistence.{Commit, commits, rolls_back, unacknowledged}
use allocation_key_generatio.Api.World.{Database, Answer}
use allocation_key_generatio.Api.Env.{RequestEnv}
use allocation_key_generatio.Api.Start.{mark_failed_to_queue, mark_row, mark_read}

module _ {F : Num} (env : RequestEnv) where
  -- Only the row of `id` may differ.
  pub record OnlyRow (id : ℕ) (w : Database F) (end : Answer (Unit {0}) × Database F) : Type 0 where
    pub others : (k : ℕ) → (k == id) ≡ false → end.1.generations k ≡ w.generations k
    pub events : end.1.events ≡ w.events

  mark_row-OnlyRow :
      (ending : Commit) (works raises : Bool) (id : ℕ) (reason : Text)
      (row : Option GenerationModel) (w : Database F)
      → OnlyRow id w (mark_row ending works raises id reason row w)
  mark_row-OnlyRow ending works raises id reason none w = record {
    others = λ k h. refl;
    events = refl;
  }
  mark_row-OnlyRow commits works true id reason (some row) w = record {
    others = λ k h. ground (arith, h);
    events = refl;
  }
  mark_row-OnlyRow commits true false id reason (some row) w = record {
    others = λ k h. ground (arith, h);
    events = refl;
  }
  mark_row-OnlyRow commits false false id reason (some row) w = record {
    others = λ k h. ground (arith, h);
    events = refl;
  }
  mark_row-OnlyRow rolls_back works raises id reason (some row) w = record {
    others = λ k h. refl;
    events = refl;
  }
  mark_row-OnlyRow unacknowledged works raises id reason (some row) w = record {
    others = λ k h. ground (arith, h);
    events = refl;
  }

  mark_read-OnlyRow :
      (broken : Bool) (ending : Commit) (works raises : Bool) (id : ℕ) (reason : Text)
      (row : Option GenerationModel) (w : Database F)
      → OnlyRow id w (mark_read broken (mark_row ending works raises id reason row) w)
  mark_read-OnlyRow true ending works raises id reason row w = record {
    others = λ k h. refl;
    events = refl;
  }
  mark_read-OnlyRow false ending works raises id reason row w =
      mark_row-OnlyRow ending works raises id reason row w

  pub mark-OnlyRow :
      (id : ℕ) (w : Database F)
      → OnlyRow id w (mark_failed_to_queue env.marking id env.publish_error w)
  mark-OnlyRow id w =
      mark_read-OnlyRow env.marking.read_raises env.marking.commit env.marking.audit_works
        env.marking.audit_commit_raises id env.publish_error (w.generations id) w
