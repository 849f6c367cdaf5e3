-- ===== src/Worker/Persistence/Tree.antt =====
-- The result tree that a success writes, and the message that a failure writes.
use allocation_key_generatio.Base.{
  ℕ, ◌≡◌, ◌≢◌, refl, ap, true, false, some, List, [], ◌∷◌, ◌++◌, map, arith, ◌==◌, keep,
}
use allocation_key_generatio.Base.Text.{Text}
use allocation_key_generatio.Base.Num.{Num}
use allocation_key_generatio.Shared.Results.{
  ConsumerResult, IterationResult, AllocationKeyResult, AlgorithmResult,
}
use allocation_key_generatio.Worker.World.{
  GenerationModel, ConsumerGeneratedModel, IterationGeneratedModel, AllocationKeyGeneratedModel,
  World,
}
use allocation_key_generatio.Worker.Persistence.{
  Weather, rolls_back, succeed_row, consumer_row, iteration_row, key_row, claimable, save_success,
  save_failure, claim_success, claim_failure,
}
use allocation_key_generatio.Worker.Persistence.Claims.{succeed, claim_wins}

==_refl : (n : ℕ) → (n == n) ≡ true
==_refl n = ground arith

module _ (F : Num) where
  -- The stored rows read back as a result, without the columns that the tables add
  abbrev read_consumer : ConsumerGeneratedModel F → ConsumerResult F
  read_consumer c = record {
    name = c.name;
    energy_allocated_percentage = c.energy_allocated_percentage;
  }

  abbrev read_iteration : IterationGeneratedModel F → IterationResult F
  read_iteration it = record {
    number = it.number;
    energy_allocated_percentage = it.energy_allocated_percentage;
    surplus_total = it.surplus_total;
    consumers = map read_consumer it.consumers;
  }

  abbrev read_key : AllocationKeyGeneratedModel F → AllocationKeyResult F
  read_key key = record {
    name = key.name;
    description = key.description;
    iterations = map read_iteration key.iterations;
  }

  -- The keys of one generation, as stored
  abbrev pub keys_of :
      ℕ → List (AllocationKeyGeneratedModel F) → List (AllocationKeyGeneratedModel F)
  keys_of id = keep (λ k. k.id_generation == id)

  abbrev pub read_keys : ℕ → World F → List (AllocationKeyResult F)
  read_keys id w = map read_key (keys_of id w.keys)

  read-consumers :
      (c : ℕ) (xs : List (ConsumerResult F)) → map read_consumer (map (consumer_row F c) xs) ≡ xs
  unfolding consumer_row
  read-consumers c [] = refl
  read-consumers c (x ∷ xs) = ap (◌∷◌ x) (read-consumers c xs)

  read-iterations :
      (c : ℕ) (xs : List (IterationResult F)) → map read_iteration (map (iteration_row F c) xs) ≡ xs
  unfolding iteration_row
  read-iterations c [] = refl
  read-iterations c (x ∷ xs) = rw (read-consumers c x.consumers, read-iterations c xs) refl

  read-keys_of :
      (id c : ℕ) (ks : List (AllocationKeyResult F))
      → map read_key (keys_of id (map (key_row F id c) ks)) ≡ ks
  unfolding key_row
  read-keys_of id c [] = refl
  read-keys_of id c (k ∷ ks) =
      rw (==_refl id, read-iterations c k.iterations, read-keys_of id c ks) refl

  keys_of-append :
      (id : ℕ) (xs ys : List (AllocationKeyGeneratedModel F))
      → keys_of id (xs ++ ys) ≡ keys_of id xs ++ keys_of id ys
  keys_of-append id [] ys = refl
  keys_of-append id (x ∷ xs) ys = ground (arith, keys_of-append id xs ys)

  read_keys-succeed_row :
      (id : ℕ) (read now : GenerationModel) (result : AlgorithmResult F) (w : World F)
      → keys_of id w.keys ≡ []
      → read_keys id (succeed_row F id read now result w) ≡ result.keys
  read_keys-succeed_row id read now result w empty =
      rw (keys_of-append id w.keys, empty) (read-keys_of id read.id_community result.keys)

  -- The row that a claim would hit is the row of the table.
  pub claimable_row :
      (id : ℕ) (w : World F) {now : GenerationModel}
      → claimable F id w ≡ some now
      → w.generations id ≡ some now
  claimable_row id w h = ground arith

  -- A save that can read the row is a claim.
  pub save_success_claims :
      (weather : Weather) (id : ℕ) (result : AlgorithmResult F) (w : World F) {g : GenerationModel}
      → weather.read_raises ≡ false
      → w.generations id ≡ some g
      → save_success F weather id result w ≡ claim_success F weather id g result w
  unfolding save_success
  save_success_claims weather id result w up row = ground arith

  pub save_failure_claims :
      (weather : Weather) (id : ℕ) (message : Text) (w : World F) {g : GenerationModel}
      → weather.read_raises ≡ false
      → w.generations id ≡ some g
      → save_failure F weather id message w ≡ claim_failure F weather id g message w
  unfolding save_failure
  save_failure_claims weather id message w up row = ground arith

  -- A success saved on a pending generation that has no keys yet, with a commit that takes effect:
  -- the keys stored for the generation read back as exactly the keys of the result, in order.
  pub save_success-read_keys :
      (weather : Weather) (id : ℕ) (result : AlgorithmResult F) (w : World F)
      {now : GenerationModel}
      → weather.read_raises ≡ false
      → weather.commit ≢ rolls_back
      → claimable F id w ≡ some now
      → keys_of id w.keys ≡ []
      → read_keys id (save_success F weather id result w).1 ≡ result.keys
  save_success-read_keys weather id result w {now} up kept h empty =
      rw
        (
          save_success_claims weather id result w up (claimable_row id w h),
          (claim_wins id now (succeed weather now result) w kept h).tree,
        )
        (read_keys-succeed_row id now now result w empty)
