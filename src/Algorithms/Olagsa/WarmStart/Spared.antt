-- ===== src/Algorithms/Olagsa/WarmStart/Spared.antt =====
-- The key's solves with the solver's exceptions taken for a status.
use allocation_key_generatio.Base.{
  ℕ, zero, suc, ◌≡◌, refl, ◌⊎◌, inl, inr, Option, none, some, List, [], ◌∷◌, ◌++◌, get_elem?,
  get_or,
}
use allocation_key_generatio.Base.Num.{Num}
use allocation_key_generatio.Algorithms.Olagsa.Draw.{Draw, continue}
use allocation_key_generatio.Algorithms.Olagsa.Outside.{Outside}
use allocation_key_generatio.Algorithms.Olagsa.Solution.{Solution, Key, to_iteration}
use allocation_key_generatio.Algorithms.Olagsa.WarmStart.{
  Round, on_optimal, round_of, key_rounds, solve_key, solve_genetic,
}
use allocation_key_generatio.Algorithms.Olagsa.WarmStart.Guarded.{
  guarded, RoundAgrees, round-RoundAgrees, EndAgrees, solve_genetic-EndAgrees,
}

-- The second raises, or it ends as the first does.
abbrev pub Spares : {X : Type 0} → Option X → Option X → Type 0
Spares safe real = (real ≡ safe) ⊎ (real ≡ none)

module _ {S A B : Type 0} where
  pub continue-Spares :
      (f g : A → Draw S B)
      → ((a : A) (s : S) → Spares (f a s) (g a s))
      → (o p : Option (A × S)) → Spares o p
      → Spares (continue f o) (continue g p)
  continue-Spares f g h o p (inr e) = rw e (inr refl)
  continue-Spares f g h none p (inl e) = rw e (inl refl)
  continue-Spares f g h (some r) p (inl e) = rw e (h r.0 r.1)

module _ (F : Num) (L : Outside F) where
  of_round : (safe real : Option (Round F × L.Seed)) → RoundAgrees F L safe real → Spares safe real
  of_round safe real (inl e) = inl e
  of_round safe real (inr (e, c, s, broken)) = inr e

  of_end :
      (safe real : Option (Option (Solution F) × L.Seed))
      → EndAgrees F L safe real
      → Spares safe real
  of_end safe real (inl e) = inl e
  of_end safe real (inr (e, s, broken)) = inr e

  pub solve_genetic-Spares :
      (n : ℕ) (c va : List (List F.Real)) (shares : List F.Real) (s : L.Seed)
      → Spares (solve_genetic F (guarded F L) n c va shares s) (solve_genetic F L n c va shares s)
  solve_genetic-Spares n c va shares s =
      of_end (solve_genetic F (guarded F L) n c va shares s) (solve_genetic F L n c va shares s)
        (solve_genetic-EndAgrees F L n c va shares s)

  on_optimal-Spares :
      (its : Key F) (safe real : List (List F.Real) → Solution F → Draw L.Seed (Key F))
      → ((c : List (List F.Real)) (sol : Solution F) (s : L.Seed)
          → Spares (safe c sol s) (real c sol s))
      → (r : Round F) (s : L.Seed) → Spares (on_optimal F its safe r s) (on_optimal F its real r s)
  on_optimal-Spares its safe real h (c, none) s = inl refl
  on_optimal-Spares its safe real h (c, some sol) s = h c sol s

  rounds-Spares :
      (va : List (List F.Real)) (shares : List F.Real) (n i : ℕ) (c : List (List F.Real))
      (current : Option (Solution F)) (its : Key F) (s : L.Seed)
      → Spares
          (key_rounds F (guarded F L) va shares n i c current its s)
          (key_rounds F L va shares n i c current its s)
  unfolding key_rounds to_iteration
  rounds-Spares va shares zero i c current its s = inl refl
  rounds-Spares va shares (suc n) i c current its s =
      let extended =
        λ (sol : Solution F). its ++ to_iteration F L sol (get_or shares i F.nought) ∷ [] in
      let safe = λ (c' : List (List F.Real)) (sol : Solution F).
        key_rounds F (guarded F L) va shares n (suc i) c' (some sol) (extended sol) in
      let real = λ (c' : List (List F.Real)) (sol : Solution F).
        key_rounds F L va shares n (suc i) c' (some sol) (extended sol) in
      continue-Spares (on_optimal F its safe) (on_optimal F its real)
        (on_optimal-Spares its safe real
          (λ c' sol s'. rounds-Spares va shares n (suc i) c' (some sol) (extended sol) s'))
        (round_of F (guarded F L) i va c current (get_elem? shares i) s)
        (round_of F L i va c current (get_elem? shares i) s)
        (of_round (round_of F (guarded F L) i va c current (get_elem? shares i) s)
          (round_of F L i va c current (get_elem? shares i) s)
          (round-RoundAgrees F L i va c current (get_elem? shares i) s))

  pub solve_key-Spares :
      (n : ℕ) (c va : List (List F.Real)) (shares : List F.Real) (s : L.Seed)
      → Spares (solve_key F (guarded F L) n c va shares s) (solve_key F L n c va shares s)
  unfolding solve_key
  solve_key-Spares n c va shares s = rounds-Spares va shares n 0 c none [] s
