-- ===== src/Algorithms/BruteForce/Reference/Shapes.antt =====
-- The shape of the reference keys: their iterations and participants.
use allocation_key_generatio.Base.{
  ℕ, zero, suc, ◌≡◌, refl, ap, ◌∙◌, Option, none, some, List, [], ◌∷◌, map, length, length-map, All,
  range_from,
}
use allocation_key_generatio.Base.Text.{Text}
use allocation_key_generatio.Base.Num.{Num}
use allocation_key_generatio.Shared.Results.{AllocationKeyResult}
use allocation_key_generatio.Algorithms.BruteForce.Iteration.{Iteration, AlgoName, summary, copy}
use allocation_key_generatio.Algorithms.BruteForce.Functions.{algos}
use allocation_key_generatio.Algorithms.BruteForce.Generator.{
  apply_first, build_next_iteration, tenth, third_share,
}
use allocation_key_generatio.Algorithms.BruteForce.Algorithm.{
  consumer_name, rest, consumer_results_from, build_key,
}
use allocation_key_generatio.Algorithms.BruteForce.Reference.{
  Stage, Played, play, play_all, play_one, numbered, key_of, reference,
}
use allocation_key_generatio.Algorithms.BruteForce.Shape.{
  size, one-size, copied-size, apply_first-size, build_next_iteration-size,
}
use allocation_key_generatio.Algorithms.BruteForce.Reference.Everywhere.{
  reference_one-All, reference_two-All, reference_three-All,
}

-- Holds of the value, if there is one.
abbrev pub OnSome {ℓ} : {A : Type ℓ} → (A → Type 0) → Option A → Type 0
OnSome P none = Unit
OnSome P (some a) = P a

module _ (F : Num) where
  summary-length : (it : Iteration F) → length (summary F it).consumer_percentages ≡ size F it
  summary-length it = length-map it.consumers _

  -- The names of `m` participants, from number `j` on
  abbrev pub labels : ℕ → ℕ → List Text → List Text
  labels j zero names = []
  labels j (suc m) names = consumer_name j names ∷ labels (suc j) m (rest names)

  -- `n` iterations numbered from 1, each with every participant under its name
  pub record KeyShape (n m : ℕ) (names : List Text) (key : AllocationKeyResult F) : Type 0 where
    pub numbers : map (λ it. it.number) key.iterations ≡ range_from 1 n
    pub participants : All (λ it. map (λ c. c.name) it.consumers ≡ labels 0 m names) key.iterations

  abbrev pub PlayedShape : ℕ → ℕ → Played F → Type 0
  PlayedShape n m p = (length p ≡ n) × All (λ s. length s.1.consumer_percentages ≡ m) p

  play-PlayedShape :
      (m : ℕ) (root previous : Iteration F) (va : List (List F.Real)) (stages : List (Stage F))
      → size F previous ≡ m
      → PlayedShape (length stages) m (play F root va previous stages)
  play-PlayedShape m root previous va [] h = (refl, tt)
  play-PlayedShape m root previous va ((pct, algo) ∷ stages) h =
      let next = build_next_iteration F root previous va pct in
      let post = (algos F algo (copy F next)).1 in
      let same = copied-size F algo next ∙ (build_next_iteration-size F root previous va pct ∙ h) in
      let (l, s) = play-PlayedShape m root post va stages same in
      (ap suc l, (summary-length post ∙ same, s))

  play_all-PlayedShape :
      (m : ℕ) (root : Iteration F) (va : List (List F.Real)) (stage : Stage F)
      (stages : List (Stage F))
      → size F root ≡ m
      → PlayedShape (suc (length stages)) m (play_all F root va stage stages)
  play_all-PlayedShape m root va (pct, algo) stages h =
      let post = (apply_first F root pct algo).1 in
      let same = apply_first-size F root pct algo ∙ h in
      let (l, s) = play-PlayedShape m root post va stages same in
      (ap suc l, (summary-length post ∙ same, s))

  play_one-PlayedShape :
      (m : ℕ) (root : Iteration F) (algo : AlgoName)
      → size F root ≡ m
      → PlayedShape 1 m (play_one F root algo)
  play_one-PlayedShape m root algo h =
      let it = record (copy F root) { energy_allocated_percentage = F.one } in
      (refl, (summary-length (algos F algo it).1 ∙ (one-size F algo root F.one ∙ h), tt))

  consumer_results-labels :
      (j : ℕ) (pcts : List F.Real) (names : List Text)
      → map (λ c. c.name) (consumer_results_from F j pcts names) ≡ labels j (length pcts) names
  consumer_results-labels j [] names = refl
  consumer_results-labels j (p ∷ ps) names =
      ap (λ l. consumer_name j names ∷ l) (consumer_results-labels (suc j) ps (rest names))

  numbered-numbers :
      (names : List Text) (k : ℕ) (p : Played F)
      → map (λ it. it.number) (numbered F names k p) ≡ range_from k (length p)
  numbered-numbers names k [] = refl
  numbered-numbers names k (s ∷ p) = ap (λ l. k ∷ l) (numbered-numbers names (suc k) p)

  numbered-labels :
      (m : ℕ) (names : List Text) (k : ℕ) (p : Played F)
      → All (λ s. length s.1.consumer_percentages ≡ m) p
      → All (λ it. map (λ c. c.name) it.consumers ≡ labels 0 m names) (numbered F names k p)
  numbered-labels m names k [] h = tt
  numbered-labels m names k (s ∷ p) h = (
    consumer_results-labels 0 s.1.consumer_percentages names ∙ ap (λ l. labels 0 l names) h.0,
    numbered-labels m names (suc k) p h.1,
  )

  pub key_of-KeyShape :
      (n m : ℕ) (names : List Text) (p : Played F)
      → PlayedShape n m p
      → KeyShape n m names (key_of F names p)
  unfolding build_key
  key_of-KeyShape n m names p h = record {
    numbers = numbered-numbers names 1 p ∙ ap (range_from 1) h.0;
    participants = numbered-labels m names 1 p h.1;
  }

  pub reference-PlayedShape :
      (n m : ℕ) (root : Iteration F) (va : List (List F.Real))
      → size F root ≡ m
      → OnSome (All (PlayedShape n m)) (reference F n root va)
  reference-PlayedShape zero m root va h = tt
  reference-PlayedShape (suc zero) m root va h =
      reference_one-All F (PlayedShape 1 m) root (λ a. play_one-PlayedShape m root a h)
  reference-PlayedShape (suc (suc zero)) m root va h =
      reference_two-All F (PlayedShape 2 m) root va (λ i a b le.
        play_all-PlayedShape m root va (tenth F i, a) ((F.minus F.one (tenth F i), b) ∷ []) h)
  reference-PlayedShape (suc (suc (suc zero))) m root va h =
      reference_three-All F (PlayedShape 3 m) root va (λ i j a b c le le'.
        play_all-PlayedShape m root va (tenth F i, a) ((tenth F j, b) ∷ (third_share F i j, c) ∷ [])
          h)
  reference-PlayedShape (suc (suc (suc (suc n)))) m root va h = tt
