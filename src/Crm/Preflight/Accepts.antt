-- ===== src/Crm/Preflight/Accepts.antt =====
-- What `evaluate` accepts, and whom it warns of.
use allocation_key_generatio.Base.{
  is_empty, ℕ, ◌*◌, ◌≤◌, ◌≡◌, ◌≢◌, ◌↔◌, refl, Bool, true, false, Option, none, some, List, [], ◌∷◌,
  ◌++◌, map, keep, length, All, arith, not_ltb→le, le_not_ltb,
}
use allocation_key_generatio.Base.Text.{Text}
use allocation_key_generatio.Base.Num.{Num}
use allocation_key_generatio.Shared.ProblemSize.{
  max_problem_cells, too_large, too_large-eq-none_iff,
}
use allocation_key_generatio.Crm.Repository.{
  EanCoverage, CrmDataSummary, total_rows, total_injection_kwh, consumer_eans, duplicate_eans,
  has_duplicate_rows,
}
use allocation_key_generatio.Crm.Preflight.{
  Blocker, is_ok, no_blockers, evaluate_any, max_reading_rows, only_if, range_blocker,
  duplicate_blocker, oversize_blocker, consumer_blocker, evaluate_meters, evaluate,
}

module _ (F : Num) where
  -- A period on which a generation may run
  pub record Acceptable (s : CrmDataSummary F) : Type 0 where
    pub few_rows : total_rows F s ≤ max_reading_rows
    pub no_duplicates : All (λ e. e.row_count ≡ e.distinct_ts) s.eans
    pub consumers : consumer_eans F s ≢ []
    pub fits : length (consumer_eans F s) * s.grid_size ≤ max_problem_cells
    pub injection : F.at_most (total_injection_kwh F s) F.nought ≡ false

  nothing_blocked : (eans : List Text) → duplicate_blocker F eans ≡ [] → eans ≡ []
  nothing_blocked [] h = refl
  nothing_blocked (e ∷ es) h = cc

  no_duplicates_of :
      (es : List (EanCoverage F))
      → map (λ e. e.ean) (keep (has_duplicate_rows F) es) ≡ []
      → All (λ e. e.row_count ≡ e.distinct_ts) es
  no_duplicates_of [] h = tt
  no_duplicates_of (e ∷ es) h = ground (arith, no_duplicates_of es)

  no_duplicates_to :
      (es : List (EanCoverage F))
      → All (λ e. e.row_count ≡ e.distinct_ts) es
      → map (λ e. e.ean) (keep (has_duplicate_rows F) es) ≡ []
  no_duplicates_to [] h = refl
  no_duplicates_to (e ∷ es) h = ground (arith, no_duplicates_to es h.1, h.0)

  append_nil_split : (xs ys : List Blocker) → xs ++ ys ≡ [] → (xs ≡ []) × (ys ≡ [])
  append_nil_split [] ys h = (refl, h)
  append_nil_split (x ∷ xs) ys h = cc

  only_if_nil : (b : Bool) (x : Blocker) → (only_if b x ≡ []) ↔ (b ≡ false)
  only_if_nil true x = ((λ h. cc), (λ h. cc))
  only_if_nil false x = ((λ h. refl), (λ h. refl))

  oversize_nil : (o : Option Text) → (oversize_blocker F o ≡ []) ↔ (o ≡ none)
  oversize_nil none = ((λ h. refl), (λ h. refl))
  oversize_nil (some d) = ((λ h. cc), (λ h. cc))

  consumers_of :
      (eans : List Text) (grid : ℕ)
      → consumer_blocker F eans grid ≡ []
      → (eans ≢ []) × (length eans * grid ≤ max_problem_cells)
  consumers_of [] grid h = cc
  consumers_of (e ∷ es) grid h = (
    (λ h'. cc),
    (too_large-eq-none_iff (length (e ∷ es)) grid).0
        ((oversize_nil (too_large (length (e ∷ es)) grid)).0 h),
  )

  consumers_to :
      (eans : List Text) (grid : ℕ)
      → eans ≢ []
      → length eans * grid ≤ max_problem_cells
      → consumer_blocker F eans grid ≡ []
  consumers_to [] grid h k = absurd (h refl)
  consumers_to (e ∷ es) grid h k =
      (oversize_nil (too_large (length (e ∷ es)) grid)).1
        ((too_large-eq-none_iff (length (e ∷ es)) grid).1 k)

  meters_of : (s : CrmDataSummary F) → (evaluate_meters F s).blockers ≡ [] → Acceptable s
  meters_of s h =
      let (range, rest) = append_nil_split (range_blocker F s) _ h in
      let (dup, rest') = append_nil_split (duplicate_blocker F (duplicate_eans F s)) _ rest in
      let (cons, inj) =
        append_nil_split (consumer_blocker F (consumer_eans F s) s.grid_size) _ rest' in
      let (some_consumer, size) = consumers_of (consumer_eans F s) s.grid_size cons in
      record {
        few_rows = not_ltb→le max_reading_rows (total_rows F s) ((only_if_nil _ _).0 range);
        no_duplicates = no_duplicates_of s.eans (nothing_blocked (duplicate_eans F s) dup);
        consumers = some_consumer;
        fits = size;
        injection = (only_if_nil _ _).0 inj;
      }

  meters_to : (s : CrmDataSummary F) → Acceptable s → (evaluate_meters F s).blockers ≡ []
  meters_to s a =
      rw
        (
          le_not_ltb max_reading_rows (total_rows F s) a.few_rows,
          no_duplicates_to s.eans a.no_duplicates,
          consumers_to (consumer_eans F s) s.grid_size a.consumers a.fits,
          a.injection,
        )
        refl

  no_blockers_iff : (bs : List Blocker) → (no_blockers bs ≡ true) ↔ (bs ≡ [])
  no_blockers_iff [] = ((λ h. refl), (λ h. refl))
  no_blockers_iff (b ∷ bs) = ((λ h. cc), (λ h. cc))

  is_empty_iff : (es : List (EanCoverage F)) → (is_empty es ≡ false) ↔ (es ≢ [])
  is_empty_iff [] = ((λ h. cc), (λ h. absurd (h refl)))
  is_empty_iff (e ∷ es) = ((λ h h'. cc), (λ h. refl))

  any-Acceptable :
      (empty : Bool) (s : CrmDataSummary F)
      → (no_blockers (evaluate_any F empty s).blockers ≡ true) ↔ ((empty ≡ false) × Acceptable s)
  any-Acceptable true s = ((λ h. cc), (λ h. cc h.0))
  any-Acceptable false s = (
    (λ h. (refl, meters_of s ((no_blockers_iff _).0 h))),
    (λ h. (no_blockers_iff _).1 (meters_to s h.1)),
  )

  -- A period may be run exactly when it has readings at all, no more than 5,000,000 of them, none
  -- of a meter at the same timestamp twice, at least one meter with consumption, consumers times
  -- timesteps within the problem limit, and a positive total injection.
  pub evaluate-Acceptable :
      (s : CrmDataSummary F) → (is_ok (evaluate F s) ≡ true) ↔ ((s.eans ≢ []) × Acceptable s)
  unfolding evaluate is_ok
  evaluate-Acceptable s =
      let any = any-Acceptable (is_empty s.eans) s in
      let empty = is_empty_iff s.eans in
      ((λ h. let (e, a) = any.0 h in (empty.0 e, a)), (λ h. any.1 (empty.1 h.0, h.1)))
