-- ===== src/Crm/Accepted/Frame.antt =====
-- An accepted pre-flight and the frame of its readings.
use allocation_key_generatio.Shared.ProblemSize.{max_problem_cells}
use allocation_key_generatio.Crm.Preflight.{is_ok}
use allocation_key_generatio.Crm.Preflight.Accepts.{evaluate-Acceptable}
use allocation_key_generatio.Crm.Preflight.{evaluate}
use allocation_key_generatio.Crm.Accepted.Distinct.{all_once, occurrences}
use allocation_key_generatio.Base.Text.{Text, text_eq, text_eq→≡}
use allocation_key_generatio.Crm.Timeseries.{
  fill, reindexed, Pivoted, assemble, pivot_rows, framed, pivoted, PivotOps, PivotTable,
  build_dataframe, contains, injection_column, missing, wide_frame,
}
use allocation_key_generatio.Base.Num.{Num}
use allocation_key_generatio.Shared.DataLoading.{Frame}
use allocation_key_generatio.Crm.Repository.{
  ConsumptionRow, EanCoverage, MeterConsumption, consumer_eans, coverage, distinct, fetch_rows,
  is_consumer, of_ean, summarize, text_lt,
}
use allocation_key_generatio.Crm.Accepted.Rows.{
  All-contains, contains-All, contains-distinct, eans-fetch_rows, of_ean-none, pairs,
  pairs-fetch_rows,
}
use allocation_key_generatio.Base.{
  All, Bool, Bool-cases, List, [], ap, arith, false, if_split, inl, inr, keep, length, length-map,
  map, refl, subst, sym, true, ℕ, ◌*◌, ◌||◌, ◌∙◌, ◌++◌, ◌∷◌, ◌≡◌, ◌≢◌, ◌≤◌,
}

module _ {C : Type 0} where
  -- What holds of the images of all names holds of the image of a name that is there.
  covered :
      (f : Text → C) (P : C → Type 0) (xs : List Text) (e : Text)
      → All P (map f xs)
      → contains e xs ≡ true
      → P (f e)
  covered f P [] e h k = cc
  covered f P (x ∷ xs) e h k = elim (Bool-cases (text_eq x e)) [
    | inl hit ↦ subst (λ n. P (f n)) (text_eq→≡ x e hit) h.0
    | inr miss ↦ covered f P xs e h.1 (ap (λ b. b || contains e xs) (sym miss) ∙ k)
  ]

module _ (F : Num) where
  kept_present :
      (p : EanCoverage F → Bool) (f : Text → EanCoverage F)
      → ((e : Text) → (f e).ean ≡ e)
      → (P : Text → Type 0) (xs : List Text) → All P xs
      → All P (map (λ c. c.ean) (keep p (map f xs)))
  kept_present p f same_name P [] h = tt
  kept_present p f same_name P (x ∷ xs) h =
      if_split (λ (l : List (EanCoverage F)). All P (map (λ c. c.ean) l)) (p (f x))
        (λ e. (subst P (sym (same_name x)) h.0, kept_present p f same_name P xs h.1))
        (λ e. kept_present p f same_name P xs h.1)

  not_reserved :
      (rows : List (MeterConsumption F)) (eans : List Text)
      → contains injection_column (map (λ mc. mc.ean) rows) ≡ false
      → All (λ e. contains e (map (λ r. r.ean) (fetch_rows F rows)) ≡ true) eans
      → contains injection_column eans ≡ false
  not_reserved rows eans h k = elim (Bool-cases (contains injection_column eans)) [
    | inl there ↦
        let clash : false ≡ true =
          sym h
          ∙ (sym (eans-fetch_rows F injection_column rows)
              ∙ contains-All (λ e. contains e (map (λ r. r.ean) (fetch_rows F rows)) ≡ true) eans
                  injection_column k there) in
        cc
    | inr absent ↦ absent
  ]

  -- What pandas' documentation says of `pivot`: it raises only for a meter with two readings at one
  -- timestamp, and its columns are the meters of the readings; and of `sort_index` and
  -- `reset_index(drop=True)`: they reorder the rows, so the columns stay, in their order.
  pub record PivotLaws (ops : PivotOps F) : Type 0 where
    pub pivots :
        (rows : List (ConsumptionRow F))
        → ((e : Text) (t : ℕ) → pairs F e t rows ≤ 1)
        → (table : PivotTable F) × (ops.pivot rows ≡ pivoted table)
          × ((e : Text)
              → contains e (map (λ c. c.0) table.columns) ≡ contains e (map (λ r. r.ean) rows))
    pub sorts :
        (index : List ℕ) (frame : Frame F)
        → map (λ c. c.0) (ops.sort_index index frame).columns ≡ map (λ c. c.0) frame.columns

  -- A summary that finds no duplicates: no meter has two readings at one timestamp.
  fetched_once :
      (rows : List (MeterConsumption F))
      → All
          (λ e. e.row_count ≡ e.distinct_ts)
          (map (coverage F rows) (distinct text_lt (map (λ mc. mc.ean) rows)))
      → (e : Text) (t : ℕ) → pairs F e t (fetch_rows F rows) ≤ 1
  fetched_once rows h e t =
      subst (λ n. n ≤ 1) (sym (pairs-fetch_rows F e t rows))
        (elim (Bool-cases (contains e (map (λ mc. mc.ean) rows))) [
          | inl there ↦
              let instants = map (λ mc. mc.timestamp) (of_ean F e rows) in
              let counted =
                covered (coverage F rows) (λ c. c.row_count ≡ c.distinct_ts)
                  (distinct text_lt (map (λ mc. mc.ean) rows)) e h
                  (contains-distinct e (map (λ mc. mc.ean) rows) ∙ there) in
              all_once instants (length-map (of_ean F e rows) (λ mc. mc.timestamp) ∙ counted) t
          | inr absent ↦
              subst (λ l. occurrences t (map (λ mc. mc.timestamp) l) ≤ 1)
                (sym (of_ean-none F e rows absent)) (omega arith)
        ])

  -- Every consumer has a reading.
  consumers_present :
      (rows : List (MeterConsumption F))
      → All
          (λ e. contains e (map (λ r. r.ean) (fetch_rows F rows)) ≡ true)
          (consumer_eans F (summarize F rows))
  unfolding summarize
  consumers_present rows =
      kept_present (is_consumer F) (coverage F rows) (λ e. refl)
        (λ e. contains e (map (λ r. r.ean) (fetch_rows F rows)) ≡ true)
        (distinct text_lt (map (λ mc. mc.ean) rows))
        (All-contains (λ e. contains e (map (λ r. r.ean) (fetch_rows F rows)) ≡ true)
          (distinct text_lt (map (λ mc. mc.ean) rows))
          (λ e there.
            eans-fetch_rows F e rows
            ∙ (sym (contains-distinct e (map (λ mc. mc.ean) rows)) ∙ there)))

  none_missing :
      (table : PivotTable F) (rows : List (ConsumptionRow F)) (eans : List Text)
      → ((e : Text)
          → contains e (map (λ c. c.0) table.columns) ≡ contains e (map (λ r. r.ean) rows))
      → All (λ e. contains e (map (λ r. r.ean) rows) ≡ true) eans
      → missing F table eans ≡ []
  none_missing table rows [] h k = refl
  none_missing table rows (e ∷ eans) h k = rw (h e, k.0) (none_missing table rows eans h k.1)

  framed_by :
      (ops : PivotOps F) (rows : List (ConsumptionRow F)) (eans : List Text) (table : PivotTable F)
      → eans ≢ []
      → All (λ e. contains e (map (λ r. r.ean) rows) ≡ true) eans
      → contains injection_column eans ≡ false
      → ops.pivot rows ≡ pivoted table
      → missing F table eans ≡ []
      → build_dataframe F ops rows eans ≡ framed (wide_frame F ops rows eans table)
  unfolding build_dataframe
  framed_by ops rows [] table some_eans k i p m = absurd (some_eans refl)
  framed_by ops [] (e ∷ eans) table some_eans k i p m = cc
  framed_by ops (r ∷ rows) (e ∷ eans) table some_eans k i p m =
      rw (i, pivot_rows, p, assemble, m) refl

  names_of :
      (table : PivotTable F) (eans : List Text) (injected : List F.Real)
      → map
          (λ (c : Text × List F.Real). c.0)
          (map (λ e. (e, map (fill F) (reindexed F table e))) eans
            ++ (injection_column, injected) ∷ [])
        ≡ eans ++ injection_column ∷ []
  names_of table [] injected = refl
  names_of table (e ∷ eans) injected = ap (λ l. e ∷ l) (names_of table eans injected)

  -- A frame of the pivoted readings, with a column for each consumer and the injection
  pub record Framed (ops : PivotOps F) (rows : List (ConsumptionRow F)) (eans : List Text)
      (end : Pivoted F) : Type 0 where
    pub table : PivotTable F
    pub pivot : ops.pivot rows ≡ pivoted table
    pub frame : Frame F
    pub returns : end ≡ framed frame
    pub content : frame ≡ wide_frame F ops rows eans table
    pub columns : map (λ c. c.0) frame.columns ≡ eans ++ injection_column ∷ []

  -- Given what pandas documents (`PivotLaws`), and that no meter is named like the reserved column:
  -- if the pre-flight accepts the summary of a table of readings, then `build_dataframe` on the same
  -- readings raises nothing and returns the frame of their pivot, whose columns are the consumers
  -- that the pre-flight reports, in their order, and then the injection; and consumers times
  -- timesteps of the summary are within the problem limit.
  pub evaluate-Framed :
      (ops : PivotOps F) (laws : PivotLaws ops) (rows : List (MeterConsumption F))
      → contains injection_column (map (λ mc. mc.ean) rows) ≡ false
      → is_ok (evaluate F (summarize F rows)) ≡ true
      → let eans = consumer_eans F (summarize F rows) in
        Framed ops (fetch_rows F rows) eans (build_dataframe F ops (fetch_rows F rows) eans)
        × (length eans * (summarize F rows).grid_size ≤ max_problem_cells)
  unfolding summarize
  evaluate-Framed ops laws rows reserved ok =
      let s = summarize F rows in
      let accepted = ((evaluate-Acceptable F s).0 ok).1 in
      let (table, found, names) =
        laws.pivots (fetch_rows F rows) (fetched_once rows accepted.no_duplicates) in
      let eans = consumer_eans F s in
      let present = consumers_present rows in
      (
        record {
          table = table;
          pivot = found;
          frame = wide_frame F ops (fetch_rows F rows) eans table;
          returns =
              framed_by ops (fetch_rows F rows) eans table accepted.consumers present
                (not_reserved rows eans reserved present) found
                (none_missing table (fetch_rows F rows) eans names present);
          content = refl;
          columns =
              laws.sorts table.index _
              ∙ names_of table eans
                  (map (λ t. fill F (ops.injected (fetch_rows F rows) t)) table.index);
        },
        accepted.fits,
      )
