-- ===== src/Worker/Persistence/Messages.antt =====
-- The error messages that are stored.
use allocation_key_generatio.Base.{
  ℕ, ◌≤◌, sym, subst, inl, inr, Option, none, some, List, length, length-take, arith, if_split,
  Option-cases, ◌==◌,
}
use allocation_key_generatio.Base.Text.{Text}
use allocation_key_generatio.Base.Num.{Num}
use allocation_key_generatio.Worker.World.{GenerationModel, World}
use allocation_key_generatio.Worker.Persistence.{error_message_max_len, claimable}
use allocation_key_generatio.Worker.Persistence.Claims.{
  Claim, succeed, fail, run_claims, transaction, settled_forever, run_claims_cases,
}

-- A message of at most 2000 characters, or none
abbrev pub Fits : Option Text → Type 0
Fits none = Unit
Fits (some message) = length message ≤ error_message_max_len

abbrev pub RowFits : Option GenerationModel → Type 0
RowFits none = Unit
RowFits (some g) = Fits g.error_message

module _ {F : Num} where
  transaction-Fits :
      (id : ℕ) (now : GenerationModel) (c : Claim F) (w : World F)
      → ((k : ℕ) → RowFits (w.generations k))
      → (k : ℕ) → RowFits ((transaction id now c w).generations k)
  transaction-Fits id now (succeed weather read result) w h k =
      if_split RowFits (k == id) (λ e. tt) (λ e. h k)
  transaction-Fits id now (fail weather read message) w h k =
      if_split RowFits (k == id) (λ e. omega (arith, length-take error_message_max_len message))
        (λ e. h k)

  -- Whatever the workers of a generation save in whatever order: if every stored error message has
  -- at most 2000 characters (`_ERROR_MESSAGE_MAX_LEN`), then so it is afterwards. The column itself is
  -- unbounded.
  pub run_claims-RowFits :
      (id : ℕ) (cs : List (Claim F)) (w : World F)
      → ((k : ℕ) → RowFits (w.generations k))
      → (k : ℕ) → RowFits ((run_claims id cs w).generations k)
  run_claims-RowFits id cs w h k = elim (Option-cases (claimable F id w)) [
    | inl settled ↦
        subst (λ u. RowFits (u.generations k)) (sym (settled_forever id cs w settled)) (h k)
    | inr (now, pending) ↦ elim (run_claims_cases id now cs w pending) [
      | inl same ↦ subst (λ g. RowFits (g k)) (sym same.same_rows) (h k)
      | inr (c, won) ↦ subst (λ g. RowFits (g k)) (sym won.rows) (transaction-Fits id now c w h k)
    ]
  ]
