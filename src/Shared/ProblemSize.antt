-- ===== src/Shared/ProblemSize.antt =====
-- shared/problem_size.py: the limit on participants times timesteps.
use allocation_key_generatio.Base.{
  ℕ, ◌*◌, ◌≤◌, ◌≡◌, ◌↔◌, Option, none, some, ◌++◌, arith, leb, if◌then◌else◌,
}
use allocation_key_generatio.Base.Text.{Text, codes, decimal}

abbrev pub max_problem_cells : ℕ
max_problem_cells = 400000

abbrev pub oversize_detail : ℕ → ℕ → Text
oversize_detail participants timesteps =
    decimal participants
    ++ (codes " participants x "
        ++ (decimal timesteps
            ++ (codes " timesteps = "
                ++ (decimal (participants * timesteps)
                    ++ (codes " values exceed the "
                        ++ (decimal max_problem_cells
                            ++ codes " limit; shorten the period or reduce the participants"))))))

unfoldable pub too_large : ℕ → ℕ → Option Text
too_large participants timesteps =
    if leb (participants * timesteps) max_problem_cells
    then none
    else some (oversize_detail participants timesteps)

-- An input passes exactly when its cells do not exceed the limit.
pub too_large-eq-none_iff : (n t : ℕ) → (too_large n t ≡ none) ↔ (n * t ≤ max_problem_cells)
unfolding too_large
too_large-eq-none_iff n t = ((λ h. ground arith), (λ h. ground arith))
