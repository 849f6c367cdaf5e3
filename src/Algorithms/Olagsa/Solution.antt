-- ===== src/Algorithms/Olagsa/Solution.antt =====
-- _impl/consumer.py, _impl/iteration.py, _impl/key.py and _impl/solution.py: what one solve yields
-- and how it is read.
use allocation_key_generatio.Base.{List, [], ◌∷◌, map, length}
use allocation_key_generatio.Base.Num.{Num, sum, zeros, zip_with, scale}
use allocation_key_generatio.Algorithms.BruteForce.Iteration.{first_row}
use allocation_key_generatio.Algorithms.Olagsa.Outside.{Outside}

pub record Consumer (F : Num) : Type 0 where
  pub consumption : List F.Real
  pub energy_allocated_percentage : F.Real
  pub money_committed : F.Real
  pub consumption_total : F.Real
  pub energy_allocated : List F.Real
  pub energy_allocated_total : F.Real
  pub energy_allocated_consumed : List F.Real
  pub energy_allocated_consumed_total : F.Real
  pub effective_consumption : List F.Real
  pub residual_volume : List F.Real
  pub residual_volume_total : F.Real
  pub surplus : List F.Real
  pub surplus_total : F.Real

pub record Iteration (F : Num) : Type 0 where
  pub consumers : List (Consumer F)
  pub energy_allocated : List (List F.Real)
  pub energy_allocated_percentage : F.Real
  pub energy_allocated_total : F.Real
  pub consumption_total : F.Real
  pub surplus_total : F.Real

-- A `Solution` whose status is "optimal". `VAP` is diagonal: the list is its diagonal.
pub record Solution (F : Num) : Type 0 where
  pub vap : List F.Real
  pub va : List (List F.Real)
  pub C : List (List F.Real)
  pub vapa : List (List F.Real)
  pub E : List (List F.Real)

-- `Key(iterations)`
abbrev pub Key : Num → Type 0
Key F = List (Iteration F)

module _ (F : Num) where
  open F use {Real, nought, plus, minus, over, negate, from_int, minimum, np_sum}

  -- `Consumer(consumption, energy_allocated_percentage, money_committed)`
  abbrev pub new_consumer : List Real → Real → Real → Consumer F
  new_consumer consumption pct money =
      let z = zeros F (length consumption) in
      record {
        consumption = consumption;
        energy_allocated_percentage = pct;
        money_committed = money;
        consumption_total = nought;
        energy_allocated = z;
        energy_allocated_total = nought;
        energy_allocated_consumed = z;
        energy_allocated_consumed_total = nought;
        effective_consumption = consumption;
        residual_volume = z;
        residual_volume_total = nought;
        surplus = z;
        surplus_total = nought;
      }

  -- `Iteration(consumers, energy_allocated)`
  abbrev pub new_iteration : List (Consumer F) → List (List Real) → Iteration F
  new_iteration consumers energy = record {
    consumers = consumers;
    energy_allocated = energy;
    energy_allocated_percentage = nought;
    energy_allocated_total = nought;
    consumption_total = nought;
    surplus_total = nought;
  }

  abbrev pub compute_surplus_total : Iteration F → Iteration F
  compute_surplus_total it = record it {
    surplus_total = sum F (map (λ c. c.surplus_total) it.consumers);
  }

  abbrev pub compute_energy_allocated_consumed : Consumer F → Consumer F
  compute_energy_allocated_consumed c =
      let consumed = zip_with F minimum c.consumption c.energy_allocated in
      record c {
        energy_allocated_consumed = consumed;
        energy_allocated_consumed_total = np_sum consumed;
      }

  module _ (L : Outside F) where
    -- `(d + np.abs(d)) / 2`
    abbrev pub positive_part : Real → Real
    positive_part d = over (plus d (L.absolute d)) (from_int 2)

    -- `(-d + np.abs(d)) / 2`
    abbrev pub negative_part : Real → Real
    negative_part d = over (plus (negate d) (L.absolute d)) (from_int 2)

    abbrev pub compute_residual_volume_and_surplus : Consumer F → Consumer F
    compute_residual_volume_and_surplus c =
        let diff = zip_with F minus c.consumption c.energy_allocated in
        let residual = map positive_part diff in
        let surplus = map negative_part diff in
        record c {
          residual_volume = residual;
          surplus = surplus;
          residual_volume_total = np_sum residual;
          surplus_total = np_sum surplus;
        }

    -- One round of `_compute_consumer_data`; `energy` is the iteration's `energy_allocated`.
    abbrev pub compute_one : List (List Real) → Consumer F → Consumer F
    compute_one energy c =
        let allocated = scale F (first_row energy) c.energy_allocated_percentage in
        compute_residual_volume_and_surplus (
          compute_energy_allocated_consumed (record c {
            consumption_total = np_sum c.consumption;
            energy_allocated = allocated;
            energy_allocated_total = np_sum allocated;
          }))

    abbrev pub compute_consumer_data : Iteration F → Iteration F
    compute_consumer_data it = record it {
      consumers = map (compute_one it.energy_allocated) it.consumers;
    }

    -- The consumers of `to_iteration`, one for each row; no money is committed by its callers.
    abbrev pub solved_consumers : List (List Real) → List Real → List (Consumer F)
    solved_consumers [] pcts = []
    solved_consumers (row ∷ rows) [] = []
    solved_consumers (row ∷ rows) (pct ∷ pcts) =
        new_consumer row pct nought ∷ solved_consumers rows pcts

    unfoldable pub to_iteration : Solution F → Real → Iteration F
    to_iteration sol share =
        let it = compute_consumer_data (new_iteration (solved_consumers sol.C sol.vap) sol.va) in
        compute_surplus_total (record it { energy_allocated_percentage = share })
