-- ===== src/Algorithms/BruteForce/Iteration.antt =====
-- _impl/consumer.py, _impl/iteration.py and _impl/node.py. Arrays are values here: every array that
-- the code writes in place was made by that function, and `copy` shares only arrays that nobody
-- writes.
use allocation_key_generatio.Base.{ℕ, List, [], ◌∷◌, map, if◌then◌else◌, length}
use allocation_key_generatio.Base.Text.{Text}
use allocation_key_generatio.Base.Num.{Num, below, sum, zeros, zip_with}

pub record Consumer (F : Num) : Type 0 where
  pub consumption : List F.Real
  pub energy_allocated_percentage : F.Real
  pub energy_allocated_percentage_time : List F.Real
  pub energy_allocated : List F.Real
  pub energy_allocated_consumed : List F.Real
  pub energy_allocated_consumed_total : F.Real
  pub residual_volume : List F.Real
  pub residual_volume_total : F.Real
  pub surplus : List F.Real
  pub surplus_total : F.Real

pub record IterationSummary (F : Num) : Type 0 where
  pub energy_allocated_percentage : F.Real
  pub surplus_total : F.Real
  pub consumer_percentages : List F.Real

pub record Iteration (F : Num) : Type 0 where
  pub consumers : List (Consumer F)
  pub energy_allocated : List (List F.Real)
  pub energy_allocated_percentage : F.Real
  pub consumption_total : F.Real
  pub surplus : List F.Real
  pub surplus_total : F.Real

-- The members of `ALGO_NAMES`
pub data AlgoName : Type 0 where
  egalitaire prorata_total prorata : AlgoName

-- `Node`, and a list of nodes
mutual
  pub data Node (F : Num) : Type 0 where
    node : (name : Text) (summary : IterationSummary F) (children : Nodes F) → Node F

  pub data Nodes (F : Num) : Type 0 where
    nil : Nodes F
    cons : Node F → Nodes F → Nodes F

-- `energy_allocated[0]`
abbrev pub first_row {ℓ} : {A : Type ℓ} → List (List A) → List A
first_row [] = []
first_row (row ∷ rows) = row

module _ (F : Num) where
  abbrev pub append_node : Nodes F → Node F → Nodes F
  append_node nil child = cons child nil
  append_node (cons n ns) child = cons n (append_node ns child)

  -- `Node(name, summary)` and `add_child`
  abbrev pub new_node : Text → IterationSummary F → Node F
  new_node name summary = node name summary nil

  abbrev pub add_child : Node F → Node F → Node F
  add_child (node name summary children) child = node name summary (append_node children child)

  -- `Consumer(consumption)`
  abbrev pub new_consumer : List F.Real → F.Real → Consumer F
  new_consumer consumption pct =
      let z = zeros F (length consumption) in
      record {
        consumption = consumption;
        energy_allocated_percentage = pct;
        energy_allocated_percentage_time = z;
        energy_allocated = z;
        energy_allocated_consumed = z;
        energy_allocated_consumed_total = F.nought;
        residual_volume = z;
        residual_volume_total = F.nought;
        surplus = z;
        surplus_total = F.nought;
      }

  abbrev pub compute_residual_volume_and_surplus : Consumer F → Consumer F
  compute_residual_volume_and_surplus c =
      let diff = zip_with F F.minus c.consumption c.energy_allocated in
      let residual = map (F.maximum F.nought) diff in
      let surplus = map (λ d. F.maximum F.nought (F.negate d)) diff in
      record c {
        residual_volume = residual;
        surplus = surplus;
        residual_volume_total = F.np_sum residual;
        surplus_total = F.np_sum surplus;
      }

  abbrev pub compute_energy_allocated_consumed : Consumer F → Consumer F
  compute_energy_allocated_consumed c =
      let consumed = zip_with F F.minimum c.consumption c.energy_allocated in
      record c {
        energy_allocated_consumed = consumed;
        energy_allocated_consumed_total = F.np_sum consumed;
      }

  -- `Consumer.copy`
  abbrev pub copy_consumer : Consumer F → Consumer F
  copy_consumer c = record (new_consumer c.consumption c.energy_allocated_percentage) {
    energy_allocated_percentage_time = c.energy_allocated_percentage_time;
    energy_allocated = c.energy_allocated;
    energy_allocated_consumed = c.energy_allocated_consumed;
    energy_allocated_consumed_total = c.energy_allocated_consumed_total;
    residual_volume = c.residual_volume;
    residual_volume_total = c.residual_volume_total;
    surplus = c.surplus;
    surplus_total = c.surplus_total;
  }

  -- `Iteration(consumers, energy_allocated)`
  abbrev pub new_iteration : List (Consumer F) → List (List F.Real) → Iteration F
  new_iteration consumers energy = record {
    consumers = consumers;
    energy_allocated = energy;
    energy_allocated_percentage = F.nought;
    consumption_total = F.nought;
    surplus = zeros F (length (first_row energy));
    surplus_total = F.nought;
  }

  abbrev pub compute_consumption_total : Iteration F → Iteration F
  compute_consumption_total it = record it {
    consumption_total = sum F (map (λ c. F.np_sum c.consumption) it.consumers);
  }

  -- `len(self.consumers[0].surplus)`
  abbrev pub num_surplus : List (Consumer F) → ℕ
  num_surplus [] = 0
  num_surplus (c ∷ cs) = length c.surplus

  -- `out += c.surplus` for every consumer
  abbrev pub add_surplus : List F.Real → List (Consumer F) → List F.Real
  add_surplus out [] = out
  add_surplus out (c ∷ cs) = add_surplus (zip_with F F.plus out c.surplus) cs

  abbrev pub compute_surplus : Iteration F → Iteration F
  compute_surplus it = record it {
    surplus = add_surplus (zeros F (num_surplus it.consumers)) it.consumers;
  }

  abbrev pub compute_surplus_total : Iteration F → Iteration F
  compute_surplus_total it = record it {
    surplus_total = sum F (map (λ c. c.surplus_total) it.consumers);
  }

  -- The share that a key reports for a consumer
  abbrev pub reported_percentage : F.Real → Consumer F → F.Real
  reported_percentage total_profile c =
      if F.at_most F.nought c.energy_allocated_percentage
      then c.energy_allocated_percentage
      else if below F F.nought total_profile
      then F.over (F.np_sum c.energy_allocated) total_profile
      else F.nought

  -- `sum(profile) if profile.size else 0.0`
  abbrev pub profile_sum : List F.Real → F.Real
  profile_sum [] = F.nought
  profile_sum (x ∷ xs) = F.np_sum (x ∷ xs)

  abbrev pub summary : Iteration F → IterationSummary F
  summary it = record {
    energy_allocated_percentage = it.energy_allocated_percentage;
    surplus_total = it.surplus_total;
    consumer_percentages =
        map (reported_percentage (profile_sum (first_row it.energy_allocated))) it.consumers;
  }

  -- `Iteration.copy`
  abbrev pub copy : Iteration F → Iteration F
  copy it = record (new_iteration (map copy_consumer it.consumers) it.energy_allocated) {
    energy_allocated_percentage = it.energy_allocated_percentage;
    consumption_total = it.consumption_total;
    surplus = it.surplus;
    surplus_total = it.surplus_total;
  }
