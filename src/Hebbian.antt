-- ===== src/Hebbian.antt =====
-- The Hebbian engine of a matrix (pkg/synapse/hebbian.go), which links neurons that fire within a window.
-- `updateFractalCluster`, which a strengthening starts in a goroutine, is given as a value to the caller.
-- Each call is one step; a duration is compared in nanoseconds.
pub mod Wiring
mod Linking
pub mod Strengthening
pub mod Pruning
pub mod Cluster
pub mod Movement
mod Cube
pub mod Upkeep
pub mod Runs
mod Firing
mod Examples
use qubicdb.Prelude.{
  ℕ, zero, suc, ◌+◌, ◌-◌, ◌*◌, Bool, true, false, not, ◌&&◌, ◌||◌, Option, none, some, List, [],
  ◌∷◌, ◌++◌, Text, text_discrete, text_eq, ltb, leb, ◌==◌, if◌then◌else◌, length, select,
}
use qubicdb.Prelude.Assoc.{lookup, insert, delete, map_values, select_values}
use qubicdb.Core.Float.{Float, le}
use qubicdb.Core.Neuron.{u64}
use qubicdb.Core.Synapse.{
  Synapse, new_synapse_id, new_synapse, strengthen, decay_synapse, is_alive_synapse,
}
use qubicdb.Core.Matrix.{Matrix}

pub record Hebbian (F : Type 0) : Type 0 where
  pub recent_fires : List (Text × ℕ)
  pub co_activation_window : ℕ
  pub learning_rate : F
  pub forgetting_rate : F
  pub min_weight_to_form : F
  pub max_synapses_per_neuron : ℕ

-- a call of `updateFractalCluster` that was started
pub record Pull (F : Type 0) : Type 0 where
  pub first_id : Text
  pub second_id : Text
  pub strength : F

module _ {F : Type 0} (f : Float F) where
  unfoldable pub new_hebbian : Hebbian F
  new_hebbian = record {
    recent_fires = [];
    co_activation_window = 5000000000;
    learning_rate = f.ratio 1 10;
    forgetting_rate = f.ratio 1 100;
    min_weight_to_form = f.ratio 2 10;
    max_synapses_per_neuron = 50;
  }

  -- `h.matrix.Adjacency[id]`
  unfoldable pub neighbours : Text → Matrix F → List Text
  neighbours id m = elim (lookup text_discrete id m.adjacency) [ none ↦ [] | some l ↦ l ]

  -- the synapse in either direction, with its key
  unfoldable pub find_link : Text → Text → Matrix F → Option (Text × Synapse F)
  find_link from to m = elim (lookup text_discrete (new_synapse_id from to) m.synapses) [
    | some s ↦ some (new_synapse_id from to, s)
    | none ↦ elim (lookup text_discrete (new_synapse_id to from) m.synapses) [
      | some s ↦ some (new_synapse_id to from, s)
      | none ↦ none
    ]
  ]

  -- `h.matrix.Adjacency[from] = append(h.matrix.Adjacency[from], to)`
  unfoldable pub add_to_adjacency : Text → Text → Matrix F → Matrix F
  unfolding neighbours
  add_to_adjacency from to m = record m {
    adjacency = insert text_discrete from (neighbours from m ++ (to ∷ [])) m.adjacency;
  }

  unfoldable pub create_synapse : Hebbian F → Text → Text → ℕ → Matrix F → Matrix F
  unfolding add_to_adjacency
  create_synapse h from to now m = elim (lookup text_discrete (new_synapse_id from to) m.synapses) [
    | some _ ↦ m
    | none ↦
        let stored = record m {
          synapses =
              insert text_discrete (new_synapse_id from to)
                (new_synapse f from to h.min_weight_to_form now) m.synapses;
        } in
        record (add_to_adjacency to from (add_to_adjacency from to stored)) {
          modified_at = now;
          version = u64 (m.version + 1);
        }
  ]

  -- `learningRate * (1 - weight)`
  abbrev pub delta : Hebbian F → Synapse F → F
  delta h s = f.mul h.learning_rate (f.sub (f.ratio 1 1) s.weight)

  unfoldable pub strengthen_or_create :
      Hebbian F → Text → Text → ℕ → Matrix F → Matrix F × List (Pull F)
  strengthen_or_create h from to now m = elim (find_link from to m) [
    | some (k, s) ↦ (
      record m { synapses = insert text_discrete k (strengthen f (delta h s) now s) m.synapses },
      (record { first_id = from; second_id = to; strength = f.mul (delta h s) (f.ratio 1 10) })
          ∷ [],
    )
    | none ↦ (
      (if ltb (length (neighbours from m)) h.max_synapses_per_neuron
            && ltb (length (neighbours to m)) h.max_synapses_per_neuron
          then create_synapse h from to now m
          else m),
      [],
    )
  ]

  -- the ids that fired within the window, but for the one that fires now
  unfoldable pub co_activated : ℕ → Text → ℕ → List (Text × ℕ) → List Text
  co_activated window id now [] = []
  co_activated window id now ((j, fired_at) ∷ l) =
      let rest = co_activated window id now l in
      if not (text_eq j id) && leb (now - fired_at) window then j ∷ rest else rest

  unfoldable pub record_fire : Text → ℕ → Hebbian F → Hebbian F
  record_fire id now h = record h {
    recent_fires =
        select_values (λ t. leb (now - t) (h.co_activation_window * 2))
          (insert text_discrete id now h.recent_fires);
  }

  unfoldable pub link_all : Hebbian F → Text → List Text → ℕ → Matrix F → Matrix F × List (Pull F)
  link_all h id [] now m = (m, [])
  link_all h id (j ∷ js) now m =
      let (m', started) = strengthen_or_create h id j now m in
      let (m'', more) = link_all h id js now m' in (m'', started ++ more)

  unfoldable pub on_neuron_fired :
      Text → ℕ → Hebbian F → Matrix F → Hebbian F × (Matrix F × List (Pull F))
  unfolding record_fire co_activated
  on_neuron_fired id now h m = (
    record_fire id now h,
    link_all h id (co_activated h.co_activation_window id now h.recent_fires) now m,
  )

  unfoldable pub decay_all : Hebbian F → ℕ → Matrix F → Matrix F
  decay_all h now m = record m {
    synapses = map_values (decay_synapse f h.forgetting_rate now) m.synapses;
  }

  unfoldable pub remove_from_adjacency : Text → Text → Matrix F → Matrix F
  unfolding neighbours
  remove_from_adjacency from remove m = record m {
    adjacency =
        insert text_discrete from (select (λ j. not (text_eq j remove)) (neighbours from m))
          m.adjacency;
  }

  unfoldable pub prune_one : Text → Synapse F → Matrix F → Matrix F
  unfolding remove_from_adjacency
  prune_one k s m =
      let unlinked =
        remove_from_adjacency s.to_id s.from_id (remove_from_adjacency s.from_id s.to_id m) in
      record unlinked { synapses = delete text_discrete k m.synapses }

  -- the loop over the synapses, and how many it removed
  unfoldable pub prune_each : List (Text × Synapse F) → Matrix F → Matrix F × ℕ
  unfolding prune_one
  prune_each [] m = (m, 0)
  prune_each ((k, s) ∷ l) m =
      let alive = is_alive_synapse f s in
      let (m', n) = prune_each l (if alive then m else prune_one k s m) in
      (m', (if alive then n else n + 1))

  unfoldable pub prune_dead_synapses : ℕ → Matrix F → Matrix F × ℕ
  prune_dead_synapses now m =
      let (m', pruned) = prune_each m.synapses m in
      (
        (if ltb 0 pruned
            then record m' { modified_at = now; version = u64 (m'.version + 1) }
            else m'),
        pruned,
      )

  unfoldable pub get_synapse_weight : Text → Text → Matrix F → F
  unfolding find_link
  get_synapse_weight from to m = elim (find_link from to m) [
    | some (_, s) ↦ s.weight
    | none ↦ f.ratio 0 1
  ]

  unfoldable pub get_connected_neurons : Text → F → Matrix F → List Text
  unfolding neighbours get_synapse_weight
  get_connected_neurons id min_weight m =
      select (λ j. le f min_weight (get_synapse_weight id j m)) (neighbours id m)

  -- More learning at fewer than 3 synapses to a neuron, less at more than 20.
  unfoldable pub self_tune : Matrix F → Hebbian F → Hebbian F
  self_tune m h =
      if length m.neurons == 0
      then h
      else (let average =
            f.div (f.ratio (length m.synapses * 2) 1) (f.ratio (length m.neurons) 1) in
          let faster =
            if f.lt average (f.ratio 3 1)
            then record h {
              learning_rate = f.fmin (f.ratio 3 10) (f.mul h.learning_rate (f.ratio 11 10));
              min_weight_to_form =
                  f.fmax (f.ratio 1 10) (f.mul h.min_weight_to_form (f.ratio 9 10));
            }
            else h in
          if f.lt (f.ratio 20 1) average
          then record faster {
            learning_rate = f.fmax (f.ratio 5 100) (f.mul faster.learning_rate (f.ratio 9 10));
            min_weight_to_form =
                f.fmin (f.ratio 5 10) (f.mul faster.min_weight_to_form (f.ratio 11 10));
          }
          else faster)
