-- ===== src/Core/Matrix.antt =====
-- The memory space of one index (pkg/core/types.go).
use qubicdb.Prelude.{ℕ, List, [], Text}
use qubicdb.Core.Float.{Float}
use qubicdb.Core.Neuron.{Neuron}
use qubicdb.Core.Synapse.{Synapse}

pub record MatrixBounds : Type 0 where
  pub min_dimension : ℕ
  pub max_dimension : ℕ
  pub min_neurons : ℕ
  pub max_neurons : ℕ

unfoldable pub default_bounds : MatrixBounds
default_bounds = record {
  min_dimension = 3;
  max_dimension = 1000;
  min_neurons = 0;
  max_neurons = 1000000;
}

pub record Matrix (F : Type 0) : Type 0 where
  pub index_id : Text
  pub bounds : MatrixBounds
  pub current_dim : ℕ
  pub neurons : List (Text × Neuron F)
  pub synapses : List (Text × Synapse F)
  pub adjacency : List (Text × List Text)
  pub decay_rate : F
  pub link_threshold : F
  pub consol_frequency : ℕ
  pub total_activations : ℕ
  pub last_activity : ℕ
  pub last_consolidation : ℕ
  pub version : ℕ
  pub created_at : ℕ
  pub modified_at : ℕ

unfoldable pub new_matrix : {F : Type 0} → Float F → Text → MatrixBounds → ℕ → Matrix F
new_matrix f index_id bounds now = record {
  index_id = index_id;
  bounds = bounds;
  current_dim = bounds.min_dimension;
  neurons = [];
  synapses = [];
  adjacency = [];
  decay_rate = f.ratio 1 10;
  link_threshold = f.ratio 3 10;
  consol_frequency = 300000000000;
  total_activations = 0;
  last_activity = now;
  last_consolidation = now;
  version = 1;
  created_at = now;
  modified_at = now;
}
