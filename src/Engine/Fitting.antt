-- ===== src/Engine/Fitting.antt =====
-- Every operation of the engine keeps the positions at the dimension of the matrix, and the dimension
-- within its bounds (pkg/engine/matrix_ops.go).
use qubicdb.Prelude.{
  ℕ, ◌+◌, ◌≡◌, refl, Option, some, List, Text, text_discrete, leb, length, Bool-cases, Option-cases,
  inl, inr,
}
use qubicdb.Prelude.Assoc.{
  lookup, insert, insert-Unique, delete-Unique, AllEntries-lookup, AllEntries-insert,
  AllEntries-delete,
}
use qubicdb.Core.Float.{Float}
use qubicdb.Core.Content.{validate_neuron_content}
use qubicdb.Core.Neuron.{Neuron, fire, u64}
use qubicdb.Core.Matrix.{Matrix}
use qubicdb.Engine.{
  Engine, Draw, find_by_hash, make_neuron, store_neuron, fire_at, add_new, add_neuron, get_neuron,
  update_neuron, remove_neuron, delete_neuron,
}
use qubicdb.Engine.Dimension.{
  make_neuron-Fits, check_dimension_expansion-IsFitted, check_dimension_contraction-IsFitted,
  IsFitted, Fits,
}

module _ {F : Type 0} (f : Float F) where
  -- a neuron that keeps its id and its coordinates takes the place of another
  pub replace-IsFitted :
      (m : Matrix F) (id : Text) (n : Neuron F) (activations active modified version : ℕ)
      → IsFitted m
      → Fits m.current_dim id n
      → IsFitted (record m {
        neurons = insert text_discrete id n m.neurons;
        total_activations = activations;
        last_activity = active;
        modified_at = modified;
        version = version;
      })
  replace-IsFitted m id n activations active modified version v fits = record {
    ids_unique = insert-Unique text_discrete id n m.neurons v.ids_unique;
    positions =
        AllEntries-insert text_discrete (Fits m.current_dim) m.neurons id n v.positions fits;
    above_min = v.above_min;
    below_max = v.below_max;
  }

  fire-Fits :
      (m : Matrix F) (id : Text) (n : Neuron F) (now : ℕ)
      → IsFitted m
      → lookup text_discrete id m.neurons ≡ some n
      → Fits m.current_dim id (fire f now n)
  unfolding fire
  fire-Fits m id n now v h =
      AllEntries-lookup text_discrete (Fits m.current_dim) m.neurons id n v.positions h

  pub fire_at-IsFitted :
      (id : Text) (now : ℕ) (m : Matrix F) → IsFitted m → IsFitted (fire_at f id now m)
  unfolding fire_at
  fire_at-IsFitted id now m v = elim (Option-cases (lookup text_discrete id m.neurons)) [
    | inl h ↦ rw (h, fire_at) v
    | inr (n, h) ↦
        rw (h, fire_at)
          (replace-IsFitted m id (fire f now n) m.total_activations m.last_activity m.modified_at
            m.version v (fire-Fits m id n now v h))
  ]

  store_neuron-IsFitted :
      (n : Neuron F) (now : ℕ) (m : Matrix F)
      → IsFitted m
      → length n.position ≡ m.current_dim
      → IsFitted (store_neuron f n now m)
  unfolding store_neuron
  store_neuron-IsFitted n now m v h = record {
    ids_unique = insert-Unique text_discrete n.id n m.neurons v.ids_unique;
    positions =
        AllEntries-insert text_discrete (Fits m.current_dim) m.neurons n.id n v.positions (refl, h);
    above_min = v.above_min;
    below_max = v.below_max;
  }

  remove_neuron-IsFitted :
      (id : Text) (now : ℕ) (m : Matrix F) → IsFitted m → IsFitted (remove_neuron f id now m)
  unfolding remove_neuron
  remove_neuron-IsFitted id now m v = record {
    ids_unique = delete-Unique text_discrete id m.neurons v.ids_unique;
    positions = AllEntries-delete text_discrete (Fits m.current_dim) m.neurons id v.positions;
    above_min = v.above_min;
    below_max = v.below_max;
  }

  pub add_neuron-IsFitted :
      (e : Engine F) (content : Text) (parent : Option Text) (metadata : List (Text × Text))
      (draw : Draw F) (m : Matrix F)
      → IsFitted m
      → IsFitted (add_neuron f e content parent metadata draw m).0
  unfolding add_neuron add_new
  add_neuron-IsFitted e content parent metadata draw m v =
      elim (Bool-cases (leb m.bounds.max_neurons (length m.neurons))) [
        | inl full ↦ rw full v
        | inr room ↦ elim (Option-cases (validate_neuron_content e.text e.content_limit content)) [
          | inr (x, h) ↦ rw (room, h) v
          | inl h ↦
              elim (Option-cases
                (find_by_hash f (e.text.hash_content content) (draw.order m.neurons))) [
                  | inr (id, g) ↦ rw (room, h, g) (fire_at-IsFitted id draw.now m v)
                  | inl g ↦
                      rw (room, h, g)
                        (check_dimension_expansion-IsFitted f draw.expansion _ (
                          store_neuron-IsFitted (make_neuron f e content parent metadata draw m)
                            draw.now m v
                            (make_neuron-Fits f e content parent metadata draw m v.positions).1))
                ]
        ]
      ]

  pub get_neuron-IsFitted :
      (id : Text) (now : ℕ) (m : Matrix F) → IsFitted m → IsFitted (get_neuron f id now m).0
  unfolding get_neuron
  get_neuron-IsFitted id now m v = elim (Option-cases (lookup text_discrete id m.neurons)) [
    | inl h ↦ rw (h, get_neuron) v
    | inr (n, h) ↦
        rw (h, get_neuron)
          (replace-IsFitted m id (fire f now n) (u64 (m.total_activations + 1)) now m.modified_at
            m.version v (fire-Fits m id n now v h))
  ]

  pub update_neuron-IsFitted :
      (e : Engine F) (id new_content : Text) (now : ℕ) (m : Matrix F)
      → IsFitted m
      → IsFitted (update_neuron f e id new_content now m).0
  unfolding update_neuron fire
  update_neuron-IsFitted e id new_content now m v =
      elim (Option-cases (lookup text_discrete id m.neurons)) [
        | inl h ↦ rw (h, update_neuron) v
        | inr (n, h) ↦
            elim (Option-cases (validate_neuron_content e.text e.content_limit new_content)) [
              | inr (x, g) ↦ rw (h, g, update_neuron) v
              | inl g ↦
                  rw (h, g, update_neuron)
                    (replace-IsFitted m id _ m.total_activations m.last_activity now
                      (u64 (m.version + 1)) v (fire-Fits m id n now v h))
            ]
      ]

  pub delete_neuron-IsFitted :
      (id : Text) (now : ℕ) (m : Matrix F) → IsFitted m → IsFitted (delete_neuron f id now m).0
  unfolding delete_neuron
  delete_neuron-IsFitted id now m v = elim (Option-cases (lookup text_discrete id m.neurons)) [
    | inl h ↦ rw (h, delete_neuron) v
    | inr (n, h) ↦
        rw (h, delete_neuron)
          (check_dimension_contraction-IsFitted f _ (remove_neuron-IsFitted id now m v))
  ]
