-- ===== src/Engine/Examples.antt =====
-- The theorems on the matrix engine, applied to concrete data.
use qubicdb.Prelude.{ℕ, ◌≡◌, refl, none, some, List, [], ◌∷◌, bytes, text_discrete, text_eq, arith}
use qubicdb.Prelude.Assoc.{lookup, insert}
use qubicdb.Core.Fixed.{fixed}
use qubicdb.Core.Content.{validate_neuron_content}
use qubicdb.Core.Neuron.{Neuron, new_neuron}
use qubicdb.Core.Synapse.{new_synapse}
use qubicdb.Core.Matrix.{Matrix, default_bounds, new_matrix}
use qubicdb.Engine.{
  Engine, Draw, ok, fire_at, add_neuron, delete_neuron, find_by_hash, make_neuron, store_neuron,
  add_new, embed, label, check_dimension_expansion,
}
use qubicdb.Engine.Dimension.{IsFitted}
use qubicdb.Engine.Writing.{OneAtMost, add_neuron_twice}
use qubicdb.Engine.Runs.{
  serve, Request, add, get, update, forget, serve_all, Holds, serve_all-IsFitted-Holds,
}
use qubicdb.Engine.Deletion.{IsForgotten, Keeps, delete_neuron-IsForgotten, delete_neuron-Keeps}

-- an engine without vectorizer whose text functions do nothing
abbrev plain : Engine ℕ
plain = record {
  text = record {
    trim_space = λ t. t;
    to_lower = λ t. t;
    fields = λ t. t ∷ [];
    hash_content = λ t. t;
  };
  content_limit = 16;
  embed_text = none;
  analyze = none;
}

abbrev draw_a : Draw ℕ
draw_a = record {
  new_id = bytes "a";
  now = 10;
  coordinate = λ i. i;
  expansion = λ t i. i;
  order = λ l. l;
}

abbrev draw_b : Draw ℕ
draw_b = record {
  new_id = bytes "b";
  now = 20;
  coordinate = λ i. i;
  expansion = λ t i. i;
  order = λ l. l;
}

abbrev requests : List (Request ℕ)
requests =
    add (bytes "tea") none [] draw_a
    ∷ add (bytes "milk") (some (bytes "a")) [] draw_b
    ∷ get (bytes "a") 30
    ∷ update (bytes "b") (bytes "oat milk") 40
    ∷ forget (bytes "a") 50
    ∷ []

serve_all-IsFitted-Holds_example :
    IsFitted (serve_all fixed plain requests (new_matrix fixed (bytes "u") default_bounds 0))
    × Holds default_bounds
        (serve_all fixed plain requests (new_matrix fixed (bytes "u") default_bounds 0))
unfolding default_bounds
serve_all-IsFitted-Holds_example =
    serve_all-IsFitted-Holds fixed plain requests (bytes "u") default_bounds 0 (omega arith)

abbrev empty_matrix : Matrix ℕ
empty_matrix = new_matrix fixed (bytes "u") default_bounds 0

empty_matrix-IsFitted : IsFitted empty_matrix
unfolding default_bounds new_matrix
empty_matrix-IsFitted = record {
  ids_unique = tt;
  positions = tt;
  above_min = omega arith;
  below_max = omega arith;
}

empty_matrix-OneAtMost : OneAtMost fixed (bytes "tea") empty_matrix
unfolding new_matrix lookup
empty_matrix-OneAtMost = λ i j h g. absurd (ground arith)

add_neuron_twice_example :
    add_neuron fixed plain
      (bytes "tea")
      (some (bytes "b"))
      []
      draw_b
      (add_neuron fixed plain (bytes "tea") none [] draw_a empty_matrix).0
    ≡ (
      fire_at fixed
          (bytes "a")
          20
          (add_neuron fixed plain (bytes "tea") none [] draw_a empty_matrix).0,
      ok (bytes "a"),
    )
unfolding add_neuron add_new check_dimension_expansion find_by_hash validate_neuron_content
    store_neuron new_matrix default_bounds insert make_neuron embed label
add_neuron_twice_example =
    add_neuron_twice fixed plain (bytes "tea") none (some (bytes "b")) [] [] draw_a draw_b
      empty_matrix (bytes "a") empty_matrix-IsFitted empty_matrix-OneAtMost (λ l u. (u, λ k. refl))
      (λ l u. (u, λ k. refl)) refl (omega arith)

abbrev two : List (Request ℕ)
two = add (bytes "tea") none [] draw_a ∷ add (bytes "milk") (some (bytes "a")) [] draw_b ∷ []

abbrev two_neurons : Matrix ℕ
two_neurons = serve_all fixed plain two empty_matrix

-- two neurons and a synapse between them
abbrev linked : Matrix ℕ
linked = record two_neurons {
  synapses = (bytes "a:b", new_synapse fixed (bytes "a") (bytes "b") 200 30) ∷ [];
  adjacency = (bytes "a", bytes "b" ∷ []) ∷ (bytes "b", bytes "a" ∷ []) ∷ [];
}

linked-IsFitted : IsFitted linked
unfolding default_bounds
linked-IsFitted =
    let v =
      (serve_all-IsFitted-Holds fixed plain two (bytes "u") default_bounds 0 (omega arith)).0 in
    record {
      ids_unique = v.ids_unique;
      positions = v.positions;
      above_min = v.above_min;
      below_max = v.below_max;
    }

abbrev tea : Neuron ℕ
tea = make_neuron fixed plain (bytes "tea") none [] draw_a empty_matrix

tea-stored : lookup text_discrete (bytes "a") linked.neurons ≡ some tea
unfolding serve_all serve add_neuron add_new check_dimension_expansion find_by_hash
    validate_neuron_content store_neuron new_matrix default_bounds insert make_neuron embed label
    lookup text_eq new_neuron
tea-stored = refl

delete_neuron-IsForgotten_example :
    IsForgotten fixed (bytes "a") (delete_neuron fixed (bytes "a") 50 linked).0
    × ((delete_neuron fixed (bytes "a") 50 linked).1 ≡ ok (bytes "a"))
unfolding lookup
delete_neuron-IsForgotten_example =
    delete_neuron-IsForgotten fixed (bytes "a") 50 linked tea tea-stored (refl, tt)

delete_neuron-Keeps_example :
    Keeps fixed (bytes "a") linked (delete_neuron fixed (bytes "a") 50 linked).0
unfolding lookup
delete_neuron-Keeps_example =
    delete_neuron-Keeps fixed (bytes "a") 50 linked tea tea-stored linked-IsFitted (refl, tt)
