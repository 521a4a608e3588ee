-- ===== src/Worker/Examples.antt =====
-- The theorems on the worker, applied to concrete data.
use qubicdb.Prelude.{
  ℕ, ◌≡◌, refl, false, text_discrete, none, some, List, [], ◌∷◌, bytes, text_eq, mentions, arith,
  length,
}
use qubicdb.Prelude.Assoc.{lookup}
use qubicdb.Core.Fixed.{fixed}
use qubicdb.Core.Matrix.{Matrix, default_bounds, new_matrix}
use qubicdb.Core.Synapse.{NoColon}
use qubicdb.Engine.{Engine, Draw}
use qubicdb.Engine.Dimension.{IsFitted}
use qubicdb.Hebbian.{Hebbian, new_hebbian}
use qubicdb.Hebbian.Wiring.{IsWired}
use qubicdb.Hebbian.Runs.{new_hebbian-Run-Sound, rest}
use qubicdb.Search.Query.{Searcher}
use qubicdb.Worker.Weeding.{IsWeeded, prune-IsWeeded}
use qubicdb.Worker.Keeping.{IsHealthy}
use qubicdb.Worker.Health.{IsWired-Linked}
use qubicdb.Core.Neuron.{new_neuron}
use qubicdb.Worker.{
  prune, BrainWorker, Operation, op_write, op_consolidate, op_shutdown, op_prune, new_brain_worker,
  engine_part, process_op, drain_ops,
}
use qubicdb.Worker.Processing.{PlainQueue, Healthy, drain_ops-Healthy, new_brain_worker-Healthy}

-- an engine and a searcher whose text functions do nothing
abbrev plain : Engine ℕ
plain = record {
  text = record {
    trim_space = λ t. t;
    to_lower = λ t. t;
    fields = λ t. t ∷ [];
    hash_content = λ t. t;
  };
  content_limit = 16;
  embed_text = none;
  analyze = none;
}

abbrev searcher : Searcher ℕ
searcher = record {
  scorer = record {
    text = plain.text;
    unicode = record { runes = λ t. t; lower_rune = λ r. r };
    split_words = λ t. t ∷ [];
    tanh = λ x. x;
    log10 = λ x. 0;
    cosine = λ v w. 0;
  };
  clean_text = λ t. t;
  embed_text = none;
  alpha = 600;
  query_repeat = 2;
  analyze_label = none;
  metadata = [];
  strict = false;
}

abbrev draw_a : Draw ℕ
draw_a = record {
  new_id = bytes "a";
  now = 10;
  coordinate = λ i. i;
  expansion = λ t i. i;
  order = λ l. l;
}

abbrev draw_b : Draw ℕ
draw_b = record {
  new_id = bytes "b";
  now = 20;
  coordinate = λ i. i;
  expansion = λ t i. i;
  order = λ l. l;
}

abbrev empty_matrix : Matrix ℕ
empty_matrix = new_matrix fixed (bytes "u") default_bounds 0

abbrev worker : BrainWorker ℕ
worker = new_brain_worker fixed (bytes "u") empty_matrix plain searcher 0

empty_matrix-IsFitted : IsFitted empty_matrix
unfolding default_bounds new_matrix
empty_matrix-IsFitted = record {
  ids_unique = tt;
  positions = tt;
  above_min = omega arith;
  below_max = omega arith;
}

empty_matrix-IsWired : IsWired fixed 50 empty_matrix
unfolding new_hebbian
empty_matrix-IsWired =
    (new_hebbian-Run-Sound fixed (bytes "u") default_bounds 0 (new_hebbian fixed, empty_matrix)
      (rest (new_hebbian fixed, empty_matrix))).wired

worker-Healthy : Healthy fixed worker
worker-Healthy =
    new_brain_worker-Healthy fixed (bytes "u") empty_matrix plain searcher 0 empty_matrix-IsFitted
      empty_matrix-IsWired

abbrev queue : List (Operation ℕ × ℕ)
queue =
    (op_write (bytes "tea") none [] draw_a, 10)
    ∷ (op_write (bytes "milk") (some (bytes "a")) [] draw_b, 20)
    ∷ (op_consolidate, 30)
    ∷ (op_shutdown, 40)
    ∷ (op_prune, 50)
    ∷ []

a-NoColon : NoColon (bytes "a")
a-NoColon = ((λ e. ground arith), tt)

b-NoColon : NoColon (bytes "b")
b-NoColon = ((λ e. ground arith), tt)

queue-PlainQueue : PlainQueue fixed queue worker
unfolding process_op engine_part new_brain_worker default_bounds new_matrix new_hebbian lookup
    text_discrete text_eq mentions new_neuron qubicdb.Prelude.select qubicdb.Engine.add_neuron
    qubicdb.Core.Content.validate_neuron_content qubicdb.Engine.find_by_hash qubicdb.Engine.add_new
    qubicdb.Hebbian.link_all qubicdb.Engine.check_dimension_expansion qubicdb.Prelude.Assoc.insert
    qubicdb.Prelude.Assoc.select_values qubicdb.Hebbian.strengthen_or_create
    qubicdb.Hebbian.find_link qubicdb.Hebbian.neighbours qubicdb.Hebbian.create_synapse
queue-PlainQueue =
    ((refl, (a-NoColon, tt)), ((refl, (b-NoColon, tt)), ((tt, tt), ((tt, tt), ((tt, tt), tt)))))

drain_ops-Healthy_example : Healthy fixed (drain_ops fixed queue worker)
drain_ops-Healthy_example = drain_ops-Healthy fixed queue worker queue-PlainQueue worker-Healthy

-- the synapse that the two writes form
linked_by_writes : length (drain_ops fixed queue worker).matrix.synapses ≡ 1
unfolding drain_ops new_brain_worker default_bounds new_matrix new_hebbian lookup text_discrete
    text_eq mentions new_neuron qubicdb.Prelude.select qubicdb.Engine.add_neuron
    qubicdb.Core.Content.validate_neuron_content qubicdb.Engine.find_by_hash qubicdb.Engine.add_new
    qubicdb.Hebbian.link_all qubicdb.Engine.check_dimension_expansion qubicdb.Prelude.Assoc.insert
    qubicdb.Prelude.Assoc.select_values qubicdb.Hebbian.strengthen_or_create
    qubicdb.Hebbian.find_link qubicdb.Hebbian.neighbours qubicdb.Hebbian.create_synapse
linked_by_writes = refl

-- one neuron without energy beside one with energy
abbrev tired : Matrix ℕ
tired = record empty_matrix {
  neurons =
      (bytes "a", record (new_neuron fixed plain.text (bytes "a") (bytes "tea") 3 0) { energy = 0 })
      ∷ (bytes "b", new_neuron fixed plain.text (bytes "b") (bytes "milk") 3 0)
      ∷ [];
}

tired-IsHealthy : IsHealthy fixed (new_hebbian fixed) tired
unfolding default_bounds new_matrix new_neuron lookup text_discrete new_hebbian
tired-IsHealthy = record {
  fitted = record {
    ids_unique = (refl, (refl, tt));
    positions = ((refl, refl), ((refl, refl), tt));
    above_min = omega arith;
    below_max = omega arith;
  };
  sound = record {
    limit_kept = refl;
    fires_plain = tt;
    wired = IsWired-Linked fixed 50 empty_matrix tired (refl, refl) empty_matrix-IsWired;
  };
}

prune-IsWeeded_example :
    IsWeeded fixed tired (prune fixed 60 tired).0
    × IsHealthy fixed (new_hebbian fixed) (prune fixed 60 tired).0
prune-IsWeeded_example = prune-IsWeeded fixed 60 (new_hebbian fixed) tired tired-IsHealthy
