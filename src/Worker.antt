-- ===== src/Worker.antt =====
-- The worker of an index (pkg/concurrency/brain_worker.go), which does the queued operations on a matrix one after another. What OnNeuronFired
-- starts in goroutines is answered as a list.
pub mod Health
pub mod Keeping
pub mod Processing
pub mod Weeding
mod Examples
use qubicdb.Prelude.{
  ℕ, suc, ◌+◌, ◌*◌, Bool, true, false, not, Option, none, some, List, [], ◌∷◌, ◌++◌, Text, length,
  take, drop, leb, ltb, ◌==◌, ◌&&◌, if◌then◌else◌, select, text_discrete,
}
use qubicdb.Prelude.Assoc.{lookup, map_values, select_values, keys}
use qubicdb.Core.Float.{Float}
use qubicdb.Core.Neuron.{Neuron, decay, is_alive, should_consolidate, u64}
use qubicdb.Core.Matrix.{Matrix}
use qubicdb.Core.Content.{CoreError}
use qubicdb.Engine.{
  Engine, Draw, Answer, ok, err, add_neuron, get_neuron, update_neuron, delete_neuron, fire_at,
}
use qubicdb.Hebbian.{
  Hebbian, Pull, new_hebbian, on_neuron_fired, decay_all, prune_dead_synapses, self_tune,
}
use qubicdb.Hebbian.Cluster.{update_fractal_clusters}
use qubicdb.Search.Query.{Searcher, search}

pub record BrainWorker (F : Type 0) : Type 0 where
  pub index_id : Text
  pub matrix : Matrix F
  pub engine : Engine F
  pub searcher : Searcher F
  pub hebbian : Hebbian F
  pub ops_processed : ℕ
  pub last_op : ℕ

-- the operations with their payloads, and what a write draws from outside
pub data Operation (F : Type 0) : Type 0 where
  op_write : Text → Option Text → List (Text × Text) → Draw F → Operation F
  op_read op_forget op_fire : Text → Operation F
  op_search : Text → ℕ → ℕ → List (Text × Text) → Bool → Operation F
  op_touch : Text → Text → Operation F
  op_recall : ℕ → ℕ → Option ℕ → Operation F
  op_decay op_consolidate op_prune op_reorg op_get_stats op_shutdown : Operation F

-- what is sent back; GetStats only reads, and its map is left out
pub data Reply : Type 0 where
  neuron : Answer → Reply
  neurons : List Text → Reply
  count : ℕ → Reply
  nothing : Reply

module _ {F : Type 0} (f : Float F) where
  -- `NewBrainWorker`
  unfoldable pub new_brain_worker : Text → Matrix F → Engine F → Searcher F → ℕ → BrainWorker F
  unfolding new_hebbian
  new_brain_worker index_id m e s now = record {
    index_id = index_id;
    matrix = m;
    engine = e;
    searcher = s;
    hebbian = new_hebbian f;
    ops_processed = 0;
    last_op = now;
  }

  -- `w.hebbian.OnNeuronFired` for each of some neurons
  unfoldable pub fire_all :
      List Text → ℕ → Hebbian F → Matrix F → Hebbian F × (Matrix F × List (Pull F))
  unfolding on_neuron_fired
  fire_all [] now h m = (h, (m, []))
  fire_all (id ∷ ids) now h m =
      let (h', (m', started)) = on_neuron_fired f id now h m in
      let (h'', (m'', more)) = fire_all ids now h' m' in (h'', (m'', started ++ more))

  abbrev pub answered : Answer → List Text
  answered (ok id) = id ∷ []
  answered (err _) = []

  -- a neuron in the order of energy, and the sorting
  unfoldable pub place_neuron : Text × Neuron F → List (Text × Neuron F) → List (Text × Neuron F)
  place_neuron n [] = n ∷ []
  place_neuron n (k ∷ l) =
      let rest = place_neuron n l in if f.lt n.1.energy k.1.energy then k ∷ rest else n ∷ k ∷ l

  unfoldable pub sort_neurons : List (Text × Neuron F) → List (Text × Neuron F)
  unfolding place_neuron
  sort_neurons [] = []
  sort_neurons (n ∷ l) = place_neuron n (sort_neurons l)

  abbrev pub has_depth : Option ℕ → Neuron F → Bool
  has_depth none n = true
  has_depth (some d) n = n.depth == d

  -- `ListNeurons` of the matrix engine
  unfoldable pub list_neurons : ℕ → ℕ → Option ℕ → Matrix F → List Text
  unfolding sort_neurons
  list_neurons offset limit depth m =
      let sorted = keys (sort_neurons (select_values (has_depth depth) m.neurons)) in
      if leb (length sorted) offset
      then []
      else (let rest = drop offset sorted in
          if ltb 0 limit && ltb limit (length rest) then take limit rest else rest)

  -- 10 accesses and an age of 30 minutes
  abbrev pub is_mature : ℕ → Neuron F → Bool
  is_mature now n = should_consolidate f 10 1800000000000 now n

  abbrev pub deepen : ℕ → Neuron F → Neuron F
  deepen now n = if is_mature now n then record n { depth = n.depth + 1 } else n

  unfoldable pub consolidate : ℕ → Hebbian F → Matrix F → (Hebbian F × Matrix F) × ℕ
  consolidate now h m =
      let m' = record m { neurons = map_values (deepen now) m.neurons } in
      (
        (self_tune f m' h, record m' { last_consolidation = now; version = u64 (m.version + 1) }),
        length (select_values (is_mature now) m.neurons),
      )

  -- the loop over the neurons that are to be deleted
  unfoldable pub delete_each : List Text → ℕ → Matrix F → Matrix F × ℕ
  delete_each [] now m = (m, 0)
  delete_each (id ∷ ids) now m =
      let (m', a) = delete_neuron f id now m in
      let (m'', n) = delete_each ids now m' in (m'', elim a [ ok _ ↦ n + 1 | err _ ↦ n ])

  unfoldable pub prune : ℕ → Matrix F → Matrix F × ℕ
  unfolding delete_each
  prune now m =
      let dead = keys (select_values (λ n. not (is_alive f n)) m.neurons) in
      let (m', pruned) = delete_each dead now m in
      let (m'', synapses) = prune_dead_synapses f now m' in (m'', pruned + synapses)

  unfoldable pub reorg : Matrix F → Matrix F
  reorg m = let m' = update_fractal_clusters f m in record m' { version = u64 (m'.version + 1) }

  abbrev pub decay_matrix : ℕ → Hebbian F → Matrix F → Matrix F
  decay_matrix now h m =
      (prune_dead_synapses f now (
        decay_all f h now
          (record m { neurons = map_values (decay f m.decay_rate now) m.neurons }))).0

  -- a neuron that was got fires once more
  abbrev pub fired : Text → ℕ → Matrix F → Answer → Matrix F × (List Text × Reply)
  fired id now m (ok _) = (fire_at f id now m, (id ∷ [], nothing))
  fired id now m (err _) = (m, ([], nothing))

  -- the engine's part of an operation: the matrix, the neurons that are then reported as fired, and the reply
  unfoldable pub engine_part : Operation F → ℕ → BrainWorker F → Matrix F × (List Text × Reply)
  unfolding list_neurons
  engine_part (op_write content parent metadata draw) now w =
      let (m, a) = add_neuron f w.engine content parent metadata draw w.matrix in
      (m, (answered a, neuron a))
  engine_part (op_read id) now w =
      let (m, a) = get_neuron f id now w.matrix in (m, (answered a, neuron a))
  engine_part (op_search query depth limit metadata strict) now w =
      let (m, found) =
        search f (record w.searcher { metadata = metadata; strict = strict }) query depth limit now
          w.matrix in
      (m, (found, neurons found))
  engine_part (op_touch id content) now w =
      let (m, a) = update_neuron f w.engine id content now w.matrix in (m, ([], neuron a))
  engine_part (op_forget id) now w =
      let (m, a) = delete_neuron f id now w.matrix in (m, ([], neuron a))
  engine_part (op_recall offset limit depth) now w =
      (w.matrix, ([], neurons (list_neurons offset limit depth w.matrix)))
  engine_part (op_fire id) now w = let (m, a) = get_neuron f id now w.matrix in fired id now m a
  engine_part _ now w = (w.matrix, ([], nothing))

  -- the work on the Hebbian engine and the matrix of the operations without a payload
  unfoldable pub upkeep : Operation F → ℕ → Hebbian F → Matrix F → (Hebbian F × Matrix F) × Reply
  unfolding consolidate prune reorg
  upkeep op_decay now h m = ((h, decay_matrix now h m), nothing)
  upkeep op_consolidate now h m = let (s, n) = consolidate now h m in (s, count n)
  upkeep op_prune now h m = let (m', n) = prune now m in ((h, m'), count n)
  upkeep op_reorg now h m = ((h, reorg m), nothing)
  upkeep _ now h m = ((h, m), nothing)

  abbrev pub is_upkeep : Operation F → Bool
  is_upkeep op_decay = true
  is_upkeep op_consolidate = true
  is_upkeep op_prune = true
  is_upkeep op_reorg = true
  is_upkeep _ = false

  unfoldable pub process_op :
      Operation F → ℕ → BrainWorker F → BrainWorker F × (Reply × List (Pull F))
  unfolding engine_part fire_all upkeep
  process_op op now w =
      let seen = record w { ops_processed = u64 (w.ops_processed + 1); last_op = now } in
      if is_upkeep op
      then (let ((h, m), reply) = upkeep op now w.hebbian w.matrix in
          (record seen { hebbian = h; matrix = m }, (reply, [])))
      else (let (m, (ids, reply)) = engine_part op now w in
          let (h, (m', started)) = fire_all ids now w.hebbian m in
          (record seen { hebbian = h; matrix = m' }, (reply, started)))

  abbrev pub is_shutdown : Operation F → Bool
  is_shutdown op_shutdown = true
  is_shutdown _ = false

  -- the operations in the order of the queue, up to a shutdown, with the times at which they are taken
  unfoldable pub drain_ops : List (Operation F × ℕ) → BrainWorker F → BrainWorker F
  unfolding process_op
  drain_ops [] w = w
  drain_ops ((op, now) ∷ ops) w =
      let rest = drain_ops ops (process_op op now w).0 in if is_shutdown op then w else rest
