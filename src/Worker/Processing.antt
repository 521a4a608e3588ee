-- ===== src/Worker/Processing.antt =====
-- The order of a worker's matrix through its queue (pkg/concurrency/brain_worker.go).
use qubicdb.Prelude.{
  ℕ, ◌≡◌, refl, Bool, true, false, if◌then◌else◌, List, [], ◌∷◌, Text, text_eq, All, Bool-cases,
  inl, inr,
}
use qubicdb.Core.Float.{Float}
use qubicdb.Core.Synapse.{NoColon}
use qubicdb.Core.Matrix.{Matrix}
use qubicdb.Engine.{Engine, Answer, ok, err, get_neuron}
use qubicdb.Hebbian.{Hebbian, neighbours}
use qubicdb.Engine.Dimension.{IsFitted}
use qubicdb.Hebbian.Wiring.{IsWired}
use qubicdb.Search.Query.{Searcher, search, fire_each, find_results}
use qubicdb.Search.Scoring.{is_empty_list, tokenize}
use qubicdb.Search.{ids}
use qubicdb.Worker.{
  BrainWorker, Operation, op_write, op_read, op_forget, op_fire, op_search, op_touch, op_recall,
  op_decay, op_consolidate, op_prune, op_reorg, op_get_stats, op_shutdown, fired, is_shutdown,
  new_brain_worker, engine_part, upkeep, is_upkeep, process_op, drain_ops,
}
use qubicdb.Worker.Keeping.{
  IsHealthy, fire_at-IsHealthy, get_neuron-IsHealthy, update_neuron-IsHealthy, fire_each-IsHealthy,
  add_neuron-IsHealthy, delete_neuron-IsHealthy, prune-IsHealthy, decay_matrix-IsHealthy,
  consolidate-IsHealthy, reorg-IsHealthy, fire_all-IsHealthy,
}

module _ {F : Type 0} (f : Float F) where
  -- the id that a write draws is that of no neighbour
  abbrev pub Fresh : Operation F → Matrix F → Type 0
  Fresh (op_write content parent metadata draw) m = neighbours f draw.new_id m ≡ []
  Fresh _ m = Unit

  -- nor has an id that the operation fires a colon
  abbrev pub Plain : Operation F → ℕ → BrainWorker F → Type 0
  Plain op now w = Fresh op w.matrix × All NoColon (engine_part f op now w).1.0

  abbrev pub Healthy : BrainWorker F → Type 0
  Healthy w = IsHealthy f w.hebbian w.matrix

  -- Both early returns leave the matrix.
  early-IsHealthy :
      (empty wordless : Bool) (h : Hebbian F) (m m' : Matrix F) (found : List Text)
      → IsHealthy f h m
      → IsHealthy f h m'
      → IsHealthy f h
          (if◌then◌else◌ {A = Matrix F × List Text} empty
            (m, [])
            (if◌then◌else◌ {A = Matrix F × List Text} wordless (m, []) (m', found))).0
  early-IsHealthy true wordless h m m' found v v' = v
  early-IsHealthy false true h m m' found v v' = v
  early-IsHealthy false false h m m' found v v' = v'

  search-IsHealthy :
      (s : Searcher F) (query : Text) (depth limit now : ℕ) (h : Hebbian F) (m : Matrix F)
      → IsHealthy f h m
      → IsHealthy f h (search f s query depth limit now m).0
  unfolding search
  search-IsHealthy s query depth limit now h m v =
      let said = s.clean_text query in
      let found = ids f (find_results f s said (tokenize f s.scorer said) depth limit now m) in
      early-IsHealthy (text_eq said []) (is_empty_list f s.scorer (tokenize f s.scorer said)) h m
        (fire_each f s found now m) found v (fire_each-IsHealthy f s found now h m v)

  fired-IsHealthy :
      (id : Text) (now : ℕ) (h : Hebbian F) (m : Matrix F) (a : Answer)
      → IsHealthy f h m
      → IsHealthy f h (fired f id now m a).0
  fired-IsHealthy id now h m (ok _) v = fire_at-IsHealthy f id now h m v
  fired-IsHealthy id now h m (err _) v = v

  engine_part-IsHealthy :
      (op : Operation F) (now : ℕ) (w : BrainWorker F)
      → Fresh op w.matrix
      → Healthy w
      → IsHealthy f w.hebbian (engine_part f op now w).0
  unfolding engine_part
  engine_part-IsHealthy (op_write content parent metadata draw) now w fresh v =
      add_neuron-IsHealthy f w.engine content parent metadata draw w.hebbian w.matrix fresh v
  engine_part-IsHealthy (op_read id) now w fresh v =
      get_neuron-IsHealthy f id now w.hebbian w.matrix v
  engine_part-IsHealthy (op_search query depth limit metadata strict) now w fresh v =
      search-IsHealthy (record w.searcher { metadata = metadata; strict = strict }) query depth
        limit now w.hebbian w.matrix v
  engine_part-IsHealthy (op_touch id content) now w fresh v =
      update_neuron-IsHealthy f w.engine id content now w.hebbian w.matrix v
  engine_part-IsHealthy (op_forget id) now w fresh v =
      delete_neuron-IsHealthy f id now w.hebbian w.matrix v
  engine_part-IsHealthy (op_fire id) now w fresh v =
      fired-IsHealthy id now w.hebbian (get_neuron f id now w.matrix).0
        (get_neuron f id now w.matrix).1 (get_neuron-IsHealthy f id now w.hebbian w.matrix v)
  engine_part-IsHealthy (op_recall offset limit depth) now w fresh v = v
  engine_part-IsHealthy op_decay now w fresh v = v
  engine_part-IsHealthy op_consolidate now w fresh v = v
  engine_part-IsHealthy op_prune now w fresh v = v
  engine_part-IsHealthy op_reorg now w fresh v = v
  engine_part-IsHealthy op_get_stats now w fresh v = v
  engine_part-IsHealthy op_shutdown now w fresh v = v

  upkeep-IsHealthy :
      (op : Operation F) (now : ℕ) (h : Hebbian F) (m : Matrix F)
      → IsHealthy f h m
      → IsHealthy f (upkeep f op now h m).0.0 (upkeep f op now h m).0.1
  unfolding upkeep
  upkeep-IsHealthy op_decay now h m v = decay_matrix-IsHealthy f now h m v
  upkeep-IsHealthy op_consolidate now h m v = consolidate-IsHealthy f now h m v
  upkeep-IsHealthy op_prune now h m v = prune-IsHealthy f now h m v
  upkeep-IsHealthy op_reorg now h m v = reorg-IsHealthy f h m v
  upkeep-IsHealthy (op_write content parent metadata draw) now h m v = v
  upkeep-IsHealthy (op_read id) now h m v = v
  upkeep-IsHealthy (op_search query depth limit metadata strict) now h m v = v
  upkeep-IsHealthy (op_touch id content) now h m v = v
  upkeep-IsHealthy (op_forget id) now h m v = v
  upkeep-IsHealthy (op_fire id) now h m v = v
  upkeep-IsHealthy (op_recall offset limit depth) now h m v = v
  upkeep-IsHealthy op_get_stats now h m v = v
  upkeep-IsHealthy op_shutdown now h m v = v

  process_op-Healthy :
      (op : Operation F) (now : ℕ) (w : BrainWorker F)
      → Plain op now w
      → Healthy w
      → Healthy (process_op f op now w).0
  unfolding process_op
  process_op-Healthy op now w (fresh, plain) v = elim (Bool-cases (is_upkeep f op)) [
    | inl kept_up ↦ rw kept_up (upkeep-IsHealthy op now w.hebbian w.matrix v)
    | inr asked ↦ rw asked (
        fire_all-IsHealthy f (engine_part f op now w).1.0 now w.hebbian (engine_part f op now w).0
          plain (engine_part-IsHealthy op now w fresh v))
  ]

  -- the same of every operation of a queue, when its turn comes
  abbrev pub PlainQueue : List (Operation F × ℕ) → BrainWorker F → Type 0
  PlainQueue [] w = Unit
  PlainQueue ((op, now) ∷ ops) w = Plain op now w × PlainQueue ops (process_op f op now w).0

  -- A worker keeps its matrix in order through any queue of operations: if no neuron id occurs
  -- twice, positions have the current dimension, which lies within the bounds, and lists of
  -- neighbours and synapses agree with at most 50 neighbours each, all this holds when the queue is
  -- done. The operations fire no id with a colon, and a write draws an id that is in no use among
  -- the neighbours.
  pub drain_ops-Healthy :
      (ops : List (Operation F × ℕ)) (w : BrainWorker F)
      → PlainQueue ops w
      → Healthy w
      → Healthy (drain_ops f ops w)
  unfolding drain_ops
  drain_ops-Healthy [] w plain v = v
  drain_ops-Healthy ((op, now) ∷ ops) w plain v = elim (Bool-cases (is_shutdown f op)) [
    | inl stopped ↦ rw stopped v
    | inr goes_on ↦ rw goes_on (
        drain_ops-Healthy ops (process_op f op now w).0 plain.1
          (process_op-Healthy op now w plain.0 v))
  ]

  pub new_brain_worker-Healthy :
      (index_id : Text) (m : Matrix F) (e : Engine F) (s : Searcher F) (now : ℕ)
      → IsFitted m
      → IsWired f 50 m
      → Healthy (new_brain_worker f index_id m e s now)
  unfolding new_brain_worker
  new_brain_worker-Healthy index_id m e s now fitted wired = record {
    fitted = fitted;
    sound = record { limit_kept = refl; fires_plain = tt; wired = wired };
  }
