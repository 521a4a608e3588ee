-- ===== src/Engine.antt =====
-- The matrix engine (pkg/engine/matrix_ops.go). Neurons are stored by value under their ids: a pointer
-- that an operation returns is given by its id. What `rand.Float64()` returns, the new UUID and the
-- readings of the clock are arguments; the vectorizer and the sentiment analyzer are optional
-- functions. The matrix lock makes each operation one step.
pub mod Dimension
pub mod Fitting
pub mod Writing
mod Runs
mod Deletion
mod Examples
use qubicdb.Prelude.{
  ℕ, zero, suc, ◌+◌, ◌-◌, ◌*◌, ◌≡◌, Bool, true, false, not, ◌&&◌, ◌||◌, Option, none, some, List,
  [], ◌∷◌, ◌++◌, Text, text_discrete, text_eq, ltb, leb, if◌then◌else◌, length, take, select,
}
use Prim.Native.Nat.{min, max}
use qubicdb.Prelude.Assoc.{lookup, insert, delete, map_values, select_values}
use qubicdb.Core.Float.{Float}
use qubicdb.Core.Content.{
  TextLibrary, CoreError, neuron_not_found, matrix_full, validate_neuron_content,
}
use qubicdb.Core.Neuron.{Neuron, new_neuron, fire, u64}
use qubicdb.Core.Synapse.{Synapse}
use qubicdb.Core.Matrix.{Matrix}

-- What the engine is given besides the matrix: the text functions, the content limit, the vectorizer
-- (`EmbedText`, whose error is `none`, followed by `Normalize`) and the sentiment analyzer.
pub record Engine (F : Type 0) : Type 0 where
  pub text : TextLibrary
  pub content_limit : ℕ
  pub embed_text : Option (Text → Option (List F))
  pub analyze : Option (Text → Text × F)

-- What one write draws from outside: the new id, the time, and random numbers from [0, 1) for the
-- coordinates of the new neuron and for those that an expansion adds to each neuron.
pub record Draw (F : Type 0) : Type 0 where
  pub new_id : Text
  pub now : ℕ
  pub coordinate : ℕ → F
  pub expansion : Text → ℕ → F
  -- the order in which the loop over the neurons meets them, which is a new one each time
  pub order : List (Text × Neuron F) → List (Text × Neuron F)

pub data Answer : Type 0 where
  ok : Text → Answer
  err : CoreError → Answer

module _ {F : Type 0} (f : Float F) where
  -- `pos[i] + (r - 0.5)*2*magnitude`, clamped to [-1, 1]; `i` counts the coordinates.
  unfoldable pub perturb : F → F → F → F
  perturb magnitude p r =
      let moved = f.add p (f.mul (f.mul (f.sub r (f.ratio 1 2)) (f.ratio 2 1)) magnitude) in
      f.fmax (f.sub (f.ratio 0 1) (f.ratio 1 1)) (f.fmin (f.ratio 1 1) moved)

  unfoldable pub perturb_position : F → (ℕ → F) → ℕ → List F → List F
  unfolding perturb
  perturb_position magnitude rand i [] = []
  perturb_position magnitude rand i (p ∷ pos) =
      perturb magnitude p (rand i) ∷ perturb_position magnitude rand (suc i) pos

  -- `n` coordinates from the `i`-th on
  unfoldable pub random_position : (ℕ → F) → ℕ → ℕ → List F
  random_position rand i zero = []
  random_position rand i (suc n) =
      f.mul (f.sub (rand i) (f.ratio 1 2)) (f.ratio 2 1) ∷ random_position rand (suc i) n

  -- `for len(pos) < newDim { pos = append(pos, (r - 0.5)*0.1) }`
  unfoldable pub pad : (ℕ → F) → ℕ → List F → List F
  pad rand zero pos = pos
  pad rand (suc n) [] = f.mul (f.sub (rand n) (f.ratio 1 2)) (f.ratio 1 10) ∷ pad rand n []
  pad rand (suc n) (p ∷ pos) = p ∷ pad rand n pos

  unfoldable pub expand_dimension : (Text → ℕ → F) → ℕ → Matrix F → Matrix F
  expand_dimension rand new_dim m = record m {
    neurons =
        map_values (λ n. record n { position = pad (rand n.id) new_dim n.position }) m.neurons;
    current_dim = new_dim;
  }

  unfoldable pub contract_dimension : ℕ → Matrix F → Matrix F
  contract_dimension new_dim m = record m {
    neurons = map_values (λ n. record n { position = take new_dim n.position }) m.neurons;
    current_dim = new_dim;
  }

  -- `density > 100` says that the neurons are more than 100 to a dimension: the quotient of two
  -- integers below 2^40 is rounded to 100 only where it is 100.
  unfoldable pub check_dimension_expansion : (Text → ℕ → F) → Matrix F → Matrix F
  unfolding expand_dimension
  check_dimension_expansion rand m =
      if ltb (100 * m.current_dim) (length m.neurons) && ltb m.current_dim m.bounds.max_dimension
      then expand_dimension rand (min (m.current_dim + 1) m.bounds.max_dimension) m
      else m

  -- `density < 10`
  unfoldable pub check_dimension_contraction : Matrix F → Matrix F
  unfolding contract_dimension
  check_dimension_contraction m =
      if ltb (length m.neurons) (10 * m.current_dim) && ltb m.bounds.min_dimension m.current_dim
      then contract_dimension (max (m.current_dim - 1) m.bounds.min_dimension) m
      else m

  -- the duplicate check of `AddNeuron`: the id of the first neuron with this content hash
  unfoldable pub find_by_hash : Text → List (Text × Neuron F) → Option Text
  find_by_hash hash [] = none
  find_by_hash hash ((id, n) ∷ l) =
      let rest = find_by_hash hash l in if text_eq n.content_hash hash then some id else rest

  -- how many of the first words occur among the second
  unfoldable pub word_in : Text → List Text → Bool
  word_in w [] = false
  word_in w (v ∷ ws) = text_eq w v || word_in w ws

  unfoldable pub overlap : List Text → List Text → ℕ
  unfolding word_in
  overlap [] ws = 0
  overlap (w ∷ us) ws = let n = overlap us ws in if word_in w ws then n + 1 else n

  unfoldable pub similarity : List Text → List Text → F
  unfolding overlap
  similarity us ws =
      f.div (f.ratio (overlap us ws) 1) (f.ratio (max 1 (max (length us) (length ws))) 1)

  -- the loop of `findNearestByContent`, with the best score so far
  unfoldable pub find_nearest :
      TextLibrary → List Text → Option (Neuron F) → F → List (Text × Neuron F) → Option (Neuron F)
  unfolding similarity
  find_nearest lib words best score [] = best
  find_nearest lib words best score ((_, n) ∷ l) =
      let s = similarity words (lib.fields (lib.to_lower n.content)) in
      let better = f.lt score s in
      find_nearest lib words (if better then some n else best) (if better then s else score) l

  unfoldable pub find_nearest_by_content : TextLibrary → Text → Matrix F → Option (Neuron F)
  unfolding find_nearest
  find_nearest_by_content lib content m =
      find_nearest lib (lib.fields (lib.to_lower content)) none (f.ratio 0 1) m.neurons

  near : F → (ℕ → F) → ℕ → Option (Neuron F) → List F
  near magnitude rand dim none = random_position rand 0 dim
  near magnitude rand dim (some n) = perturb_position magnitude rand 0 n.position

  -- Near the parent, or near the neuron of the most similar content, or anywhere.
  unfoldable pub place : TextLibrary → Text → Option Text → (ℕ → F) → Matrix F → List F
  unfolding near find_nearest_by_content
  place lib content none rand m =
      near (f.ratio 2 10) rand m.current_dim (find_nearest_by_content lib content m)
  place lib content (some parent_id) rand m =
      near (f.ratio 1 10) rand m.current_dim (lookup text_discrete parent_id m.neurons)

  -- `neuron.Metadata[k] = v` for all of the given metadata
  unfoldable pub add_metadata : List (Text × Text) → List (Text × Text) → List (Text × Text)
  add_metadata [] l = l
  add_metadata ((k, v) ∷ more) l = add_metadata more (insert text_discrete k v l)

  unfoldable pub embed : Engine F → Text → Neuron F → Neuron F
  embed e content n = elim e.embed_text [
    | none ↦ n
    | some go ↦ elim (go content) [ none ↦ n | some emb ↦ record n { embedding = emb } ]
  ]

  unfoldable pub label : Engine F → Text → Neuron F → Neuron F
  label e content n = elim e.analyze [
    | none ↦ n
    | some go ↦ record n { sentiment_label = (go content).0; sentiment_score = (go content).1 }
  ]

  -- the neuron that `AddNeuron` makes
  unfoldable pub make_neuron :
      Engine F → Text → Option Text → List (Text × Text) → Draw F → Matrix F → Neuron F
  unfolding embed label
  make_neuron e content parent metadata draw m =
      let bare = new_neuron f e.text draw.new_id content m.current_dim draw.now in
      let placed = record bare { position = place e.text content parent draw.coordinate m } in
      let labelled = label e content (embed e content placed) in
      record labelled { metadata = add_metadata metadata labelled.metadata }

  unfoldable pub store_neuron : Neuron F → ℕ → Matrix F → Matrix F
  store_neuron n now m = record m {
    neurons = insert text_discrete n.id n m.neurons;
    adjacency = insert text_discrete n.id [] m.adjacency;
    total_activations = u64 (m.total_activations + 1);
    last_activity = now;
    modified_at = now;
    version = u64 (m.version + 1);
  }

  -- `n.Fire()` for the neuron under `id`
  unfoldable pub fire_at : Text → ℕ → Matrix F → Matrix F
  fire_at id now m = elim (lookup text_discrete id m.neurons) [
    | none ↦ m
    | some n ↦ record m { neurons = insert text_discrete id (fire f now n) m.neurons }
  ]

  unfoldable pub add_new :
      Engine F → Text → Option Text → List (Text × Text) → Draw F → Matrix F → Matrix F × Answer
  unfolding make_neuron store_neuron
  add_new e content parent metadata draw m = (
    check_dimension_expansion draw.expansion
        (store_neuron (make_neuron e content parent metadata draw m) draw.now m),
    ok draw.new_id,
  )

  unfoldable pub add_neuron :
      Engine F → Text → Option Text → List (Text × Text) → Draw F → Matrix F → Matrix F × Answer
  add_neuron e content parent metadata draw m =
      if leb m.bounds.max_neurons (length m.neurons)
      then (m, err matrix_full)
      else elim (validate_neuron_content e.text e.content_limit content) [
        | some x ↦ (m, err x)
        | none ↦ elim (find_by_hash (e.text.hash_content content) (draw.order m.neurons)) [
          | some id ↦ (fire_at id draw.now m, ok id)
          | none ↦ add_new e content parent metadata draw m
        ]
      ]

  unfoldable pub get_neuron : Text → ℕ → Matrix F → Matrix F × Answer
  get_neuron id now m = elim (lookup text_discrete id m.neurons) [
    | none ↦ (m, err neuron_not_found)
    | some n ↦ (
      record m {
        neurons = insert text_discrete id (fire f now n) m.neurons;
        last_activity = now;
        total_activations = u64 (m.total_activations + 1);
      },
      ok id,
    )
  ]

  unfoldable pub update_neuron : Engine F → Text → Text → ℕ → Matrix F → Matrix F × Answer
  update_neuron e id new_content now m = elim (lookup text_discrete id m.neurons) [
    | none ↦ (m, err neuron_not_found)
    | some n ↦ elim (validate_neuron_content e.text e.content_limit new_content) [
      | some x ↦ (m, err x)
      | none ↦
          let n' =
            fire f now (record n {
              content = new_content;
              content_hash = e.text.hash_content new_content;
            }) in
          (
            record m {
              neurons = insert text_discrete id n' m.neurons;
              modified_at = now;
              version = u64 (m.version + 1);
            },
            ok id,
          )
    ]
  ]

  -- `syn.FromID == id || syn.ToID == id`
  unfoldable pub touches : Text → Synapse F → Bool
  touches id s = text_eq s.from_id id || text_eq s.to_id id

  unfoldable pub remove_neuron : Text → ℕ → Matrix F → Matrix F
  unfolding touches
  remove_neuron id now m = record m {
    synapses = select_values (λ s. not (touches id s)) m.synapses;
    adjacency = map_values (select (λ j. not (text_eq j id))) (delete text_discrete id m.adjacency);
    neurons = delete text_discrete id m.neurons;
    modified_at = now;
    version = u64 (m.version + 1);
  }

  unfoldable pub delete_neuron : Text → ℕ → Matrix F → Matrix F × Answer
  unfolding remove_neuron
  delete_neuron id now m = elim (lookup text_discrete id m.neurons) [
    | none ↦ (m, err neuron_not_found)
    | some _ ↦ (check_dimension_contraction (remove_neuron id now m), ok id)
  ]
