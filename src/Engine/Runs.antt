-- ===== src/Engine/Runs.antt =====
-- Sequences of requests to a matrix engine (pkg/engine/matrix_ops.go): the bounds of the matrix hold
-- throughout.
use qubicdb.Prelude.{
  ℕ, ◌*◌, ◌<◌, ◌≤◌, ◌≡◌, refl, ap, ◌&&◌, Option, some, List, [], ◌∷◌, Text, text_discrete, ltb, leb,
  length, arith, Bool-cases, Option-cases, inl, inr,
}
use qubicdb.Prelude.Assoc.{lookup, insert, length-map_values, length-insert, length-delete, Unique}
use qubicdb.Core.Float.{Float}
use qubicdb.Core.Content.{validate_neuron_content}
use qubicdb.Core.Neuron.{Neuron, fire}
use qubicdb.Core.Matrix.{Matrix, MatrixBounds, new_matrix}
use qubicdb.Engine.{
  Engine, Draw, expand_dimension, contract_dimension, check_dimension_expansion,
  check_dimension_contraction, find_by_hash, make_neuron, store_neuron, fire_at, add_new,
  add_neuron, get_neuron, update_neuron, remove_neuron, delete_neuron,
}
use qubicdb.Engine.Dimension.{IsFitted}
use qubicdb.Engine.Fitting.{
  add_neuron-IsFitted, get_neuron-IsFitted, update_neuron-IsFitted, delete_neuron-IsFitted,
}

-- the calls of the engine that change the matrix
pub data Request (F : Type 0) : Type 0 where
  add : Text → Option Text → List (Text × Text) → Draw F → Request F
  get : Text → ℕ → Request F
  update : Text → Text → ℕ → Request F
  forget : Text → ℕ → Request F

-- The matrix stays within the bounds that it was made with, at no more neurons than those allow.
abbrev pub Holds : {F : Type 0} → MatrixBounds → Matrix F → Type 0
Holds bounds m = (m.bounds ≡ bounds) × (length m.neurons ≤ bounds.max_neurons)

module _ {F : Type 0} (f : Float F) where
  unfoldable pub serve : Engine F → Request F → Matrix F → Matrix F
  serve e (add content parent metadata draw) m = (add_neuron f e content parent metadata draw m).0
  serve e (get id now) m = (get_neuron f id now m).0
  serve e (update id content now) m = (update_neuron f e id content now m).0
  serve e (forget id now) m = (delete_neuron f id now m).0

  unfoldable pub serve_all : Engine F → List (Request F) → Matrix F → Matrix F
  serve_all e [] m = m
  serve_all e (r ∷ rs) m = serve_all e rs (serve e r m)

  check_dimension_expansion-Holds :
      (rand : Text → ℕ → F) (b : MatrixBounds) (m : Matrix F)
      → Holds b m
      → Holds b (check_dimension_expansion f rand m)
  unfolding check_dimension_expansion expand_dimension
  check_dimension_expansion-Holds rand b m h =
      elim (Bool-cases (
        ltb (100 * m.current_dim) (length m.neurons) && ltb m.current_dim m.bounds.max_dimension)) [
          | inl grow ↦ rw grow (h.0, omega (arith, h.1, length-map_values _ m.neurons))
          | inr stay ↦ rw stay h
        ]

  check_dimension_contraction-Holds :
      (b : MatrixBounds) (m : Matrix F) → Holds b m → Holds b (check_dimension_contraction f m)
  unfolding check_dimension_contraction contract_dimension
  check_dimension_contraction-Holds b m h =
      elim (Bool-cases
        (ltb (length m.neurons) (10 * m.current_dim) && ltb m.bounds.min_dimension m.current_dim)) [
          | inl shrink ↦ rw shrink (h.0, omega (arith, h.1, length-map_values _ m.neurons))
          | inr stay ↦ rw stay h
        ]

  -- a neuron that is written again
  length-rewrite :
      (id : Text) (n n' : Neuron F) (m : Matrix F)
      → lookup text_discrete id m.neurons ≡ some n
      → length (insert text_discrete id n' m.neurons) ≡ length m.neurons
  length-rewrite id n n' m h = ground (arith, length-insert text_discrete id n' m.neurons)

  fire_at-Holds :
      (b : MatrixBounds) (id : Text) (now : ℕ) (m : Matrix F)
      → Holds b m
      → Holds b (fire_at f id now m)
  unfolding fire_at
  fire_at-Holds b id now m h = elim (Option-cases (lookup text_discrete id m.neurons)) [
    | inl g ↦ rw (g, fire_at) h
    | inr (n, g) ↦ rw (g, fire_at) (h.0, omega (arith, h.1, length-rewrite id n (fire f now n) m g))
  ]

  store_neuron-Holds :
      (b : MatrixBounds) (n : Neuron F) (now : ℕ) (m : Matrix F)
      → Holds b m
      → length m.neurons < b.max_neurons
      → Holds b (store_neuron f n now m)
  unfolding store_neuron
  store_neuron-Holds b n now m h room =
      (h.0, ground (arith, length-insert text_discrete n.id n m.neurons))

  remove_neuron-Holds :
      (b : MatrixBounds) (id : Text) (now : ℕ) (m : Matrix F)
      → Unique text_discrete m.neurons
      → Holds b m
      → Holds b (remove_neuron f id now m)
  unfolding remove_neuron
  remove_neuron-Holds b id now m u h =
      (h.0, ground (arith, length-delete text_discrete id m.neurons u))

  add_neuron-Holds :
      (e : Engine F) (content : Text) (parent : Option Text) (metadata : List (Text × Text))
      (draw : Draw F) (b : MatrixBounds) (m : Matrix F)
      → Holds b m
      → Holds b (add_neuron f e content parent metadata draw m).0
  unfolding add_neuron add_new
  add_neuron-Holds e content parent metadata draw b m v =
      elim (Bool-cases (leb m.bounds.max_neurons (length m.neurons))) [
        | inl full ↦ rw full v
        | inr room ↦ elim (Option-cases (validate_neuron_content e.text e.content_limit content)) [
          | inr (x, h) ↦ rw (room, h) v
          | inl h ↦
              elim (Option-cases
                (find_by_hash f (e.text.hash_content content) (draw.order m.neurons))) [
                  | inr (id, g) ↦ rw (room, h, g) (fire_at-Holds b id draw.now m v)
                  | inl g ↦
                      rw (room, h, g)
                        (check_dimension_expansion-Holds draw.expansion b _ (
                          store_neuron-Holds b (make_neuron f e content parent metadata draw m)
                            draw.now m v (ground (arith, ap (λ x. x.max_neurons) v.0))))
                ]
        ]
      ]

  get_neuron-Holds :
      (id : Text) (now : ℕ) (b : MatrixBounds) (m : Matrix F)
      → Holds b m
      → Holds b (get_neuron f id now m).0
  unfolding get_neuron
  get_neuron-Holds id now b m v = elim (Option-cases (lookup text_discrete id m.neurons)) [
    | inl h ↦ rw (h, get_neuron) v
    | inr (n, h) ↦
        rw (h, get_neuron) (v.0, omega (arith, v.1, length-rewrite id n (fire f now n) m h))
  ]

  update_neuron-Holds :
      (e : Engine F) (id new_content : Text) (now : ℕ) (b : MatrixBounds) (m : Matrix F)
      → Holds b m
      → Holds b (update_neuron f e id new_content now m).0
  unfolding update_neuron
  update_neuron-Holds e id new_content now b m v =
      elim (Option-cases (lookup text_discrete id m.neurons)) [
        | inl h ↦ rw (h, update_neuron) v
        | inr (n, h) ↦
            elim (Option-cases (validate_neuron_content e.text e.content_limit new_content)) [
              | inr (x, g) ↦ rw (h, g, update_neuron) v
              | inl g ↦
                  rw (h, g, update_neuron) (v.0, omega (arith, v.1, length-rewrite id n _ m h))
            ]
      ]

  delete_neuron-Holds :
      (id : Text) (now : ℕ) (b : MatrixBounds) (m : Matrix F)
      → Unique text_discrete m.neurons
      → Holds b m
      → Holds b (delete_neuron f id now m).0
  unfolding delete_neuron
  delete_neuron-Holds id now b m u v = elim (Option-cases (lookup text_discrete id m.neurons)) [
    | inl h ↦ rw (h, delete_neuron) v
    | inr (n, h) ↦
        rw (h, delete_neuron)
          (check_dimension_contraction-Holds b _ (remove_neuron-Holds b id now m u v))
  ]

  serve_lem :
      (e : Engine F) (r : Request F) (b : MatrixBounds) (m : Matrix F)
      → IsFitted m × Holds b m
      → IsFitted (serve e r m) × Holds b (serve e r m)
  unfolding serve
  serve_lem e (add content parent metadata draw) b m v = (
    add_neuron-IsFitted f e content parent metadata draw m v.0,
    add_neuron-Holds e content parent metadata draw b m v.1,
  )
  serve_lem e (get id now) b m v =
      (get_neuron-IsFitted f id now m v.0, get_neuron-Holds id now b m v.1)
  serve_lem e (update id content now) b m v = (
    update_neuron-IsFitted f e id content now m v.0,
    update_neuron-Holds e id content now b m v.1,
  )
  serve_lem e (forget id now) b m v =
      (delete_neuron-IsFitted f id now m v.0, delete_neuron-Holds id now b m v.0.ids_unique v.1)

  serve_all_lem :
      (e : Engine F) (rs : List (Request F)) (b : MatrixBounds) (m : Matrix F)
      → IsFitted m × Holds b m
      → IsFitted (serve_all e rs m) × Holds b (serve_all e rs m)
  unfolding serve_all
  serve_all_lem e [] b m v = v
  serve_all_lem e (r ∷ rs) b m v = serve_all_lem e rs b (serve e r m) (serve_lem e r b m v)

  -- Whatever adds, reads, updates and deletions a new matrix serves: no two neurons share an id,
  -- each stands under its own id with as many coordinates as the matrix has dimensions, the
  -- dimension lies within the bounds that the matrix was made with, the neurons are no more than
  -- the maximum of those bounds, and the bounds are still the ones of the matrix. The bounds have
  -- to admit a dimension.
  pub serve_all-IsFitted-Holds :
      (e : Engine F) (rs : List (Request F)) (index_id : Text) (b : MatrixBounds) (now : ℕ)
      → b.min_dimension ≤ b.max_dimension
      → IsFitted (serve_all e rs (new_matrix f index_id b now))
        × Holds b (serve_all e rs (new_matrix f index_id b now))
  unfolding new_matrix
  serve_all-IsFitted-Holds e rs index_id b now sane = serve_all_lem e rs b _ (
    record { ids_unique = tt; positions = tt; above_min = omega arith; below_max = sane },
    (refl, omega arith),
  )
