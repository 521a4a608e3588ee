-- ===== src/Hebbian/Upkeep.antt =====
-- The operations of the matrix engine keep the lists of neighbours in agreement with the synapses
-- (pkg/engine/matrix_ops.go).
use qubicdb.Prelude.{
  ℕ, ◌*◌, ◌≡◌, ◌∙◌, not, ◌&&◌, ◌||◌, Option, List, [], Text, text_discrete, text_eq, mentions, ltb,
  leb, length, length-select-le, select, arith, ite, Bool-cases, Option-cases, inl, inr,
}
use qubicdb.Prelude.Assoc.{
  lookup, delete, lookup-insert, lookup-delete, lookup-map_values, lookup-select_values,
  select_values-Unique, AllEntries-lookup, AllEntries-select_values,
}
use qubicdb.Core.Float.{Float}
use qubicdb.Core.Content.{validate_neuron_content}
use qubicdb.Core.Synapse.{new_synapse_id, new_synapse_id-injective, NoColon}
use qubicdb.Core.Matrix.{Matrix}
use qubicdb.Engine.{
  Engine, Draw, expand_dimension, contract_dimension, check_dimension_expansion,
  check_dimension_contraction, make_neuron, store_neuron, fire_at, find_by_hash, add_new,
  add_neuron, touches, remove_neuron, delete_neuron,
}
use qubicdb.Engine.Writing.{make_neuron-id}
use qubicdb.Hebbian.{neighbours}
use qubicdb.Hebbian.Wiring.{mentions-select, has, Ends, IsWired}

module _ {F : Type 0} (f : Float F) where
  has-remove_neuron :
      (id a b : Text) (now limit : ℕ) (m : Matrix F)
      → NoColon a
      → IsWired f limit m
      → has f a b (remove_neuron f id now m) ≡ (has f a b m && not (text_eq a id || text_eq b id))
  unfolding remove_neuron touches
  has-remove_neuron id a b now limit m p v =
      elim (Option-cases (lookup text_discrete (new_synapse_id a b) m.synapses)) [
        | inl h ↦ ground (
          arith,
          lookup-select_values text_discrete (λ s. not (touches f id s)) m.synapses
              (new_synapse_id a b) v.ids_unique,
        )
        | inr (s, h) ↦
            let e =
              AllEntries-lookup text_discrete (Ends f) m.synapses (new_synapse_id a b) s v.ends h in
            let same = new_synapse_id-injective a b s.from_id s.to_id p e.1.0.0 e.0 in
            ground (
              arith,
              same.0,
              same.1,
              lookup-select_values text_discrete (λ s. not (touches f id s)) m.synapses
                  (new_synapse_id a b) v.ids_unique,
            )
      ]

  neighbours-remove_neuron :
      (id a : Text) (now : ℕ) (m : Matrix F)
      → neighbours f a (remove_neuron f id now m)
        ≡ ite (text_discrete id a) [] (select (λ j. not (text_eq j id)) (neighbours f a m))
  unfolding neighbours remove_neuron select
  neighbours-remove_neuron id a now m = ground (
    arith,
    lookup-map_values text_discrete (select (λ j. not (text_eq j id)))
        (delete text_discrete id m.adjacency) a,
    lookup-delete text_discrete id a m.adjacency,
  )

  mentions-remove_neuron :
      (id a b : Text) (now : ℕ) (m : Matrix F)
      → mentions b (neighbours f a (remove_neuron f id now m))
        ≡ (mentions b (neighbours f a m) && not (text_eq a id || text_eq b id))
  unfolding text_eq mentions
  mentions-remove_neuron id a b now m =
      ground (arith, neighbours-remove_neuron id a now m, mentions-select b id (neighbours f a m))

  remove_neuron-IsWired :
      (id : Text) (now limit : ℕ) (m : Matrix F)
      → IsWired f limit m
      → IsWired f limit (remove_neuron f id now m)
  unfolding remove_neuron
  remove_neuron-IsWired id now limit m v = record {
    ids_unique =
        select_values-Unique text_discrete (λ s. not (touches f id s)) m.synapses v.ids_unique;
    ends = AllEntries-select_values (Ends f) (λ s. not (touches f id s)) m.synapses v.ends;
    one_way = λ a b pa pb. rw (has-remove_neuron id a b now limit m pa v) (
        rw (has-remove_neuron id b a now limit m pb v) (λ is. ground (arith, v.one_way a b pa pb)));
    adjacent = λ a b pa pb. rw (has-remove_neuron id a b now limit m pa v) (
        rw (has-remove_neuron id b a now limit m pb v)
          (mentions-remove_neuron id a b now m ∙ rw (v.adjacent a b pa pb) (ground arith)));
    degree = λ a. ground (
      arith,
      neighbours-remove_neuron id a now m,
      length-select-le (λ j. not (text_eq j id)) (neighbours f a m),
      v.degree a,
    );
  }

  -- the dimension has no part in the wiring
  check_dimension_contraction-IsWired :
      (limit : ℕ) (m : Matrix F)
      → IsWired f limit m
      → IsWired f limit (check_dimension_contraction f m)
  unfolding check_dimension_contraction contract_dimension neighbours
  check_dimension_contraction-IsWired limit m v =
      elim (Bool-cases
        (ltb (length m.neurons) (10 * m.current_dim) && ltb m.bounds.min_dimension m.current_dim)) [
          | inl shrink ↦ rw shrink (record {
            ids_unique = v.ids_unique;
            ends = v.ends;
            one_way = v.one_way;
            adjacent = v.adjacent;
            degree = v.degree;
          })
          | inr stay ↦ rw stay v
        ]

  check_dimension_expansion-IsWired :
      (rand : Text → ℕ → F) (limit : ℕ) (m : Matrix F)
      → IsWired f limit m
      → IsWired f limit (check_dimension_expansion f rand m)
  unfolding check_dimension_expansion expand_dimension neighbours
  check_dimension_expansion-IsWired rand limit m v =
      elim (Bool-cases (
        ltb (100 * m.current_dim) (length m.neurons) && ltb m.current_dim m.bounds.max_dimension)) [
          | inl grow ↦ rw grow (record {
            ids_unique = v.ids_unique;
            ends = v.ends;
            one_way = v.one_way;
            adjacent = v.adjacent;
            degree = v.degree;
          })
          | inr stay ↦ rw stay v
        ]

  pub delete_neuron-IsWired :
      (id : Text) (now limit : ℕ) (m : Matrix F)
      → IsWired f limit m
      → IsWired f limit (delete_neuron f id now m).0
  unfolding delete_neuron
  delete_neuron-IsWired id now limit m v = elim (Option-cases (lookup text_discrete id m.neurons)) [
    | inl h ↦ rw (h, delete_neuron) v
    | inr (n, h) ↦
        rw (h, delete_neuron)
          (check_dimension_contraction-IsWired limit _ (remove_neuron-IsWired id now limit m v))
  ]

  fire_at-IsWired :
      (id : Text) (now limit : ℕ) (m : Matrix F)
      → IsWired f limit m
      → IsWired f limit (fire_at f id now m)
  unfolding fire_at neighbours
  fire_at-IsWired id now limit m v = elim (Option-cases (lookup text_discrete id m.neurons)) [
    | inl h ↦ rw (h, fire_at) v
    | inr (n, h) ↦
        rw (h, fire_at)
          (record {
            ids_unique = v.ids_unique;
            ends = v.ends;
            one_way = v.one_way;
            adjacent = v.adjacent;
            degree = v.degree;
          })
  ]

  -- the empty list under a new id changes no list
  neighbours-store_neuron :
      (e : Engine F) (content : Text) (parent : Option Text) (metadata : List (Text × Text))
      (draw : Draw F) (m : Matrix F) (a : Text)
      → neighbours f draw.new_id m ≡ []
      → neighbours f a (store_neuron f (make_neuron f e content parent metadata draw m) draw.now m)
        ≡ neighbours f a m
  unfolding neighbours store_neuron
  neighbours-store_neuron e content parent metadata draw m a fresh =
      let n = make_neuron f e content parent metadata draw m in
      ground (
        arith,
        make_neuron-id f e content parent metadata draw m,
        lookup-insert text_discrete n.id a [] m.adjacency,
      )

  store_neuron-IsWired :
      (e : Engine F) (content : Text) (parent : Option Text) (metadata : List (Text × Text))
      (draw : Draw F) (limit : ℕ) (m : Matrix F)
      → neighbours f draw.new_id m ≡ []
      → IsWired f limit m
      → IsWired f limit (store_neuron f (make_neuron f e content parent metadata draw m) draw.now m)
  unfolding store_neuron
  store_neuron-IsWired e content parent metadata draw limit m fresh v = record {
    ids_unique = v.ids_unique;
    ends = v.ends;
    one_way = v.one_way;
    adjacent = λ a b pa pb.
        rw (neighbours-store_neuron e content parent metadata draw m a fresh)
          (v.adjacent a b pa pb);
    degree =
        λ a. rw (neighbours-store_neuron e content parent metadata draw m a fresh) (v.degree a);
  }

  pub add_neuron-IsWired :
      (e : Engine F) (content : Text) (parent : Option Text) (metadata : List (Text × Text))
      (draw : Draw F) (limit : ℕ) (m : Matrix F)
      → neighbours f draw.new_id m ≡ []
      → IsWired f limit m
      → IsWired f limit (add_neuron f e content parent metadata draw m).0
  unfolding add_neuron add_new
  add_neuron-IsWired e content parent metadata draw limit m fresh v =
      elim (Bool-cases (leb m.bounds.max_neurons (length m.neurons))) [
        | inl full ↦ rw full v
        | inr room ↦ elim (Option-cases (validate_neuron_content e.text e.content_limit content)) [
          | inr (x, h) ↦ rw (room, h) v
          | inl h ↦
              elim (Option-cases
                (find_by_hash f (e.text.hash_content content) (draw.order m.neurons))) [
                  | inr (id, g) ↦ rw (room, h, g) (fire_at-IsWired id draw.now limit m v)
                  | inl g ↦
                      rw (room, h, g)
                        (check_dimension_expansion-IsWired draw.expansion limit _
                          (store_neuron-IsWired e content parent metadata draw limit m fresh v))
                ]
        ]
      ]
