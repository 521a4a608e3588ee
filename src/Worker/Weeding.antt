-- ===== src/Worker/Weeding.antt =====
-- The pruning of a worker (pkg/concurrency/brain_worker.go, prune).
use qubicdb.Prelude.{
  ℕ, ◌*◌, ltb, length, ◌≡◌, refl, ap, ◌∙◌, Bool, true, false, not, ◌&&◌, ◌||◌, none, some, is_some,
  List, [], ◌∷◌, Text, text_discrete, text_eq, mentions, arith, Bool-cases, Option-cases, inl, inr,
}
use qubicdb.Prelude.Assoc.{
  lookup, select_values, map_values, keys, Unique, lookup-select_values, lookup-map_values,
  lookup-delete,
}
use qubicdb.Core.Float.{Float}
use qubicdb.Core.Neuron.{Neuron, is_alive}
use qubicdb.Core.Synapse.{Synapse, is_alive_synapse}
use qubicdb.Core.Matrix.{Matrix}
use qubicdb.Engine.{remove_neuron, check_dimension_contraction, contract_dimension, delete_neuron}
use qubicdb.Hebbian.{Hebbian, prune_dead_synapses}
use qubicdb.Hebbian.Pruning.{lookup-prune_dead_synapses}
use qubicdb.Worker.{delete_each, prune}
use qubicdb.Worker.Keeping.{IsHealthy, delete_each-IsHealthy, prune-IsHealthy}
use qubicdb.Worker.Health.{prune_dead_synapses-Framed}

mentions-keys :
    {V : Type 0} (j : Text) (l : List (Text × V))
    → mentions j (keys l) ≡ is_some (lookup text_discrete j l)
unfolding mentions lookup text_eq keys
mentions-keys j [] = refl
mentions-keys j ((k, v) ∷ l) = ground (arith, mentions-keys j l)

not_either : (a b c : Bool) → ((a && not b) && not c) ≡ (a && not (b || c))
not_either true true c = refl
not_either true false c = refl
not_either false b c = refl

module _ {F : Type 0} (f : Float F) where
  abbrev knows : Text → Matrix F → Bool
  knows j m = is_some (lookup text_discrete j m.neurons)

  knows-map_values :
      (j : Text) (g : Neuron F → Neuron F) (l : List (Text × Neuron F))
      → is_some (lookup text_discrete j (map_values g l)) ≡ is_some (lookup text_discrete j l)
  knows-map_values j g l = elim (Option-cases (lookup text_discrete j l)) [
    | inl h ↦ ground (arith, lookup-map_values text_discrete g l j)
    | inr (n, h) ↦ ground (arith, lookup-map_values text_discrete g l j)
  ]

  knows-check_dimension_contraction :
      (j : Text) (m : Matrix F) → knows j (check_dimension_contraction f m) ≡ knows j m
  unfolding check_dimension_contraction contract_dimension
  knows-check_dimension_contraction j m =
      elim (Bool-cases
        (ltb (length m.neurons) (10 * m.current_dim) && ltb m.bounds.min_dimension m.current_dim)) [
          | inl shrink ↦ rw shrink (knows-map_values j _ m.neurons)
          | inr keep ↦ rw keep refl
        ]

  knows-delete_neuron :
      (id j : Text) (now : ℕ) (m : Matrix F)
      → knows j (delete_neuron f id now m).0 ≡ (knows j m && not (text_eq id j))
  unfolding delete_neuron remove_neuron text_eq
  knows-delete_neuron id j now m = elim (Option-cases (lookup text_discrete id m.neurons)) [
    | inl h ↦ rw (h, delete_neuron) (ground arith)
    | inr (n, h) ↦
        rw (h, delete_neuron)
          (knows-check_dimension_contraction j (remove_neuron f id now m)
            ∙ ground (arith, lookup-delete text_discrete id j m.neurons))
  ]

  knows-delete_each :
      (j : Text) (ids : List Text) (now : ℕ) (m : Matrix F)
      → knows j (delete_each f ids now m).0 ≡ (knows j m && not (mentions j ids))
  unfolding delete_each mentions
  knows-delete_each j [] now m = ground arith
  knows-delete_each j (id ∷ ids) now m =
      knows-delete_each j ids now (delete_neuron f id now m).0
      ∙ rw (knows-delete_neuron id j now m) (not_either (knows j m) (text_eq id j) (mentions j ids))

  prune-alive_neurons :
      (now : ℕ) (m : Matrix F) (j : Text)
      → Unique text_discrete m.neurons
      → knows j (prune f now m).0
        ≡ elim (lookup text_discrete j m.neurons) [ none ↦ false | some n ↦ is_alive f n ]
  unfolding prune
  prune-alive_neurons now m j u =
      let dead = keys (select_values (λ n. not (is_alive f n)) m.neurons) in
      let m' = (delete_each f dead now m).0 in
      let same : knows j (prune f now m).0 ≡ knows j m' =
        ap (λ l. is_some (lookup text_discrete j l)) (prune_dead_synapses-Framed f now m').0 in
      same
      ∙ (knows-delete_each j dead now m
          ∙ rw (mentions-keys j (select_values (λ n. not (is_alive f n)) m.neurons)) (
              rw (lookup-select_values text_discrete (λ n. not (is_alive f n)) m.neurons j u)
                (elim (Option-cases (lookup text_discrete j m.neurons)) [
                  | inl h ↦ rw h refl
                  | inr (n, h) ↦ elim (Bool-cases (is_alive f n)) [
                    | inl alive ↦ rw (h, alive) refl
                    | inr gone ↦ rw (h, gone) refl
                  ]
                ])))

  pub record IsWeeded (m m' : Matrix F) : Type 0 where
    pub neurons_alive :
        (j : Text)
        → knows j m'
          ≡ elim (lookup text_discrete j m.neurons) [ none ↦ false | some n ↦ is_alive f n ]
    pub synapses_alive :
        (k : Text) (s : Synapse F)
        → lookup text_discrete k m'.synapses ≡ some s
        → is_alive_synapse f s ≡ true

  -- the synapses of the neurons that went are gone as well
  prune_dead_synapses-alive :
      (now : ℕ) (m : Matrix F) (k : Text) (s : Synapse F)
      → Unique text_discrete m.synapses
      → lookup text_discrete k (prune_dead_synapses f now m).0.synapses ≡ some s
      → is_alive_synapse f s ≡ true
  prune_dead_synapses-alive now m k s u =
      rw (lookup-prune_dead_synapses f now m k u)
        (elim (Option-cases (lookup text_discrete k m.synapses)) [
          | inl h ↦ rw h (λ e. absurd (ground arith))
          | inr (t, h) ↦ elim (Bool-cases (is_alive_synapse f t)) [
            | inl alive ↦ rw (h, alive) (λ e. ground arith)
            | inr gone ↦ rw (h, gone) (λ e. absurd (ground arith))
          ]
        ])

  -- If a worker's matrix is in order, a prune leaves exactly the neurons that are alive, only
  -- synapses that are alive, and a matrix that is in order.
  pub prune-IsWeeded :
      (now : ℕ) (h : Hebbian F) (m : Matrix F)
      → IsHealthy f h m
      → IsWeeded m (prune f now m).0 × IsHealthy f h (prune f now m).0
  unfolding prune
  prune-IsWeeded now h m v =
      let dead = keys (select_values (λ n. not (is_alive f n)) m.neurons) in
      (
        record {
          neurons_alive = λ j. prune-alive_neurons now m j v.fitted.ids_unique;
          synapses_alive = λ k s.
              prune_dead_synapses-alive now (delete_each f dead now m).0 k s
                (delete_each-IsHealthy f dead now h m v).sound.wired.ids_unique;
        },
        prune-IsHealthy f now h m v,
      )
