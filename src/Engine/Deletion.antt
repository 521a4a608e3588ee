-- ===== src/Engine/Deletion.antt =====
-- What a deletion takes away and what it leaves (pkg/engine/matrix_ops.go, DeleteNeuron).
use Prim.Native.Nat.{max}
use qubicdb.Prelude.{
  mentions, ℕ, zero, suc, ◌-◌, sym, ◌*◌, ◌≤◌, ◌≡◌, ◌≢◌, refl, ◌∙◌, ap, false, not, ◌&&◌, none, some,
  List, [], ◌∷◌, Text, text_discrete, text_eq, ltb, length, take, select, arith, Bool-cases,
  Option-cases, inl, inr,
}
use qubicdb.Prelude.Assoc.{
  lookup, delete, map_values, Unique, lookup-map_values, lookup-select_values, lookup-delete_self,
  lookup-delete_ne, AllEntries-lookup,
}
use qubicdb.Core.Float.{Float}
use qubicdb.Engine.Dimension.{Fits, IsFitted}
use qubicdb.Core.Neuron.{Neuron}
use qubicdb.Core.Synapse.{Synapse}
use qubicdb.Core.Matrix.{Matrix}
use qubicdb.Engine.{
  ok, contract_dimension, check_dimension_contraction, touches, remove_neuron, delete_neuron,
}

mentions-select_self :
    (w : Text) (l : List Text) → mentions w (select (λ j. not (text_eq j w)) l) ≡ false
unfolding mentions select
mentions-select_self w [] = refl
mentions-select_self w (v ∷ l) = ground (arith, mentions-select_self w l)

module _ {F : Type 0} (f : Float F) where
  -- Nothing of the matrix refers to the id.
  pub record IsForgotten (id : Text) (m : Matrix F) : Type 0 where
    pub no_neuron : lookup text_discrete id m.neurons ≡ none
    pub no_list : lookup text_discrete id m.adjacency ≡ none
    pub no_neighbour :
        (j : Text) (l : List Text)
        → lookup text_discrete j m.adjacency ≡ some l
        → mentions id l ≡ false
    pub no_synapse :
        (k : Text) (s : Synapse F)
        → lookup text_discrete k m.synapses ≡ some s
        → touches f id s ≡ false

  mentions-lookup-other :
      (id j : Text) (a : List (Text × List Text)) (l : List Text)
      → lookup text_discrete j (map_values (select (λ i. not (text_eq i id))) a) ≡ some l
      → mentions id l ≡ false
  mentions-lookup-other id j a l h = elim (Option-cases (lookup text_discrete j a)) [
    | inl g ↦
        absurd
          (ground (arith, lookup-map_values text_discrete (select (λ i. not (text_eq i id))) a j))
    | inr (l0, g) ↦
        let same : l ≡ select (λ i. not (text_eq i id)) l0 =
          ground (arith, lookup-map_values text_discrete (select (λ i. not (text_eq i id))) a j) in
        rw same (mentions-select_self id l0)
  ]

  remove_neuron-IsForgotten :
      (id : Text) (now : ℕ) (m : Matrix F)
      → Unique text_discrete m.synapses
      → IsForgotten id (remove_neuron f id now m)
  unfolding remove_neuron
  remove_neuron-IsForgotten id now m u = record {
    no_neuron = lookup-delete_self text_discrete id m.neurons;
    no_list = ground (
      arith,
      lookup-map_values text_discrete (select (λ j. not (text_eq j id)))
          (delete text_discrete id m.adjacency) id,
      lookup-delete_self text_discrete id m.adjacency,
    );
    no_neighbour = λ j l h. mentions-lookup-other id j (delete text_discrete id m.adjacency) l h;
    no_synapse = λ k s h.
        ground
          (arith, lookup-select_values text_discrete (λ s. not (touches f id s)) m.synapses k u);
  }

  -- a neuron, cut to the dimension of the matrix
  abbrev pub cut : ℕ → Neuron F → Neuron F
  cut d n = record n { position = take d n.position }

  check_dimension_contraction-IsForgotten :
      (id : Text) (m : Matrix F)
      → IsForgotten id m
      → IsForgotten id (check_dimension_contraction f m)
  unfolding check_dimension_contraction contract_dimension
  check_dimension_contraction-IsForgotten id m v =
      elim (Bool-cases
        (ltb (length m.neurons) (10 * m.current_dim) && ltb m.bounds.min_dimension m.current_dim)) [
          | inl shrink ↦ rw shrink (record {
            no_neuron =
                lookup-map_values text_discrete
                  (cut (max (m.current_dim - 1) m.bounds.min_dimension)) m.neurons id
                ∙ rw v.no_neuron refl;
            no_list = v.no_list;
            no_neighbour = v.no_neighbour;
            no_synapse = v.no_synapse;
          })
          | inr stay ↦ rw stay v
        ]

  -- The deletion of a neuron that is there succeeds, and nothing in the matrix refers to the neuron
  -- afterwards: it is gone, so is its list of neighbours, no other list names it, and no synapse
  -- starts or ends at it. No two synapses of the matrix share an id.
  pub delete_neuron-IsForgotten :
      (id : Text) (now : ℕ) (m : Matrix F) (n : Neuron F)
      → lookup text_discrete id m.neurons ≡ some n
      → Unique text_discrete m.synapses
      → IsForgotten id (delete_neuron f id now m).0 × ((delete_neuron f id now m).1 ≡ ok id)
  unfolding delete_neuron
  delete_neuron-IsForgotten id now m n h u =
      rw (h, delete_neuron)
        (
          check_dimension_contraction-IsForgotten id (remove_neuron f id now m)
              (remove_neuron-IsForgotten id now m u),
          refl,
        )

  take_all : (d : ℕ) (pos : List F) → length pos ≡ d → take d pos ≡ pos
  take_all d [] h = ground arith
  take_all zero (p ∷ pos) h = absurd (ground arith)
  take_all (suc d) (p ∷ pos) h = ap (◌∷◌ p) (take_all d pos (omega arith))

  cut_same : (d : ℕ) (n : Neuron F) → length n.position ≡ d → cut d n ≡ n
  cut_same d n h = ap (λ p. record n { position = p }) (take_all d n.position h)

  -- What a deletion leaves: another neuron keeps all but the coordinates beyond the dimension that the
  -- matrix has afterwards, a synapse that does not touch the deleted neuron stays as it is, and so does
  -- another list of neighbours but for the deleted id.
  pub record Keeps (id : Text) (m m' : Matrix F) : Type 0 where
    pub neurons_kept :
        (j : Text) (n : Neuron F)
        → id ≢ j
        → lookup text_discrete j m.neurons ≡ some n
        → lookup text_discrete j m'.neurons ≡ some (cut m'.current_dim n)
    pub synapses_kept :
        (k : Text) (s : Synapse F)
        → lookup text_discrete k m.synapses ≡ some s
        → touches f id s ≡ false
        → lookup text_discrete k m'.synapses ≡ some s
    pub lists_kept :
        (j : Text) (l : List Text)
        → id ≢ j
        → lookup text_discrete j m.adjacency ≡ some l
        → lookup text_discrete j m'.adjacency ≡ some (select (λ i. not (text_eq i id)) l)

  remove_neuron-Keeps :
      (id : Text) (now : ℕ) (m : Matrix F)
      → IsFitted m
      → Unique text_discrete m.synapses
      → Keeps id m (remove_neuron f id now m)
  unfolding remove_neuron
  remove_neuron-Keeps id now m v u = record {
    neurons_kept = λ j n ne h.
        lookup-delete_ne text_discrete id j m.neurons ne
        ∙ h
        ∙ ap some (
            sym (
              cut_same m.current_dim n
                (AllEntries-lookup text_discrete (Fits m.current_dim) m.neurons j n v.positions
                  h).1));
    synapses_kept = λ k s h free.
        ground
          (arith, lookup-select_values text_discrete (λ s. not (touches f id s)) m.synapses k u);
    lists_kept = λ j l ne h. ground (
      arith,
      lookup-map_values text_discrete (select (λ i. not (text_eq i id)))
          (delete text_discrete id m.adjacency) j,
      lookup-delete_ne text_discrete id j m.adjacency ne,
    );
  }

  take-take : (a b : ℕ) (pos : List F) → a ≤ b → take a (take b pos) ≡ take a pos
  take-take zero b pos le = refl
  take-take (suc a) zero pos le = absurd (omega arith)
  take-take (suc a) (suc b) [] le = refl
  take-take (suc a) (suc b) (p ∷ pos) le = ap (◌∷◌ p) (take-take a b pos (omega arith))

  cut-cut : (a b : ℕ) (n : Neuron F) → a ≤ b → cut a (cut b n) ≡ cut a n
  cut-cut a b n le = ap (λ p. record n { position = p }) (take-take a b n.position le)

  check_dimension_contraction-Keeps :
      (id : Text) (m m' : Matrix F) → Keeps id m m' → Keeps id m (check_dimension_contraction f m')
  unfolding check_dimension_contraction contract_dimension
  check_dimension_contraction-Keeps id m m' v =
      elim (Bool-cases (
        ltb (length m'.neurons) (10 * m'.current_dim)
        && ltb m'.bounds.min_dimension m'.current_dim)) [
          | inl shrink ↦ rw shrink (record {
            neurons_kept = λ j n ne h.
                lookup-map_values text_discrete
                  (cut (max (m'.current_dim - 1) m'.bounds.min_dimension)) m'.neurons j
                ∙ rw (v.neurons_kept j n ne h)
                    (ap some (cut-cut _ m'.current_dim n (ground arith)));
            synapses_kept = v.synapses_kept;
            lists_kept = v.lists_kept;
          })
          | inr stay ↦ rw stay v
        ]

  -- A deletion keeps everything else: the other neurons but for coordinates beyond the new
  -- dimension, the synapses that do not touch the deleted neuron, and the other lists of neighbours
  -- but for its id. The matrix keeps its positions at its dimension, and no two of its synapses
  -- share an id.
  pub delete_neuron-Keeps :
      (id : Text) (now : ℕ) (m : Matrix F) (n : Neuron F)
      → lookup text_discrete id m.neurons ≡ some n
      → IsFitted m
      → Unique text_discrete m.synapses
      → Keeps id m (delete_neuron f id now m).0
  unfolding delete_neuron
  delete_neuron-Keeps id now m n h v u =
      rw (h, delete_neuron)
        (check_dimension_contraction-Keeps id m (remove_neuron f id now m)
          (remove_neuron-Keeps id now m v u))
