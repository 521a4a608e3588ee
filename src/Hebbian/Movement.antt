-- ===== src/Hebbian/Movement.antt =====
-- The movement of positions keeps the shape of the matrix (pkg/synapse/hebbian.go).
use qubicdb.Prelude.{
  some, arith, ℕ, zero, suc, ◌≡◌, refl, ap, ◌∙◌, List, [], ◌∷◌, Text, text_discrete, mentions, ◌==◌,
  length, Bool-cases, Option-cases, inl, inr,
}
use qubicdb.Prelude.Assoc.{
  lookup, insert, map_values, Unique, AllEntries, AllEntries-lookup, AllEntries-imp,
  lookup-map_values,
}
use qubicdb.Core.Float.{Float}
use qubicdb.Core.Neuron.{Neuron, zeros}
use qubicdb.Core.Matrix.{Matrix}
use qubicdb.Engine.Dimension.{Fits, IsFitted}
use qubicdb.Engine.Fitting.{replace-IsFitted}
use qubicdb.Hebbian.{Pull, neighbours}
use qubicdb.Hebbian.Cluster.{
  attract, sum_positions, pull_position, repel_position, move, pull_to_centroid, candidates,
  repel_each, repel_unconnected, attract_pair, update_fractal_cluster, strong_pairs, update_pairs,
  update_fractal_clusters,
}

module _ {F : Type 0} (f : Float F) where
  length-attract : (strength : F) (ps qs : List F) → length (attract f strength ps qs) ≡ length ps
  unfolding attract
  length-attract strength [] qs = refl
  length-attract strength (p ∷ ps) [] = refl
  length-attract strength (p ∷ ps) (q ∷ qs) = ap suc (length-attract strength ps qs)

  length-pull_position :
      (strength : F) (count : ℕ) (ps cs : List F)
      → length (pull_position f strength count ps cs) ≡ length ps
  unfolding pull_position
  length-pull_position strength count [] cs = refl
  length-pull_position strength count (p ∷ ps) [] = refl
  length-pull_position strength count (p ∷ ps) (c ∷ cs) =
      ap suc (length-pull_position strength count ps cs)

  length-repel_position :
      (strength : F) (ps ns : List F) → length (repel_position f strength ps ns) ≡ length ps
  unfolding repel_position
  length-repel_position strength [] ns = refl
  length-repel_position strength (p ∷ ps) [] = refl
  length-repel_position strength (p ∷ ps) (n ∷ ns) = ap suc (length-repel_position strength ps ns)

  -- a neuron but for its position
  abbrev pub bare : Neuron F → Neuron F
  bare n = record n { position = [] }

  -- the neurons of a matrix under their ids, but for their positions
  abbrev pub bare_neurons : Matrix F → List (Text × Neuron F)
  bare_neurons m = map_values bare m.neurons

  -- The second matrix has the neurons of the first but for their positions, which have the dimension
  -- of the first, and its synapses, lists, dimension and bounds.
  pub record Moved (m m' : Matrix F) : Type 0 where
    pub fitted : IsFitted m'
    pub same_neurons : bare_neurons m' ≡ bare_neurons m
    pub same_synapses : m'.synapses ≡ m.synapses
    pub same_adjacency : m'.adjacency ≡ m.adjacency
    pub same_dim : m'.current_dim ≡ m.current_dim
    pub same_bounds : m'.bounds ≡ m.bounds

  Moved-trans : (m m' m'' : Matrix F) → Moved m m' → Moved m' m'' → Moved m m''
  Moved-trans m m' m'' v w = record {
    fitted = w.fitted;
    same_neurons = w.same_neurons ∙ v.same_neurons;
    same_synapses = w.same_synapses ∙ v.same_synapses;
    same_adjacency = w.same_adjacency ∙ v.same_adjacency;
    same_dim = w.same_dim ∙ v.same_dim;
    same_bounds = w.same_bounds ∙ v.same_bounds;
  }

  Moved-refl : (m : Matrix F) → IsFitted m → Moved m m
  Moved-refl m v = record {
    fitted = v;
    same_neurons = refl;
    same_synapses = refl;
    same_adjacency = refl;
    same_dim = refl;
    same_bounds = refl;
  }

  -- a neuron that the matrix has, but perhaps elsewhere
  abbrev Stands : Matrix F → Text → Neuron F → Type 0
  Stands m id n =
      Fits m.current_dim id n × (lookup text_discrete id (bare_neurons m) ≡ some (bare n))

  Stands-lookup :
      (m : Matrix F) (id : Text) (n : Neuron F)
      → IsFitted m
      → lookup text_discrete id m.neurons ≡ some n
      → Stands m id n
  Stands-lookup m id n v h = (
    AllEntries-lookup text_discrete (Fits m.current_dim) m.neurons id n v.positions h,
    lookup-map_values text_discrete bare m.neurons id ∙ rw h refl,
  )

  Stands-Moved :
      (m m' : Matrix F) (id : Text) (n : Neuron F) → Moved m m' → Stands m id n → Stands m' id n
  Stands-Moved m m' id n w (fits, there) = (rw w.same_dim fits, rw w.same_neurons there)

  map_values-insert_same :
      (id : Text) (n : Neuron F) (l : List (Text × Neuron F))
      → lookup text_discrete id (map_values bare l) ≡ some (bare n)
      → map_values bare (insert text_discrete id n l) ≡ map_values bare l
  unfolding map_values insert lookup
  map_values-insert_same id n [] h = absurd (ground arith)
  map_values-insert_same id n ((k, w) ∷ l) h = ground (arith, map_values-insert_same id n l)

  entries_looked_up :
      (l : List (Text × Neuron F))
      → Unique text_discrete l
      → AllEntries (λ k n. lookup text_discrete k l ≡ some n) l
  unfolding lookup
  entries_looked_up [] u = tt
  entries_looked_up ((k, n) ∷ l) u = (
    ground arith,
    AllEntries-imp (λ j w. lookup text_discrete j l ≡ some w)
        (λ j w. lookup text_discrete j ((k, n) ∷ l) ≡ some w) l (λ j w h. ground arith)
        (entries_looked_up l u.1),
  )

  move-Moved :
      (id : Text) (n : Neuron F) (pos : List F) (m : Matrix F)
      → IsFitted m
      → Stands m id n
      → length pos ≡ length n.position
      → Moved m (move f id n pos m)
  unfolding move
  move-Moved id n pos m v (fits, there) same = record {
    fitted =
        replace-IsFitted f m id (record n { position = pos }) m.total_activations m.last_activity
          m.modified_at m.version v (fits.0, same ∙ fits.1);
    same_neurons = map_values-insert_same id (record n { position = pos }) m.neurons there;
    same_synapses = refl;
    same_adjacency = refl;
    same_dim = refl;
    same_bounds = refl;
  }

  pull_to_centroid-Moved :
      (id : Text) (ns : List Text) (strength : F) (m : Matrix F)
      → IsFitted m
      → Moved m (pull_to_centroid f id ns strength m)
  unfolding pull_to_centroid
  pull_to_centroid-Moved id ns strength m v =
      elim (Option-cases (lookup text_discrete id m.neurons)) [
        | inl h ↦ rw (h, pull_to_centroid) (Moved-refl m v)
        | inr (n, h) ↦
            let total = sum_positions f m.neurons ns (zeros f (length n.position), 0) in
            elim (Bool-cases (total.1 == 0)) [
              | inl nobody ↦ rw (h, pull_to_centroid, nobody) (Moved-refl m v)
              | inr somebody ↦
                  rw (h, pull_to_centroid, somebody)
                    (move-Moved id n (pull_position f strength total.1 n.position total.0) m v
                      (Stands-lookup m id n v h)
                      (length-pull_position strength total.1 n.position total.0))
            ]
      ]

  AllEntries-candidates :
      (P : Text → Neuron F → Type 0) (k : ℕ) (connected : List Text) (l : List (Text × Neuron F))
      → AllEntries P l
      → AllEntries P (candidates f k connected l)
  unfolding candidates
  AllEntries-candidates P zero connected l a = tt
  AllEntries-candidates P (suc k) connected [] a = tt
  AllEntries-candidates P (suc k) connected ((j, n) ∷ l) a =
      elim (Bool-cases (mentions j connected)) [
        | inl h ↦ rw (h, AllEntries) (AllEntries-candidates P (suc k) connected l a.1)
        | inr h ↦ rw (h, AllEntries) (a.0, AllEntries-candidates P k connected l a.1)
      ]

  repel_each-Moved :
      (strength : F) (pos : List F) (l : List (Text × Neuron F)) (m : Matrix F)
      → IsFitted m
      → AllEntries (Stands m) l
      → Moved m (repel_each f strength pos l m)
  unfolding repel_each
  repel_each-Moved strength pos [] m v a = Moved-refl m v
  repel_each-Moved strength pos ((j, n) ∷ l) m v a =
      let m' = move f j n (repel_position f strength n.position pos) m in
      let first : Moved m m' =
        move-Moved j n (repel_position f strength n.position pos) m v a.0
          (length-repel_position strength n.position pos) in
      Moved-trans m m' (repel_each f strength pos l m') first (
        repel_each-Moved strength pos l m' first.fitted
          (AllEntries-imp (Stands m) (Stands m') l (λ k w. Stands-Moved m m' k w first) a.1))

  repel_unconnected-Moved :
      (id : Text) (ns : List Text) (strength : F) (m : Matrix F)
      → IsFitted m
      → Moved m (repel_unconnected f id ns strength m)
  unfolding repel_unconnected
  repel_unconnected-Moved id ns strength m v =
      elim (Option-cases (lookup text_discrete id m.neurons)) [
        | inl h ↦ rw (h, repel_unconnected) (Moved-refl m v)
        | inr (n, h) ↦
            rw (h, repel_unconnected)
              (repel_each-Moved strength n.position (candidates f 5 (id ∷ ns) m.neurons) m v (
                AllEntries-candidates (Stands m) 5 (id ∷ ns) m.neurons (
                  AllEntries-imp (λ k w. lookup text_discrete k m.neurons ≡ some w) (Stands m)
                    m.neurons (λ k w. Stands-lookup m k w v)
                    (entries_looked_up m.neurons v.ids_unique))))
      ]

  attract_pair-Moved :
      (id1 id2 : Text) (strength : F) (n1 n2 : Neuron F) (m : Matrix F)
      → IsFitted m
      → Stands m id1 n1
      → Stands m id2 n2
      → Moved m (attract_pair f id1 id2 strength n1 n2 m)
  unfolding attract_pair
  attract_pair-Moved id1 id2 strength n1 n2 m v fits1 fits2 =
      let m' = move f id1 n1 (attract f strength n1.position n2.position) m in
      let first : Moved m m' =
        move-Moved id1 n1 (attract f strength n1.position n2.position) m v fits1
          (length-attract strength n1.position n2.position) in
      Moved-trans m m' (move f id2 n2 (attract f strength n2.position n1.position) m') first (
        move-Moved id2 n2 (attract f strength n2.position n1.position) m' first.fitted
          (Stands-Moved m m' id2 n2 first fits2) (length-attract strength n2.position n1.position))

  -- the two pulls and the two repulsions
  rearrange :
      (id1 id2 : Text) (adj1 adj2 : List Text) (pulled repelled : F) (m m1 : Matrix F)
      → Moved m m1
      → Moved m (
          repel_unconnected f id2 adj2 repelled (
            repel_unconnected f id1 adj1 repelled
              (pull_to_centroid f id2 adj2 pulled (pull_to_centroid f id1 adj1 pulled m1))))
  rearrange id1 id2 adj1 adj2 pulled repelled m m1 w1 =
      let m2 = pull_to_centroid f id1 adj1 pulled m1 in
      let w2 = Moved-trans m m1 m2 w1 (pull_to_centroid-Moved id1 adj1 pulled m1 w1.fitted) in
      let m3 = pull_to_centroid f id2 adj2 pulled m2 in
      let w3 = Moved-trans m m2 m3 w2 (pull_to_centroid-Moved id2 adj2 pulled m2 w2.fitted) in
      let m4 = repel_unconnected f id1 adj1 repelled m3 in
      let w4 = Moved-trans m m3 m4 w3 (repel_unconnected-Moved id1 adj1 repelled m3 w3.fitted) in
      Moved-trans m m4 (repel_unconnected f id2 adj2 repelled m4) w4
        (repel_unconnected-Moved id2 adj2 repelled m4 w4.fitted)

  update_fractal_cluster-Moved :
      (id1 id2 : Text) (strength : F) (m : Matrix F)
      → IsFitted m
      → Moved m (update_fractal_cluster f id1 id2 strength m)
  unfolding update_fractal_cluster
  update_fractal_cluster-Moved id1 id2 strength m v =
      elim (Option-cases (lookup text_discrete id1 m.neurons)) [
        | inl h ↦ rw (h, update_fractal_cluster) (Moved-refl m v)
        | inr (n1, h) ↦ elim (Option-cases (lookup text_discrete id2 m.neurons)) [
          | inl g ↦ rw (h, g, update_fractal_cluster) (Moved-refl m v)
          | inr (n2, g) ↦
              rw (h, g, update_fractal_cluster)
                (rearrange id1 id2 (neighbours f id1 m) (neighbours f id2 m)
                  (f.mul strength (f.ratio 5 10)) (f.mul strength (f.ratio 3 10)) m
                  (attract_pair f id1 id2 strength n1 n2 m)
                  (attract_pair-Moved id1 id2 strength n1 n2 m v (Stands-lookup m id1 n1 v h)
                    (Stands-lookup m id2 n2 v g)))
        ]
      ]

  update_pairs-Moved :
      (ps : List (Pull F)) (m : Matrix F) → IsFitted m → Moved m (update_pairs f ps m)
  unfolding update_pairs
  update_pairs-Moved [] m v = Moved-refl m v
  update_pairs-Moved (p ∷ ps) m v =
      let m' = update_fractal_cluster f p.first_id p.second_id p.strength m in
      let first = update_fractal_cluster-Moved p.first_id p.second_id p.strength m v in
      Moved-trans m m' (update_pairs f ps m') first (update_pairs-Moved ps m' first.fitted)

  -- A pass of the clustering changes positions and nothing else of the neurons, the synapses, the
  -- lists of neighbours, the dimension and the bounds: the same neurons stand under the same ids,
  -- equal but for their positions, which still have as many coordinates as the matrix has
  -- dimensions. Before, no id occurs twice, each neuron stands under its own with that many
  -- coordinates, and the dimension is within the bounds; this holds afterwards too.
  pub update_fractal_clusters-Moved :
      (m : Matrix F) → IsFitted m → Moved m (update_fractal_clusters f m)
  unfolding update_fractal_clusters
  update_fractal_clusters-Moved m v = update_pairs-Moved (strong_pairs f m.synapses) m v
