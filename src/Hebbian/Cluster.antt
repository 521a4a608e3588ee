-- ===== src/Hebbian/Cluster.antt =====
-- The movement of positions (pkg/synapse/hebbian.go, updateFractalCluster and what it calls). The reads
-- and the writes of one call are taken as one step, with no other operation between them.
use qubicdb.Prelude.{
  ℕ, zero, suc, ◌+◌, true, false, none, some, List, [], ◌∷◌, Text, text_discrete, mentions, ◌==◌,
  if◌then◌else◌, length,
}
use qubicdb.Prelude.Assoc.{lookup, insert}
use qubicdb.Core.Float.{Float}
use qubicdb.Core.Neuron.{Neuron, zeros}
use qubicdb.Core.Synapse.{Synapse}
use qubicdb.Core.Matrix.{Matrix}
use qubicdb.Hebbian.{Pull, neighbours}

module _ {F : Type 0} (f : Float F) where
  -- `p += (target - p) * strength`
  unfoldable pub toward : F → F → F → F
  toward strength target p = f.add p (f.mul (f.sub target p) strength)

  -- `if p > 1 { p = 1 } else if p < -1 { p = -1 }`
  unfoldable pub clamp : F → F
  clamp p =
      let low = f.sub (f.ratio 0 1) (f.ratio 1 1) in
      if f.lt (f.ratio 1 1) p then f.ratio 1 1 else (if f.lt p low then low else p)

  -- Both positions move to the midpoint, as far as both have coordinates; `mid` is computed before either
  -- moves, and the two neurons differ.
  unfoldable pub attract : F → List F → List F → List F
  unfolding toward
  attract strength [] qs = []
  attract strength (p ∷ ps) [] = p ∷ ps
  attract strength (p ∷ ps) (q ∷ qs) =
      toward strength (f.div (f.add p q) (f.ratio 2 1)) p ∷ attract strength ps qs

  -- `centroid[i] += nb.Position[i]`, as far as both have coordinates
  unfoldable pub add_position : List F → List F → List F
  add_position [] qs = []
  add_position (c ∷ cs) [] = c ∷ cs
  add_position (c ∷ cs) (q ∷ qs) = f.add c q ∷ add_position cs qs

  -- the sum of the positions of those neighbours that exist, and how many those are
  unfoldable pub sum_positions : List (Text × Neuron F) → List Text → List F × ℕ → List F × ℕ
  unfolding add_position
  sum_positions ns [] acc = acc
  sum_positions ns (j ∷ js) (sum, count) = sum_positions ns js (elim (lookup text_discrete j ns) [
    | none ↦ (sum, count)
    | some n ↦ (add_position sum n.position, count + 1)
  ])

  -- `n.Position[i] += (centroid[i] - n.Position[i]) * strength`, clamped; the two have one length
  unfoldable pub pull_position : F → ℕ → List F → List F → List F
  unfolding toward clamp
  pull_position strength count [] cs = []
  pull_position strength count (p ∷ ps) [] = p ∷ ps
  pull_position strength count (p ∷ ps) (c ∷ cs) =
      clamp (toward strength (f.div c (f.ratio count 1)) p) ∷ pull_position strength count ps cs

  -- `p += (p - n) * strength`, clamped, as far as both have coordinates
  unfoldable pub repel_position : F → List F → List F → List F
  unfolding clamp
  repel_position strength [] ns = []
  repel_position strength (p ∷ ps) [] = p ∷ ps
  repel_position strength (p ∷ ps) (n ∷ ns) =
      clamp (f.add p (f.mul (f.sub p n) strength)) ∷ repel_position strength ps ns

  -- a neuron with a new position
  unfoldable pub move : Text → Neuron F → List F → Matrix F → Matrix F
  move id n pos m = record m {
    neurons = insert text_discrete id (record n { position = pos }) m.neurons;
  }

  -- Where there is no neighbour, none is counted, and nothing moves.
  unfoldable pub pull_to_centroid : Text → List Text → F → Matrix F → Matrix F
  unfolding sum_positions pull_position move zeros
  pull_to_centroid id ns strength m = elim (lookup text_discrete id m.neurons) [
    | none ↦ m
    | some n ↦
        let (sum, count) = sum_positions m.neurons ns (zeros f (length n.position), 0) in
        if count == 0 then m else move id n (pull_position strength count n.position sum) m
  ]

  -- the first neurons, at most `k`, that are not connected
  unfoldable pub candidates : ℕ → List Text → List (Text × Neuron F) → List (Text × Neuron F)
  candidates zero connected l = []
  candidates (suc k) connected [] = []
  candidates (suc k) connected ((j, n) ∷ l) = elim (mentions j connected) [
    | true ↦ candidates (suc k) connected l
    | false ↦ (j, n) ∷ candidates k connected l
  ]

  unfoldable pub repel_each : F → List F → List (Text × Neuron F) → Matrix F → Matrix F
  unfolding repel_position move
  repel_each strength pos [] m = m
  repel_each strength pos ((j, n) ∷ l) m =
      repel_each strength pos l (move j n (repel_position strength n.position pos) m)

  unfoldable pub repel_unconnected : Text → List Text → F → Matrix F → Matrix F
  unfolding repel_each candidates
  repel_unconnected id ns strength m = elim (lookup text_discrete id m.neurons) [
    | none ↦ m
    | some n ↦ repel_each strength n.position (candidates 5 (id ∷ ns) m.neurons) m
  ]

  unfoldable pub attract_pair : Text → Text → F → Neuron F → Neuron F → Matrix F → Matrix F
  unfolding attract move
  attract_pair id1 id2 strength n1 n2 m =
      move id2 n2 (attract strength n2.position n1.position)
        (move id1 n1 (attract strength n1.position n2.position) m)

  -- The lists of neighbours are those of before the first movement. The ids differ: the code would
  -- lock one neuron twice and stop. No synapse of a wired matrix joins an id to itself.
  unfoldable pub update_fractal_cluster : Text → Text → F → Matrix F → Matrix F
  unfolding attract_pair pull_to_centroid repel_unconnected
  update_fractal_cluster id1 id2 strength m = elim (lookup text_discrete id1 m.neurons) [
    | none ↦ m
    | some n1 ↦ elim (lookup text_discrete id2 m.neurons) [
      | none ↦ m
      | some n2 ↦
          let adj1 = neighbours f id1 m in
          let adj2 = neighbours f id2 m in
          let pulled = f.mul strength (f.ratio 5 10) in
          let repelled = f.mul strength (f.ratio 3 10) in
          repel_unconnected id2 adj2 repelled (
            repel_unconnected id1 adj1 repelled (
              pull_to_centroid id2 adj2 pulled
                (pull_to_centroid id1 adj1 pulled (attract_pair id1 id2 strength n1 n2 m))))
    ]
  ]

  -- the pairs of the synapses over 0.3, with their strengths
  unfoldable pub strong_pairs : List (Text × Synapse F) → List (Pull F)
  strong_pairs [] = []
  strong_pairs ((_, s) ∷ l) =
      let rest = strong_pairs l in
      if f.lt (f.ratio 3 10) s.weight
      then (record {
        first_id = s.from_id;
        second_id = s.to_id;
        strength = f.mul s.weight (f.ratio 5 100);
      })
        ∷ rest
      else rest

  unfoldable pub update_pairs : List (Pull F) → Matrix F → Matrix F
  update_pairs [] m = m
  update_pairs (p ∷ ps) m =
      update_pairs ps (update_fractal_cluster p.first_id p.second_id p.strength m)

  unfoldable pub update_fractal_clusters : Matrix F → Matrix F
  unfolding strong_pairs update_pairs
  update_fractal_clusters m = update_pairs (strong_pairs m.synapses) m
