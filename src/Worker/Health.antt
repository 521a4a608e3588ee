-- ===== src/Worker/Health.antt =====
-- Matrices that differ in their connections only, or in their neurons only, as the parts of a
-- worker's operations leave them (pkg/concurrency/brain_worker.go, pkg/synapse/hebbian.go).
use qubicdb.Prelude.{
  ℕ, ◌≡◌, refl, ◌∙◌, Bool, true, false, ◌&&◌, List, [], ◌∷◌, Text, text_discrete, length, ltb,
  Bool-cases, Option-cases, inl, inr, if◌then◌else◌,
}
use qubicdb.Prelude.Assoc.{lookup}
use qubicdb.Core.Float.{Float}
use qubicdb.Core.Synapse.{new_synapse_id, is_alive_synapse}
use qubicdb.Core.Matrix.{Matrix}
use qubicdb.Engine.Dimension.{IsFitted}
use qubicdb.Hebbian.{
  Hebbian, neighbours, link_all, strengthen_or_create, create_synapse, add_to_adjacency, find_link,
  prune_dead_synapses, prune_each, prune_one, remove_from_adjacency,
}
use qubicdb.Hebbian.Wiring.{IsWired}

module _ {F : Type 0} (f : Float F) where
  -- the same neurons in the same space
  abbrev pub Framed : Matrix F → Matrix F → Type 0
  Framed m m' = (m'.neurons ≡ m.neurons) × (m'.current_dim ≡ m.current_dim) × (m'.bounds ≡ m.bounds)

  -- the same connections
  abbrev pub Linked : Matrix F → Matrix F → Type 0
  Linked m m' = (m'.synapses ≡ m.synapses) × (m'.adjacency ≡ m.adjacency)

  pub IsFitted-Framed : (m m' : Matrix F) → Framed m m' → IsFitted m → IsFitted m'
  IsFitted-Framed m m' (n, d, b) v = record {
    ids_unique = rw n v.ids_unique;
    positions = rw (n, d) v.positions;
    above_min = rw (b, d) v.above_min;
    below_max = rw (b, d) v.below_max;
  }

  pub IsWired-Linked :
      (limit : ℕ) (m m' : Matrix F) → Linked m m' → IsWired f limit m → IsWired f limit m'
  unfolding neighbours
  IsWired-Linked limit m m' (s, a) v = record {
    ids_unique = rw s v.ids_unique;
    ends = rw s v.ends;
    one_way = λ x y px py. rw s (v.one_way x y px py);
    adjacent = λ x y px py. rw (s, a) (v.adjacent x y px py);
    degree = λ x. rw a (v.degree x);
  }

  create_synapse-Framed :
      (h : Hebbian F) (from to : Text) (now : ℕ) (m : Matrix F)
      → Framed m (create_synapse f h from to now m)
  unfolding create_synapse add_to_adjacency
  create_synapse-Framed h from to now m =
      elim (Option-cases (lookup text_discrete (new_synapse_id from to) m.synapses)) [
        | inl e ↦ rw (e, create_synapse) (refl, refl, refl)
        | inr (s, e) ↦ rw (e, create_synapse) (refl, refl, refl)
      ]

  either-Framed : (b : Bool) (m m' : Matrix F) → Framed m m' → Framed m (if b then m' else m)
  either-Framed true m m' v = v
  either-Framed false m m' v = (refl, refl, refl)

  strengthen_or_create-Framed :
      (h : Hebbian F) (from to : Text) (now : ℕ) (m : Matrix F)
      → Framed m (strengthen_or_create f h from to now m).0
  unfolding strengthen_or_create
  strengthen_or_create-Framed h from to now m = elim (Option-cases (find_link f from to m)) [
    | inl e ↦
        rw (e, strengthen_or_create)
          (either-Framed
            (ltb (length (neighbours f from m)) h.max_synapses_per_neuron
              && ltb (length (neighbours f to m)) h.max_synapses_per_neuron)
            m (create_synapse f h from to now m) (create_synapse-Framed h from to now m))
    | inr (ks, e) ↦ rw (e, strengthen_or_create) (refl, refl, refl)
  ]

  pub Framed-trans : (m m' m'' : Matrix F) → Framed m m' → Framed m' m'' → Framed m m''
  Framed-trans m m' m'' (a, b, c) (x, y, z) = (x ∙ a, y ∙ b, z ∙ c)

  pub link_all-Framed :
      (h : Hebbian F) (id : Text) (js : List Text) (now : ℕ) (m : Matrix F)
      → Framed m (link_all f h id js now m).0
  unfolding link_all
  link_all-Framed h id [] now m = (refl, refl, refl)
  link_all-Framed h id (j ∷ js) now m =
      Framed-trans m (strengthen_or_create f h id j now m).0
        (link_all f h id js now (strengthen_or_create f h id j now m).0).0
        (strengthen_or_create-Framed h id j now m)
        (link_all-Framed h id js now (strengthen_or_create f h id j now m).0)

  prune_each-Framed : (l : List _) (m : Matrix F) → Framed m (prune_each f l m).0
  unfolding prune_each prune_one remove_from_adjacency
  prune_each-Framed [] m = (refl, refl, refl)
  prune_each-Framed ((k, s) ∷ l) m = elim (Bool-cases (is_alive_synapse f s)) [
    | inl alive ↦ rw alive (prune_each-Framed l m)
    | inr dead ↦ rw dead (
        Framed-trans m (prune_one f k s m) (prune_each f l (prune_one f k s m)).0 (refl, refl, refl)
          (prune_each-Framed l (prune_one f k s m)))
  ]

  pub prune_dead_synapses-Framed :
      (now : ℕ) (m : Matrix F) → Framed m (prune_dead_synapses f now m).0
  unfolding prune_dead_synapses
  prune_dead_synapses-Framed now m =
      let v = prune_each-Framed m.synapses m in
      elim (Bool-cases (ltb 0 (prune_each f m.synapses m).1)) [
        | inl some_died ↦ rw some_died v
        | inr none_died ↦ rw none_died v
      ]
