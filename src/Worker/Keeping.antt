-- ===== src/Worker/Keeping.antt =====
-- The order of a matrix, through each part of a worker's operation
-- (pkg/concurrency/brain_worker.go).
use qubicdb.Prelude.{
  ℕ, ◌≡◌, refl, ◌∙◌, not, Option, List, [], ◌∷◌, Text, text_discrete, All, Bool-cases, Option-cases,
  inl, inr,
}
use qubicdb.Prelude.Assoc.{
  lookup, map_values, select_values, keys, map_values-Unique, AllEntries-map_values,
}
use qubicdb.Core.Float.{Float}
use qubicdb.Core.Neuron.{Neuron, decay, is_alive, should_consolidate}
use qubicdb.Core.Synapse.{NoColon}
use qubicdb.Core.Matrix.{Matrix}
use qubicdb.Core.Content.{validate_neuron_content}
use qubicdb.Engine.{Engine, Draw, add_neuron, get_neuron, update_neuron, delete_neuron, fire_at}
use qubicdb.Engine.Dimension.{Fits, IsFitted}
use qubicdb.Engine.Fitting.{
  add_neuron-IsFitted, get_neuron-IsFitted, update_neuron-IsFitted, delete_neuron-IsFitted,
  fire_at-IsFitted,
}
use qubicdb.Hebbian.{
  Hebbian, neighbours, on_neuron_fired, co_activated, decay_all, prune_dead_synapses, self_tune,
}
use qubicdb.Hebbian.Cluster.{update_fractal_clusters}
use qubicdb.Hebbian.Movement.{update_fractal_clusters-Moved}
use qubicdb.Hebbian.Runs.{fires, decays, prunes, tunes, adds, deletes, Sound, Step-Sound}
use qubicdb.Search.Query.{Searcher, fire_each}
use qubicdb.Worker.{fire_all, deepen, consolidate, delete_each, prune, reorg, decay_matrix}
use qubicdb.Worker.Health.{
  Linked, IsFitted-Framed, IsWired-Linked, link_all-Framed, prune_dead_synapses-Framed,
}

module _ {F : Type 0} (f : Float F) where
  -- what the matrix engine and the Hebbian engine promise, together
  pub record IsHealthy (h : Hebbian F) (m : Matrix F) : Type 0 where
    pub fitted : IsFitted m
    pub sound : Sound f 50 (h, m)

  relinked-IsHealthy :
      (h : Hebbian F) (m m' : Matrix F)
      → Linked f m m'
      → IsFitted m'
      → IsHealthy h m
      → IsHealthy h m'
  relinked-IsHealthy h m m' linked fits v = record {
    fitted = fits;
    sound = record {
      limit_kept = v.sound.limit_kept;
      fires_plain = v.sound.fires_plain;
      wired = IsWired-Linked f 50 m m' linked v.sound.wired;
    };
  }

  fire_at-Linked : (id : Text) (now : ℕ) (m : Matrix F) → Linked f m (fire_at f id now m)
  unfolding fire_at
  fire_at-Linked id now m = elim (Option-cases (lookup text_discrete id m.neurons)) [
    | inl e ↦ rw (e, fire_at) (refl, refl)
    | inr (n, e) ↦ rw (e, fire_at) (refl, refl)
  ]

  get_neuron-Linked : (id : Text) (now : ℕ) (m : Matrix F) → Linked f m (get_neuron f id now m).0
  unfolding get_neuron
  get_neuron-Linked id now m = elim (Option-cases (lookup text_discrete id m.neurons)) [
    | inl e ↦ rw (e, get_neuron) (refl, refl)
    | inr (n, e) ↦ rw (e, get_neuron) (refl, refl)
  ]

  update_neuron-Linked :
      (e : Engine F) (id content : Text) (now : ℕ) (m : Matrix F)
      → Linked f m (update_neuron f e id content now m).0
  unfolding update_neuron
  update_neuron-Linked e id content now m =
      elim (Option-cases (lookup text_discrete id m.neurons)) [
        | inl h ↦ rw (h, update_neuron) (refl, refl)
        | inr (n, h) ↦
            elim (Option-cases (validate_neuron_content e.text e.content_limit content)) [
              | inl g ↦ rw (h, g, update_neuron) (refl, refl)
              | inr (x, g) ↦ rw (h, g, update_neuron) (refl, refl)
            ]
      ]

  pub fire_at-IsHealthy :
      (id : Text) (now : ℕ) (h : Hebbian F) (m : Matrix F)
      → IsHealthy h m
      → IsHealthy h (fire_at f id now m)
  fire_at-IsHealthy id now h m v =
      relinked-IsHealthy h m (fire_at f id now m) (fire_at-Linked id now m)
        (fire_at-IsFitted f id now m v.fitted) v

  pub get_neuron-IsHealthy :
      (id : Text) (now : ℕ) (h : Hebbian F) (m : Matrix F)
      → IsHealthy h m
      → IsHealthy h (get_neuron f id now m).0
  get_neuron-IsHealthy id now h m v =
      relinked-IsHealthy h m (get_neuron f id now m).0 (get_neuron-Linked id now m)
        (get_neuron-IsFitted f id now m v.fitted) v

  pub update_neuron-IsHealthy :
      (e : Engine F) (id content : Text) (now : ℕ) (h : Hebbian F) (m : Matrix F)
      → IsHealthy h m
      → IsHealthy h (update_neuron f e id content now m).0
  update_neuron-IsHealthy e id content now h m v =
      relinked-IsHealthy h m (update_neuron f e id content now m).0
        (update_neuron-Linked e id content now m)
        (update_neuron-IsFitted f e id content now m v.fitted) v

  pub fire_each-IsHealthy :
      (s : Searcher F) (ids : List Text) (now : ℕ) (h : Hebbian F) (m : Matrix F)
      → IsHealthy h m
      → IsHealthy h (fire_each f s ids now m)
  unfolding fire_each
  fire_each-IsHealthy s [] now h m v = v
  fire_each-IsHealthy s (id ∷ ids) now h m v =
      fire_each-IsHealthy s ids now h (fire_at f id now m) (fire_at-IsHealthy id now h m v)

  pub add_neuron-IsHealthy :
      (e : Engine F) (content : Text) (parent : Option Text) (metadata : List (Text × Text))
      (draw : Draw F) (h : Hebbian F) (m : Matrix F)
      → neighbours f draw.new_id m ≡ []
      → IsHealthy h m
      → IsHealthy h (add_neuron f e content parent metadata draw m).0
  add_neuron-IsHealthy e content parent metadata draw h m fresh v = record {
    fitted = add_neuron-IsFitted f e content parent metadata draw m v.fitted;
    sound =
        Step-Sound f 50 (h, m) (h, (add_neuron f e content parent metadata draw m).0)
          (adds e content parent metadata draw h m fresh) v.sound;
  }

  pub delete_neuron-IsHealthy :
      (id : Text) (now : ℕ) (h : Hebbian F) (m : Matrix F)
      → IsHealthy h m
      → IsHealthy h (delete_neuron f id now m).0
  delete_neuron-IsHealthy id now h m v = record {
    fitted = delete_neuron-IsFitted f id now m v.fitted;
    sound = Step-Sound f 50 (h, m) (h, (delete_neuron f id now m).0) (deletes id now h m) v.sound;
  }

  pub delete_each-IsHealthy :
      (ids : List Text) (now : ℕ) (h : Hebbian F) (m : Matrix F)
      → IsHealthy h m
      → IsHealthy h (delete_each f ids now m).0
  unfolding delete_each
  delete_each-IsHealthy [] now h m v = v
  delete_each-IsHealthy (id ∷ ids) now h m v =
      delete_each-IsHealthy ids now h (delete_neuron f id now m).0
        (delete_neuron-IsHealthy id now h m v)

  prune_dead_synapses-IsHealthy :
      (now : ℕ) (h : Hebbian F) (m : Matrix F)
      → IsHealthy h m
      → IsHealthy h (prune_dead_synapses f now m).0
  prune_dead_synapses-IsHealthy now h m v = record {
    fitted =
        IsFitted-Framed f m (prune_dead_synapses f now m).0 (prune_dead_synapses-Framed f now m)
          v.fitted;
    sound = Step-Sound f 50 (h, m) (h, (prune_dead_synapses f now m).0) (prunes now h m) v.sound;
  }

  pub prune-IsHealthy :
      (now : ℕ) (h : Hebbian F) (m : Matrix F) → IsHealthy h m → IsHealthy h (prune f now m).0
  unfolding prune
  prune-IsHealthy now h m v =
      let dead = keys (select_values (λ n. not (is_alive f n)) m.neurons) in
      prune_dead_synapses-IsHealthy now h (delete_each f dead now m).0
        (delete_each-IsHealthy dead now h m v)

  decay_all-IsHealthy :
      (now : ℕ) (h : Hebbian F) (m : Matrix F) → IsHealthy h m → IsHealthy h (decay_all f h now m)
  unfolding decay_all
  decay_all-IsHealthy now h m v = record {
    fitted = IsFitted-Framed f m (decay_all f h now m) (refl, refl, refl) v.fitted;
    sound = Step-Sound f 50 (h, m) (h, decay_all f h now m) (decays now h m) v.sound;
  }

  -- a change of neurons that moves none
  remapped-IsFitted :
      (g : Neuron F → Neuron F) (m : Matrix F)
      → ((n : Neuron F) → ((g n).id ≡ n.id) × ((g n).position ≡ n.position))
      → IsFitted m
      → IsFitted (record m { neurons = map_values g m.neurons })
  remapped-IsFitted g m still v = record {
    ids_unique = map_values-Unique text_discrete g m.neurons v.ids_unique;
    positions =
        AllEntries-map_values (Fits m.current_dim) (Fits m.current_dim) g m.neurons
          (λ k n fits. ((still n).0 ∙ fits.0, rw (still n).1 fits.1)) v.positions;
    above_min = v.above_min;
    below_max = v.below_max;
  }

  pub decay_matrix-IsHealthy :
      (now : ℕ) (h : Hebbian F) (m : Matrix F)
      → IsHealthy h m
      → IsHealthy h (decay_matrix f now h m)
  unfolding decay
  decay_matrix-IsHealthy now h m v =
      let m' = record m { neurons = map_values (decay f m.decay_rate now) m.neurons } in
      prune_dead_synapses-IsHealthy now h (decay_all f h now m') (
        decay_all-IsHealthy now h m' (
          relinked-IsHealthy h m m' (refl, refl)
            (remapped-IsFitted (decay f m.decay_rate now) m (λ n. (refl, refl)) v.fitted) v))

  deepen-still :
      (now : ℕ) (n : Neuron F)
      → ((deepen f now n).id ≡ n.id) × ((deepen f now n).position ≡ n.position)
  deepen-still now n = elim (Bool-cases (should_consolidate f 10 1800000000000 now n)) [
    | inl mature ↦ rw mature (refl, refl)
    | inr early ↦ rw early (refl, refl)
  ]

  pub consolidate-IsHealthy :
      (now : ℕ) (h : Hebbian F) (m : Matrix F)
      → IsHealthy h m
      → IsHealthy (consolidate f now h m).0.0 (consolidate f now h m).0.1
  unfolding consolidate
  consolidate-IsHealthy now h m v =
      let m' = record m { neurons = map_values (deepen f now) m.neurons } in
      let m'' = (consolidate f now h m).0.1 in
      let w =
        relinked-IsHealthy h m m' (refl, refl)
          (remapped-IsFitted (deepen f now) m (deepen-still now) v.fitted) v in
      relinked-IsHealthy (self_tune f m' h) m' m'' (refl, refl)
        (IsFitted-Framed f m' m'' (refl, refl, refl) w.fitted)
        record {
          fitted = w.fitted;
          sound = Step-Sound f 50 (h, m') (self_tune f m' h, m') (tunes h m') w.sound;
        }

  pub reorg-IsHealthy : (h : Hebbian F) (m : Matrix F) → IsHealthy h m → IsHealthy h (reorg f m)
  unfolding reorg
  reorg-IsHealthy h m v =
      let m' = update_fractal_clusters f m in
      let moved = update_fractal_clusters-Moved f m v.fitted in
      relinked-IsHealthy h m (reorg f m) (moved.same_synapses, moved.same_adjacency)
        (IsFitted-Framed f m' (reorg f m) (refl, refl, refl) moved.fitted) v

  on_neuron_fired-IsHealthy :
      (id : Text) (now : ℕ) (h : Hebbian F) (m : Matrix F)
      → NoColon id
      → IsHealthy h m
      → IsHealthy (on_neuron_fired f id now h m).0 (on_neuron_fired f id now h m).1.0
  unfolding on_neuron_fired
  on_neuron_fired-IsHealthy id now h m plain v = record {
    fitted =
        IsFitted-Framed f m (on_neuron_fired f id now h m).1.0
          (link_all-Framed f h id (co_activated f h.co_activation_window id now h.recent_fires) now
            m)
          v.fitted;
    sound =
        Step-Sound f 50 (h, m)
          ((on_neuron_fired f id now h m).0, (on_neuron_fired f id now h m).1.0)
          (fires id now h m plain) v.sound;
  }

  pub fire_all-IsHealthy :
      (ids : List Text) (now : ℕ) (h : Hebbian F) (m : Matrix F)
      → All NoColon ids
      → IsHealthy h m
      → IsHealthy (fire_all f ids now h m).0 (fire_all f ids now h m).1.0
  unfolding fire_all
  fire_all-IsHealthy [] now h m plain v = v
  fire_all-IsHealthy (id ∷ ids) now h m plain v =
      let (h', (m', _)) = on_neuron_fired f id now h m in
      fire_all-IsHealthy ids now h' m' plain.1 (on_neuron_fired-IsHealthy id now h m plain.0 v)
