-- ===== src/Hebbian/Runs.antt =====
-- Runs of the Hebbian engine together with the matrix engine (pkg/synapse/hebbian.go,
-- pkg/engine/matrix_ops.go): the lists of neighbours agree with the synapses throughout.
use qubicdb.Prelude.{
  ℕ, ◌*◌, ◌-◌, ◌≡◌, ◌≢◌, refl, sym, subst, ◌==◌, ◌∙◌, not, ◌&&◌, Option, List, [], ◌∷◌, Text,
  text_discrete, text_eq, mentions, leb, length, arith, All, Bool-cases, inl, inr,
}
use qubicdb.Prelude.Assoc.{lookup, insert, AllEntries, AllEntries-insert, AllEntries-select_values}
use qubicdb.Core.Float.{Float}
use qubicdb.Core.Synapse.{NoColon}
use qubicdb.Core.Matrix.{Matrix, MatrixBounds, new_matrix}
use qubicdb.Engine.{Engine, Draw, add_neuron, delete_neuron}
use qubicdb.Hebbian.{
  Hebbian, new_hebbian, neighbours, co_activated, record_fire, link_all, on_neuron_fired,
  strengthen_or_create, decay_all, prune_dead_synapses, self_tune,
}
use qubicdb.Hebbian.Wiring.{IsWired}
use qubicdb.Hebbian.Strengthening.{strengthen_or_create-IsWired, decay_all-IsWired}
use qubicdb.Hebbian.Upkeep.{add_neuron-IsWired, delete_neuron-IsWired}
use qubicdb.Hebbian.Pruning.{prune_dead_synapses-IsWired}

-- An id that fires has no colon.
abbrev pub KeyNoColon : Text → ℕ → Type 0
KeyNoColon k t = NoColon k

module _ {F : Type 0} (f : Float F) where
  pub co_activated-NoColon :
      (window now : ℕ) (id : Text) (l : List (Text × ℕ))
      → AllEntries KeyNoColon l
      → All (λ j. NoColon j × (id ≢ j)) (co_activated f window id now l)
  unfolding co_activated text_eq
  co_activated-NoColon window now id [] a = tt
  co_activated-NoColon window now id ((j, t) ∷ l) a =
      elim (Bool-cases (not (text_eq j id) && leb (now - t) window)) [
        | inl near ↦ rw near ((a.0, λ e. ground arith), co_activated-NoColon window now id l a.1)
        | inr far ↦ rw far (co_activated-NoColon window now id l a.1)
      ]

  pub link_all-IsWired :
      (h : Hebbian F) (id : Text) (js : List Text) (now : ℕ) (m : Matrix F)
      → NoColon id
      → All (λ j. NoColon j × (id ≢ j)) js
      → IsWired f h.max_synapses_per_neuron m
      → IsWired f h.max_synapses_per_neuron (link_all f h id js now m).0
  unfolding link_all
  link_all-IsWired h id [] now m p a v = v
  link_all-IsWired h id (j ∷ js) now m p a v =
      link_all-IsWired h id js now (strengthen_or_create f h id j now m).0 p a.1
        (strengthen_or_create-IsWired f h id j now m p a.0.0 a.0.1 v)

  record_fire-NoColon :
      (id : Text) (now : ℕ) (h : Hebbian F)
      → NoColon id
      → AllEntries KeyNoColon h.recent_fires
      → AllEntries KeyNoColon (record_fire f id now h).recent_fires
  unfolding record_fire
  record_fire-NoColon id now h p a =
      AllEntries-select_values KeyNoColon _ (insert text_discrete id now h.recent_fires)
        (AllEntries-insert text_discrete KeyNoColon h.recent_fires id now a p)

  -- What happens to a Hebbian engine and its matrix: a neuron fires, the daemons decay, prune and tune,
  -- and the matrix engine adds and deletes neurons. An id that fires has no colon, and a new id is not
  -- in use.
  pub data Step : Hebbian F × Matrix F → Hebbian F × Matrix F → Type 0 where
    fires :
        (id : Text) (now : ℕ) (h : Hebbian F) (m : Matrix F)
        → NoColon id
        → Step (h, m) ((on_neuron_fired f id now h m).0, (on_neuron_fired f id now h m).1.0)
    decays : (now : ℕ) (h : Hebbian F) (m : Matrix F) → Step (h, m) (h, decay_all f h now m)
    prunes :
        (now : ℕ) (h : Hebbian F) (m : Matrix F) → Step (h, m) (h, (prune_dead_synapses f now m).0)
    tunes : (h : Hebbian F) (m : Matrix F) → Step (h, m) (self_tune f m h, m)
    adds :
        (e : Engine F) (content : Text) (parent : Option Text) (metadata : List (Text × Text))
        (draw : Draw F) (h : Hebbian F) (m : Matrix F)
        → neighbours f draw.new_id m ≡ []
        → Step (h, m) (h, (add_neuron f e content parent metadata draw m).0)
    deletes :
        (id : Text) (now : ℕ) (h : Hebbian F) (m : Matrix F)
        → Step (h, m) (h, (delete_neuron f id now m).0)

  pub data Run : Hebbian F × Matrix F → Hebbian F × Matrix F → Type 0 where
    rest : (s : Hebbian F × Matrix F) → Run s s
    onward : {s t u : Hebbian F × Matrix F} → Step s t → Run t u → Run s u

  pub record Sound (limit : ℕ) (s : Hebbian F × Matrix F) : Type 0 where
    pub limit_kept : s.0.max_synapses_per_neuron ≡ limit
    pub fires_plain : AllEntries KeyNoColon s.0.recent_fires
    pub wired : IsWired f limit s.1

  -- Tuning changes rates only.
  pub self_tune_frame :
      (m : Matrix F) (h : Hebbian F)
      → ((self_tune f m h).max_synapses_per_neuron ≡ h.max_synapses_per_neuron)
        × ((self_tune f m h).recent_fires ≡ h.recent_fires)
  unfolding self_tune
  self_tune_frame m h =
      let average = f.div (f.ratio (length m.synapses * 2) 1) (f.ratio (length m.neurons) 1) in
      elim (Bool-cases (length m.neurons == 0)) [
        | inl none_yet ↦ rw none_yet (refl, refl)
        | inr full ↦ elim (Bool-cases (f.lt average (f.ratio 3 1))) [
          | inl few ↦ elim (Bool-cases (f.lt (f.ratio 20 1) average)) [
            | inl many ↦ rw (full, few, many) (refl, refl)
            | inr right ↦ rw (full, few, right) (refl, refl)
          ]
          | inr enough ↦ elim (Bool-cases (f.lt (f.ratio 20 1) average)) [
            | inl many ↦ rw (full, enough, many) (refl, refl)
            | inr right ↦ rw (full, enough, right) (refl, refl)
          ]
        ]
      ]

  pub Step-Sound :
      (limit : ℕ) (s t : Hebbian F × Matrix F) → Step s t → Sound limit s → Sound limit t
  unfolding on_neuron_fired
  Step-Sound limit s t (fires id now h m p) v = record {
    limit_kept = v.limit_kept;
    fires_plain = record_fire-NoColon id now h p v.fires_plain;
    wired =
        subst (λ l. IsWired f l (on_neuron_fired f id now h m).1.0) v.limit_kept
          (link_all-IsWired h id (co_activated f h.co_activation_window id now h.recent_fires) now m
            p (co_activated-NoColon h.co_activation_window now id h.recent_fires v.fires_plain)
            (subst (λ l. IsWired f l m) (sym v.limit_kept) v.wired));
  }
  Step-Sound limit s t (decays now h m) v = record {
    limit_kept = v.limit_kept;
    fires_plain = v.fires_plain;
    wired = decay_all-IsWired f h now limit m v.wired;
  }
  Step-Sound limit s t (prunes now h m) v = record {
    limit_kept = v.limit_kept;
    fires_plain = v.fires_plain;
    wired = prune_dead_synapses-IsWired f now limit m v.wired;
  }
  Step-Sound limit s t (tunes h m) v = record {
    limit_kept = (self_tune_frame m h).0 ∙ v.limit_kept;
    fires_plain = rw (self_tune_frame m h).1 v.fires_plain;
    wired = v.wired;
  }
  Step-Sound limit s t (adds e content parent metadata draw h m fresh) v = record {
    limit_kept = v.limit_kept;
    fires_plain = v.fires_plain;
    wired = add_neuron-IsWired f e content parent metadata draw limit m fresh v.wired;
  }
  Step-Sound limit s t (deletes id now h m) v = record {
    limit_kept = v.limit_kept;
    fires_plain = v.fires_plain;
    wired = delete_neuron-IsWired f id now limit m v.wired;
  }

  Run-Sound : (limit : ℕ) {s t : Hebbian F × Matrix F} → Run s t → Sound limit s → Sound limit t
  Run-Sound limit (rest s) v = v
  Run-Sound limit (onward st r) v = Run-Sound limit r (Step-Sound limit _ _ st v)

  -- Through any run from a new matrix with a new Hebbian engine, the lists of neighbours and the
  -- synapses agree: one neuron is in the list of another exactly if a synapse joins them, in one
  -- direction only, under the id of its two ends, which differ; and no neuron has more than 50
  -- neighbours. In a run an id that fires has no colon, and the id of a new neuron has no
  -- neighbours yet.
  pub new_hebbian-Run-Sound :
      (index_id : Text) (b : MatrixBounds) (now : ℕ) (t : Hebbian F × Matrix F)
      → Run (new_hebbian f, new_matrix f index_id b now) t
      → Sound 50 t
  unfolding new_hebbian new_matrix neighbours lookup mentions
  new_hebbian-Run-Sound index_id b now t r = Run-Sound 50 r (record {
    limit_kept = refl;
    fires_plain = tt;
    wired = record {
      ids_unique = tt;
      ends = tt;
      one_way = λ a b pa pb h. refl;
      adjacent = λ a b pa pb. refl;
      degree = λ a. omega arith;
    };
  })
