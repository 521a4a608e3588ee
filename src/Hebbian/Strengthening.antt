-- ===== src/Hebbian/Strengthening.antt =====
-- Stronger and weaker synapses keep the wiring (pkg/synapse/hebbian.go, strengthenOrCreate and
-- DecayAll).
use qubicdb.Prelude.{
  ℕ, ◌<◌, ◌≡◌, ◌≢◌, ◌⊎◌, sym, ◌∙◌, true, false, ◌&&◌, ◌||◌, none, some, Text, text_discrete,
  text_eq_iff, ltb, length, arith, is_some, Bool-cases, Option-cases, inl, inr,
}
use qubicdb.Prelude.Assoc.{
  lookup, insert, map_values, lookup-insert, lookup-map_values, insert-Unique, map_values-Unique,
  AllEntries-lookup, AllEntries-insert, AllEntries-map_values,
}
use qubicdb.Core.Float.{Float}
use qubicdb.Core.Synapse.{Synapse, new_synapse_id, strengthen, decay_synapse, NoColon}
use qubicdb.Core.Matrix.{Matrix}
use qubicdb.Hebbian.{Hebbian, neighbours, find_link, delta, strengthen_or_create, decay_all}
use qubicdb.Hebbian.Wiring.{has, Ends, IsWired}
use qubicdb.Hebbian.Linking.{create_synapse-IsWired, has-create_synapse}

module _ {F : Type 0} (f : Float F) where
  -- a synapse that is written again with the same ends
  rewrite-IsWired :
      (k : Text) (s s' : Synapse F) (limit : ℕ) (m : Matrix F)
      → lookup text_discrete k m.synapses ≡ some s
      → Ends f k s'
      → IsWired f limit m
      → IsWired f limit (record m { synapses = insert text_discrete k s' m.synapses })
  unfolding neighbours
  rewrite-IsWired k s s' limit m h e v =
      let same : (j : Text)
          → is_some (lookup text_discrete j (insert text_discrete k s' m.synapses))
            ≡ is_some (lookup text_discrete j m.synapses) =
        (λ j. ground (arith, lookup-insert text_discrete k j s' m.synapses)) in
      record {
        ids_unique = insert-Unique text_discrete k s' m.synapses v.ids_unique;
        ends = AllEntries-insert text_discrete (Ends f) m.synapses k s' v.ends e;
        one_way = λ a b pa pb is.
            same (new_synapse_id b a) ∙ v.one_way a b pa pb (sym (same (new_synapse_id a b)) ∙ is);
        adjacent = λ a b pa pb.
            rw (same (new_synapse_id a b), same (new_synapse_id b a)) (v.adjacent a b pa pb);
        degree = v.degree;
      }

  find_link-some :
      (from to k : Text) (s : Synapse F) (m : Matrix F)
      → find_link f from to m ≡ some (k, s)
      → lookup text_discrete k m.synapses ≡ some s
  unfolding find_link
  find_link-some from to k s m h = ground arith

  find_link_key :
      (from to k : Text) (s : Synapse F) (m : Matrix F)
      → find_link f from to m ≡ some (k, s)
      → (k ≡ new_synapse_id from to) ⊎ (k ≡ new_synapse_id to from)
  unfolding find_link
  find_link_key from to k s m h = ground arith

  pub find_link-none :
      (from to : Text) (m : Matrix F)
      → find_link f from to m ≡ none
      → (has f from to m ≡ false) × (has f to from m ≡ false)
  unfolding find_link
  find_link-none from to m h = ground arith

  strengthen-Ends :
      (k : Text) (d : F) (now : ℕ) (s : Synapse F) → Ends f k s → Ends f k (strengthen f d now s)
  unfolding strengthen
  strengthen-Ends k d now s e = e

  pub strengthen_or_create-IsWired :
      (h : Hebbian F) (from to : Text) (now : ℕ) (m : Matrix F)
      → NoColon from
      → NoColon to
      → from ≢ to
      → IsWired f h.max_synapses_per_neuron m
      → IsWired f h.max_synapses_per_neuron (strengthen_or_create f h from to now m).0
  unfolding strengthen_or_create
  strengthen_or_create-IsWired h from to now m p q ne v =
      elim (Option-cases (find_link f from to m)) [
        | inr ((k, s), g) ↦
            let there = find_link-some from to k s m g in
            rw (g, strengthen_or_create)
              (rewrite-IsWired k s (strengthen f (delta f h s) now s) h.max_synapses_per_neuron m
                there
                (strengthen-Ends k (delta f h s) now s
                  (AllEntries-lookup text_discrete (Ends f) m.synapses k s v.ends there))
                v)
        | inl g ↦
            let free = find_link-none from to m g in
            elim (Bool-cases (
              ltb (length (neighbours f from m)) h.max_synapses_per_neuron
              && ltb (length (neighbours f to m)) h.max_synapses_per_neuron)) [
                | inl room ↦
                    rw (g, strengthen_or_create, room)
                      (create_synapse-IsWired f h from to now h.max_synapses_per_neuron m p q ne
                        free.0 free.1 (ground arith) (ground arith) v)
                | inr full ↦ rw (g, strengthen_or_create, full) v
              ]
      ]

  pub decay_all-IsWired :
      (h : Hebbian F) (now limit : ℕ) (m : Matrix F)
      → IsWired f limit m
      → IsWired f limit (decay_all f h now m)
  unfolding decay_all decay_synapse neighbours
  decay_all-IsWired h now limit m v =
      let go = decay_synapse f h.forgetting_rate now in
      let same : (j : Text)
          → is_some (lookup text_discrete j (map_values go m.synapses))
            ≡ is_some (lookup text_discrete j m.synapses) =
        (λ j. ground (arith, lookup-map_values text_discrete go m.synapses j)) in
      record {
        ids_unique = map_values-Unique text_discrete go m.synapses v.ids_unique;
        ends = AllEntries-map_values (Ends f) (Ends f) go m.synapses (λ k s e. e) v.ends;
        one_way = λ a b pa pb is.
            same (new_synapse_id b a) ∙ v.one_way a b pa pb (sym (same (new_synapse_id a b)) ∙ is);
        adjacent = λ a b pa pb.
            rw (same (new_synapse_id a b), same (new_synapse_id b a)) (v.adjacent a b pa pb);
        degree = v.degree;
      }

  -- Two different ids without a colon are linked afterwards, in one direction or the other, if each
  -- has fewer neighbours than the limit and the lists of neighbours agree with the synapses.
  pub strengthen_or_create-linked :
      (h : Hebbian F) (from to : Text) (now : ℕ) (m : Matrix F)
      → NoColon from
      → NoColon to
      → from ≢ to
      → length (neighbours f from m) < h.max_synapses_per_neuron
      → length (neighbours f to m) < h.max_synapses_per_neuron
      → IsWired f h.max_synapses_per_neuron m
      → (has f from to (strengthen_or_create f h from to now m).0
          || has f to from (strengthen_or_create f h from to now m).0)
        ≡ true
  unfolding strengthen_or_create
  strengthen_or_create-linked h from to now m p q ne room room' v =
      elim (Option-cases (find_link f from to m)) [
        | inr ((k, s), g) ↦
            let s' = strengthen f (delta f h s) now s in
            rw (g, strengthen_or_create)
              (elim (find_link_key from to k s m g) [
                | inl e ↦
                    ground (
                      arith,
                      e,
                      lookup-insert text_discrete k (new_synapse_id from to) s' m.synapses,
                    )
                | inr e ↦
                    ground (
                      arith,
                      e,
                      lookup-insert text_discrete k (new_synapse_id to from) s' m.synapses,
                    )
              ])
        | inl g ↦
            let free = find_link-none from to m g in
            let both : (ltb (length (neighbours f from m)) h.max_synapses_per_neuron
                  && ltb (length (neighbours f to m)) h.max_synapses_per_neuron)
                ≡ true =
              ground arith in
            rw (g, strengthen_or_create, both)
              (rw (has-create_synapse f h from to from to now m free.0 p p)
                (ground (arith, text_eq_iff from from, text_eq_iff to to)))
      ]
