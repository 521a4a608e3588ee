-- ===== src/Hebbian/Linking.antt =====
-- New and stronger synapses keep the wiring (pkg/synapse/hebbian.go, strengthenOrCreate).
use qubicdb.Prelude.{
  ℕ, ◌<◌, ◌≤◌, ◌≡◌, ◌≢◌, refl, ◌∙◌, true, false, ◌&&◌, ◌||◌, [], ◌∷◌, ◌++◌, Text, text_discrete,
  text_eq, mentions, length, arith, ite, Option-cases, inl, inr,
}
use qubicdb.Prelude.Assoc.{lookup, insert, insert-Unique, AllEntries-insert}
use qubicdb.Core.Float.{Float}
use qubicdb.Core.Synapse.{new_synapse_id, new_synapse, NoColon}
use qubicdb.Core.Matrix.{Matrix}
use qubicdb.Hebbian.{Hebbian, neighbours, add_to_adjacency, create_synapse}
use qubicdb.Hebbian.Wiring.{
  mentions-append, length-append_one, has, Ends, IsWired, neighbours-add, has-insert,
}

module _ {F : Type 0} (f : Float F) where
  pub neighbours-create_synapse :
      (h : Hebbian F) (from to a : Text) (now : ℕ) (m : Matrix F)
      → has f from to m ≡ false
      → from ≢ to
      → neighbours f a (create_synapse f h from to now m)
        ≡ ite
            (text_discrete to a)
            (neighbours f to m ++ (from ∷ []))
            (ite (text_discrete from a) (neighbours f from m ++ (to ∷ [])) (neighbours f a m))
  unfolding neighbours create_synapse add_to_adjacency
  neighbours-create_synapse h from to a now m free ne =
      elim (Option-cases (lookup text_discrete (new_synapse_id from to) m.synapses)) [
        | inr (s, g) ↦ absurd (ground arith)
        | inl g ↦
            rw (g, create_synapse)
              (neighbours-add f to from a (add_to_adjacency f from to m)
                ∙ ground (arith, neighbours-add f from to to m, neighbours-add f from to a m))
      ]

  synapses-create_synapse :
      (h : Hebbian F) (from to : Text) (now : ℕ) (m : Matrix F)
      → has f from to m ≡ false
      → (create_synapse f h from to now m).synapses
        ≡ insert text_discrete
            (new_synapse_id from to)
            (new_synapse f from to h.min_weight_to_form now)
            m.synapses
  unfolding create_synapse add_to_adjacency
  synapses-create_synapse h from to now m free =
      elim (Option-cases (lookup text_discrete (new_synapse_id from to) m.synapses)) [
        | inr (s, g) ↦ absurd (ground arith)
        | inl g ↦ rw (g, create_synapse) refl
      ]

  pub has-create_synapse :
      (h : Hebbian F) (from to a b : Text) (now : ℕ) (m : Matrix F)
      → has f from to m ≡ false
      → NoColon from
      → NoColon a
      → has f a b (create_synapse f h from to now m)
        ≡ ((text_eq from a && text_eq to b) || has f a b m)
  has-create_synapse h from to a b now m free p q =
      rw (synapses-create_synapse h from to now m free)
        (has-insert f from to a b (new_synapse f from to h.min_weight_to_form now) m p q)

  -- the lists after a new synapse
  mentions-create_synapse :
      (h : Hebbian F) (from to a b : Text) (now : ℕ) (m : Matrix F)
      → has f from to m ≡ false
      → from ≢ to
      → mentions b (neighbours f a (create_synapse f h from to now m)) ≡ (
          mentions b (neighbours f a m)
          || ((text_eq from a && text_eq to b) || (text_eq to a && text_eq from b)))
  unfolding text_eq
  mentions-create_synapse h from to a b now m free ne = ground (
    arith,
    neighbours-create_synapse h from to a now m free ne,
    mentions-append b from (neighbours f to m),
    mentions-append b to (neighbours f from m),
  )

  new_synapse-Ends :
      (from to : Text) (weight : F) (now : ℕ)
      → NoColon from
      → NoColon to
      → from ≢ to
      → Ends f (new_synapse_id from to) (new_synapse f from to weight now)
  unfolding new_synapse
  new_synapse-Ends from to weight now p q ne = (refl, ((p, q), ne))

  create_synapse-one_way :
      (h : Hebbian F) (from to a b : Text) (now limit : ℕ) (m : Matrix F)
      → NoColon from
      → NoColon a
      → NoColon b
      → from ≢ to
      → has f from to m ≡ false
      → has f to from m ≡ false
      → IsWired f limit m
      → has f a b (create_synapse f h from to now m) ≡ true
      → has f b a (create_synapse f h from to now m) ≡ false
  unfolding text_eq
  create_synapse-one_way h from to a b now limit m p pa pb ne free free' v =
      rw (has-create_synapse h from to a b now m free p pa) (
        rw (has-create_synapse h from to b a now m free p pb)
          (λ is. ground (arith, v.one_way a b pa pb)))

  length-create_synapse :
      (h : Hebbian F) (from to a : Text) (now limit : ℕ) (m : Matrix F)
      → from ≢ to
      → has f from to m ≡ false
      → length (neighbours f from m) < limit
      → length (neighbours f to m) < limit
      → length (neighbours f a m) ≤ limit
      → length (neighbours f a (create_synapse f h from to now m)) ≤ limit
  length-create_synapse h from to a now limit m ne free room room' old = ground (
    arith,
    neighbours-create_synapse h from to a now m free ne,
    length-append_one from (neighbours f to m),
    length-append_one to (neighbours f from m),
  )

  pub create_synapse-IsWired :
      (h : Hebbian F) (from to : Text) (now limit : ℕ) (m : Matrix F)
      → NoColon from
      → NoColon to
      → from ≢ to
      → has f from to m ≡ false
      → has f to from m ≡ false
      → length (neighbours f from m) < limit
      → length (neighbours f to m) < limit
      → IsWired f limit m
      → IsWired f limit (create_synapse f h from to now m)
  create_synapse-IsWired h from to now limit m p q ne free free' room room' v = record {
    ids_unique = rw (synapses-create_synapse h from to now m free) (
        insert-Unique text_discrete (new_synapse_id from to)
          (new_synapse f from to h.min_weight_to_form now) m.synapses v.ids_unique);
    ends = rw (synapses-create_synapse h from to now m free) (
        AllEntries-insert text_discrete (Ends f) m.synapses (new_synapse_id from to)
          (new_synapse f from to h.min_weight_to_form now) v.ends
          (new_synapse-Ends from to h.min_weight_to_form now p q ne));
    one_way = λ a b pa pb. create_synapse-one_way h from to a b now limit m p pa pb ne free free' v;
    adjacent = λ a b pa pb. rw (has-create_synapse h from to a b now m free p pa) (
        rw (has-create_synapse h from to b a now m free p pb) (
          ground
            (arith, mentions-create_synapse h from to a b now m free ne, v.adjacent a b pa pb)));
    degree = λ a. length-create_synapse h from to a now limit m ne free room room' (v.degree a);
  }
