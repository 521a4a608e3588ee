-- ===== src/Hebbian/Firing.antt =====
-- The links of a neuron that fires to the neurons that fired shortly before
-- (pkg/synapse/hebbian.go, OnNeuronFired).
use qubicdb.Prelude.{
  ℕ, suc, ◌+◌, ◌-◌, ◌<◌, ◌≤◌, ◌≡◌, ◌≢◌, refl, sym, subst, true, ◌&&◌, ◌||◌, some, List, [], ◌∷◌,
  Text, text_discrete, text_eq, text_eq_iff, mentions, ltb, length, arith, Bool-cases, Option-cases,
  inl, inr, All, ◌∙◌,
}
use qubicdb.Prelude.Assoc.{lookup, lookup-insert, AllEntries, AllEntries-lookup}
use qubicdb.Core.Float.{Float}
use qubicdb.Core.Synapse.{new_synapse_id, strengthen, NoColon}
use qubicdb.Core.Matrix.{Matrix}
use qubicdb.Hebbian.{
  Hebbian, neighbours, find_link, delta, strengthen_or_create, co_activated, link_all,
  on_neuron_fired,
}
use qubicdb.Hebbian.Wiring.{has, IsWired, length-append_one}
use qubicdb.Hebbian.Linking.{has-create_synapse, neighbours-create_synapse}
use qubicdb.Hebbian.Strengthening.{
  strengthen_or_create-IsWired, strengthen_or_create-linked, find_link-none,
}
use qubicdb.Hebbian.Runs.{KeyNoColon, co_activated-NoColon, Sound}

module _ {F : Type 0} (f : Float F) where
  strengthen_or_create-has :
      (h : Hebbian F) (from to a b : Text) (now : ℕ) (m : Matrix F)
      → NoColon from
      → NoColon a
      → has f a b m ≡ true
      → has f a b (strengthen_or_create f h from to now m).0 ≡ true
  unfolding strengthen_or_create
  strengthen_or_create-has h from to a b now m p q is =
      elim (Option-cases (find_link f from to m)) [
        | inr ((k, s), g) ↦
            rw (g, strengthen_or_create)
              (ground (
                arith,
                is,
                lookup-insert text_discrete k (new_synapse_id a b)
                    (strengthen f (delta f h s) now s) m.synapses,
              ))
        | inl g ↦
            let free = find_link-none f from to m g in
            elim (Bool-cases (
              ltb (length (neighbours f from m)) h.max_synapses_per_neuron
              && ltb (length (neighbours f to m)) h.max_synapses_per_neuron)) [
                | inl room ↦
                    rw (g, strengthen_or_create, room)
                      (has-create_synapse f h from to a b now m free.0 p q ∙ ground (arith, is))
                | inr full ↦ rw (g, strengthen_or_create, full) is
              ]
      ]

  strengthen_or_create-other :
      (h : Hebbian F) (from to a : Text) (now : ℕ) (m : Matrix F)
      → from ≢ to
      → from ≢ a
      → to ≢ a
      → neighbours f a (strengthen_or_create f h from to now m).0 ≡ neighbours f a m
  unfolding strengthen_or_create neighbours
  strengthen_or_create-other h from to a now m ne ne' ne'' =
      elim (Option-cases (find_link f from to m)) [
        | inr ((k, s), g) ↦ rw (g, strengthen_or_create) refl
        | inl g ↦
            let free = find_link-none f from to m g in
            elim (Bool-cases (
              ltb (length (neighbours f from m)) h.max_synapses_per_neuron
              && ltb (length (neighbours f to m)) h.max_synapses_per_neuron)) [
                | inl room ↦
                    rw (g, strengthen_or_create, room)
                      (ground (arith, neighbours-create_synapse f h from to a now m free.0 ne))
                | inr full ↦ rw (g, strengthen_or_create, full) refl
              ]
      ]

  length-strengthen_or_create :
      (h : Hebbian F) (from to : Text) (now : ℕ) (m : Matrix F)
      → from ≢ to
      → length (neighbours f from (strengthen_or_create f h from to now m).0)
        ≤ suc (length (neighbours f from m))
  unfolding strengthen_or_create neighbours
  length-strengthen_or_create h from to now m ne = elim (Option-cases (find_link f from to m)) [
    | inr ((k, s), g) ↦ rw (g, strengthen_or_create) (omega arith)
    | inl g ↦
        let free = find_link-none f from to m g in
        elim (Bool-cases (
          ltb (length (neighbours f from m)) h.max_synapses_per_neuron
          && ltb (length (neighbours f to m)) h.max_synapses_per_neuron)) [
            | inl room ↦
                rw (g, strengthen_or_create, room)
                  (ground (
                    arith,
                    neighbours-create_synapse f h from to from now m free.0 ne,
                    length-append_one to (neighbours f from m),
                  ))
            | inr full ↦ rw (g, strengthen_or_create, full) (omega arith)
          ]
  ]

  -- a synapse between the two, in one direction or the other
  abbrev pub AreLinked : Text → Text → Matrix F → Type 0
  AreLinked a b m = (has f a b m || has f b a m) ≡ true

  strengthen_or_create-AreLinked :
      (h : Hebbian F) (from to a b : Text) (now : ℕ) (m : Matrix F)
      → NoColon from
      → NoColon a
      → NoColon b
      → AreLinked a b m
      → AreLinked a b (strengthen_or_create f h from to now m).0
  strengthen_or_create-AreLinked h from to a b now m p q r l = ground (
    arith,
    l,
    strengthen_or_create-has h from to a b now m p q,
    strengthen_or_create-has h from to b a now m p r,
  )

  link_all-AreLinked :
      (h : Hebbian F) (id a b : Text) (js : List Text) (now : ℕ) (m : Matrix F)
      → NoColon id
      → NoColon a
      → NoColon b
      → AreLinked a b m
      → AreLinked a b (link_all f h id js now m).0
  unfolding link_all
  link_all-AreLinked h id a b [] now m p q r l = l
  link_all-AreLinked h id a b (j ∷ js) now m p q r l =
      link_all-AreLinked h id a b js now (strengthen_or_create f h id j now m).0 p q r
        (strengthen_or_create-AreLinked h id j a b now m p q r l)

  -- Each of the ids is linked, where there is room for all of them.
  link_all-links :
      (h : Hebbian F) (id b : Text) (js : List Text) (now : ℕ) (m : Matrix F)
      → NoColon id
      → NoColon b
      → id ≢ b
      → All (λ j. NoColon j × (id ≢ j)) js
      → mentions b js ≡ true
      → length (neighbours f id m) + length js ≤ h.max_synapses_per_neuron
      → length (neighbours f b m) < h.max_synapses_per_neuron
      → IsWired f h.max_synapses_per_neuron m
      → AreLinked id b (link_all f h id js now m).0
  unfolding link_all mentions
  link_all-links h id b [] now m p q ne a in_js room room' v = absurd (ground arith)
  link_all-links h id b (j ∷ js) now m p q ne a in_js room room' v =
      let m' = (strengthen_or_create f h id j now m).0 in
      elim (text_discrete j b) [
        | yes same ↦ link_all-AreLinked h id id b js now m' p p q (
            subst (λ x. AreLinked id b (strengthen_or_create f h id x now m).0) (sym same)
              (strengthen_or_create-linked f h id b now m p q ne (omega arith) room' v))
        | no other ↦
            link_all-links h id b js now m' p q ne a.1 (ground (arith, in_js, (text_eq_iff j b).0))
              (omega (arith, length-strengthen_or_create h id j now m a.0.1))
              (rw (strengthen_or_create-other h id j b now m a.0.1 ne other) room')
              (strengthen_or_create-IsWired f h id j now m p a.0.0 a.0.1 v)
      ]

  mentions-co_activated :
      (window now : ℕ) (id j : Text) (t : ℕ) (l : List (Text × ℕ))
      → id ≢ j
      → now - t ≤ window
      → lookup text_discrete j l ≡ some t
      → mentions j (co_activated f window id now l) ≡ true
  unfolding co_activated mentions lookup text_eq
  mentions-co_activated window now id j t [] ne near h = absurd (ground arith)
  mentions-co_activated window now id j t ((k, u) ∷ l) ne near h =
      ground (arith, ne, near, h, mentions-co_activated window now id j t l ne near)

  length-co_activated :
      (window now : ℕ) (id : Text) (l : List (Text × ℕ))
      → length (co_activated f window id now l) ≤ length l
  unfolding co_activated
  length-co_activated window now id [] = omega arith
  length-co_activated window now id ((k, u) ∷ l) =
      ground (arith, length-co_activated window now id l)

  lookup-NoColon :
      (j : Text) (t : ℕ) (l : List (Text × ℕ))
      → AllEntries KeyNoColon l
      → lookup text_discrete j l ≡ some t
      → NoColon j
  lookup-NoColon j t l a h = AllEntries-lookup text_discrete KeyNoColon l j t a h

  -- Neurons that fire together are linked: when a neuron fires, and another one is recorded with a
  -- fire within the co-activation window, there is a synapse between the two afterwards, in one
  -- direction or the other. The two ids differ and the first has no colon, nor has any recorded
  -- one; the lists of neighbours agree with the synapses; the neuron has room for as many
  -- neighbours more as there are recorded fires, and the other for one.
  pub on_neuron_fired-AreLinked :
      (h : Hebbian F) (id j : Text) (t now : ℕ) (m : Matrix F)
      → Sound f h.max_synapses_per_neuron (h, m)
      → NoColon id
      → id ≢ j
      → lookup text_discrete j h.recent_fires ≡ some t
      → now - t ≤ h.co_activation_window
      → length (neighbours f id m) + length h.recent_fires ≤ h.max_synapses_per_neuron
      → length (neighbours f j m) < h.max_synapses_per_neuron
      → AreLinked id j (on_neuron_fired f id now h m).1.0
  unfolding on_neuron_fired
  on_neuron_fired-AreLinked h id j t now m v p ne before near room room' =
      let js = co_activated f h.co_activation_window id now h.recent_fires in
      link_all-links h id j js now m p (lookup-NoColon j t h.recent_fires v.fires_plain before) ne
        (co_activated-NoColon f h.co_activation_window now id h.recent_fires v.fires_plain)
        (mentions-co_activated h.co_activation_window now id j t h.recent_fires ne near before)
        (omega (arith, length-co_activated h.co_activation_window now id h.recent_fires)) room'
        v.wired
