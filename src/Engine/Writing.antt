-- ===== src/Engine/Writing.antt =====
-- What a write, a read and an update leave behind (pkg/engine/matrix_ops.go).
use qubicdb.Prelude.{
  ℕ, ◌<◌, ◌≡◌, ◌≢◌, refl, ◌∙◌, sym, ap, false, Option, none, some, List, [], ◌∷◌, Text,
  text_discrete, text_eq_iff, ◌*◌, ◌&&◌, ltb, leb, length, arith, Bool-cases, Option-cases, inl,
  inr,
}
use qubicdb.Prelude.Assoc.{lookup, map_values, Unique, lookup-insert, lookup-map_values}
use qubicdb.Core.Float.{Float}
use qubicdb.Core.Content.{validate_neuron_content}
use qubicdb.Core.Neuron.{Neuron, new_neuron, fire}
use qubicdb.Core.Matrix.{Matrix}
use qubicdb.Engine.Dimension.{IsFitted, embed-position, label-position}
use qubicdb.Engine.Fitting.{add_neuron-IsFitted}
use qubicdb.Engine.{
  Engine, Draw, ok, expand_dimension, check_dimension_expansion, find_by_hash, embed, label,
  make_neuron, store_neuron, fire_at, add_new, add_neuron,
}

module _ {F : Type 0} (f : Float F) where
  abbrev pub hash_of : Option (Neuron F) → Option Text
  hash_of none = none
  hash_of (some n) = some n.content_hash

  -- the hash of the content under an id
  abbrev pub hash_in : Text → List (Text × Neuron F) → Option Text
  hash_in id l = hash_of (lookup text_discrete id l)

  -- No two neurons have this hash.
  abbrev pub OneAtMost : Text → Matrix F → Type 0
  OneAtMost hash m =
      (i j : Text) → hash_in i m.neurons ≡ some hash → hash_in j m.neurons ≡ some hash → i ≡ j

  -- One neuron has it.
  abbrev Sole : Text → Text → Matrix F → Type 0
  Sole hash id m =
      (hash_in id m.neurons ≡ some hash) × ((j : Text) → hash_in j m.neurons ≡ some hash → j ≡ id)

  -- The loop meets every neuron once, in some order.
  abbrev pub Reorders : Draw F → Type 0
  Reorders draw =
      (l : List (Text × Neuron F))
      → Unique text_discrete l
      → Unique text_discrete (draw.order l)
        × ((k : Text) → lookup text_discrete k (draw.order l) ≡ lookup text_discrete k l)

  find_by_hash-some :
      (hash id : Text) (l : List (Text × Neuron F))
      → Unique text_discrete l
      → find_by_hash f hash l ≡ some id
      → hash_in id l ≡ some hash
  unfolding find_by_hash lookup
  find_by_hash-some hash id [] u h = absurd (ground arith)
  find_by_hash-some hash id ((k, n) ∷ l) u h =
      ground (arith, u, find_by_hash-some hash id l u.1, (text_eq_iff n.content_hash hash).0)

  find_by_hash-none :
      (hash id : Text) (l : List (Text × Neuron F))
      → find_by_hash f hash l ≡ none
      → hash_in id l ≢ some hash
  unfolding find_by_hash lookup
  find_by_hash-none hash id [] h g = absurd (ground arith)
  find_by_hash-none hash id ((k, n) ∷ l) h g =
      ground (arith, find_by_hash-none hash id l, (text_eq_iff n.content_hash hash).1)

  hash_in-fire_at :
      (j id : Text) (now : ℕ) (m : Matrix F)
      → hash_in j (fire_at f id now m).neurons ≡ hash_in j m.neurons
  unfolding fire_at fire
  hash_in-fire_at j id now m = elim (Option-cases (lookup text_discrete id m.neurons)) [
    | inl h ↦ rw (h, fire_at) refl
    | inr (n, h) ↦
        rw (h, fire_at) (ground (arith, lookup-insert text_discrete id j (fire f now n) m.neurons))
  ]

  hash_of-moved :
      (go : Neuron F → List F) (o : Option (Neuron F))
      → hash_of (elim o [ none ↦ none | some n ↦ some (record n { position = go n }) ]) ≡ hash_of o
  hash_of-moved go none = refl
  hash_of-moved go (some n) = refl

  hash_in-map_values :
      (j : Text) (go : Neuron F → List F) (l : List (Text × Neuron F))
      → hash_in j (map_values (λ n. record n { position = go n }) l) ≡ hash_in j l
  hash_in-map_values j go l =
      ap hash_of (lookup-map_values text_discrete (λ n. record n { position = go n }) l j)
      ∙ hash_of-moved go (lookup text_discrete j l)

  hash_in-check_dimension_expansion :
      (j : Text) (rand : Text → ℕ → F) (m : Matrix F)
      → hash_in j (check_dimension_expansion f rand m).neurons ≡ hash_in j m.neurons
  unfolding check_dimension_expansion expand_dimension
  hash_in-check_dimension_expansion j rand m =
      elim (Bool-cases (
        ltb (100 * m.current_dim) (length m.neurons) && ltb m.current_dim m.bounds.max_dimension)) [
          | inl grow ↦ rw grow (hash_in-map_values j _ m.neurons)
          | inr stay ↦ rw stay refl
        ]

  embed-content_hash :
      (e : Engine F) (content : Text) (n : Neuron F)
      → (embed f e content n).content_hash ≡ n.content_hash
  unfolding embed
  embed-content_hash e content n = elim (Option-cases e.embed_text) [
    | inl h ↦ rw h refl
    | inr (go, h) ↦ elim (Option-cases (go content)) [
      | inl g ↦ rw (h, embed, g) refl
      | inr (emb, g) ↦ rw (h, embed, g) refl
    ]
  ]

  label-content_hash :
      (e : Engine F) (content : Text) (n : Neuron F)
      → (label f e content n).content_hash ≡ n.content_hash
  unfolding label
  label-content_hash e content n = elim (Option-cases e.analyze) [
    | inl h ↦ rw h refl
    | inr (go, h) ↦ rw h refl
  ]

  make_neuron-content_hash :
      (e : Engine F) (content : Text) (parent : Option Text) (metadata : List (Text × Text))
      (draw : Draw F) (m : Matrix F)
      → (make_neuron f e content parent metadata draw m).content_hash ≡ e.text.hash_content content
  unfolding make_neuron new_neuron
  make_neuron-content_hash e content parent metadata draw m =
      label-content_hash e content _ ∙ embed-content_hash e content _

  pub make_neuron-id :
      (e : Engine F) (content : Text) (parent : Option Text) (metadata : List (Text × Text))
      (draw : Draw F) (m : Matrix F)
      → (make_neuron f e content parent metadata draw m).id ≡ draw.new_id
  unfolding make_neuron new_neuron
  make_neuron-id e content parent metadata draw m =
      (label-position f e content _).1 ∙ (embed-position f e content _).1

  -- the loop finds the only neuron
  find_by_hash-Sole :
      (hash id : Text) (draw : Draw F) (m : Matrix F)
      → Reorders draw
      → Unique text_discrete m.neurons
      → Sole hash id m
      → find_by_hash f hash (draw.order m.neurons) ≡ some id
  find_by_hash-Sole hash id draw m shuffles u (there, only) =
      let (u', same) = shuffles m.neurons u in
      elim (Option-cases (find_by_hash f hash (draw.order m.neurons))) [
        | inl h ↦
            absurd
              (find_by_hash-none hash id (draw.order m.neurons) h (ap hash_of (same id) ∙ there))
        | inr (j, h) ↦
            let found : hash_in j m.neurons ≡ some hash =
              sym (ap hash_of (same j)) ∙ find_by_hash-some hash j (draw.order m.neurons) u' h in
            h ∙ ap some (only j found)
      ]

  add_new-Sole :
      (e : Engine F) (content : Text) (parent : Option Text) (metadata : List (Text × Text))
      (draw : Draw F) (m : Matrix F)
      → ((j : Text) → hash_in j m.neurons ≢ some (e.text.hash_content content))
      → Sole
          (e.text.hash_content content)
          draw.new_id
          (add_new f e content parent metadata draw m).0
  unfolding add_new store_neuron
  add_new-Sole e content parent metadata draw m absent =
      let n = make_neuron f e content parent metadata draw m in
      let stored = store_neuron f n draw.now m in
      let own = make_neuron-content_hash e content parent metadata draw m in
      let named = make_neuron-id e content parent metadata draw m in
      let at : (j : Text)
          → hash_in j (add_new f e content parent metadata draw m).0.neurons
            ≡ hash_in j stored.neurons =
        λ j. hash_in-check_dimension_expansion j draw.expansion stored in
      (
        at draw.new_id ∙ ground (arith, lookup-insert text_discrete n.id draw.new_id n m.neurons),
        λ j.
            rw (at j)
              (λ h. ground (arith, lookup-insert text_discrete n.id j n m.neurons, absent j)),
      )

  -- the cases of a write that succeeds
  add_neuron-ok :
      (e : Engine F) (content : Text) (parent : Option Text) (metadata : List (Text × Text))
      (draw : Draw F) (m : Matrix F) (id : Text)
      → Reorders draw
      → Unique text_discrete m.neurons
      → OneAtMost (e.text.hash_content content) m
      → (add_neuron f e content parent metadata draw m).1 ≡ ok id
      → (validate_neuron_content e.text e.content_limit content ≡ none)
        × Sole (e.text.hash_content content) id (add_neuron f e content parent metadata draw m).0
  unfolding add_neuron add_new
  add_neuron-ok e content parent metadata draw m id shuffles u one =
      let hash = e.text.hash_content content in
      let (u', same) = shuffles m.neurons u in
      elim (Bool-cases (leb m.bounds.max_neurons (length m.neurons))) [
        | inl full ↦ rw full (λ x. absurd (ground arith))
        | inr room ↦ elim (Option-cases (validate_neuron_content e.text e.content_limit content)) [
          | inr (x, h) ↦ rw (room, h) (λ y. absurd (ground arith))
          | inl h ↦ elim (Option-cases (find_by_hash f hash (draw.order m.neurons))) [
            | inr (i, g) ↦
                let found : hash_in i m.neurons ≡ some hash =
                  sym (ap hash_of (same i))
                  ∙ find_by_hash-some hash i (draw.order m.neurons) u' g in
                rw (room, h, g)
                  (λ x.
                    let e' : i ≡ id = ground arith in
                    (
                      refl,
                      (
                        hash_in-fire_at id i draw.now m ∙ rw (← e') found,
                        λ j y. one j i (sym (hash_in-fire_at j i draw.now m) ∙ y) found ∙ e',
                      ),
                    ))
            | inl g ↦
                rw (room, h, g)
                  (λ x.
                    let e' : draw.new_id ≡ id = ground arith in
                    (
                      refl,
                      rw (← e') (
                          add_new-Sole e content parent metadata draw m (λ j y.
                            find_by_hash-none hash j (draw.order m.neurons) g
                              (ap hash_of (same j) ∙ y))),
                    ))
          ]
        ]
      ]

  add_neuron_found :
      (e : Engine F) (content : Text) (parent : Option Text) (metadata : List (Text × Text))
      (draw : Draw F) (m : Matrix F) (id : Text)
      → length m.neurons < m.bounds.max_neurons
      → validate_neuron_content e.text e.content_limit content ≡ none
      → find_by_hash f (e.text.hash_content content) (draw.order m.neurons) ≡ some id
      → add_neuron f e content parent metadata draw m ≡ (fire_at f id draw.now m, ok id)
  unfolding add_neuron
  add_neuron_found e content parent metadata draw m id room valid found =
      let space : leb m.bounds.max_neurons (length m.neurons) ≡ false = ground arith in
      rw (space, valid, found) refl

  -- A write that succeeds makes its content known: as long as the matrix has room, writing that
  -- content again, with whatever parent, metadata and random draw, answers the same id, fires that
  -- neuron and changes nothing else. Each of the two loops over the neurons may meet them in an
  -- order of its own. Before the first write, the matrix is in order and no two neurons have the
  -- hash of the content.
  pub add_neuron_twice :
      (e : Engine F) (content : Text) (parent parent' : Option Text)
      (metadata metadata' : List (Text × Text)) (draw draw' : Draw F) (m : Matrix F) (id : Text)
      → IsFitted m
      → OneAtMost (e.text.hash_content content) m
      → Reorders draw
      → Reorders draw'
      → (add_neuron f e content parent metadata draw m).1 ≡ ok id
      → length (add_neuron f e content parent metadata draw m).0.neurons
        < (add_neuron f e content parent metadata draw m).0.bounds.max_neurons
      → add_neuron f e content parent' metadata' draw'
          (add_neuron f e content parent metadata draw m).0
        ≡ (fire_at f id draw'.now (add_neuron f e content parent metadata draw m).0, ok id)
  add_neuron_twice e content parent parent' metadata metadata' draw draw' m id v one shuffles
        shuffles' written room =
      let m' = (add_neuron f e content parent metadata draw m).0 in
      let (valid, known) =
        add_neuron-ok e content parent metadata draw m id shuffles v.ids_unique one written in
      let u = (add_neuron-IsFitted f e content parent metadata draw m v).ids_unique in
      add_neuron_found e content parent' metadata' draw' m' id room valid
        (find_by_hash-Sole (e.text.hash_content content) id draw' m' shuffles' u known)
