-- ===== src/Engine/Dimension.antt =====
-- The matrix keeps every position at its dimension, and the dimension within its bounds
-- (pkg/engine/matrix_ops.go).
use Prim.Native.Nat.{min, max}
use qubicdb.Prelude.{
  ℕ, zero, suc, ◌+◌, ◌-◌, ◌*◌, ◌≤◌, ◌≡◌, refl, ◌∙◌, ap, ◌&&◌, Option, none, some, List, [], ◌∷◌,
  Text, text_discrete, ltb, length, take, arith, Bool-cases, Option-cases, inl, inr,
}
use qubicdb.Prelude.Assoc.{
  lookup, Unique, map_values-Unique, AllEntries, AllEntries-lookup, AllEntries-map_values,
}
use qubicdb.Core.Float.{Float}
use qubicdb.Core.Content.{TextLibrary}
use qubicdb.Core.Neuron.{Neuron, new_neuron}
use qubicdb.Core.Matrix.{Matrix}
use qubicdb.Engine.{
  Engine, Draw, perturb_position, random_position, pad, expand_dimension, contract_dimension,
  similarity, check_dimension_expansion, check_dimension_contraction, find_nearest,
  find_nearest_by_content, near, place, embed, label, make_neuron,
}

-- A neuron stands under its own id, with as many coordinates as the matrix has dimensions.
abbrev pub Fits : {F : Type 0} → ℕ → Text → Neuron F → Type 0
Fits dim id n = (n.id ≡ id) × (length n.position ≡ dim)

pub record IsFitted {F : Type 0} (m : Matrix F) : Type 0 where
  pub ids_unique : Unique text_discrete m.neurons
  pub positions : AllEntries (Fits m.current_dim) m.neurons
  pub above_min : m.bounds.min_dimension ≤ m.current_dim
  pub below_max : m.current_dim ≤ m.bounds.max_dimension

module _ {F : Type 0} (f : Float F) where
  length-perturb_position :
      (magnitude : F) (rand : ℕ → F) (i : ℕ) (pos : List F)
      → length (perturb_position f magnitude rand i pos) ≡ length pos
  unfolding perturb_position
  length-perturb_position magnitude rand i [] = refl
  length-perturb_position magnitude rand i (p ∷ pos) =
      ap suc (length-perturb_position magnitude rand (suc i) pos)

  length-random_position : (rand : ℕ → F) (i n : ℕ) → length (random_position f rand i n) ≡ n
  unfolding random_position
  length-random_position rand i zero = refl
  length-random_position rand i (suc n) = ap suc (length-random_position rand (suc i) n)

  length-pad :
      (rand : ℕ → F) (n : ℕ) (pos : List F) → length (pad f rand n pos) ≡ max n (length pos)
  unfolding pad
  length-pad rand zero pos = omega arith
  length-pad rand (suc n) [] = omega (arith, length-pad rand n [])
  length-pad rand (suc n) (p ∷ pos) = omega (arith, length-pad rand n pos)

  length-take : (n : ℕ) (pos : List F) → length (take n pos) ≡ min n (length pos)
  length-take zero pos = omega arith
  length-take (suc n) [] = omega arith
  length-take (suc n) (p ∷ pos) = omega (arith, length-take n pos)

  expand_dimension-IsFitted :
      (rand : Text → ℕ → F) (d : ℕ) (m : Matrix F)
      → IsFitted m
      → m.current_dim ≤ d
      → d ≤ m.bounds.max_dimension
      → IsFitted (expand_dimension f rand d m)
  unfolding expand_dimension
  expand_dimension-IsFitted rand d m v le below = record {
    ids_unique = map_values-Unique text_discrete _ m.neurons v.ids_unique;
    positions =
        AllEntries-map_values (Fits m.current_dim) (Fits d) _ m.neurons
          (λ k n fits. (fits.0, omega (arith, length-pad (rand n.id) d n.position))) v.positions;
    above_min = omega arith;
    below_max = below;
  }

  contract_dimension-IsFitted :
      (d : ℕ) (m : Matrix F)
      → IsFitted m
      → d ≤ m.current_dim
      → m.bounds.min_dimension ≤ d
      → IsFitted (contract_dimension f d m)
  unfolding contract_dimension
  contract_dimension-IsFitted d m v le above = record {
    ids_unique = map_values-Unique text_discrete _ m.neurons v.ids_unique;
    positions =
        AllEntries-map_values (Fits m.current_dim) (Fits d) _ m.neurons
          (λ k n fits. (fits.0, omega (arith, length-take d n.position))) v.positions;
    above_min = above;
    below_max = omega arith;
  }

  pub check_dimension_expansion-IsFitted :
      (rand : Text → ℕ → F) (m : Matrix F)
      → IsFitted m
      → IsFitted (check_dimension_expansion f rand m)
  unfolding check_dimension_expansion
  check_dimension_expansion-IsFitted rand m v =
      elim (Bool-cases (
        ltb (100 * m.current_dim) (length m.neurons) && ltb m.current_dim m.bounds.max_dimension)) [
          | inl grow ↦ rw grow (
              expand_dimension-IsFitted rand (min (m.current_dim + 1) m.bounds.max_dimension) m v
                (ground arith) (omega arith))
          | inr stay ↦ rw stay v
        ]

  pub check_dimension_contraction-IsFitted :
      (m : Matrix F) → IsFitted m → IsFitted (check_dimension_contraction f m)
  unfolding check_dimension_contraction
  check_dimension_contraction-IsFitted m v =
      elim (Bool-cases
        (ltb (length m.neurons) (10 * m.current_dim) && ltb m.bounds.min_dimension m.current_dim)) [
          | inl shrink ↦ rw shrink (
              contract_dimension-IsFitted (max (m.current_dim - 1) m.bounds.min_dimension) m v
                (ground arith) (omega arith))
          | inr stay ↦ rw stay v
        ]

  -- what a search for the nearest neuron finds, it finds in the matrix
  abbrev Sized : ℕ → Option (Neuron F) → Type 0
  Sized dim none = Unit
  Sized dim (some n) = length n.position ≡ dim

  find_nearest-Sized :
      (lib : TextLibrary) (words : List Text) (best : Option (Neuron F)) (score : F)
      (l : List (Text × Neuron F)) (dim : ℕ)
      → Sized dim best
      → AllEntries (Fits dim) l
      → Sized dim (find_nearest f lib words best score l)
  unfolding find_nearest
  find_nearest-Sized lib words best score [] dim b a = b
  find_nearest-Sized lib words best score ((k, n) ∷ l) dim b a =
      elim (Bool-cases (f.lt score (similarity f words (lib.fields (lib.to_lower n.content))))) [
        | inl h ↦ rw h (
            find_nearest-Sized lib words (some n)
              (similarity f words (lib.fields (lib.to_lower n.content))) l dim a.0.1 a.1)
        | inr h ↦ rw h (find_nearest-Sized lib words best score l dim b a.1)
      ]

  length-near :
      (magnitude : F) (rand : ℕ → F) (dim : ℕ) (o : Option (Neuron F))
      → Sized dim o
      → length (near f magnitude rand dim o) ≡ dim
  unfolding near
  length-near magnitude rand dim none h = length-random_position rand 0 dim
  length-near magnitude rand dim (some n) h =
      length-perturb_position magnitude rand 0 n.position ∙ h

  lookup-Sized :
      (m : Matrix F) (id : Text)
      → AllEntries (Fits m.current_dim) m.neurons
      → Sized m.current_dim (lookup text_discrete id m.neurons)
  lookup-Sized m id a = elim (Option-cases (lookup text_discrete id m.neurons)) [
    | inl h ↦ rw h tt
    | inr (n, h) ↦ rw h (AllEntries-lookup text_discrete (Fits m.current_dim) m.neurons id n a h).1
  ]

  length-place :
      (lib : TextLibrary) (content : Text) (parent : Option Text) (rand : ℕ → F) (m : Matrix F)
      → AllEntries (Fits m.current_dim) m.neurons
      → length (place f lib content parent rand m) ≡ m.current_dim
  unfolding place find_nearest_by_content
  length-place lib content none rand m a =
      length-near (f.ratio 2 10) rand m.current_dim
        (find_nearest f lib (lib.fields (lib.to_lower content)) none (f.ratio 0 1) m.neurons)
        (find_nearest-Sized lib (lib.fields (lib.to_lower content)) none (f.ratio 0 1) m.neurons
          m.current_dim tt a)
  length-place lib content (some id) rand m a =
      length-near (f.ratio 1 10) rand m.current_dim (lookup text_discrete id m.neurons)
        (lookup-Sized m id a)

  -- the vectorizer and the analyzer move nothing
  pub embed-position :
      (e : Engine F) (content : Text) (n : Neuron F)
      → ((embed f e content n).position ≡ n.position) × ((embed f e content n).id ≡ n.id)
  unfolding embed
  embed-position e content n = elim (Option-cases e.embed_text) [
    | inl h ↦ rw h (refl, refl)
    | inr (go, h) ↦ elim (Option-cases (go content)) [
      | inl g ↦ rw (h, embed, g) (refl, refl)
      | inr (emb, g) ↦ rw (h, embed, g) (refl, refl)
    ]
  ]

  pub label-position :
      (e : Engine F) (content : Text) (n : Neuron F)
      → ((label f e content n).position ≡ n.position) × ((label f e content n).id ≡ n.id)
  unfolding label
  label-position e content n = elim (Option-cases e.analyze) [
    | inl h ↦ rw h (refl, refl)
    | inr (go, h) ↦ rw h (refl, refl)
  ]

  pub make_neuron-Fits :
      (e : Engine F) (content : Text) (parent : Option Text) (metadata : List (Text × Text))
      (draw : Draw F) (m : Matrix F)
      → AllEntries (Fits m.current_dim) m.neurons
      → Fits m.current_dim draw.new_id (make_neuron f e content parent metadata draw m)
  unfolding make_neuron new_neuron
  make_neuron-Fits e content parent metadata draw m a =
      let placed = record (new_neuron f e.text draw.new_id content m.current_dim draw.now) {
        position = place f e.text content parent draw.coordinate m;
      } in
      let embedded = embed f e content placed in
      (
        (label-position e content embedded).1 ∙ (embed-position e content placed).1,
        ap length (label-position e content embedded).0
            ∙ ap length (embed-position e content placed).0
            ∙ length-place e.text content parent draw.coordinate m a,
      )
