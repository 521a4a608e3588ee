-- ===== src/Hebbian/Pruning.antt =====
-- Pruning keeps the wiring and leaves only living synapses (pkg/synapse/hebbian.go, PruneDeadSynapses).
use qubicdb.Prelude.{
  ℕ, ◌≤◌, ◌≡◌, ◌≢◌, refl, sym, ◌∙◌, true, false, not, ◌&&◌, ◌||◌, none, some, List, [], ◌∷◌, Text,
  text_discrete, text_eq, mentions, ltb, if◌then◌else◌, length, length-select-le, select, arith,
  ite, Bool-cases, inl, inr,
}
use qubicdb.Prelude.Assoc.{
  lookup, lookup-delete, lookup-delete_ne, Unique, delete-Unique, AllEntries-lookup,
  AllEntries-delete,
}
use qubicdb.Core.Float.{Float}
use qubicdb.Core.Synapse.{Synapse, new_synapse_id, is_alive_synapse, NoColon}
use qubicdb.Core.Matrix.{Matrix}
use qubicdb.Hebbian.{neighbours, remove_from_adjacency, prune_one, prune_each, prune_dead_synapses}
use qubicdb.Hebbian.Wiring.{mentions-select, has, Ends, IsWired, neighbours-remove, has-delete}

module _ {F : Type 0} (f : Float F) where
  neighbours-prune_one :
      (k a : Text) (s : Synapse F) (m : Matrix F)
      → s.from_id ≢ s.to_id
      → neighbours f a (prune_one f k s m)
        ≡ ite
            (text_discrete s.to_id a)
            (select (λ j. not (text_eq j s.from_id)) (neighbours f s.to_id m))
            (ite
              (text_discrete s.from_id a)
              (select (λ j. not (text_eq j s.to_id)) (neighbours f s.from_id m))
              (neighbours f a m))
  unfolding neighbours prune_one remove_from_adjacency
  neighbours-prune_one k a s m ne =
      neighbours-remove f s.to_id s.from_id a (remove_from_adjacency f s.from_id s.to_id m)
      ∙ ground (
        arith,
        neighbours-remove f s.from_id s.to_id s.to_id m,
        neighbours-remove f s.from_id s.to_id a m,
      )

  mentions-prune_one :
      (k a b : Text) (s : Synapse F) (m : Matrix F)
      → s.from_id ≢ s.to_id
      → mentions b (neighbours f a (prune_one f k s m)) ≡ (
          mentions b (neighbours f a m)
          && not (
              (text_eq s.from_id a && text_eq s.to_id b)
              || (text_eq s.to_id a && text_eq s.from_id b)))
  unfolding text_eq
  mentions-prune_one k a b s m ne = ground (
    arith,
    neighbours-prune_one k a s m ne,
    mentions-select b s.from_id (neighbours f s.to_id m),
    mentions-select b s.to_id (neighbours f s.from_id m),
  )

  has-prune_one :
      (k a b : Text) (s : Synapse F) (m : Matrix F)
      → k ≡ new_synapse_id s.from_id s.to_id
      → NoColon s.from_id
      → NoColon a
      → has f a b (prune_one f k s m)
        ≡ (has f a b m && not (text_eq s.from_id a && text_eq s.to_id b))
  unfolding prune_one remove_from_adjacency
  has-prune_one k a b s m e p q = rw e (has-delete f s.from_id s.to_id a b m p q)

  length-prune_one :
      (k a : Text) (s : Synapse F) (limit : ℕ) (m : Matrix F)
      → s.from_id ≢ s.to_id
      → ((j : Text) → length (neighbours f j m) ≤ limit)
      → length (neighbours f a (prune_one f k s m)) ≤ limit
  length-prune_one k a s limit m ne old = ground (
    arith,
    neighbours-prune_one k a s m ne,
    length-select-le (λ j. not (text_eq j s.from_id)) (neighbours f s.to_id m),
    length-select-le (λ j. not (text_eq j s.to_id)) (neighbours f s.from_id m),
    old s.to_id,
    old s.from_id,
    old a,
  )

  adjacent-prune_one :
      (k a b : Text) (s : Synapse F) (limit : ℕ) (m : Matrix F)
      → Ends f k s
      → NoColon a
      → NoColon b
      → lookup text_discrete k m.synapses ≡ some s
      → IsWired f limit m
      → mentions b (neighbours f a (prune_one f k s m))
        ≡ (has f a b (prune_one f k s m) || has f b a (prune_one f k s m))
  unfolding text_eq
  adjacent-prune_one k a b s limit m e pa pb h v =
      let there : has f s.from_id s.to_id m ≡ true = rw (sym e.0) (rw h refl) in
      let back : has f s.to_id s.from_id m ≡ false =
        v.one_way s.from_id s.to_id e.1.0.0 e.1.0.1 there in
      rw (mentions-prune_one k a b s m e.1.1) (
        rw (has-prune_one k a b s m e.0 e.1.0.0 pa)
          (rw (has-prune_one k b a s m e.0 e.1.0.0 pb) (rw (v.adjacent a b pa pb) (ground arith))))

  one_way-prune_one :
      (k a b : Text) (s : Synapse F) (limit : ℕ) (m : Matrix F)
      → Ends f k s
      → NoColon a
      → NoColon b
      → IsWired f limit m
      → has f a b (prune_one f k s m) ≡ true
      → has f b a (prune_one f k s m) ≡ false
  one_way-prune_one k a b s limit m e pa pb v =
      rw (has-prune_one k a b s m e.0 e.1.0.0 pa)
        (rw (has-prune_one k b a s m e.0 e.1.0.0 pb) (λ is. ground (arith, v.one_way a b pa pb)))

  prune_one-IsWired :
      (k : Text) (s : Synapse F) (limit : ℕ) (m : Matrix F)
      → lookup text_discrete k m.synapses ≡ some s
      → IsWired f limit m
      → IsWired f limit (prune_one f k s m)
  unfolding prune_one remove_from_adjacency
  prune_one-IsWired k s limit m h v =
      let e : Ends f k s = AllEntries-lookup text_discrete (Ends f) m.synapses k s v.ends h in
      record {
        ids_unique = delete-Unique text_discrete k m.synapses v.ids_unique;
        ends = AllEntries-delete text_discrete (Ends f) m.synapses k v.ends;
        one_way = λ a b pa pb. one_way-prune_one k a b s limit m e pa pb v;
        adjacent = λ a b pa pb. adjacent-prune_one k a b s limit m e pa pb h v;
        degree = λ a. length-prune_one k a s limit m e.1.1 v.degree;
      }

  -- what the loop has still to visit is in the matrix
  abbrev Pending : List (Text × Synapse F) → Matrix F → Type 0
  Pending l m =
      Unique text_discrete l
      × ((k : Text) (s : Synapse F)
          → lookup text_discrete k l ≡ some s
          → lookup text_discrete k m.synapses ≡ some s)

  Pending-head :
      (k : Text) (s : Synapse F) (l : List (Text × Synapse F)) (m : Matrix F)
      → Pending ((k, s) ∷ l) m
      → lookup text_discrete k m.synapses ≡ some s
  unfolding lookup
  Pending-head k s l m v = v.1 k s (ground arith)

  Pending-tail :
      (k : Text) (s : Synapse F) (l : List (Text × Synapse F)) (m : Matrix F)
      → Pending ((k, s) ∷ l) m
      → Pending l m
  unfolding lookup
  Pending-tail k s l m v = (v.0.1, λ j t h. v.1 j t (ground arith))

  Pending-prune_one :
      (k : Text) (s : Synapse F) (l : List (Text × Synapse F)) (m : Matrix F)
      → Pending ((k, s) ∷ l) m
      → Pending l (prune_one f k s m)
  unfolding lookup prune_one remove_from_adjacency
  Pending-prune_one k s l m v = (
    v.0.1,
    λ j t h.
        lookup-delete_ne text_discrete k j m.synapses
          (λ e. let u : lookup text_discrete k l ≡ none = v.0.0 in ground arith)
        ∙ (Pending-tail k s l m v).1 j t h,
  )

  prune_each-IsWired :
      (l : List (Text × Synapse F)) (limit : ℕ) (m : Matrix F)
      → Pending l m
      → IsWired f limit m
      → IsWired f limit (prune_each f l m).0
  unfolding prune_each
  prune_each-IsWired [] limit m p v = v
  prune_each-IsWired ((k, s) ∷ l) limit m p v = elim (Bool-cases (is_alive_synapse f s)) [
    | inl alive ↦ rw alive (prune_each-IsWired l limit m (Pending-tail k s l m p) v)
    | inr dead ↦ rw dead (
        prune_each-IsWired l limit (prune_one f k s m) (Pending-prune_one k s l m p)
          (prune_one-IsWired k s limit m (Pending-head k s l m p) v))
  ]

  pub prune_dead_synapses-IsWired :
      (now limit : ℕ) (m : Matrix F)
      → IsWired f limit m
      → IsWired f limit (prune_dead_synapses f now m).0
  unfolding prune_dead_synapses neighbours
  prune_dead_synapses-IsWired now limit m v =
      let w = prune_each-IsWired m.synapses limit m (v.ids_unique, λ k s h. h) v in
      elim (Bool-cases (ltb 0 (prune_each f m.synapses m).1)) [
        | inl some_died ↦ rw some_died (record {
          ids_unique = w.ids_unique;
          ends = w.ends;
          one_way = w.one_way;
          adjacent = w.adjacent;
          degree = w.degree;
        })
        | inr none_died ↦ rw none_died w
      ]

  lookup-prune_each :
      (l : List (Text × Synapse F)) (m : Matrix F) (j : Text)
      → Pending l m
      → lookup text_discrete j (prune_each f l m).0.synapses ≡ elim (lookup text_discrete j l) [
        | none ↦ lookup text_discrete j m.synapses
        | some s ↦ if is_alive_synapse f s then lookup text_discrete j m.synapses else none
      ]
  unfolding prune_each prune_one remove_from_adjacency lookup
  lookup-prune_each [] m j p = refl
  lookup-prune_each ((k, s) ∷ l) m j p =
      let u : lookup text_discrete k l ≡ none = p.0.0 in
      elim (Bool-cases (is_alive_synapse f s)) [
        | inl alive ↦ rw alive (lookup-prune_each l m j (Pending-tail k s l m p) ∙ ground arith)
        | inr dead ↦ rw dead (
            lookup-prune_each l (prune_one f k s m) j (Pending-prune_one k s l m p)
            ∙ ground (arith, lookup-delete text_discrete k j m.synapses))
      ]

  -- What pruning leaves is alive, and what it removes is not: a synapse is there afterwards exactly
  -- if it was there before and is alive, and it is the same one. No two synapses of the matrix
  -- share an id.
  pub lookup-prune_dead_synapses :
      (now : ℕ) (m : Matrix F) (k : Text)
      → Unique text_discrete m.synapses
      → lookup text_discrete k (prune_dead_synapses f now m).0.synapses
        ≡ elim (lookup text_discrete k m.synapses) [
          | none ↦ none
          | some s ↦ if is_alive_synapse f s then some s else none
        ]
  unfolding prune_dead_synapses
  lookup-prune_dead_synapses now m k u =
      let p = lookup-prune_each m.synapses m k (u, λ k s h. h) in
      elim (Bool-cases (ltb 0 (prune_each f m.synapses m).1)) [
        | inl some_died ↦ rw some_died (p ∙ ground arith)
        | inr none_died ↦ rw none_died (p ∙ ground arith)
      ]
