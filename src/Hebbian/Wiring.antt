-- ===== src/Hebbian/Wiring.antt =====
-- The lists of neighbours agree with the synapses (pkg/synapse/hebbian.go).
use qubicdb.Prelude.{
  ℕ, ◌+◌, ◌≤◌, ◌≡◌, ◌≢◌, refl, Bool, true, false, not, ◌&&◌, ◌||◌, List, [], ◌∷◌, ◌++◌, Text,
  text_discrete, text_eq, mentions, length, select, arith, ite, is_some,
}
use qubicdb.Prelude.Assoc.{lookup, insert, delete, lookup-insert, lookup-delete, Unique, AllEntries}
use qubicdb.Core.Float.{Float}
use qubicdb.Core.Synapse.{Synapse, new_synapse_id, new_synapse_id-injective, NoColon}
use qubicdb.Core.Matrix.{Matrix}
use qubicdb.Hebbian.{neighbours, add_to_adjacency, remove_from_adjacency}

pub mentions-append :
    (w v : Text) (l : List Text) → mentions w (l ++ (v ∷ [])) ≡ (mentions w l || text_eq v w)
unfolding mentions
mentions-append w v [] = ground arith
mentions-append w v (u ∷ l) = ground (arith, mentions-append w v l)

pub mentions-select :
    (w v : Text) (l : List Text)
    → mentions w (select (λ j. not (text_eq j v)) l) ≡ (mentions w l && not (text_eq v w))
unfolding mentions select text_eq
mentions-select w v [] = refl
mentions-select w v (u ∷ l) = ground (arith, mentions-select w v l)

pub length-append_one : (v : Text) (l : List Text) → length (l ++ (v ∷ [])) ≡ length l + 1
length-append_one v [] = refl
length-append_one v (u ∷ l) = omega (arith, length-append_one v l)

module _ {F : Type 0} (f : Float F) where
  -- a synapse from the first to the second
  abbrev pub has : Text → Text → Matrix F → Bool
  has a b m = is_some (lookup text_discrete (new_synapse_id a b) m.synapses)

  -- A synapse stands under the id of its two ends, which differ.
  abbrev pub Ends : Text → Synapse F → Type 0
  Ends k s =
      (k ≡ new_synapse_id s.from_id s.to_id)
      × ((NoColon s.from_id × NoColon s.to_id) × (s.from_id ≢ s.to_id))

  pub record IsWired (limit : ℕ) (m : Matrix F) : Type 0 where
    pub ids_unique : Unique text_discrete m.synapses
    pub ends : AllEntries Ends m.synapses
    pub one_way : (a b : Text) → NoColon a → NoColon b → has a b m ≡ true → has b a m ≡ false
    pub adjacent :
        (a b : Text)
        → NoColon a
        → NoColon b
        → mentions b (neighbours f a m) ≡ (has a b m || has b a m)
    pub degree : (a : Text) → length (neighbours f a m) ≤ limit

  pub neighbours-add :
      (from to a : Text) (m : Matrix F)
      → neighbours f a (add_to_adjacency f from to m)
        ≡ ite (text_discrete from a) (neighbours f from m ++ (to ∷ [])) (neighbours f a m)
  unfolding neighbours add_to_adjacency
  neighbours-add from to a m =
      ground
        (arith, lookup-insert text_discrete from a (neighbours f from m ++ (to ∷ [])) m.adjacency)

  pub neighbours-remove :
      (from remove a : Text) (m : Matrix F)
      → neighbours f a (remove_from_adjacency f from remove m)
        ≡ ite
            (text_discrete from a)
            (select (λ j. not (text_eq j remove)) (neighbours f from m))
            (neighbours f a m)
  unfolding neighbours remove_from_adjacency
  neighbours-remove from remove a m = ground (
    arith,
    lookup-insert text_discrete from a (select (λ j. not (text_eq j remove)) (neighbours f from m))
        m.adjacency,
  )

  -- the new synapse and no other
  pub has-insert :
      (from to a b : Text) (s : Synapse F) (m : Matrix F)
      → NoColon from
      → NoColon a
      → is_some (
          lookup text_discrete
            (new_synapse_id a b)
            (insert text_discrete (new_synapse_id from to) s m.synapses))
        ≡ ((text_eq from a && text_eq to b) || has a b m)
  unfolding text_eq
  has-insert from to a b s m p q =
      elim (text_discrete (new_synapse_id from to) (new_synapse_id a b)) [
        | yes e ↦
            let same = new_synapse_id-injective from to a b p q e in
            ground (
              arith,
              same.0,
              same.1,
              lookup-insert text_discrete (new_synapse_id from to) (new_synapse_id a b) s
                  m.synapses,
            )
        | no ne ↦ ground (
          arith,
          lookup-insert text_discrete (new_synapse_id from to) (new_synapse_id a b) s m.synapses,
        )
      ]

  pub has-delete :
      (from to a b : Text) (m : Matrix F)
      → NoColon from
      → NoColon a
      → is_some (
          lookup text_discrete
            (new_synapse_id a b)
            (delete text_discrete (new_synapse_id from to) m.synapses))
        ≡ (has a b m && not (text_eq from a && text_eq to b))
  unfolding text_eq
  has-delete from to a b m p q =
      elim (text_discrete (new_synapse_id from to) (new_synapse_id a b)) [
        | yes e ↦
            let same = new_synapse_id-injective from to a b p q e in
            ground (
              arith,
              same.0,
              same.1,
              lookup-delete text_discrete (new_synapse_id from to) (new_synapse_id a b) m.synapses,
            )
        | no ne ↦ ground (
          arith,
          lookup-delete text_discrete (new_synapse_id from to) (new_synapse_id a b) m.synapses,
        )
      ]
