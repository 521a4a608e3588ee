-- ===== src/Lifecycle/Transitions.antt =====
-- The transitions of `CheckAndTransition` against the state diagram (pkg/lifecycle/manager.go).
use qubicdb.Prelude.{
  ℕ, not, Option-cases, ◌+◌, ◌<◌, ◌≡◌, refl, ◌≢◌, ◌⊎◌, inl, inr, true, false, some, [], Text,
  text_discrete, arith,
}
use qubicdb.Prelude.Assoc.{lookup, insert, lookup-insert_ne, lookup-insert_self}
use qubicdb.Core.Activity.{ActivityState, active, idle, sleeping, dormant, BrainState}
use qubicdb.Lifecycle.{
  Manager, next_state, same_state, check_and_transition, get_state, get_brain_state,
  is_activity_sparse,
}

-- The edges of the diagram, each with its guard.
pub data Step (m : Manager) (id : Text) (now now' last : ℕ)
    : ActivityState → ActivityState → Type 0 where
  pause :
      is_activity_sparse id now' m ≡ true
      → last + m.idle_threshold < now
      → Step m id now now' last active idle
  doze : last + m.sleep_threshold < now → Step m id now now' last idle sleeping
  retire : last + m.dormant_threshold < now → Step m id now now' last sleeping dormant

module _ (m : Manager) (id : Text) (now now' last : ℕ) where
  next_state-Step :
      (s : ActivityState)
      → (Step m id now now' last s (next_state s id now now' last m).0
          × (same_state (next_state s id now now' last m).0 s ≡ false))
        ⊎ (next_state s id now now' last m ≡ (s, []))
  unfolding next_state same_state
  next_state-Step active = grind (arith, pause)
  next_state-Step idle = grind (arith, doze)
  next_state-Step sleeping = grind (arith, retire)
  next_state-Step dormant = inr refl

  Step-next_state :
      {s t : ActivityState} → Step m id now now' last s t → (next_state s id now now' last m).0 ≡ t
  unfolding next_state
  Step-next_state (pause q g) = ground arith
  Step-next_state (doze g) = ground arith
  Step-next_state (retire g) = ground arith

same_state_refl : (s : ActivityState) → same_state s s ≡ true
unfolding same_state
same_state_refl active = refl
same_state_refl _ = refl

-- the state of `id` after `s.State = t`
unfoldable pub stored : Manager → Text → BrainState → ActivityState → Manager
stored m id s t = record m { states = insert text_discrete id (record s { state = t }) m.states }

pub get_state-stored :
    (m : Manager) (id : Text) (s : BrainState) (t : ActivityState)
    → get_state id (stored m id s t) ≡ t
unfolding get_state stored
get_state-stored m id s t =
    rw (lookup-insert_self text_discrete id (record s { state = t }) m.states, get_state)

pub check_tracked :
    (m : Manager) (id : Text) (now now' : ℕ) (s : BrainState)
    → get_brain_state id m ≡ some s
    → check_and_transition id now now' m ≡ (
        let (t, callbacks) = next_state s.state id now now' s.last_invoke m in
        (stored m id s t, not (same_state t s.state), callbacks))
unfolding check_and_transition stored get_brain_state
check_tracked m id now now' s h = rw (h, check_and_transition)

-- A check of a tracked index either follows one edge of the state diagram, whose guard holds, and
-- returns true, or leaves the state, returns false and starts no callback.
pub check_and_transition-Step :
    (m : Manager) (id : Text) (now now' : ℕ) (s : BrainState)
    → get_brain_state id m ≡ some s
    → let (m', changed, callbacks) = check_and_transition id now now' m in
      (Step m id now now' s.last_invoke s.state (get_state id m') × (changed ≡ true))
      ⊎ ((get_state id m' ≡ s.state) × (changed ≡ false) × (callbacks ≡ []))
check_and_transition-Step m id now now' s h = rw (check_tracked m id now now' s h) (
    rw (get_state-stored m id s _) (elim (next_state-Step m id now now' s.last_invoke s.state) [
      | inl (st, moved) ↦ inl (st, rw moved)
      | inr stays ↦ inr (rw stays, rw (stays, same_state_refl s.state), rw stays)
    ]))

-- A check touches no other index, and of its own index only the activity state.
pub check_and_transition_frame :
    (m : Manager) (id j : Text) (now now' : ℕ)
    → id ≢ j
    → get_brain_state j (check_and_transition id now now' m).0 ≡ get_brain_state j m
unfolding check_and_transition get_brain_state
check_and_transition_frame m id j now now' h =
    elim (Option-cases (lookup text_discrete id m.states)) [
      | inl e ↦ rw (e, check_and_transition)
      | inr (s, e) ↦ rw (e, check_and_transition) (lookup-insert_ne text_discrete id j _ m.states h)
    ]

-- The fields that a check leaves alone.
pub check_keeps :
    (m : Manager) (id : Text) (now now' : ℕ)
    → let m' = (check_and_transition id now now' m).0 in
      (m'.activity_buffer ≡ m.activity_buffer)
      × (m'.idle_threshold ≡ m.idle_threshold)
      × (m'.sleep_threshold ≡ m.sleep_threshold)
      × (m'.dormant_threshold ≡ m.dormant_threshold)
      × (m'.sparseness_window ≡ m.sparseness_window)
      × (m'.sparseness_min_ops ≡ m.sparseness_min_ops)
unfolding check_and_transition
check_keeps m id now now' = ground arith
