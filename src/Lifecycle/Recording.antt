-- ===== src/Lifecycle/Recording.antt =====
-- What `RecordActivity` does to an index and to its buffer (pkg/lifecycle/manager.go).
use qubicdb.Prelude.{
  ℕ, ◌+◌, ◌<◌, ◌≤◌, Bool-cases, inl, inr, ◌≡◌, ◌≢◌, refl, ◌∙◌, ap, Bool, true, false, ◌&&◌, Option,
  none, some, List, [], ◌∷◌, ◌++◌, Text, text_discrete, arith, select,
}
use qubicdb.Prelude.Assoc.{lookup, lookup-insert_self, lookup-insert_ne}
use qubicdb.Core.Activity.{ActivityState, active, idle, BrainState, new_brain_state}
use qubicdb.Lifecycle.{
  Manager, get_or_new, buffer_of, is_after, clean_buffer, wake, when, woke, record_activity,
  get_brain_state,
}
use qubicdb.Lifecycle.Invariant.{buffer_of-insert_self}

-- Only an index that is tracked as sleeping or dormant is woken.
abbrev pub was_asleep : Option BrainState → Bool
was_asleep none = false
was_asleep (some s) = elim s.state [ active ↦ false | idle ↦ false | _ ↦ true ]

wake_active :
    (s : ActivityState) (now : ℕ) (b : BrainState) → b.state ≡ s → (wake s now b).0.state ≡ active
unfolding wake
wake_active active now b h = h
wake_active _ now b h = refl

wake_asleep :
    (id : Text) (born now : ℕ) (m : Manager)
    → (wake (get_or_new id born m).state now (get_or_new id born m)).1
      ≡ was_asleep (lookup text_discrete id m.states)
unfolding wake get_or_new new_brain_state
wake_asleep id born now m = ground arith

-- An activity makes its index active with the time of the call, and starts the wake callback
-- exactly when one is set and the index was tracked as sleeping or dormant. Other indexes keep
-- their records.
pub record_activity-active :
    (id : Text) (now born cleaned : ℕ) (m : Manager)
    → let (m', callbacks) = record_activity id now born cleaned m in
      (s : BrainState) × (get_brain_state id m' ≡ some s)
      × (s.state ≡ active)
      × (s.last_invoke ≡ now)
      × (callbacks ≡ when (was_asleep (get_brain_state id m) && m.on_wake) (woke id))
      × ((j : Text) → id ≢ j → get_brain_state j m' ≡ get_brain_state j m)
unfolding record_activity clean_buffer get_brain_state
record_activity-active id now born cleaned m = (
  _,
  lookup-insert_self text_discrete id _ m.states,
  wake_active _ now _ refl,
  refl,
  rw (wake_asleep id born now m),
  λ j h. lookup-insert_ne text_discrete id j _ m.states h,
)

-- The first list, in its order, without what is a window or more before the time.
pub data Trimmed (window time : ℕ) : List ℕ → List ℕ → Type 0 where
  trimmed_none : Trimmed window time [] []
  trimmed_keep :
      (t : ℕ) {l l' : List ℕ}
      → time < t + window
      → Trimmed window time l l'
      → Trimmed window time (t ∷ l) (t ∷ l')
  trimmed_drop :
      (t : ℕ) {l l' : List ℕ}
      → t + window ≤ time
      → Trimmed window time l l'
      → Trimmed window time (t ∷ l) l'

select-Trimmed :
    (window time : ℕ) (l : List ℕ) → Trimmed window time l (select (is_after window time) l)
unfolding select
select-Trimmed window time [] = trimmed_none
select-Trimmed window time (t ∷ l) = elim (Bool-cases (is_after window time t)) [
  | inl fresh ↦ rw fresh (trimmed_keep t (ground arith) (select-Trimmed window time l))
  | inr stale ↦ rw stale (trimmed_drop t (ground arith) (select-Trimmed window time l))
]

buffer_of-clean_buffer :
    (m : Manager) (id : Text) (now : ℕ)
    → buffer_of id (clean_buffer id now m) ≡ select (is_after m.buffer_window now) (buffer_of id m)
unfolding clean_buffer
buffer_of-clean_buffer m id now = buffer_of-insert_self m id _

buffer_recorded :
    (id : Text) (now born cleaned : ℕ) (m : Manager)
    → buffer_of id (record_activity id now born cleaned m).0
      ≡ select (is_after m.buffer_window cleaned) (buffer_of id m ++ now ∷ [])
unfolding record_activity
buffer_recorded id now born cleaned m =
    buffer_of-clean_buffer _ id cleaned
    ∙ ap (select (is_after m.buffer_window cleaned))
        (buffer_of-insert_self (record m { states = _ }) id (buffer_of id m ++ now ∷ []))

-- The buffer of the index after an activity is the old one with the time of this activity behind
-- it, less exactly the times that are a window or more before the later reading of the clock, in
-- the same order.
pub record_activity-buffer_of :
    (id : Text) (now born cleaned : ℕ) (m : Manager)
    → Trimmed m.buffer_window cleaned
        (buffer_of id m ++ now ∷ [])
        (buffer_of id (record_activity id now born cleaned m).0)
record_activity-buffer_of id now born cleaned m =
    rw (buffer_recorded id now born cleaned m)
      (select-Trimmed m.buffer_window cleaned (buffer_of id m ++ now ∷ []))
