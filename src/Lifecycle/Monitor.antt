-- ===== src/Lifecycle/Monitor.antt =====
-- One tick of the monitor, `checkAllUsers`, and the statistics (pkg/lifecycle/manager.go).
use qubicdb.Prelude.{
  ℕ, suc, ◌+◌, ◌*◌, ◌<◌, ap, ◌≡◌, ◌≢◌, refl, sym, subst, ◌∙◌, ◌⊎◌, inl, inr, none, some, List, [],
  ◌∷◌, Text, text_discrete, arith, All, length, Option-cases,
}
use qubicdb.Prelude.Assoc.{lookup, Unique, keys}
use qubicdb.Core.Activity.{ActivityState, sleeping, BrainState}
use qubicdb.Lifecycle.{
  Manager, buffer_of, is_activity_sparse, check_and_transition, check_each, check_all_users,
  get_state, get_brain_state, ids_where, is_awake, same_state, get_active_users, get_sleeping_users,
  bump, count_states, state_distribution, Distribution,
}
use qubicdb.Lifecycle.Transitions.{
  Step, pause, doze, retire, check_and_transition-Step, check_and_transition_frame, check_keeps,
}

is_activity_sparse-check :
    (m : Manager) (id j : Text) (now now' n : ℕ)
    → is_activity_sparse j n (check_and_transition id now now' m).0 ≡ is_activity_sparse j n m
unfolding is_activity_sparse buffer_of check_and_transition
is_activity_sparse-check m id j now now' n =
    elim (Option-cases (lookup text_discrete id m.states)) [
      | inl e ↦ rw (e, check_and_transition)
      | inr (s, e) ↦ rw (e, check_and_transition)
    ]

-- A guard that holds after a check of some index held before it.
Step-before :
    (m : Manager) (id j : Text) (now now' n n' last : ℕ) {s t : ActivityState}
    → Step (check_and_transition id now now' m).0 j n n' last s t
    → Step m j n n' last s t
Step-before m id j now now' n n' last (pause q g) =
    pause (sym (is_activity_sparse-check m id j now now' n') ∙ q)
      (omega (arith, check_keeps m id now now'))
Step-before m id j now now' n n' last (doze g) = doze (omega (arith, check_keeps m id now now'))
Step-before m id j now now' n n' last (retire g) = retire (omega (arith, check_keeps m id now now'))

check_each_absent :
    (clock : ℕ → ℕ) (k : ℕ) (ids : List Text) (m : Manager) (id : Text)
    → All (λ j. j ≢ id) ids
    → get_brain_state id (check_each clock k ids m).0 ≡ get_brain_state id m
unfolding check_each
check_each_absent clock k [] m id a = refl
check_each_absent clock k (j ∷ ids) m id a =
    check_each_absent clock (suc (suc k)) ids _ id a.1
    ∙ check_and_transition_frame m j id (clock k) (clock (suc k)) a.0

abbrev Distinct : List Text → Type 0
Distinct [] = Unit
Distinct (id ∷ ids) = All (λ j. j ≢ id) ids × Distinct ids

get_state_of :
    (m m' : Manager) (id : Text)
    → get_brain_state id m ≡ get_brain_state id m'
    → get_state id m ≡ get_state id m'
unfolding get_state get_brain_state
get_state_of m m' id h = rw (h, get_state)

get_state_tracked :
    (m : Manager) (id : Text) (s : BrainState)
    → get_brain_state id m ≡ some s
    → get_state id m ≡ s.state
unfolding get_state get_brain_state
get_state_tracked m id s h = rw (h, get_state)

-- One edge at most, with the guard at two readings of the clock that follow each other, of those
-- before the end.
abbrev pub AtMostOneStep : (ℕ → ℕ) → ℕ → Manager → Text → BrainState → ActivityState → Type 0
AtMostOneStep clock end m id s t =
    ((k : ℕ) × (suc k < end) × Step m id (clock k) (clock (suc k)) s.last_invoke s.state t)
    ⊎ (t ≡ s.state)

check_each_here :
    (clock : ℕ → ℕ) (k end : ℕ) (m m' : Manager) (id : Text) (s : BrainState)
    → suc k < end
    → get_brain_state id m ≡ some s
    → get_state id m' ≡ get_state id (check_and_transition id (clock k) (clock (suc k)) m).0
    → AtMostOneStep clock end m id s (get_state id m')
check_each_here clock k end m m' id s early h same =
    rw same (elim (check_and_transition-Step m id (clock k) (clock (suc k)) s h) [
      | inl (st, _) ↦ inl (k, early, st)
      | inr (stays, _, _) ↦ inr stays
    ])

check_each-Step :
    (clock : ℕ → ℕ) (k : ℕ) (ids : List Text) (m : Manager) (id : Text) (s : BrainState)
    → get_brain_state id m ≡ some s
    → Distinct ids
    → AtMostOneStep clock (k + 2 * length ids) m id s (get_state id (check_each clock k ids m).0)
unfolding check_each
check_each-Step clock k [] m id s h d = inr (get_state_tracked m id s h)
check_each-Step clock k (j ∷ ids) m id s h (a, d) =
    let m' = (check_and_transition j (clock k) (clock (suc k)) m).0 in
    let rest = (check_each clock (suc (suc k)) ids m').0 in
    elim (text_discrete j id) [
      | no ne ↦
          elim (check_each-Step clock (suc (suc k)) ids m' id s
            (check_and_transition_frame m j id (clock k) (clock (suc k)) ne ∙ h) d) [
              | inl (i, early, st) ↦
                  inl (i, omega arith, Step-before m j id _ _ _ _ s.last_invoke st)
              | inr same ↦ inr same
            ]
      | yes e ↦
          check_each_here clock k (k + 2 * length (j ∷ ids)) m rest id s (omega arith) h
            (rw (← e) (get_state_of rest m' j (check_each_absent clock (suc (suc k)) ids m' j a)))
    ]

absent_key :
    (l : List (Text × BrainState)) (id : Text)
    → lookup text_discrete id l ≡ none
    → All (λ j. j ≢ id) (keys l)
unfolding lookup keys
absent_key [] id h = tt
absent_key ((j, s) ∷ l) id h = ground (arith, absent_key l id)

length-keys : (l : List (Text × BrainState)) → length (keys l) ≡ length l
unfolding keys
length-keys [] = refl
length-keys ((j, s) ∷ l) = ap suc (length-keys l)

Distinct-keys : (l : List (Text × BrainState)) → Unique text_discrete l → Distinct (keys l)
unfolding keys
Distinct-keys [] u = tt
Distinct-keys ((j, s) ∷ l) u = (absent_key l j u.0, Distinct-keys l u.1)

-- In one tick of the monitor every tracked index moves along at most one edge of the diagram, and
-- only where the guard of that edge held before the tick, at two readings of the clock in a row,
-- which are among the first 2n for n tracked indexes, since the check of an index makes up to two.
-- No index is tracked twice.
pub check_all_users-Step :
    (clock : ℕ → ℕ) (m : Manager) (id : Text) (s : BrainState)
    → Unique text_discrete m.states
    → get_brain_state id m ≡ some s
    → AtMostOneStep clock (2 * length m.states) m id s (get_state id (check_all_users clock m).0)
unfolding check_all_users
check_all_users-Step clock m id s u h =
    let all : 0 + 2 * length (keys m.states) ≡ 2 * length m.states =
      omega (arith, length-keys m.states) in
    subst (λ n. AtMostOneStep clock n m id s (get_state id (check_all_users clock m).0)) all
      (check_each-Step clock 0 (keys m.states) m id s h (Distinct-keys m.states u))

total : Distribution → ℕ
total d = d.active_count + d.idle_count + d.sleeping_count + d.dormant_count

total-count_states :
    (l : List (Text × BrainState)) (d : Distribution)
    → total (count_states l d) ≡ total d + length l
unfolding total count_states bump
total-count_states [] d = omega arith
total-count_states ((id, s) ∷ l) d = ground (arith, total-count_states l (bump s.state d))

awake_counted :
    (l : List (Text × BrainState)) (d : Distribution)
    → let d' = count_states l d in
      (d'.active_count + d'.idle_count
        ≡ d.active_count + d.idle_count + length (ids_where is_awake l))
      × (d'.sleeping_count ≡ d.sleeping_count + length (ids_where (same_state sleeping) l))
unfolding count_states bump ids_where same_state
awake_counted [] d = omega arith
awake_counted ((id, s) ∷ l) d = ground (arith, awake_counted l (bump s.state d))

-- The counters of Stats add up to the number of tracked indexes, and agree with the lists of active
-- and of sleeping users.
pub state_distribution_total :
    (m : Manager)
    → let d = state_distribution m in
      (d.active_count + d.idle_count + d.sleeping_count + d.dormant_count ≡ length m.states)
      × (d.active_count + d.idle_count ≡ length (get_active_users m))
      × (d.sleeping_count ≡ length (get_sleeping_users m))
unfolding state_distribution get_active_users get_sleeping_users total
state_distribution_total m =
    let zeros : Distribution = record {
      active_count = 0;
      idle_count = 0;
      sleeping_count = 0;
      dormant_count = 0;
    } in
    omega (arith, total-count_states m.states zeros, awake_counted m.states zeros)
