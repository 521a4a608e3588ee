-- ===== src/Lifecycle/Examples.antt =====
-- Runs of the lifecycle manager on one index, and the theorems at them (pkg/lifecycle/manager.go).
use qubicdb.Prelude.{
  ◌*◌, ℕ, ◌≡◌, refl, ◌⊎◌, true, false, ◌&&◌, some, List, [], ◌∷◌, Text, text_discrete, bytes, arith,
  select, ◌++◌, ◌≢◌, ◌+◌, length,
}
use qubicdb.Prelude.Assoc.{lookup, insert, keys}
use qubicdb.Core.Activity.{active, idle, sleeping, dormant, BrainState, new_brain_state}
use qubicdb.Lifecycle.{
  Manager, Callback, new_manager, record_activity, force_sleep, check_and_transition,
  check_all_users, get_brain_state, get_state, buffer_of, clean_buffer, wake, state_distribution,
  get_active_users, get_sleeping_users, set_callbacks, when, woke, is_activity_sparse,
}
use qubicdb.Lifecycle.Transitions.{Step, check_and_transition-Step}
use qubicdb.Lifecycle.Retirement.{checks}
use qubicdb.Lifecycle.Invariant.{Inv}
use qubicdb.Lifecycle.Runs.{Run, here, next, recorded, new_manager-Run-Inv, LeftAlone-dormant}
use qubicdb.Lifecycle.Recording.{
  Trimmed, was_asleep, record_activity-active, record_activity-buffer_of,
}
use qubicdb.Lifecycle.Monitor.{AtMostOneStep, check_all_users-Step, state_distribution_total}

manager_code : Unit {0}
unfolding new_manager record_activity check_and_transition check_all_users force_sleep get_state
    get_brain_state buffer_of lookup insert keys text_discrete new_brain_state is_activity_sparse
    checks clean_buffer wake select
manager_code = tt

abbrev alice : Text
alice = bytes "alice"

-- one activity of `alice` at 1000 ns
abbrev once : Manager
once = (record_activity alice 1000 1001 1002 new_manager).0

abbrev alice_state : BrainState
alice_state = record {
  index_id = alice;
  state = active;
  last_invoke = 1000;
  invoke_count = 2;
  session_start = 1001;
  idle_threshold = 30000000000;
  sleep_threshold = 300000000000;
}

once_state : get_brain_state alice once ≡ some alice_state
unfolding manager_code
once_state = refl

-- left alone for an hour
abbrev hours : List (ℕ × ℕ)
hours =
    (3600000000000, 3600000000001)
    ∷ (3660000000000, 3660000000001)
    ∷ (3720000000000, 3720000000001)
    ∷ []

hours_stages :
    (get_state alice (checks alice ((3600000000000, 3600000000001) ∷ []) once) ≡ idle)
    × (get_state alice (checks alice hours once) ≡ dormant)
unfolding manager_code
hours_stages = (refl, refl)

once-Run : Run new_manager 0 once 1002
once-Run = next here (recorded alice 1000 1001 1002 (omega arith) (omega arith) (omega arith))

check_and_transition-Step_example :
    let (m', changed, callbacks) = check_and_transition alice 3600000000000 3600000000001 once in
    (Step once alice 3600000000000 3600000000001 1000 active (get_state alice m')
      × (changed ≡ true))
    ⊎ ((get_state alice m' ≡ active) × (changed ≡ false) × (callbacks ≡ []))
check_and_transition-Step_example =
    check_and_transition-Step once alice 3600000000000 3600000000001 alice_state once_state

-- `alice` sleeps, with the hook for the start of sleep set
abbrev asleep : Manager × List Callback
asleep = force_sleep alice (set_callbacks true false false true once)

asleep_state : get_brain_state alice asleep.0 ≡ some (record alice_state { state = sleeping })
unfolding manager_code force_sleep set_callbacks
asleep_state = refl

new_manager-Run-Inv_example : Inv once 1002
new_manager-Run-Inv_example = new_manager-Run-Inv once-Run

LeftAlone-dormant_example : get_state alice (checks alice hours once) ≡ dormant
unfolding manager_code
LeftAlone-dormant_example =
    LeftAlone-dormant alice alice_state hours once-Run once_state (omega arith) (omega arith)

record_activity-active_example :
    let (m', callbacks) = record_activity alice 2000 2001 2002 asleep.0 in
    (s : BrainState) × (get_brain_state alice m' ≡ some s)
    × (s.state ≡ active)
    × (s.last_invoke ≡ 2000)
    × (callbacks
        ≡ when (was_asleep (get_brain_state alice asleep.0) && asleep.0.on_wake) (woke alice))
    × ((j : Text) → alice ≢ j → get_brain_state j m' ≡ get_brain_state j asleep.0)
record_activity-active_example = record_activity-active alice 2000 2001 2002 asleep.0

record_activity-buffer_of_example :
    Trimmed once.buffer_window 2002
      (buffer_of alice once ++ 2000 ∷ [])
      (buffer_of alice (record_activity alice 2000 2001 2002 once).0)
record_activity-buffer_of_example = record_activity-buffer_of alice 2000 2001 2002 once

check_all_users-Step_example :
    AtMostOneStep
      (λ k. 3600000000000 + k)
      (2 * length once.states)
      once
      alice
      alice_state
      (get_state alice (check_all_users (λ k. 3600000000000 + k) once).0)
check_all_users-Step_example =
    check_all_users-Step (λ k. 3600000000000 + k) once alice alice_state
      (new_manager-Run-Inv once-Run).unique_states once_state

state_distribution_total_example :
    let d = state_distribution once in
    (d.active_count + d.idle_count + d.sleeping_count + d.dormant_count ≡ length once.states)
    × (d.active_count + d.idle_count ≡ length (get_active_users once))
    × (d.sleeping_count ≡ length (get_sleeping_users once))
state_distribution_total_example = state_distribution_total once
