-- ===== src/Lifecycle.antt =====
-- The lifecycle manager (pkg/lifecycle/manager.go): the tracked indexes, their activity buffers, and
-- the transitions between activity states. `go callback(id)` is a value of `Callback` that the
-- operation returns; a reading of `time.Now()` is an argument, in the order in which the code reads
-- the clock. The mutex makes each operation one step.
mod Transitions
mod Retirement
mod Invariant
mod Runs
mod Recording
mod Monitor
mod Examples
use qubicdb.Prelude.{
  ℕ, suc, ◌+◌, ◌%◌, ◌^◌, Bool, true, false, not, ◌&&◌, Option, none, some, List, [], ◌∷◌, ◌++◌,
  Text, text_discrete, ltb, if◌then◌else◌, length, select,
}
use qubicdb.Prelude.Assoc.{lookup, insert, delete, keys}
use qubicdb.Core.Activity.{
  ActivityState, active, idle, sleeping, dormant, BrainState, new_brain_state,
}

pub data Callback : Type 0 where
  sleep_start sleep_end went_dormant woke : Text → Callback

-- The four callback fields are functions or nil: only which of them are set matters here.
pub record Manager : Type 0 where
  pub states : List (Text × BrainState)
  pub on_sleep_start : Bool
  pub on_sleep_end : Bool
  pub on_dormant : Bool
  pub on_wake : Bool
  pub activity_buffer : List (Text × List ℕ)
  pub buffer_window : ℕ
  pub idle_threshold : ℕ
  pub sleep_threshold : ℕ
  pub dormant_threshold : ℕ
  pub sparseness_window : ℕ
  pub sparseness_min_ops : ℕ

unfoldable pub new_manager : Manager
new_manager = record {
  states = [];
  on_sleep_start = false;
  on_sleep_end = false;
  on_dormant = false;
  on_wake = false;
  activity_buffer = [];
  buffer_window = 300000000000;
  idle_threshold = 30000000000;
  sleep_threshold = 300000000000;
  dormant_threshold = 1800000000000;
  sparseness_window = 30000000000;
  sparseness_min_ops = 3;
}

unfoldable pub remove_index : Text → Manager → Manager
remove_index id m = record m {
  states = delete text_discrete id m.states;
  activity_buffer = delete text_discrete id m.activity_buffer;
}

unfoldable pub apply_thresholds : ℕ → ℕ → List (Text × BrainState) → List (Text × BrainState)
apply_thresholds idle_t sleep_t [] = []
apply_thresholds idle_t sleep_t ((id, s) ∷ l) =
    (id, record s { idle_threshold = idle_t; sleep_threshold = sleep_t })
    ∷ apply_thresholds idle_t sleep_t l

unfoldable pub set_thresholds : ℕ → ℕ → ℕ → Manager → Manager
set_thresholds idle_t sleep_t dormant_t m = record m {
  idle_threshold = idle_t;
  sleep_threshold = sleep_t;
  dormant_threshold = dormant_t;
  states = apply_thresholds idle_t sleep_t m.states;
}

unfoldable pub set_callbacks : Bool → Bool → Bool → Bool → Manager → Manager
set_callbacks on_sleep_start on_sleep_end on_dormant on_wake m = record m {
  on_sleep_start = on_sleep_start;
  on_sleep_end = on_sleep_end;
  on_dormant = on_dormant;
  on_wake = on_wake;
}

-- `state, ok := m.states[id]; if !ok { state = NewBrainState(id) }`
unfoldable pub get_or_new : Text → ℕ → Manager → BrainState
get_or_new id born m = elim (lookup text_discrete id m.states) [
  | none ↦ new_brain_state id born
  | some s ↦ s
]

-- `m.activityBuffer[id]`, which is nil where the key is missing
unfoldable pub buffer_of : Text → Manager → List ℕ
buffer_of id m = elim (lookup text_discrete id m.activity_buffer) [ none ↦ [] | some l ↦ l ]

-- `t.After(time.Now().Add(-window))`
abbrev pub is_after : ℕ → ℕ → ℕ → Bool
is_after window now t = ltb now (t + window)

unfoldable pub clean_buffer : Text → ℕ → Manager → Manager
clean_buffer id now m = record m {
  activity_buffer =
      insert text_discrete id (select (is_after m.buffer_window now) (buffer_of id m))
        m.activity_buffer;
}

-- The transition on activity, and whether the index was woken.
unfoldable pub wake : ActivityState → ℕ → BrainState → BrainState × Bool
wake dormant now s = (record s { state = active; session_start = now }, true)
wake sleeping now s = (record s { state = active; session_start = now }, true)
wake idle now s = (record s { state = active }, false)
wake active now s = (s, false)

abbrev pub when : Bool → Callback → List Callback
when true c = c ∷ []
when false c = []

unfoldable pub record_activity : Text → ℕ → ℕ → ℕ → Manager → Manager × List Callback
unfolding get_or_new
record_activity id now born cleaned m =
    let s = get_or_new id born m in
    let (s', woken) = wake s.state now s in
    let s'' = record s' { last_invoke = now; invoke_count = (s'.invoke_count + 1) % 2 ^ 64 } in
    let m' = record m {
      states = insert text_discrete id s'' m.states;
      activity_buffer = insert text_discrete id (buffer_of id m ++ now ∷ []) m.activity_buffer;
    } in
    (clean_buffer id cleaned m', when (woken && m.on_wake) (woke id))

unfoldable pub get_state : Text → Manager → ActivityState
get_state id m = elim (lookup text_discrete id m.states) [ none ↦ dormant | some s ↦ s.state ]

unfoldable pub get_brain_state : Text → Manager → Option BrainState
get_brain_state id m = lookup text_discrete id m.states

-- `IsActivitySparse` and `isActivitySparseUnsafe`
unfoldable pub is_activity_sparse : Text → ℕ → Manager → Bool
is_activity_sparse id now m = elim (buffer_of id m) [
  | [] ↦ true
  | t ∷ l ↦ ltb (length (select (is_after m.sparseness_window now) (t ∷ l))) m.sparseness_min_ops
]

-- The `switch` of `CheckAndTransition`: the next state, and the callbacks that are started.
unfoldable pub next_state :
    ActivityState → Text → ℕ → ℕ → ℕ → Manager → ActivityState × List Callback
next_state active id now now' last m =
    (if is_activity_sparse id now' m && ltb (last + m.idle_threshold) now then idle else active, [])
next_state idle id now now' last m =
    if ltb (last + m.sleep_threshold) now
    then (sleeping, when m.on_sleep_start (sleep_start id))
    else (idle, [])
next_state sleeping id now now' last m =
    if ltb (last + m.dormant_threshold) now
    then (dormant, when m.on_sleep_end (sleep_end id) ++ when m.on_dormant (went_dormant id))
    else (sleeping, [])
next_state dormant id now now' last m = (dormant, [])

-- `==` on `ActivityState`
unfoldable pub same_state : ActivityState → ActivityState → Bool
same_state active active = true
same_state idle idle = true
same_state sleeping sleeping = true
same_state dormant dormant = true
same_state _ _ = false

-- `now` is read before the `switch`, `now'` inside `isActivitySparseUnsafe`.
unfoldable pub check_and_transition : Text → ℕ → ℕ → Manager → Manager × Bool × List Callback
unfolding next_state same_state
check_and_transition id now now' m = elim (lookup text_discrete id m.states) [
  | none ↦ (m, false, [])
  | some s ↦
      let (next, callbacks) = next_state s.state id now now' s.last_invoke m in
      (
        record m { states = insert text_discrete id (record s { state = next }) m.states },
        not (same_state next s.state),
        callbacks,
      )
]

-- The loop of `checkAllUsers`, over the ids that it collected; `clock k` is the k-th reading.
unfoldable pub check_each : (ℕ → ℕ) → ℕ → List Text → Manager → Manager × List Callback
check_each clock k [] m = (m, [])
check_each clock k (id ∷ ids) m =
    let (m', _, started) = check_and_transition id (clock k) (clock (suc k)) m in
    let (m'', later) = check_each clock (suc (suc k)) ids m' in (m'', started ++ later)

unfoldable pub check_all_users : (ℕ → ℕ) → Manager → Manager × List Callback
unfolding check_each
check_all_users clock m = check_each clock 0 (keys m.states) m

-- `GetActiveUsers` and `GetSleepingUsers`
abbrev pub is_awake : ActivityState → Bool
is_awake active = true
is_awake idle = true
is_awake _ = false

unfoldable pub ids_where : (ActivityState → Bool) → List (Text × BrainState) → List Text
ids_where p [] = []
ids_where p ((id, s) ∷ l) = let rest = ids_where p l in if p s.state then id ∷ rest else rest

unfoldable pub get_active_users : Manager → List Text
unfolding ids_where
get_active_users m = ids_where is_awake m.states

unfoldable pub get_sleeping_users : Manager → List Text
unfolding ids_where
get_sleeping_users m = ids_where (same_state sleeping) m.states

unfoldable pub force_wake : Text → ℕ → ℕ → Manager → Manager × List Callback
unfolding get_or_new same_state
force_wake id born now m =
    let s = get_or_new id born m in
    if same_state s.state active
    then (record m { states = insert text_discrete id s m.states }, [])
    else (
      record m {
        states = insert text_discrete id (record s { state = active; last_invoke = now }) m.states;
      },
      when m.on_wake (woke id),
    )

unfoldable pub force_sleep : Text → Manager → Manager × List Callback
unfolding same_state
force_sleep id m = elim (lookup text_discrete id m.states) [
  | none ↦ (m, [])
  | some s ↦ if same_state s.state sleeping then (m, []) else (
    record m { states = insert text_discrete id (record s { state = sleeping }) m.states },
    when m.on_sleep_start (sleep_start id),
  )
]

-- The four counters of `Stats`.
pub record Distribution : Type 0 where
  pub active_count : ℕ
  pub idle_count : ℕ
  pub sleeping_count : ℕ
  pub dormant_count : ℕ

unfoldable pub bump : ActivityState → Distribution → Distribution
bump active d = record d { active_count = d.active_count + 1 }
bump idle d = record d { idle_count = d.idle_count + 1 }
bump sleeping d = record d { sleeping_count = d.sleeping_count + 1 }
bump dormant d = record d { dormant_count = d.dormant_count + 1 }

unfoldable pub count_states : List (Text × BrainState) → Distribution → Distribution
unfolding bump
count_states [] d = d
count_states ((id, s) ∷ l) d = count_states l (bump s.state d)

unfoldable pub state_distribution : Manager → Distribution
unfolding count_states
state_distribution m =
    count_states m.states
      (record { active_count = 0; idle_count = 0; sleeping_count = 0; dormant_count = 0 })
