-- ===== src/Core/Activity.antt =====
-- The activity states and the lifecycle record of one index (pkg/core/types.go).
use qubicdb.Prelude.{ℕ, Text}

pub data ActivityState : Type 0 where
  active idle sleeping dormant : ActivityState

-- Times are nanoseconds; the counter is a uint64.
pub record BrainState : Type 0 where
  pub index_id : Text
  pub state : ActivityState
  pub last_invoke : ℕ
  pub invoke_count : ℕ
  pub session_start : ℕ
  pub idle_threshold : ℕ
  pub sleep_threshold : ℕ

unfoldable pub new_brain_state : Text → ℕ → BrainState
new_brain_state index_id now = record {
  index_id = index_id;
  state = ActivityState.active;
  last_invoke = now;
  invoke_count = 1;
  session_start = now;
  idle_threshold = 30000000000;
  sleep_threshold = 300000000000;
}
