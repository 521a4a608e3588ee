-- ===== src/Lifecycle/Retirement.antt =====
-- What becomes of an index that is left alone (pkg/lifecycle/manager.go).
use qubicdb.Prelude.{
  ℕ, ◌+◌, ◌<◌, ◌≤◌, ◌≡◌, refl, ◌∙◌, ◌⊎◌, inl, inr, true, some, List, [], ◌∷◌, Text, text_discrete,
  arith, All, select, length,
}
use qubicdb.Prelude.Assoc.{lookup-insert_self}
use qubicdb.Core.Activity.{ActivityState, active, idle, sleeping, dormant, BrainState}
use qubicdb.Lifecycle.{
  Manager, next_state, check_and_transition, get_state, get_brain_state, is_activity_sparse,
  buffer_of, is_after,
}
use qubicdb.Lifecycle.Transitions.{stored, check_tracked}

-- Entries that have left the window are not counted.
select_quiet :
    (window now last : ℕ) (l : List ℕ)
    → All (λ t. t ≤ last) l
    → last + window ≤ now
    → select (is_after window now) l ≡ []
unfolding select
select_quiet window now last [] a h = refl
select_quiet window now last (t ∷ l) a h = ground (arith, select_quiet window now last l a.1 h)

buffer-cases : (l : List ℕ) → (l ≡ []) ⊎ ((t : ℕ) × (r : List ℕ) × (l ≡ t ∷ r))
buffer-cases [] = inl refl
buffer-cases (t ∷ r) = inr (t, r, refl)

-- An index whose recorded activity has all left the sparseness window is sparse, as long as at least
-- one operation is wanted for it to be active.
is_activity_sparse_quiet :
    (m : Manager) (id : Text) (now last : ℕ)
    → All (λ t. t ≤ last) (buffer_of id m)
    → last + m.sparseness_window ≤ now
    → 0 < m.sparseness_min_ops
    → is_activity_sparse id now m ≡ true
unfolding is_activity_sparse
is_activity_sparse_quiet m id now last a h pos = elim (buffer-cases (buffer_of id m)) [
  | inl e ↦ rw (e, is_activity_sparse)
  | inr (t, l, e) ↦
      rw (e, is_activity_sparse)
        (rw (select_quiet m.sparseness_window now last (t ∷ l) (rw e at a) h) (ground arith))
]

-- One check of an index that is sparse and past all thresholds moves it one stage down.
next_stage : ActivityState → ActivityState
next_stage active = idle
next_stage idle = sleeping
next_stage sleeping = dormant
next_stage dormant = dormant

-- At these readings of the clock every threshold and the sparseness window have passed.
pub record LeftAlone (m : Manager) (last : ℕ) (at : ℕ × ℕ) : Type 0 where
  pub past_idle : last + m.idle_threshold < at.0
  pub past_sleep : last + m.sleep_threshold < at.0
  pub past_dormant : last + m.dormant_threshold < at.0
  pub past_window : last + m.sparseness_window ≤ at.1

next_state-LeftAlone :
    (m : Manager) (id : Text) (last : ℕ) (at : ℕ × ℕ) (s : ActivityState)
    → LeftAlone m last at
    → is_activity_sparse id at.1 m ≡ true
    → (next_state s id at.0 at.1 last m).0 ≡ next_stage s
unfolding next_state next_stage
next_state-LeftAlone m id last at active h q = ground arith
next_state-LeftAlone m id last at _ h q = ground arith

-- The checks of `id` at a list of readings, as the monitor makes them.
unfoldable pub checks : Text → List (ℕ × ℕ) → Manager → Manager
checks id [] m = m
checks id ((now, now') ∷ l) m = checks id l (check_and_transition id now now' m).0

stages : List (ℕ × ℕ) → ActivityState → ActivityState
unfolding next_stage
stages [] s = s
stages (_ ∷ l) s = stages l (next_stage s)

get_brain_state-stored :
    (m : Manager) (id : Text) (s : BrainState) (t : ActivityState)
    → get_brain_state id (stored m id s t) ≡ some (record s { state = t })
unfolding get_brain_state stored
get_brain_state-stored m id s t = lookup-insert_self text_discrete id _ m.states

All-LeftAlone-stored :
    (l : List (ℕ × ℕ)) (m : Manager) (id : Text) (s : BrainState) (t : ActivityState) (last : ℕ)
    → All (LeftAlone m last) l
    → All (LeftAlone (stored m id s t) last) l
unfolding stored
All-LeftAlone-stored [] m id s t last a = tt
All-LeftAlone-stored (x ∷ l) m id s t last (h, a) = (
  record {
    past_idle = h.past_idle;
    past_sleep = h.past_sleep;
    past_dormant = h.past_dormant;
    past_window = h.past_window;
  },
  All-LeftAlone-stored l m id s t last a,
)

checks-stages :
    (l : List (ℕ × ℕ)) (m : Manager) (id : Text) (s : BrainState)
    → get_brain_state id m ≡ some s
    → All (λ t. t ≤ s.last_invoke) (buffer_of id m)
    → 0 < m.sparseness_min_ops
    → All (LeftAlone m s.last_invoke) l
    → get_state id (checks id l m) ≡ stages l s.state
unfolding checks stages get_brain_state get_state stored buffer_of
checks-stages [] m id s h b pos a = rw (h, get_state)
checks-stages ((now, now') ∷ l) m id s h b pos (alone, a) =
    let quiet = is_activity_sparse_quiet m id now' s.last_invoke b alone.past_window pos in
    let t = next_stage s.state in
    rw (check_tracked m id now now' s h) (
      rw (next_state-LeftAlone m id s.last_invoke (now, now') s.state alone quiet) (
        checks-stages l (stored m id s t) id (record s { state = t })
          (get_brain_state-stored m id s t) b pos
          (All-LeftAlone-stored l m id s t s.last_invoke a)))

stages-dormant : (l : List (ℕ × ℕ)) → stages l dormant ≡ dormant
unfolding stages
stages-dormant [] = refl
stages-dormant (x ∷ l) = stages-dormant l

stages_three : (l : List (ℕ × ℕ)) (s : ActivityState) → 3 ≤ length l → stages l s ≡ dormant
unfolding stages
stages_three (x ∷ y ∷ z ∷ l) s h = ground (arith, stages-dormant l)
stages_three (x ∷ y ∷ []) s h = absurd (omega arith)
stages_three (x ∷ []) s h = absurd (omega arith)
stages_three [] s h = absurd (omega arith)

pub checks-dormant :
    (l : List (ℕ × ℕ)) (m : Manager) (id : Text) (s : BrainState)
    → get_brain_state id m ≡ some s
    → All (λ t. t ≤ s.last_invoke) (buffer_of id m)
    → 0 < m.sparseness_min_ops
    → All (LeftAlone m s.last_invoke) l
    → 3 ≤ length l
    → get_state id (checks id l m) ≡ dormant
checks-dormant l m id s h b pos a n = checks-stages l m id s h b pos a ∙ stages_three l s.state n
