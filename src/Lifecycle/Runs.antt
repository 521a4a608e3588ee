-- ===== src/Lifecycle/Runs.antt =====
-- Every operation of the manager keeps its invariant, so it holds after any run
-- (pkg/lifecycle/manager.go).
use qubicdb.Prelude.{
  ℕ, ◌+◌, ◌%◌, ◌^◌, ◌≤◌, ◌≡◌, refl, inl, inr, Bool, none, some, List, [], ◌∷◌, ◌++◌, Text,
  text_discrete, arith, All, length, Option-cases, Bool-cases,
}
use qubicdb.Prelude.Assoc.{lookup, Unique, lookup-insert_self}
use qubicdb.Core.Activity.{active, sleeping, dormant, BrainState, new_brain_state}
use qubicdb.Lifecycle.{
  Manager, new_manager, remove_index, apply_thresholds, set_thresholds, set_callbacks, get_or_new,
  buffer_of, clean_buffer, wake, record_activity, check_and_transition, force_wake, force_sleep,
  get_brain_state, get_state, same_state,
}
use qubicdb.Lifecycle.Retirement.{LeftAlone, checks, checks-dormant}
use qubicdb.Lifecycle.Invariant.{
  Inv, new_manager-Inv, All-le_trans, All-select, All-append, Inv-later, buffer_of_untracked,
  remove_index-Inv, Inv-insert, Inv-buffer,
}

check_and_transition-Inv :
    {m : Manager} {t : ℕ} (id : Text) (now now' : ℕ)
    → Inv m t
    → Inv (check_and_transition id now now' m).0 t
unfolding check_and_transition
check_and_transition-Inv {m} id now now' v =
    elim (Option-cases (lookup text_discrete id m.states)) [
      | inl e ↦ rw (e, check_and_transition) v
      | inr (s, e) ↦
          let (past, b) = v.settled id s e in
          rw (e, check_and_transition) (Inv-insert v id (record s { state = _ }) past b)
    ]

force_sleep-Inv : {m : Manager} {t : ℕ} (id : Text) → Inv m t → Inv (force_sleep id m).0 t
unfolding force_sleep
force_sleep-Inv {m} id v = elim (Option-cases (lookup text_discrete id m.states)) [
  | inl e ↦ rw (e, force_sleep) v
  | inr (s, e) ↦
      let (past, b) = v.settled id s e in
      rw (e, force_sleep)
        (elim (Bool-cases (same_state s.state sleeping)) [
          | inl f ↦ rw f v
          | inr f ↦ rw f (Inv-insert v id (record s { state = sleeping }) past b)
        ])
]

-- the record that `RecordActivity` and `ForceWake` start from
get_or_new_settled :
    {m : Manager} {t : ℕ} (id : Text) (born : ℕ)
    → Inv m t
    → t ≤ born
    → ((get_or_new id born m).last_invoke ≤ born)
      × All (λ x. x ≤ (get_or_new id born m).last_invoke) (buffer_of id m)
      × All (λ x. x ≤ t) (buffer_of id m)
unfolding get_or_new new_brain_state
get_or_new_settled {m} id born v le = elim (Option-cases (lookup text_discrete id m.states)) [
  | inl e ↦ rw (e, get_or_new) (rw (buffer_of_untracked id v e) (omega arith))
  | inr (s, e) ↦
      let (past, b) = v.settled id s e in
      rw (e, get_or_new) (omega arith, b, All-le_trans (buffer_of id m) s.last_invoke _ b past)
]

force_wake-Inv :
    {m : Manager} {t : ℕ} (id : Text) (born now : ℕ)
    → Inv m t
    → t ≤ born
    → born ≤ now
    → Inv (force_wake id born now m).0 now
unfolding force_wake
force_wake-Inv {m} id born now v p q =
    let s = get_or_new id born m in
    let (past, own, old) = get_or_new_settled id born v p in
    elim (Bool-cases (same_state s.state active)) [
      | inl f ↦ rw f (Inv-insert (Inv-later v (omega arith)) id s (omega arith) own)
      | inr f ↦ rw f (
          Inv-insert (Inv-later v (omega arith)) id (record s { state = active; last_invoke = now })
            (omega arith) (All-le_trans (buffer_of id m) _ now old (omega arith)))
    ]

clean_buffer-Inv :
    {m : Manager} {t : ℕ} (id : Text) (now : ℕ) (s : BrainState)
    → Inv m t
    → lookup text_discrete id m.states ≡ some s
    → Inv (clean_buffer id now m) t
unfolding clean_buffer
clean_buffer-Inv {m} id now s v here =
    Inv-buffer v id s _ here (All-select _ (buffer_of id m) s.last_invoke (v.settled id s here).1)

record_activity-Inv :
    {m : Manager} {t : ℕ} (id : Text) (now born cleaned : ℕ)
    → Inv m t
    → t ≤ now
    → now ≤ born
    → born ≤ cleaned
    → Inv (record_activity id now born cleaned m).0 cleaned
unfolding record_activity
record_activity-Inv {m} id now born cleaned v p q r =
    let (past, own, old) = get_or_new_settled id born v (omega arith) in
    let kept = All-le_trans (buffer_of id m) _ now old p in
    let stamped : BrainState =
      record (wake (get_or_new id born m).state now (get_or_new id born m)).0 {
        last_invoke = now;
        invoke_count =
            ((wake (get_or_new id born m).state now (get_or_new id born m)).0.invoke_count + 1)
            % 2 ^ 64;
      } in
    let stored =
      Inv-insert (Inv-later {t' = cleaned} v (omega arith)) id stamped (omega arith) kept in
    let here = lookup-insert_self text_discrete id stamped m.states in
    clean_buffer-Inv id cleaned stamped
      (Inv-buffer stored id stamped (buffer_of id m ++ now ∷ []) here
        (All-append (buffer_of id m) (now ∷ []) now kept (omega arith)))
      here

lookup-apply_thresholds :
    (a b : ℕ) (l : List (Text × BrainState)) (id : Text)
    → lookup text_discrete id (apply_thresholds a b l) ≡ elim (lookup text_discrete id l) [
      | none ↦ none
      | some s ↦ some (record s { idle_threshold = a; sleep_threshold = b })
    ]
unfolding lookup apply_thresholds
lookup-apply_thresholds a b [] id = refl
lookup-apply_thresholds a b ((j, s) ∷ l) id = ground (arith, lookup-apply_thresholds a b l id)

apply_thresholds-Unique :
    (a b : ℕ) (l : List (Text × BrainState))
    → Unique text_discrete l
    → Unique text_discrete (apply_thresholds a b l)
unfolding apply_thresholds
apply_thresholds-Unique a b [] u = tt
apply_thresholds-Unique a b ((j, s) ∷ l) u =
    (rw (lookup-apply_thresholds a b l j) (rw u.0), apply_thresholds-Unique a b l u.1)

set_thresholds-Inv : {m : Manager} {t : ℕ} (a b c : ℕ) → Inv m t → Inv (set_thresholds a b c m) t
unfolding set_thresholds buffer_of
set_thresholds-Inv {m} a b c v = record {
  unique_states = apply_thresholds-Unique a b m.states v.unique_states;
  unique_buffers = v.unique_buffers;
  min_ops = v.min_ops;
  tracked = λ id h. v.tracked id (ground (arith, lookup-apply_thresholds a b m.states id));
  settled = λ id s h. elim (Option-cases (lookup text_discrete id m.states)) [
    | inl e ↦ ground (arith, lookup-apply_thresholds a b m.states id)
    | inr (u, e) ↦
        let same : s.last_invoke ≡ u.last_invoke =
          ground (arith, lookup-apply_thresholds a b m.states id) in
        rw same (v.settled id u e)
  ];
}

-- One operation, from the latest reading of the clock to the next. The clock does not go back.
pub data Operation (m : Manager) (t : ℕ) : Manager → ℕ → Type 0 where
  recorded :
      (id : Text) (now born cleaned : ℕ)
      → t ≤ now
      → now ≤ born
      → born ≤ cleaned
      → Operation m t (record_activity id now born cleaned m).0 cleaned
  checked :
      (id : Text) (now now' : ℕ)
      → t ≤ now
      → now ≤ now'
      → Operation m t (check_and_transition id now now' m).0 now'
  forced_awake :
      (id : Text) (born now : ℕ)
      → t ≤ born
      → born ≤ now
      → Operation m t (force_wake id born now m).0 now
  forced_asleep : (id : Text) → Operation m t (force_sleep id m).0 t
  removed : (id : Text) → Operation m t (remove_index id m) t
  configured : (a b c : ℕ) → Operation m t (set_thresholds a b c m) t
  hooked : (a b c d : Bool) → Operation m t (set_callbacks a b c d m) t

pub data Run (m : Manager) (t : ℕ) : Manager → ℕ → Type 0 where
  here : Run m t m t
  next : {u v : Manager} {t' t'' : ℕ} → Run m t u t' → Operation u t' v t'' → Run m t v t''

set_callbacks-Inv :
    {m : Manager} {t : ℕ} (a b c d : Bool) → Inv m t → Inv (set_callbacks a b c d m) t
unfolding set_callbacks buffer_of
set_callbacks-Inv a b c d v = record {
  unique_states = v.unique_states;
  unique_buffers = v.unique_buffers;
  min_ops = v.min_ops;
  tracked = v.tracked;
  settled = v.settled;
}

Operation-Inv : {m u : Manager} {t t' : ℕ} → Operation m t u t' → Inv m t → Inv u t'
Operation-Inv (recorded id now born cleaned p q r) v =
    record_activity-Inv id now born cleaned v p q r
Operation-Inv (checked id now now' p q) v =
    Inv-later (check_and_transition-Inv id now now' v) (omega arith)
Operation-Inv (forced_awake id born now p q) v = force_wake-Inv id born now v p q
Operation-Inv (forced_asleep id) v = force_sleep-Inv id v
Operation-Inv (removed id) v = remove_index-Inv id v
Operation-Inv (configured a b c) v = set_thresholds-Inv a b c v
Operation-Inv (hooked a b c d) v = set_callbacks-Inv a b c d v

Run-Inv : {m : Manager} {t : ℕ} {u : Manager} {t' : ℕ} → Inv m t → Run m t u t' → Inv u t'
Run-Inv v here = v
Run-Inv v (next r o) = Operation-Inv o (Run-Inv v r)

-- After any run of operations from a new manager, with a clock that does not go back: no index is
-- tracked twice, an index without a state has no activity buffer, no recorded activity is later
-- than the last invocation of its index, and that lies not after the latest reading of the clock.
pub new_manager-Run-Inv : {m : Manager} {t t' : ℕ} → Run new_manager t m t' → Inv m t'
new_manager-Run-Inv {t = t} r = Run-Inv (new_manager-Inv t) r

-- After any run of operations from a new manager, with a clock that does not go back, an index that
-- is left alone is dormant after three checks or more, whatever its state was: at each check all
-- three thresholds and the sparseness window have passed since its last invocation.
pub LeftAlone-dormant :
    {m : Manager} {t t' : ℕ} (id : Text) (s : BrainState) (l : List (ℕ × ℕ))
    → Run new_manager t m t'
    → get_brain_state id m ≡ some s
    → All (LeftAlone m s.last_invoke) l
    → 3 ≤ length l
    → get_state id (checks id l m) ≡ dormant
unfolding get_brain_state
LeftAlone-dormant id s l r h a n =
    let v = new_manager-Run-Inv r in
    checks-dormant l _ id s h (v.settled id s h).1 (omega (arith, v.min_ops)) a n
