-- ===== src/Lifecycle/Invariant.antt =====
-- What holds of the manager between two operations (pkg/lifecycle/manager.go).
use qubicdb.Prelude.{
  ℕ, ◌≤◌, ◌≡◌, ◌≢◌, refl, ◌∙◌, inl, inr, Bool, none, some, List, [], ◌∷◌, ◌++◌, Text, text_discrete,
  arith, All, select,
}
use qubicdb.Prelude.Assoc.{
  lookup, insert, lookup-insert_self, lookup-insert_ne, lookup-insert-none, lookup-insert_cases,
  lookup-delete_self, lookup-delete_ne, lookup-delete-none, lookup-delete-some, Unique,
  insert-Unique, delete-Unique,
}
use qubicdb.Core.Activity.{BrainState}
use qubicdb.Lifecycle.{Manager, new_manager, remove_index, buffer_of}

-- `t` is the latest reading of the clock.
pub record Inv (m : Manager) (t : ℕ) : Type 0 where
  pub unique_states : Unique text_discrete m.states
  pub unique_buffers : Unique text_discrete m.activity_buffer
  pub min_ops : m.sparseness_min_ops ≡ 3
  pub tracked :
      (id : Text)
      → lookup text_discrete id m.states ≡ none
      → lookup text_discrete id m.activity_buffer ≡ none
  pub settled :
      (id : Text) (s : BrainState)
      → lookup text_discrete id m.states ≡ some s
      → (s.last_invoke ≤ t) × All (λ x. x ≤ s.last_invoke) (buffer_of id m)

pub new_manager-Inv : (t : ℕ) → Inv new_manager t
unfolding new_manager lookup buffer_of
new_manager-Inv t = record {
  unique_states = tt;
  unique_buffers = tt;
  min_ops = refl;
  tracked = λ id h. refl;
  settled = λ id s h. cc;
}

pub All-le_trans : (l : List ℕ) (a b : ℕ) → All (λ x. x ≤ a) l → a ≤ b → All (λ x. x ≤ b) l
All-le_trans [] a b h le = tt
All-le_trans (x ∷ l) a b h le = (omega arith, All-le_trans l a b h.1 le)

pub All-select :
    (p : ℕ → Bool) (l : List ℕ) (a : ℕ) → All (λ x. x ≤ a) l → All (λ x. x ≤ a) (select p l)
unfolding select
All-select p [] a h = tt
All-select p (x ∷ l) a h = ground (arith, All-select p l a)

pub All-append :
    (l r : List ℕ) (a : ℕ) → All (λ x. x ≤ a) l → All (λ x. x ≤ a) r → All (λ x. x ≤ a) (l ++ r)
All-append [] r a h k = k
All-append (x ∷ l) r a h k = (h.0, All-append l r a h.1 k)

-- the later reading
pub Inv-later : {m : Manager} {t t' : ℕ} → Inv m t → t ≤ t' → Inv m t'
Inv-later {m} {t} {t'} v h = record {
  unique_states = v.unique_states;
  unique_buffers = v.unique_buffers;
  min_ops = v.min_ops;
  tracked = v.tracked;
  settled = λ id s e. let (a, b) = v.settled id s e in (omega arith, b);
}

-- an untracked index has no buffer
pub buffer_of_untracked :
    {m : Manager} {t : ℕ} (id : Text)
    → Inv m t
    → lookup text_discrete id m.states ≡ none
    → buffer_of id m ≡ []
unfolding buffer_of
buffer_of_untracked id v h = rw (v.tracked id h, buffer_of)

-- a read of the buffers after a write
pub buffer_of-insert_self :
    (m : Manager) (id : Text) (b : List ℕ)
    → buffer_of id (record m { activity_buffer = insert text_discrete id b m.activity_buffer }) ≡ b
unfolding buffer_of
buffer_of-insert_self m id b =
    rw (lookup-insert_self text_discrete id b m.activity_buffer, buffer_of)

buffer_of-insert_ne :
    (m : Manager) (id j : Text) (b : List ℕ)
    → id ≢ j
    → buffer_of j (record m { activity_buffer = insert text_discrete id b m.activity_buffer })
      ≡ buffer_of j m
unfolding buffer_of
buffer_of-insert_ne m id j b h =
    rw (lookup-insert_ne text_discrete id j b m.activity_buffer h, buffer_of)

-- Every operation writes the record of one index, or its buffer.
module _ {m : Manager} {t : ℕ} (v : Inv m t) (id : Text) (s : BrainState) where
  pub Inv-insert :
      s.last_invoke ≤ t
      → All (λ x. x ≤ s.last_invoke) (buffer_of id m)
      → Inv (record m { states = insert text_discrete id s m.states }) t
  unfolding buffer_of
  Inv-insert past b = record {
    unique_states = insert-Unique text_discrete id s m.states v.unique_states;
    unique_buffers = v.unique_buffers;
    min_ops = v.min_ops;
    tracked = λ j h. v.tracked j (lookup-insert-none text_discrete id j s m.states h).1;
    settled = λ j u h. elim (lookup-insert_cases text_discrete id j s m.states h) [
      | inl (e, f) ↦ rw (← e, ← f) (past, b)
      | inr (_, old) ↦ v.settled j u old
    ];
  }

  pub Inv-buffer :
      (b : List ℕ)
      → lookup text_discrete id m.states ≡ some s
      → All (λ x. x ≤ s.last_invoke) b
      → Inv (record m { activity_buffer = insert text_discrete id b m.activity_buffer }) t
  Inv-buffer b here a = record {
    unique_states = v.unique_states;
    unique_buffers = insert-Unique text_discrete id b m.activity_buffer v.unique_buffers;
    min_ops = v.min_ops;
    tracked = λ j h. elim (text_discrete id j) [
      | yes e ↦ ground arith
      | no ne ↦ lookup-insert_ne text_discrete id j b m.activity_buffer ne ∙ v.tracked j h
    ];
    settled = λ j u h. elim (text_discrete id j) [
      | yes e ↦
          let same : s ≡ u = cc in
          rw (← same, ← e) ((v.settled id s here).0, rw (buffer_of-insert_self m id b) a)
      | no ne ↦ ((v.settled j u h).0, rw (buffer_of-insert_ne m id j b ne) (v.settled j u h).1)
    ];
  }

buffer_of-remove_index :
    (m : Manager) (id j : Text) → id ≢ j → buffer_of j (remove_index id m) ≡ buffer_of j m
unfolding buffer_of remove_index
buffer_of-remove_index m id j h =
    rw (lookup-delete_ne text_discrete id j m.activity_buffer h, buffer_of)

pub remove_index-Inv : {m : Manager} {t : ℕ} (id : Text) → Inv m t → Inv (remove_index id m) t
unfolding remove_index buffer_of
remove_index-Inv {m} id v = record {
  unique_states = delete-Unique text_discrete id m.states v.unique_states;
  unique_buffers = delete-Unique text_discrete id m.activity_buffer v.unique_buffers;
  min_ops = v.min_ops;
  tracked = λ j h. elim (lookup-delete-none text_discrete id j m.states h) [
    | inl e ↦ rw (← e) (lookup-delete_self text_discrete id m.activity_buffer)
    | inr (ne, old) ↦ lookup-delete_ne text_discrete id j m.activity_buffer ne ∙ v.tracked j old
  ];
  settled = λ j u h.
      let (ne, old) = lookup-delete-some text_discrete id j m.states h in
      ((v.settled j u old).0, rw (buffer_of-remove_index m id j ne) (v.settled j u old).1);
}
