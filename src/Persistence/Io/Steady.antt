-- ===== src/Persistence/Io/Steady.antt =====
-- Effects that keep a property of the state, and that are done in a quiet world (pkg/persistence/store.go).
use qubicdb.Prelude.{◌≢◌, refl, Bool, Option, none, some}
use qubicdb.Persistence.Io.{
  StoreError, Answer, done, failed, crashed, Io, pure, gets, or_raise, ◌>>=◌, modify, when,
}
use qubicdb.Persistence.Io.Rules.{
  Meets, Ends, Stays, Meets-pure, Meets-gets, Meets-weaken, Meets-modify, Meets-when, Ends-bind,
}

-- It keeps `P`, and in a quiet world it is done.
abbrev pub Leaves : {S A : Type 0} → Bool → (S → Type 0) → Io S A → Type 0
Leaves quiet P m = Meets quiet P m (Ends quiet (λ _. P) P)

module _ {S : Type 0} {quiet : Bool} {P : S → Type 0} where
  pub Leaves-pure : {A : Type 0} (a : A) → Leaves quiet P (pure a)
  Leaves-pure a = Meets-pure a _ (λ s h. h)

  pub Leaves-gets : {A : Type 0} (g : S → A) → Leaves quiet P (gets g)
  Leaves-gets g = Meets-gets g _ (λ s h. h)

  pub Leaves-modify : (g : S → S) → ((s : S) → P s → P (g s)) → Leaves quiet P (modify g)
  Leaves-modify g h = Meets-modify g _ h

  pub Leaves-when : (b : Bool) (m : Io S Unit) → Leaves quiet P m → Leaves quiet P (when b m)
  Leaves-when b m h = Meets-when _ b h (λ s p. p)

  pub Leaves-bind :
      {A B : Type 0} {m : Io S A} {k : A → Io S B}
      → Leaves quiet P m
      → ((a : A) → Leaves quiet P (k a))
      → Leaves quiet P (m >>= k)
  Leaves-bind hm hk = Ends-bind (λ _. P) (λ _. P) P hm hk

  -- an error that cannot be
  pub Leaves-or_raise :
      {A : Type 0} (o : Option A) (e : StoreError) → o ≢ none → Leaves quiet P (or_raise o e)
  unfolding or_raise
  Leaves-or_raise none e h = absurd (h refl)
  Leaves-or_raise (some a) e h = Leaves-pure a

  pub Ends-weaken :
      {A : Type 0} {m : Io S A} {Q : A → S → Type 0} {T : S → Type 0} (Q' : A → S → Type 0)
      (T' : S → Type 0)
      → Meets quiet P m (Ends quiet Q T)
      → ((a : A) (s : S) → Q a s → Q' a s)
      → ((s : S) → T s → T' s)
      → Meets quiet P m (Ends quiet Q' T')
  Ends-weaken {A = A} {Q = Q} {T = T} Q' T' h q t = Meets-weaken P _ h (λ s x. x) go
    where
      go : (r : Answer A) (s : S) → Ends quiet Q T r s → Ends quiet Q' T' r s
      go (done a) s x = q a s x
      go (failed e) s x = (x.0, t s x.1)
      go crashed s x = (x.0, t s x.1)

  -- where failing is allowed
  pub Leaves-Stays : {A : Type 0} {m : Io S A} → Leaves quiet P m → Meets quiet P m (Stays quiet P)
  Leaves-Stays {A = A} h = Meets-weaken P _ h (λ s x. x) go
    where
      go : (r : Answer A) (s : S) → Ends quiet (λ _. P) P r s → Stays quiet P r s
      go (done a) s x = x
      go (failed e) s x = x.1
      go crashed s x = x
