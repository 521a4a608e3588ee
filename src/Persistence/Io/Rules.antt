-- ===== src/Persistence/Io/Rules.antt =====
-- Rules for what an effect leads to, under faults and without them (pkg/persistence/store.go).
use qubicdb.Prelude.{
  ℕ, ◌≡◌, refl, subst, sym, Bool, true, false, Option, none, some, List, [], ◌∷◌, if◌then◌else◌,
  arith,
}
use qubicdb.Persistence.Io.{
  Fault, fine, fails, crashes, StoreError, io_failed, Answer, done, failed, crashed, World, Io,
  pure, raise, gets, or_raise, continue, ◌>>=◌, modify, call, write_call, when, caught, attempt,
  handled, on_error,
}

-- A write that fails leaves nothing of itself; a write that crashes may leave a part.
abbrev pub Clean : List Fault → Type 0
Clean [] = Unit
Clean (fine ∷ fs) = Clean fs
Clean (fails n ∷ fs) = (n ≡ 0) × Clean fs
Clean (crashes n ∷ fs) = Clean fs

-- The faults of a quiet world are none.
abbrev pub Allowed : Bool → List Fault → Type 0
Allowed true fs = fs ≡ []
Allowed false fs = Clean fs

-- From a state with `P`, the answer of `m` and the state it leaves are in `Q`.
pub record Meets {S A : Type 0} (quiet : Bool) (P : S → Type 0) (m : Io S A)
    (Q : Answer A → S → Type 0) : Type 0 where
  pub at :
      (w : World S)
      → Allowed quiet w.faults
      → P w.state
      → Allowed quiet (m w).1.faults × Q (m w).0 (m w).1.state

-- It is done with `Q`; in a world with faults it may also end otherwise, with `T`.
abbrev pub Ends : {S A : Type 0} → Bool → (A → S → Type 0) → (S → Type 0) → Answer A → S → Type 0
Ends quiet Q T (done a) s = Q a s
Ends quiet Q T (failed e) s = (quiet ≡ false) × T s
Ends quiet Q T crashed s = (quiet ≡ false) × T s

-- It is done or fails, in either case with `P`; in a world with faults it may also crash.
abbrev pub Stays : {S A : Type 0} → Bool → (S → Type 0) → Answer A → S → Type 0
Stays quiet P (done a) s = P s
Stays quiet P (failed e) s = P s
Stays quiet P crashed s = (quiet ≡ false) × P s

module _ {S A : Type 0} {quiet : Bool} {P : S → Type 0} where
  pub Meets-pure :
      (a : A) (Q : Answer A → S → Type 0)
      → ((s : S) → P s → Q (done a) s)
      → Meets quiet P (pure a) Q
  unfolding pure
  Meets-pure a Q q = record { at = λ w c h. (c, q w.state h) }

  pub Meets-raise :
      (e : StoreError) (Q : Answer A → S → Type 0)
      → ((s : S) → P s → Q (failed e) s)
      → Meets quiet P (raise e) Q
  unfolding raise
  Meets-raise e Q q = record { at = λ w c h. (c, q w.state h) }

  pub Meets-gets :
      (g : S → A) (Q : Answer A → S → Type 0)
      → ((s : S) → P s → Q (done (g s)) s)
      → Meets quiet P (gets g) Q
  unfolding gets
  Meets-gets g Q q = record { at = λ w c h. (c, q w.state h) }

  pub Meets-if :
      {m n : Io S A} (Q : Answer A → S → Type 0) (b : Bool)
      → Meets quiet P m Q
      → Meets quiet P n Q
      → Meets quiet P (if b then m else n) Q
  Meets-if Q true km kn = km
  Meets-if Q false km kn = kn

  pub Meets-weaken :
      {m : Io S A} (P' : S → Type 0) {Q' : Answer A → S → Type 0} (Q : Answer A → S → Type 0)
      → Meets quiet P' m Q'
      → ((s : S) → P s → P' s)
      → ((r : Answer A) (s : S) → Q' r s → Q r s)
      → Meets quiet P m Q
  Meets-weaken P' Q km p q = record {
    at = λ w c h. let (c', h') = km.at w c (p w.state h) in (c', q _ _ h');
  }

  -- a fact that does not depend on the state
  pub Meets-fact :
      {m : Io S A} (C : Type 0) (Q : Answer A → S → Type 0)
      → (C → Meets quiet P m Q)
      → Meets quiet (λ s. C × P s) m Q
  Meets-fact C Q k = record { at = λ w c h. (k h.0).at w c h.1 }

  pub Meets-on_error :
      {m : Io S A} {k : StoreError → Io S A} (Q : Answer A → S → Type 0) (R : Answer A → S → Type 0)
      → Meets quiet P m Q
      → ((a : A) (s : S) → Q (done a) s → R (done a) s)
      → ((s : S) → Q crashed s → R crashed s)
      → ((e : StoreError) → Meets quiet (Q (failed e)) (k e) R)
      → Meets quiet P (on_error m k) R
  unfolding on_error
  Meets-on_error {m = m} {k = k} Q R km kd kc kk = record { at = λ w c h. go (m w) (km.at w c h) }
    where
      go :
          (r : Answer A × World S)
          → Allowed quiet r.1.faults × Q r.0 r.1.state
          → Allowed quiet (handled r.0 k r.1).1.faults
            × R (handled r.0 k r.1).0 (handled r.0 k r.1).1.state
      go (done a, w) h = (h.0, kd a w.state h.1)
      go (failed e, w) h = (kk e).at w h.0 h.1
      go (crashed, w) h = (h.0, kc w.state h.1)

  pub Meets-attempt :
      {m : Io S A} (Q : Answer A → S → Type 0) (R : Answer (Option A) → S → Type 0)
      → Meets quiet P m Q
      → ((a : A) (s : S) → Q (done a) s → R (done (some a)) s)
      → ((e : StoreError) (s : S) → Q (failed e) s → R (done none) s)
      → ((s : S) → Q crashed s → R crashed s)
      → Meets quiet P (attempt m) R
  unfolding attempt
  Meets-attempt {m = m} Q R km kd kf kc = record { at = λ w c h. go (m w) (km.at w c h) }
    where
      go :
          (r : Answer A × World S)
          → Allowed quiet r.1.faults × Q r.0 r.1.state
          → Allowed quiet (caught r.0 r.1).1.faults × R (caught r.0 r.1).0 (caught r.0 r.1).1.state
      go (done a, w) h = (h.0, kd a w.state h.1)
      go (failed e, w) h = (h.0, kf e w.state h.1)
      go (crashed, w) h = (h.0, kc w.state h.1)

module _ {S A B : Type 0} {quiet : Bool} {P : S → Type 0} where
  pub Meets-bind :
      {m : Io S A} {k : A → Io S B} (Q : Answer A → S → Type 0) (R : Answer B → S → Type 0)
      → Meets quiet P m Q
      → ((e : StoreError) (s : S) → Q (failed e) s → R (failed e) s)
      → ((s : S) → Q crashed s → R crashed s)
      → ((a : A) → Meets quiet (Q (done a)) (k a) R)
      → Meets quiet P (m >>= k) R
  unfolding ◌>>=◌
  Meets-bind {m = m} {k = k} Q R km kf kc kk = record { at = λ w c h. go (m w) (km.at w c h) }
    where
      go :
          (r : Answer A × World S)
          → Allowed quiet r.1.faults × Q r.0 r.1.state
          → Allowed quiet (continue r.0 k r.1).1.faults
            × R (continue r.0 k r.1).0 (continue r.0 k r.1).1.state
      go (done a, w) h = (kk a).at w h.0 h.1
      go (failed e, w) h = (h.0, kf e w.state h.1)
      go (crashed, w) h = (h.0, kc w.state h.1)

  pub Ends-bind :
      {m : Io S A} {k : A → Io S B} (Q : A → S → Type 0) (R : B → S → Type 0) (T : S → Type 0)
      → Meets quiet P m (Ends quiet Q T)
      → ((a : A) → Meets quiet (Q a) (k a) (Ends quiet R T))
      → Meets quiet P (m >>= k) (Ends quiet R T)
  Ends-bind Q R T km kk = Meets-bind (Ends quiet Q T) (Ends quiet R T) km (λ e s h. h) (λ s h. h) kk

module _ {S A B : Type 0} {quiet : Bool} {P : S → Type 0} where
  pub Stays-bind :
      {m : Io S A} {k : A → Io S B}
      → Meets quiet P m (Stays quiet P)
      → ((a : A) → Meets quiet P (k a) (Stays quiet P))
      → Meets quiet P (m >>= k) (Stays quiet P)
  Stays-bind km kk = Meets-bind (Stays quiet P) (Stays quiet P) km (λ e s h. h) (λ s h. h) kk

module _ {S A : Type 0} {quiet : Bool} {P : S → Type 0} where
  pub Stays-pure : (a : A) → Meets quiet P (pure a) (Stays quiet P)
  Stays-pure a = Meets-pure a (Stays quiet P) (λ s h. h)

  pub Stays-raise : (e : StoreError) → Meets quiet P (raise {A = A} e) (Stays quiet P)
  Stays-raise e = Meets-raise e (Stays quiet P) (λ s h. h)

  pub Stays-gets : (g : S → A) → Meets quiet P (gets g) (Stays quiet P)
  Stays-gets g = Meets-gets g (Stays quiet P) (λ s h. h)

  pub Stays-or_raise :
      (o : Option A) (e : StoreError) → Meets quiet P (or_raise o e) (Stays quiet P)
  unfolding or_raise
  Stays-or_raise none e = Stays-raise e
  Stays-or_raise (some a) e = Stays-pure a

  pub Ends-Stays :
      (T : S → Type 0) {m : Io S A}
      → ((s : S) → P s → T s)
      → Meets quiet P m (Ends quiet (λ _. P) P)
      → Meets quiet P m (Ends quiet (λ _. P) T)
  Ends-Stays T t km = Meets-weaken P (Ends quiet (λ _. P) T) km (λ s h. h) go
    where
      go : (r : Answer A) (s : S) → Ends quiet (λ _. P) P r s → Ends quiet (λ _. P) T r s
      go (done a) s h = h
      go (failed e) s h = (h.0, t s h.1)
      go crashed s h = (h.0, t s h.1)

module _ {S : Type 0} {quiet : Bool} {P : S → Type 0} where
  -- a call: where it does nothing, it ends with `P`
  pub Ends-call : Meets quiet P call (Ends quiet (λ _. P) P)
  unfolding call
  Ends-call = record { at = λ w c h. go quiet w.faults w.state c h }
    where
      go :
          (q : Bool) (fs : List Fault) (s : S)
          → Allowed q fs
          → P s
          → Allowed q (call (record { faults = fs; state = s })).1.faults
            × Ends q
                (λ _. P)
                P
                (call (record { faults = fs; state = s })).0
                (call (record { faults = fs; state = s })).1.state
      go q [] s c h = (c, h)
      go true (f ∷ fs) s c h = absurd (ground arith)
      go false (fine ∷ fs) s c h = (c, h)
      go false (fails n ∷ fs) s c h = (c.1, (refl, h))
      go false (crashes n ∷ fs) s c h = (c, (refl, h))

  pub Meets-write_call :
      (R : Answer Unit → S → Type 0) (all : S → S) (part : ℕ → S → S)
      → ((s : S) → P s → R (done tt) (all s))
      → ((s : S) → quiet ≡ false → P s → R (failed io_failed) (part 0 s))
      → ((n : ℕ) (s : S) → quiet ≡ false → P s → R crashed (part n s))
      → Meets quiet P (write_call all part) R
  unfolding write_call
  Meets-write_call R all part ha hf hc = record {
    at = λ w c h. go quiet w.faults w.state c h (λ s. hf s) (λ n s. hc n s);
  }
    where
      go :
          (q : Bool) (fs : List Fault) (s : S)
          → Allowed q fs
          → P s
          → ((s : S) → q ≡ false → P s → R (failed io_failed) (part 0 s))
          → ((n : ℕ) (s : S) → q ≡ false → P s → R crashed (part n s))
          → Allowed q (write_call all part (record { faults = fs; state = s })).1.faults
            × R
                (write_call all part (record { faults = fs; state = s })).0
                (write_call all part (record { faults = fs; state = s })).1.state
      go q [] s c h hf hc = (c, ha s h)
      go true (f ∷ fs) s c h hf hc = absurd (ground arith)
      go false (fine ∷ fs) s c h hf hc = (c, ha s h)
      go false (fails n ∷ fs) s c h hf hc =
          (c.1, subst (λ k. R (failed io_failed) (part k s)) (sym c.0) (hf s refl h))
      go false (crashes n ∷ fs) s c h hf hc = (c, hc n s refl h)

  pub Meets-modify :
      (g : S → S) (Q : Answer Unit → S → Type 0)
      → ((s : S) → P s → Q (done tt) (g s))
      → Meets quiet P (modify g) Q
  unfolding modify
  Meets-modify g Q q = record { at = λ w c h. (c, q w.state h) }

  pub Meets-when :
      (Q : Answer Unit → S → Type 0) (b : Bool) {m : Io S Unit}
      → Meets quiet P m Q
      → ((s : S) → P s → Q (done tt) s)
      → Meets quiet P (when b m) Q
  unfolding when
  Meets-when Q true km q = km
  Meets-when Q false km q = Meets-pure tt Q q

pub Meets-exists :
    {S A : Type 0} {quiet : Bool} {m : Io S A} {C : Type 0} {P' : C → S → Type 0}
    (Q : Answer A → S → Type 0)
    → ((c : C) → Meets quiet (P' c) m Q)
    → Meets quiet (λ s. (c : C) × P' c s) m Q
Meets-exists Q k = record { at = λ w c h. (k h.0).at w c h.1 }

-- a value, or an error
pub Meets-or_raise :
    {S A B : Type 0} {quiet : Bool} {P : S → Type 0} {k : A → Io S B} (R : Answer B → S → Type 0)
    (e : StoreError) (o : Option A)
    → (o ≡ none → (s : S) → P s → R (failed e) s)
    → ((a : A) → o ≡ some a → Meets quiet P (k a) R)
    → Meets quiet P (or_raise o e >>= k) R
unfolding or_raise raise pure ◌>>=◌
Meets-or_raise R e none hn hs = record { at = λ w c h. (c, hn refl w.state h) }
Meets-or_raise R e (some a) hn hs = record { at = λ w c h. (hs a refl).at w c h }

-- what is done because its condition is known to hold
pub Meets-when-true :
    {S : Type 0} {quiet : Bool} {P : S → Type 0} (Q : Answer Unit → S → Type 0) (b : Bool)
    {m : Io S Unit}
    → Meets quiet P m Q
    → Meets quiet (λ s. (b ≡ true) × P s) (when b m) Q
unfolding when
Meets-when-true Q true h = Meets-fact (true ≡ true) Q (λ _. h)
Meets-when-true Q false h = Meets-fact (false ≡ true) Q (λ e. absurd (ground arith))
