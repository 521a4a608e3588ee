-- ===== src/Persistence/Io.antt =====
-- Effects of the store (pkg/persistence/store.go): calls of the file system that may fail, and a process
-- that may be killed at any of them. What was done before an error or a crash stays done.
pub mod Rules
pub mod Steady
use qubicdb.Prelude.{ℕ, Bool, true, false, Option, none, some, List, [], ◌∷◌}

-- What the file system does at one call. Of a write, the number of bytes that reach the file.
pub data Fault : Type 0 where
  fine : Fault
  fails : ℕ → Fault
  crashes : ℕ → Fault

pub data StoreError : Type 0 where
  io_failed not_exist encode_failed decode_failed matrix_not_found : StoreError

pub data Answer {ℓ} (A : Type ℓ) : Type ℓ where
  done : A → Answer A
  failed : StoreError → Answer A
  crashed : Answer A

-- The state, and what the calls to come will do; where the list ends, they are all fine.
pub record World {ℓ} (S : Type ℓ) : Type ℓ where
  pub faults : List Fault
  pub state : S

abbrev pub Io {ℓ} : Type ℓ → Type ℓ → Type ℓ
Io S A = World S → Answer A × World S

module _ {ℓ} {S A : Type ℓ} where
  unfoldable pub pure : A → Io S A
  pure a w = (done a, w)

  unfoldable pub raise : StoreError → Io S A
  raise e w = (failed e, w)

  unfoldable pub crash : Io S A
  crash w = (crashed, w)

  unfoldable pub gets : (S → A) → Io S A
  gets g w = (done (g w.state), w)

  unfoldable pub or_raise : Option A → StoreError → Io S A
  unfolding pure raise
  or_raise none e = raise e
  or_raise (some a) e = pure a

module _ {ℓ} {S A B : Type ℓ} where
  abbrev pub continue : Answer A → (A → Io S B) → Io S B
  continue (done a) f w = f a w
  continue (failed e) f w = (failed e, w)
  continue crashed f w = (crashed, w)

  infixl 10 ◌>>=◌ ◌>>◌
  unfoldable pub ◌>>=◌ : Io S A → (A → Io S B) → Io S B
  ◌>>=◌ m f w = let (r, w') = m w in continue r f w'

  abbrev pub ◌>>◌ : Io S A → Io S B → Io S B
  m >> n = m >>= λ _. n

module _ {S : Type 0} where
  unfoldable pub modify : (S → S) → Io S Unit
  modify g w = (done tt, record w { state = g w.state })

  -- one call of the file system that has no effect of its own on the state
  unfoldable pub call : Io S Unit
  call w = elim w.faults [
    | [] ↦ (done tt, w)
    | fine ∷ fs ↦ (done tt, record w { faults = fs })
    | fails _ ∷ fs ↦ (failed io_failed, record w { faults = fs })
    | crashes _ ∷ fs ↦ (crashed, record w { faults = fs })
  ]

  -- A write, of which `all` says what it does in full and `part n` what its first `n` bytes do.
  unfoldable pub write_call : (S → S) → (ℕ → S → S) → Io S Unit
  write_call all part w = elim w.faults [
    | [] ↦ (done tt, record w { state = all w.state })
    | fine ∷ fs ↦ (done tt, record { faults = fs; state = all w.state })
    | fails n ∷ fs ↦ (failed io_failed, record { faults = fs; state = part n w.state })
    | crashes n ∷ fs ↦ (crashed, record { faults = fs; state = part n w.state })
  ]

  unfoldable pub when : Bool → Io S Unit → Io S Unit
  unfolding pure
  when true m = m
  when false m = pure tt

module _ {S A : Type 0} where
  abbrev pub caught : Answer A → World S → Answer (Option A) × World S
  caught (done a) w = (done (some a), w)
  caught (failed e) w = (done none, w)
  caught crashed w = (crashed, w)

  -- An error is dropped, a crash is not.
  unfoldable pub attempt : Io S A → Io S (Option A)
  attempt m w = let (r, w') = m w in caught r w'

  abbrev pub handled : Answer A → (StoreError → Io S A) → World S → Answer A × World S
  handled (done a) h w = (done a, w)
  handled (failed e) h w = h e w
  handled crashed h w = (crashed, w)

  -- `if err != nil { … }`
  unfoldable pub on_error : Io S A → (StoreError → Io S A) → Io S A
  on_error m h w = let (r, w') = m w in handled r h w'
