-- ===== src/Prelude/Assoc.antt =====
-- Go's maps as association lists over keys with a decidable equality. The order of the list stands
-- for the order in which `range` meets the entries; the laws are in terms of `lookup`.
use Prim.Native.Nat.{suc, ◌+◌}
use mathlib.Core.Path.{◌≡◌, refl, ap, subst}
use mathlib.Core.Logic.{◌≢◌, ◌⊎◌, inl, inr, ite, if_pos, if_neg}
use mathlib.Core.List.{List, [], ◌∷◌, map}
use mathlib.Core.Option.{Option, none, some}
use native.Mathlib.Omega.{arith}
use mathlib.Core.Bool.{Bool}
use qubicdb.Prelude.Tests.{if◌then◌else◌, Bool-cases}
use qubicdb.Prelude.Lists.{length}

module _ {ℓ} {K V : Type ℓ} (dec : Discrete K) where
  -- `v, ok := m[k]`
  unfoldable pub lookup : K → List (K × V) → Option V
  lookup k [] = none
  lookup k ((j, v) ∷ m) = ite (dec j k) (some v) (lookup k m)

  -- `m[k] = v`
  unfoldable pub insert : K → V → List (K × V) → List (K × V)
  insert k v [] = (k, v) ∷ []
  insert k v ((j, w) ∷ m) = ite (dec j k) ((k, v) ∷ m) ((j, w) ∷ insert k v m)

  -- `delete(m, k)`
  unfoldable pub delete : K → List (K × V) → List (K × V)
  delete k [] = []
  delete k ((j, w) ∷ m) = let rest = delete k m in ite (dec j k) rest ((j, w) ∷ rest)

  pub lookup-insert :
      (k j : K) (v : V) (m : List (K × V))
      → lookup j (insert k v m) ≡ ite (dec k j) (some v) (lookup j m)
  unfolding lookup insert
  lookup-insert k j v [] = refl
  lookup-insert k j v ((i, w) ∷ m) = ground (arith, lookup-insert k j v m)

  pub lookup-delete :
      (k j : K) (m : List (K × V)) → lookup j (delete k m) ≡ ite (dec k j) none (lookup j m)
  unfolding lookup delete
  lookup-delete k j [] = ground arith
  lookup-delete k j ((i, w) ∷ m) = ground (arith, lookup-delete k j m)

  pub lookup-insert_self : (k : K) (v : V) (m : List (K × V)) → lookup k (insert k v m) ≡ some v
  lookup-insert_self k v m = ground (arith, lookup-insert k k v m)

  pub lookup-insert_ne :
      (k j : K) (v : V) (m : List (K × V)) → k ≢ j → lookup j (insert k v m) ≡ lookup j m
  lookup-insert_ne k j v m h = ground (arith, lookup-insert k j v m)

  pub lookup-delete_self : (k : K) (m : List (K × V)) → lookup k (delete k m) ≡ none
  lookup-delete_self k m = ground (arith, lookup-delete k k m)

  pub lookup-delete_ne : (k j : K) (m : List (K × V)) → k ≢ j → lookup j (delete k m) ≡ lookup j m
  lookup-delete_ne k j m h = ground (arith, lookup-delete k j m)

  -- the cases of a read after a write
  pub lookup-insert_cases :
      (k j : K) (v : V) (m : List (K × V)) {u : V}
      → lookup j (insert k v m) ≡ some u
      → ((k ≡ j) × (v ≡ u)) ⊎ ((k ≢ j) × (lookup j m ≡ some u))
  lookup-insert_cases k j v m h = ground (arith, lookup-insert k j v m)

  pub lookup-insert-none :
      (k j : K) (v : V) (m : List (K × V))
      → lookup j (insert k v m) ≡ none
      → (k ≢ j) × (lookup j m ≡ none)
  lookup-insert-none k j v m h = ground (arith, lookup-insert k j v m)

  pub lookup-delete-some :
      (k j : K) (m : List (K × V)) {u : V}
      → lookup j (delete k m) ≡ some u
      → (k ≢ j) × (lookup j m ≡ some u)
  lookup-delete-some k j m h = ground (arith, lookup-delete k j m)

  pub lookup-delete-none :
      (k j : K) (m : List (K × V))
      → lookup j (delete k m) ≡ none
      → (k ≡ j) ⊎ ((k ≢ j) × (lookup j m ≡ none))
  lookup-delete-none k j m h = ground (arith, lookup-delete k j m)

  pub delete_absent : (k : K) (m : List (K × V)) → lookup k m ≡ none → delete k m ≡ m
  unfolding lookup delete
  delete_absent k [] h = refl
  delete_absent k ((i, w) ∷ m) h = ground (arith, delete_absent k m)

  -- an entry that is added and taken away again leaves no trace
  pub delete-insert :
      (k : K) (v : V) (m : List (K × V)) → lookup k m ≡ none → delete k (insert k v m) ≡ m
  unfolding lookup insert delete
  delete-insert k v [] h = ground arith
  delete-insert k v ((i, w) ∷ m) h = ground (arith, delete-insert k v m)

  -- no key twice
  abbrev pub Unique : List (K × V) → Type ℓ
  Unique [] = Unit
  Unique ((k, v) ∷ m) = (lookup k m ≡ none) × Unique m

  pub insert-Unique : (k : K) (v : V) (m : List (K × V)) → Unique m → Unique (insert k v m)
  unfolding lookup insert
  insert-Unique k v [] u = (refl, tt)
  insert-Unique k v ((i, w) ∷ m) u = ground (arith, insert-Unique k v m, lookup-insert k i v m)

  pub delete-Unique : (k : K) (m : List (K × V)) → Unique m → Unique (delete k m)
  unfolding delete
  delete-Unique k [] u = tt
  delete-Unique k ((i, w) ∷ m) u = ground (arith, delete-Unique k m, lookup-delete k i m)

  pub length-insert :
      (k : K) (v : V) (m : List (K × V))
      → length (insert k v m) ≡ elim (lookup k m) [ none ↦ length m + 1 | some _ ↦ length m ]
  unfolding lookup insert
  length-insert k v [] = omega arith
  length-insert k v ((i, w) ∷ m) = ground (arith, length-insert k v m)

  pub length-delete :
      (k : K) (m : List (K × V))
      → Unique m
      → length m ≡ elim (lookup k m) [ none ↦ 0 | some _ ↦ 1 ] + length (delete k m)
  unfolding lookup delete
  length-delete k [] u = omega arith
  length-delete k ((i, w) ∷ m) u = ground (arith, length-delete k m, delete_absent k m)

module _ {ℓ} {K V : Type ℓ} where
  -- a change of every value, `for _, v := range m { v.f() }`
  unfoldable pub map_values : (V → V) → List (K × V) → List (K × V)
  map_values f [] = []
  map_values f ((k, v) ∷ m) = (k, f v) ∷ map_values f m

  -- `for k, v := range m { if !p(v) { delete(m, k) } }`
  unfoldable pub select_values : (V → Bool) → List (K × V) → List (K × V)
  select_values p [] = []
  select_values p ((k, v) ∷ m) = let rest = select_values p m in if p v then (k, v) ∷ rest else rest

  pub length-map_values : (f : V → V) (m : List (K × V)) → length (map_values f m) ≡ length m
  unfolding map_values
  length-map_values f [] = refl
  length-map_values f ((k, v) ∷ m) = ap suc (length-map_values f m)

module _ {ℓ} {K V : Type ℓ} (dec : Discrete K) where
  pub lookup-map_values :
      (f : V → V) (m : List (K × V)) (k : K)
      → lookup dec k (map_values f m) ≡ elim (lookup dec k m) [ none ↦ none | some v ↦ some (f v) ]
  unfolding lookup map_values
  lookup-map_values f [] k = refl
  lookup-map_values f ((j, v) ∷ m) k = ground (arith, lookup-map_values f m k)

  pub map_values-Unique :
      (f : V → V) (m : List (K × V)) → Unique dec m → Unique dec (map_values f m)
  unfolding map_values
  map_values-Unique f [] u = tt
  map_values-Unique f ((j, v) ∷ m) u =
      ground (arith, map_values-Unique f m u.1, lookup-map_values f m j)

  pub lookup-select_values :
      (p : V → Bool) (m : List (K × V)) (k : K)
      → Unique dec m
      → lookup dec k (select_values p m)
        ≡ elim (lookup dec k m) [ none ↦ none | some v ↦ if p v then some v else none ]
  unfolding lookup select_values
  lookup-select_values p [] k u = refl
  lookup-select_values p ((j, v) ∷ m) k u = ground (arith, lookup-select_values p m k u.1)

  pub select_values-Unique :
      (p : V → Bool) (m : List (K × V)) → Unique dec m → Unique dec (select_values p m)
  unfolding select_values
  select_values-Unique p [] u = tt
  select_values-Unique p ((j, v) ∷ m) u =
      ground (arith, select_values-Unique p m u.1, lookup-select_values p m j u.1)

-- what holds of every entry
abbrev pub AllEntries {ℓ κ} : {K V : Type ℓ} → (K → V → Type κ) → List (K × V) → Type κ
AllEntries P [] = Unit
AllEntries P ((k, v) ∷ m) = P k v × AllEntries P m

module _ {ℓ} {K V : Type ℓ} (dec : Discrete K) (P : K → V → Type ℓ) where
  pub AllEntries-lookup :
      (m : List (K × V)) (k : K) (v : V) → AllEntries P m → lookup dec k m ≡ some v → P k v
  unfolding lookup
  AllEntries-lookup [] k v a h = absurd (ground arith)
  AllEntries-lookup ((j, w) ∷ m) k v a h = elim (dec j k) [
    | yes e ↦ let same : w ≡ v = ground arith in subst (λ x. P x v) e (subst (P j) same a.0)
    | no ne ↦ AllEntries-lookup m k v a.1 (ground arith)
  ]

  pub AllEntries-insert :
      (m : List (K × V)) (k : K) (v : V) → AllEntries P m → P k v → AllEntries P (insert dec k v m)
  unfolding insert
  AllEntries-insert [] k v a p = (p, tt)
  AllEntries-insert ((j, w) ∷ m) k v a p = elim (dec j k) [
    | yes e ↦ rw (if_pos (dec j k) e _ _) (p, a.1)
    | no ne ↦ rw (if_neg (dec j k) ne _ _) (a.0, AllEntries-insert m k v a.1 p)
  ]

  pub AllEntries-delete :
      (m : List (K × V)) (k : K) → AllEntries P m → AllEntries P (delete dec k m)
  unfolding delete
  AllEntries-delete [] k a = tt
  AllEntries-delete ((j, w) ∷ m) k a = elim (dec j k) [
    | yes e ↦ rw (if_pos (dec j k) e _ _) (AllEntries-delete m k a.1)
    | no ne ↦ rw (if_neg (dec j k) ne _ _) (a.0, AllEntries-delete m k a.1)
  ]

module _ {ℓ} {K V : Type ℓ} (P : K → V → Type ℓ) where
  pub AllEntries-map_values :
      (Q : K → V → Type ℓ) (f : V → V) (m : List (K × V))
      → ((k : K) (v : V) → P k v → Q k (f v))
      → AllEntries P m
      → AllEntries Q (map_values f m)
  unfolding map_values
  AllEntries-map_values Q f [] keep a = tt
  AllEntries-map_values Q f ((k, v) ∷ m) keep a =
      (keep k v a.0, AllEntries-map_values Q f m keep a.1)

  pub AllEntries-select_values :
      (p : V → Bool) (m : List (K × V)) → AllEntries P m → AllEntries P (select_values p m)
  unfolding select_values
  AllEntries-select_values p [] a = tt
  AllEntries-select_values p ((k, v) ∷ m) a = elim (Bool-cases (p v)) [
    | inl h ↦ rw h (a.0, AllEntries-select_values p m a.1)
    | inr h ↦ rw h (AllEntries-select_values p m a.1)
  ]

pub AllEntries-imp :
    {K V : Type 0} (P Q : K → V → Type 0) (m : List (K × V))
    → ((k : K) (v : V) → P k v → Q k v)
    → AllEntries P m
    → AllEntries Q m
AllEntries-imp P Q [] h a = tt
AllEntries-imp P Q ((k, v) ∷ m) h a = (h k v a.0, AllEntries-imp P Q m h a.1)

unfoldable pub keys {ℓ κ} : {K : Type ℓ} {V : Type κ} → List (K × V) → List K
keys = map (λ e. e.0)
