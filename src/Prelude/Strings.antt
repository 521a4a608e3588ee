-- ===== src/Prelude/Strings.antt =====
-- Go strings as lists of bytes.
use Prim.Native.Nat.{ℕ}
use Prim.Native.Char.{code}
use Prim.Native.String.{String}
use native.Mathlib.Decide.{ℕ_discrete}
use mathlib.Core.List.{List, [], ◌∷◌}
use mathlib.Core.Path.{◌≡◌, refl, ap₂}
use mathlib.Core.Logic.{◌≢◌, ◌↔◌}
use mathlib.Core.Bool.{Bool, true, false, ◌||◌}
use native.Mathlib.Omega.{arith}

abbrev pub Text : Type 0
Text = List ℕ

head_differs : (a b : ℕ) (s t : Text) → a ≢ b → a ∷ s ≢ b ∷ t
head_differs a b s t h e = h (cc)

tail_differs : (a b : ℕ) (s t : Text) → s ≢ t → a ∷ s ≢ b ∷ t
tail_differs a b s t h e = h (cc)

nil_differs : (a : ℕ) (s : Text) → [] ≢ a ∷ s
nil_differs a s e = cc

cons_differs : (a : ℕ) (s : Text) → a ∷ s ≢ []
cons_differs a s e = cc

unfoldable pub text_discrete : Discrete Text
unfolding ℕ_discrete head_differs tail_differs nil_differs cons_differs
text_discrete [] [] = yes refl
text_discrete [] (b ∷ t) = no (nil_differs b t)
text_discrete (a ∷ s) [] = no (cons_differs a s)
text_discrete (a ∷ s) (b ∷ t) = elim (ℕ_discrete a b) [
  | no h ↦ no (head_differs a b s t h)
  | yes p ↦ elim (text_discrete s t) [
    | no h ↦ no (tail_differs a b s t h)
    | yes q ↦ yes (ap₂ ◌∷◌ p q)
  ]
]

-- `==` on strings
unfoldable pub text_eq : Text → Text → Bool
unfolding text_discrete
text_eq a b = elim (text_discrete a b) [ yes _ ↦ true | no _ ↦ false ]

pub text_eq_iff : (a b : Text) → (text_eq a b ≡ true) ↔ (a ≡ b)
unfolding text_eq
text_eq_iff a b = ground arith

pub text_eq-false : (a b : Text) → a ≢ b → text_eq a b ≡ false
unfolding text_eq
text_eq-false a b h = ground arith

-- the bytes of an ASCII literal
abbrev pub bytes : String → Text
bytes String.[] = []
bytes (String.◌∷◌ c s) = code c ∷ bytes s

-- `w` occurs in the list
unfoldable pub mentions : Text → List Text → Bool
mentions w [] = false
mentions w (v ∷ l) = text_eq v w || mentions w l
