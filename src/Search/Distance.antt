-- ===== src/Search/Distance.antt =====
-- The edit distance of a search (pkg/engine/search.go, levenshteinDistance), and that it is the least cost of
-- any way to edit one text into the other. A row of the table is a list.
use mathlib.Core.List.{append-nil}
use qubicdb.Prelude.{
  ℕ, suc, ◌+◌, ◌≤◌, ◌<◌, ◌≡◌, refl, sym, ap, ◌∙◌, subst, List, [], ◌∷◌, ◌++◌, Text, length, ltb,
  ◌==◌, if◌then◌else◌, arith, Bool-cases, inl, inr,
}

-- the conversions of Go's strings and of package unicode
pub record Runes : Type 0 where
  pub runes : Text → List ℕ
  pub lower_rune : ℕ → ℕ

unfoldable pub min_int : ℕ → ℕ → ℕ → ℕ
min_int a b c = if ltb a b then (if ltb a c then a else c) else (if ltb b c then b else c)

module _ (lib : Runes) where
  abbrev pub cost : ℕ → ℕ → ℕ
  cost x y = if lib.lower_rune x == lib.lower_rune y then 0 else 1

  -- The rest of a row, for the rune `x` and the runes `b`: `left` stands to the left, the other list is the row above
  -- from the cell above `left` on.
  unfoldable pub fill_row : ℕ → List ℕ → ℕ → List ℕ → List ℕ
  unfolding min_int
  fill_row x (y ∷ b) left (diagonal ∷ above ∷ row) =
      let v = min_int (above + 1) (left + 1) (diagonal + cost x y) in
      v ∷ fill_row x b v (above ∷ row)
  fill_row x b left row = []

  -- the row of the empty prefix
  unfoldable pub first_row : ℕ → List ℕ → List ℕ
  first_row j [] = j ∷ []
  first_row j (y ∷ b) = j ∷ first_row (suc j) b

  abbrev pub last_of : ℕ → List ℕ → ℕ
  last_of v [] = v
  last_of v (w ∷ row) = last_of w row

  -- the rows from the `i`-th on, and the last cell
  unfoldable pub fill_rows : List ℕ → List ℕ → ℕ → List ℕ → ℕ
  unfolding fill_row
  fill_rows [] b i row = last_of 0 row
  fill_rows (x ∷ a) b i row = fill_rows a b (suc i) (suc i ∷ fill_row x b (suc i) row)

  unfoldable pub levenshtein_distance : Text → Text → ℕ
  unfolding fill_rows first_row
  levenshtein_distance a b =
      if length a == 0
      then length b
      else if length b == 0
      then length a
      else fill_rows (lib.runes a) (lib.runes b) 0 (first_row 0 (lib.runes b))

  -- A way to edit one list of runes into another, with its cost.
  pub data Edits : List ℕ → List ℕ → ℕ → Type 0 where
    nothing : Edits [] [] 0
    deletion : (x : ℕ) {a b : List ℕ} {n : ℕ} → Edits a b n → Edits (x ∷ a) b (suc n)
    insertion : (y : ℕ) {a b : List ℕ} {n : ℕ} → Edits a b n → Edits a (y ∷ b) (suc n)
    substitution :
        (x y : ℕ) {a b : List ℕ} {n : ℕ} → Edits a b n → Edits (x ∷ a) (y ∷ b) (cost x y + n)

  -- the distance by recursion on both lists
  unfoldable edit : List ℕ → List ℕ → ℕ
  unfolding min_int
  edit [] b = length b
  edit (x ∷ a) [] = suc (length a)
  edit (x ∷ a) (y ∷ b) = min_int (edit a (y ∷ b) + 1) (edit (x ∷ a) b + 1) (edit a b + cost x y)

  all_inserted : (b : List ℕ) → Edits [] b (length b)
  all_inserted [] = nothing
  all_inserted (y ∷ b) = insertion y (all_inserted b)

  all_deleted : (a : List ℕ) → Edits a [] (length a)
  all_deleted [] = nothing
  all_deleted (x ∷ a) = deletion x (all_deleted a)

  min_int-cases : (P : ℕ → Type 0) (a b c : ℕ) → P a → P b → P c → P (min_int a b c)
  unfolding min_int
  min_int-cases P a b c p q r = elim (Bool-cases (ltb a b)) [
    | inl h ↦ rw h (elim (Bool-cases (ltb a c)) [ inl k ↦ rw k p | inr k ↦ rw k r ])
    | inr h ↦ rw h (elim (Bool-cases (ltb b c)) [ inl k ↦ rw k q | inr k ↦ rw k r ])
  ]

  edit-Edits : (a b : List ℕ) → Edits a b (edit a b)
  unfolding edit
  edit-Edits [] b = all_inserted b
  edit-Edits (x ∷ a) [] = all_deleted (x ∷ a)
  edit-Edits (x ∷ a) (y ∷ b) =
      let e1 : suc (edit a (y ∷ b)) ≡ edit a (y ∷ b) + 1 = omega arith in
      let e2 : suc (edit (x ∷ a) b) ≡ edit (x ∷ a) b + 1 = omega arith in
      let e3 : cost x y + edit a b ≡ edit a b + cost x y = omega arith in
      min_int-cases (Edits (x ∷ a) (y ∷ b)) _ _ _
        (subst (Edits (x ∷ a) (y ∷ b)) e1 (deletion x (edit-Edits a (y ∷ b))))
        (subst (Edits (x ∷ a) (y ∷ b)) e2 (insertion y (edit-Edits (x ∷ a) b)))
        (subst (Edits (x ∷ a) (y ∷ b)) e3 (substitution x y (edit-Edits a b)))

  edit-deletion : (x : ℕ) (a b : List ℕ) → edit (x ∷ a) b ≤ suc (edit a b)
  unfolding edit min_int
  edit-deletion x [] [] = ground arith
  edit-deletion x (z ∷ a) [] = ground arith
  edit-deletion x a (y ∷ b) = ground arith

  edit-insertion : (y : ℕ) (a b : List ℕ) → edit a (y ∷ b) ≤ suc (edit a b)
  unfolding edit min_int
  edit-insertion y [] b = ground arith
  edit-insertion y (x ∷ a) b = ground arith

  edit-least : {a b : List ℕ} {n : ℕ} → Edits a b n → edit a b ≤ n
  unfolding edit min_int
  edit-least nothing = ground arith
  edit-least (deletion x {a = a} {b = b} s) = ground (arith, edit-deletion x a b, edit-least s)
  edit-least (insertion y {a = a} {b = b} s) = ground (arith, edit-insertion y a b, edit-least s)
  edit-least (substitution x y {a = a} {b = b} s) = ground (arith, edit-least s)

  -- a row of the table, from the prefix `rb` on; prefixes are written backwards
  row_tail : List ℕ → List ℕ → List ℕ → List ℕ
  row_tail ra rb [] = []
  row_tail ra rb (y ∷ b) = edit ra (y ∷ rb) ∷ row_tail ra (y ∷ rb) b

  fill_row-row_tail :
      (x : ℕ) (ra rb b : List ℕ)
      → fill_row x b (edit (x ∷ ra) rb) (edit ra rb ∷ row_tail ra rb b) ≡ row_tail (x ∷ ra) rb b
  unfolding fill_row row_tail edit
  fill_row-row_tail x ra rb [] = refl
  fill_row-row_tail x ra rb (y ∷ b) =
      ap (edit (x ∷ ra) (y ∷ rb) ∷◌) (fill_row-row_tail x ra (y ∷ rb) b)

  first_row-row_tail : (rb b : List ℕ) → first_row (length rb) b ≡ length rb ∷ row_tail [] rb b
  unfolding first_row row_tail edit
  first_row-row_tail rb [] = refl
  first_row-row_tail rb (y ∷ b) = ap (length rb ∷◌) (first_row-row_tail (y ∷ rb) b)

  -- the elements of the first list backwards, in front of the second
  abbrev rev_onto : List ℕ → List ℕ → List ℕ
  rev_onto [] l = l
  rev_onto (x ∷ a) l = rev_onto a (x ∷ l)

  last_of-row_tail :
      (ra rb b : List ℕ) → last_of (edit ra rb) (row_tail ra rb b) ≡ edit ra (rev_onto b rb)
  unfolding row_tail
  last_of-row_tail ra rb [] = refl
  last_of-row_tail ra rb (y ∷ b) = last_of-row_tail ra (y ∷ rb) b

  edit-nil : (ra : List ℕ) → edit ra [] ≡ length ra
  unfolding edit
  edit-nil [] = refl
  edit-nil (x ∷ ra) = refl

  fill_rows-edit :
      (a b ra : List ℕ)
      → fill_rows a b (length ra) (length ra ∷ row_tail ra [] b)
        ≡ edit (rev_onto a ra) (rev_onto b [])
  unfolding fill_rows
  fill_rows-edit [] b ra =
      ap (λ v. last_of v (row_tail ra [] b)) (sym (edit-nil ra)) ∙ last_of-row_tail ra [] b
  fill_rows-edit (x ∷ a) b ra =
      ap (λ row. fill_rows a b (suc (length ra)) (suc (length ra) ∷ row))
        (ap (λ v. fill_row x b (suc (length ra)) (v ∷ row_tail ra [] b)) (sym (edit-nil ra))
          ∙ ap (λ v. fill_row x b v (edit ra [] ∷ row_tail ra [] b)) (sym (edit-nil (x ∷ ra)))
          ∙ fill_row-row_tail x ra [] b)
      ∙ fill_rows-edit a b (x ∷ ra)

  Edits-rev_onto :
      {a b c d : List ℕ} {n k : ℕ}
      → Edits a b n
      → Edits c d k
      → Edits (rev_onto a c) (rev_onto b d) (n + k)
  Edits-rev_onto {c = c} {d = d} {k = k} nothing t =
      let e : k ≡ 0 + k = omega arith in subst (Edits c d) e t
  Edits-rev_onto {a = _} {b = b'} {c = c} {d = d} {k = k} (deletion x {a = a} {n = n} s) t =
      let e : n + suc k ≡ suc n + k = omega arith in
      subst (Edits (rev_onto (x ∷ a) c) (rev_onto b' d)) e (Edits-rev_onto s (deletion x t))
  Edits-rev_onto {a = a'} {b = _} {c = c} {d = d} {k = k} (insertion y {b = b} {n = n} s) t =
      let e : n + suc k ≡ suc n + k = omega arith in
      subst (Edits (rev_onto a' c) (rev_onto (y ∷ b) d)) e (Edits-rev_onto s (insertion y t))
  Edits-rev_onto {c = c} {d = d} {k = k} (substitution x y {a = a} {b = b} {n = n} s) t =
      let e : n + (cost x y + k) ≡ cost x y + n + k = omega arith in
      subst (Edits (rev_onto (x ∷ a) c) (rev_onto (y ∷ b) d)) e
        (Edits-rev_onto s (substitution x y t))

  rev_onto-rev_onto : (a c d : List ℕ) → rev_onto (rev_onto a c) d ≡ rev_onto c (a ++ d)
  rev_onto-rev_onto [] c d = refl
  rev_onto-rev_onto (x ∷ a) c d = rev_onto-rev_onto a (x ∷ c) d

  -- Backwards, the costs are the same.
  Edits-reverse : {a b : List ℕ} {n : ℕ} → Edits a b n → Edits (rev_onto a []) (rev_onto b []) n
  Edits-reverse {a = a} {b = b} {n = n} s =
      let e : n + 0 ≡ n = omega arith in
      subst (Edits (rev_onto a []) (rev_onto b [])) e (Edits-rev_onto s nothing)

  Edits-reversed : (a b : List ℕ) (n : ℕ) → Edits (rev_onto a []) (rev_onto b []) n → Edits a b n
  Edits-reversed a b n s =
      let back : (l : List ℕ) → rev_onto (rev_onto l []) [] ≡ l =
        λ l. rev_onto-rev_onto l [] [] ∙ append-nil l in
      subst (λ l. Edits l b n) (back a)
        (subst (λ l. Edits (rev_onto (rev_onto a []) []) l n) (back b) (Edits-reverse s))

  -- The edit distance of two texts that are not empty is the least cost of editing the runes of the
  -- first into those of the second, by deletions and insertions at cost 1 and substitutions at cost
  -- 1, or 0 where two runes are the same in lower case.
  pub levenshtein_distance-Edits :
      (a b : Text)
      → 0 < length a
      → 0 < length b
      → Edits (lib.runes a) (lib.runes b) (levenshtein_distance a b)
        × ((n : ℕ) → Edits (lib.runes a) (lib.runes b) n → levenshtein_distance a b ≤ n)
  unfolding levenshtein_distance
  levenshtein_distance-Edits a b pa pb =
      let ra = lib.runes a in
      let rb = lib.runes b in
      let table : fill_rows ra rb 0 (first_row 0 rb) ≡ edit (rev_onto ra []) (rev_onto rb []) =
        ap (fill_rows ra rb 0) (first_row-row_tail [] rb) ∙ fill_rows-edit ra rb [] in
      let same : levenshtein_distance a b ≡ edit (rev_onto ra []) (rev_onto rb []) =
        ground (arith, table) in
      (
        rw same (Edits-reversed ra rb _ (edit-Edits (rev_onto ra []) (rev_onto rb []))),
        λ n s. rw same (edit-least (Edits-reverse s)),
      )
