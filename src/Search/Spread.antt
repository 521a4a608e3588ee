-- ===== src/Search/Spread.antt =====
-- What the spread of a search returns (pkg/engine/search.go).
use qubicdb.Prelude.{
  ℕ, zero, suc, ◌≡◌, refl, sym, subst, ap, ◌∙◌, true, false, ◌||◌, List, [], ◌∷◌, ◌++◌, Text,
  text_discrete, text_eq, mentions, is_some, arith, Bool-cases, Option-cases, inl, inr, All,
}
use qubicdb.Prelude.Assoc.{lookup}
use qubicdb.Core.Float.{Float}
use qubicdb.Core.Matrix.{Matrix}
use qubicdb.Search.{
  SearchResult, visit, visit_all, connected, expand_level, spread_levels, spread_score,
  place_result, sort_results, ids, spread_activation,
}

module _ {F : Type 0} (f : Float F) where
  -- no neuron twice
  abbrev pub Once : List (SearchResult F) → Type 0
  Once [] = Unit
  Once (r ∷ l) = (mentions r.neuron_id (ids f l) ≡ false) × Once l

  -- every neuron is in the matrix
  abbrev pub Known : Matrix F → List (SearchResult F) → Type 0
  Known m = All (λ r. is_some (lookup text_discrete r.neuron_id m.neurons) ≡ true)

  mentions-ids-append :
      (w : Text) (l k : List (SearchResult F))
      → mentions w (ids f (l ++ k)) ≡ (mentions w (ids f l) || mentions w (ids f k))
  unfolding mentions
  mentions-ids-append w [] k = refl
  mentions-ids-append w (r ∷ l) k = ground (arith, mentions-ids-append w l k)

  append-Once :
      (l : List (SearchResult F)) (r : SearchResult F)
      → Once l
      → mentions r.neuron_id (ids f l) ≡ false
      → Once (l ++ (r ∷ []))
  unfolding mentions text_eq
  append-Once [] r o new = (refl, tt)
  append-Once (s ∷ l) r o new = (
    mentions-ids-append s.neuron_id l (r ∷ []) ∙ ground arith,
    append-Once l r o.1 (ground arith),
  )

  append-Known :
      (m : Matrix F) (l k : List (SearchResult F)) → Known m l → Known m k → Known m (l ++ k)
  append-Known m [] k a b = b
  append-Known m (r ∷ l) k a b = (a.0, append-Known m l k a.1 b)

  append-nil : (l : List (SearchResult F)) → l ++ [] ≡ l
  append-nil [] = refl
  append-nil (r ∷ l) = ap (◌∷◌ r) (append-nil l)

  append_assoc : (l k j : List (SearchResult F)) → (l ++ k) ++ j ≡ l ++ (k ++ j)
  append_assoc [] k j = refl
  append_assoc (r ∷ l) k j = ap (◌∷◌ r) (append_assoc l k j)

  -- the results so far and those of this level: no neuron twice, all known, all seen
  record Spreads (m : Matrix F) (results : List (SearchResult F))
      (st : List Text × List (SearchResult F)) : Type 0 where
    once : Once (results ++ st.1)
    known : Known m (results ++ st.1)
    seen : (j : Text) → mentions j (ids f (results ++ st.1)) ≡ true → mentions j st.0 ≡ true

  -- one more neuron
  grow :
      (m : Matrix F) (c : Text) (score : F) (results : List (SearchResult F)) (seen : List Text)
      (next : List (SearchResult F))
      → Spreads m results (seen, next)
      → mentions c seen ≡ false
      → is_some (lookup text_discrete c m.neurons) ≡ true
      → Spreads m results (c ∷ seen, next ++ ((record { neuron_id = c; score = score }) ∷ []))
  unfolding mentions
  grow m c score results seen next v new there =
      let r : SearchResult F = record { neuron_id = c; score = score } in
      let unmet : mentions c (ids f (results ++ next)) ≡ false =
        elim (Bool-cases (mentions c (ids f (results ++ next)))) [
          | inl met ↦ absurd (ground (arith, v.seen c met))
          | inr h ↦ h
        ] in
      let e : (results ++ next) ++ (r ∷ []) ≡ results ++ (next ++ (r ∷ [])) =
        append_assoc results next (r ∷ []) in
      record {
        once = subst Once e (append-Once (results ++ next) r v.once unmet);
        known = subst (Known m) e (append-Known m (results ++ next) (r ∷ []) v.known (there, tt));
        seen = λ j. rw (sym e) (
            rw (mentions-ids-append j (results ++ next) (r ∷ []))
              (λ met. ground (arith, v.seen j)));
      }

  visit-Spreads :
      (m : Matrix F) (d : ℕ) (r : SearchResult F) (c : Text) (results : List (SearchResult F))
      (st : List Text × List (SearchResult F))
      → Spreads m results st
      → Spreads m results (visit f m d r c st)
  unfolding visit
  visit-Spreads m d r c results (seen, next) v = elim (Bool-cases (mentions c seen)) [
    | inl old ↦ rw old v
    | inr new ↦ elim (Option-cases (lookup text_discrete c m.neurons)) [
      | inl h ↦ rw (new, h) v
      | inr (n, h) ↦ elim (Bool-cases (f.lt (f.ratio 1 10) (spread_score f m d r c))) [
        | inr faint ↦ rw (new, h, faint) v
        | inl loud ↦ rw (new, h, loud) (grow m c _ results seen next v new (rw h refl))
      ]
    ]
  ]

  visit_all-Spreads :
      (m : Matrix F) (d : ℕ) (r : SearchResult F) (cs : List Text) (results : List (SearchResult F))
      (st : List Text × List (SearchResult F))
      → Spreads m results st
      → Spreads m results (visit_all f m d r cs st)
  unfolding visit_all
  visit_all-Spreads m d r [] results st v = v
  visit_all-Spreads m d r (c ∷ cs) results st v =
      visit_all-Spreads m d r cs results (visit f m d r c st) (visit-Spreads m d r c results st v)

  expand_level-Spreads :
      (m : Matrix F) (d : ℕ) (rs results : List (SearchResult F))
      (st : List Text × List (SearchResult F))
      → Spreads m results st
      → Spreads m results (expand_level f m d rs st)
  unfolding expand_level
  expand_level-Spreads m d [] results st v = v
  expand_level-Spreads m d (r ∷ rs) results st v =
      expand_level-Spreads m d rs results (visit_all f m d r (connected f r.neuron_id m) st)
        (visit_all-Spreads m d r (connected f r.neuron_id m) results st v)

  -- the results of a level join those of before
  Spreads-join :
      (m : Matrix F) (results : List (SearchResult F)) (seen : List Text)
      (next : List (SearchResult F))
      → Spreads m results (seen, next)
      → Spreads m (results ++ next) (seen, [])
  Spreads-join m results seen next v =
      let e = sym (append-nil (results ++ next)) in
      record {
        once = subst Once e v.once;
        known = subst (Known m) e v.known;
        seen = λ j. subst (λ l. mentions j (ids f l) ≡ true → mentions j seen ≡ true) e (v.seen j);
      }

  -- what the levels return: no neuron twice, all in the matrix, and the results of before first
  abbrev Returns : Matrix F → List (SearchResult F) → List (SearchResult F) → Type 0
  Returns m results out =
      (Once out × Known m out) × ((more : List (SearchResult F)) × (out ≡ results ++ more))

  -- The loop ends where a level adds nothing.
  stop_or_go :
      (m : Matrix F) (results next reached more : List (SearchResult F))
      → Returns m results reached
      → Returns m results more
      → Returns m results (elim next [ [] ↦ reached | _ ∷ _ ↦ more ])
  stop_or_go m results [] reached more v w = v
  stop_or_go m results (_ ∷ _) reached more v w = w

  spread_levels-Returns :
      (m : Matrix F) (d k : ℕ) (current results : List (SearchResult F)) (seen : List Text)
      → Spreads m results (seen, [])
      → Returns m results (spread_levels f m d k current seen results)
  unfolding spread_levels
  spread_levels-Returns m d zero current results seen v =
      let e = append-nil results in ((subst Once e v.once, subst (Known m) e v.known), ([], sym e))
  spread_levels-Returns m d (suc k) current results seen v =
      let st = expand_level f m d current (seen, []) in
      let w = expand_level-Spreads m d current results (seen, []) v in
      let deeper =
        spread_levels-Returns m (suc d) k st.1 (results ++ st.1) st.0
          (Spreads-join m results st.0 st.1 w) in
      stop_or_go m results st.1 (results ++ st.1) _ ((w.once, w.known), (st.1, refl))
        (deeper.0, (st.1 ++ deeper.1.0, deeper.1.1 ∙ append_assoc results st.1 deeper.1.0))

  mentions-ids-place_result :
      (w : Text) (r : SearchResult F) (l : List (SearchResult F))
      → mentions w (ids f (place_result f r l)) ≡ (text_eq r.neuron_id w || mentions w (ids f l))
  unfolding place_result mentions
  mentions-ids-place_result w r [] = refl
  mentions-ids-place_result w r (s ∷ l) = elim (Bool-cases (f.lt r.score s.score)) [
    | inl below ↦ rw below (rw (mentions-ids-place_result w r l) (ground arith))
    | inr above ↦ rw above refl
  ]

  place_result-Once :
      (r : SearchResult F) (l : List (SearchResult F))
      → mentions r.neuron_id (ids f l) ≡ false
      → Once l
      → Once (place_result f r l)
  unfolding place_result mentions text_eq
  place_result-Once r [] new o = (refl, tt)
  place_result-Once r (s ∷ l) new o = elim (Bool-cases (f.lt r.score s.score)) [
    | inl below ↦ rw below (
      mentions-ids-place_result s.neuron_id r l ∙ ground arith,
      place_result-Once r l (ground arith) o.1,
    )
    | inr above ↦ rw above (new, o)
  ]

  mentions-ids-sort_results :
      (w : Text) (l : List (SearchResult F))
      → mentions w (ids f (sort_results f l)) ≡ mentions w (ids f l)
  unfolding sort_results mentions
  mentions-ids-sort_results w [] = refl
  mentions-ids-sort_results w (r ∷ l) =
      mentions-ids-place_result w r (sort_results f l) ∙ rw (mentions-ids-sort_results w l) refl

  pub sort_results-Once : (l : List (SearchResult F)) → Once l → Once (sort_results f l)
  unfolding sort_results
  sort_results-Once [] o = tt
  sort_results-Once (r ∷ l) o =
      place_result-Once r (sort_results f l) (mentions-ids-sort_results r.neuron_id l ∙ o.0)
        (sort_results-Once l o.1)

  place_result-Known :
      (m : Matrix F) (r : SearchResult F) (l : List (SearchResult F))
      → is_some (lookup text_discrete r.neuron_id m.neurons) ≡ true
      → Known m l
      → Known m (place_result f r l)
  unfolding place_result
  place_result-Known m r [] there a = (there, tt)
  place_result-Known m r (s ∷ l) there a = elim (Bool-cases (f.lt r.score s.score)) [
    | inl below ↦ rw below (a.0, place_result-Known m r l there a.1)
    | inr above ↦ rw above (there, a)
  ]

  pub sort_results-Known :
      (m : Matrix F) (l : List (SearchResult F)) → Known m l → Known m (sort_results f l)
  unfolding sort_results
  sort_results-Known m [] a = tt
  sort_results-Known m (r ∷ l) a =
      place_result-Known m r (sort_results f l) a.0 (sort_results-Known m l a.1)

  -- The spread from initial results without repetition, whose neurons are in the matrix, returns no
  -- neuron twice, whatever the cycles of the synapses, returns only neurons that are in the matrix,
  -- and drops none of the initial results.
  pub spread_activation-Once-Known :
      (m : Matrix F) (depth : ℕ) (initial : List (SearchResult F)) (w : Text)
      → Once initial
      → Known m initial
      → (Once (spread_activation f m depth initial) × Known m (spread_activation f m depth initial))
        × ((mentions w (ids f initial) || mentions w (ids f (spread_activation f m depth initial)))
            ≡ mentions w (ids f (spread_activation f m depth initial)))
  unfolding spread_activation
  spread_activation-Once-Known m depth initial w o a =
      let e = sym (append-nil initial) in
      let out = spread_levels f m 0 depth initial (ids f initial) initial in
      let v = spread_levels-Returns m 0 depth initial initial (ids f initial) (record {
        once = subst Once e o;
        known = subst (Known m) e a;
        seen = λ j. rw (append-nil initial) (λ met. met);
      }) in
      (
        (sort_results-Once out v.0.0, sort_results-Known m out v.0.1),
        rw (mentions-ids-sort_results w out) (
            rw (ap (λ l. mentions w (ids f l)) v.1.1 ∙ mentions-ids-append w initial v.1.0)
              (ground arith)),
      )
