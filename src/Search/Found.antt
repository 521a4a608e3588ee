-- ===== src/Search/Found.antt =====
-- What a search returns and fires (pkg/engine/search.go).
use qubicdb.Prelude.{
  ℕ, zero, suc, ◌≤◌, ◌<◌, ◌≡◌, refl, ap, Bool, true, false, not, ◌&&◌, none, some, List, [], ◌∷◌,
  Text, text_discrete, text_eq, mentions, is_some, length, take, select, ltb, length-take-le,
  if◌then◌else◌, arith, Bool-cases, Option-cases, inl, inr, All,
}
use qubicdb.Prelude.Assoc.{lookup, lookup-insert, Unique}
use qubicdb.Core.Float.{Float}
use qubicdb.Core.Neuron.{Neuron, fire}
use qubicdb.Core.Matrix.{Matrix}
use qubicdb.Engine.{fire_at}
use qubicdb.Search.{SearchResult, ids, sort_results}
use qubicdb.Search.Spread.{
  Once, Known, spread_activation-Once-Known, sort_results-Once, sort_results-Known,
}
use qubicdb.Search.Scoring.{Query, score_neuron, is_empty_list, tokenize}
use qubicdb.Search.Query.{
  Searcher, prepare, score_all, has_all, is_match, filter_results, limit_results, spread_results,
  find_results, fire_each, search,
}

-- no text twice
abbrev pub NoRepeat : List Text → Type 0
NoRepeat [] = Unit
NoRepeat (w ∷ l) = (mentions w l ≡ false) × NoRepeat l

module _ {F : Type 0} (f : Float F) where
  Once-NoRepeat : (l : List (SearchResult F)) → Once f l → NoRepeat (ids f l)
  Once-NoRepeat [] o = tt
  Once-NoRepeat (r ∷ l) o = (o.0, Once-NoRepeat l o.1)

  mentions-ids-select :
      (w : Text) (p : SearchResult F → Bool) (l : List (SearchResult F))
      → mentions w (ids f l) ≡ false
      → mentions w (ids f (select p l)) ≡ false
  unfolding mentions select
  mentions-ids-select w p [] h = refl
  mentions-ids-select w p (r ∷ l) h = ground (arith, mentions-ids-select w p l)

  select-Once :
      (p : SearchResult F → Bool) (l : List (SearchResult F)) → Once f l → Once f (select p l)
  unfolding select
  select-Once p [] o = tt
  select-Once p (r ∷ l) o = elim (Bool-cases (p r)) [
    | inl h ↦ rw h (mentions-ids-select r.neuron_id p l o.0, select-Once p l o.1)
    | inr h ↦ rw h (select-Once p l o.1)
  ]

  select-All :
      (P : SearchResult F → Type 0) (p : SearchResult F → Bool) (l : List (SearchResult F))
      → All P l
      → All P (select p l)
  unfolding select
  select-All P p [] a = tt
  select-All P p (r ∷ l) a = elim (Bool-cases (p r)) [
    | inl h ↦ rw h (a.0, select-All P p l a.1)
    | inr h ↦ rw h (select-All P p l a.1)
  ]

  select_holds :
      (p : SearchResult F → Bool) (l : List (SearchResult F)) → All (λ r. p r ≡ true) (select p l)
  unfolding select
  select_holds p [] = tt
  select_holds p (r ∷ l) = elim (Bool-cases (p r)) [
    | inl h ↦ rw h (h, select_holds p l)
    | inr h ↦ rw h (select_holds p l)
  ]

  mentions-ids-take :
      (w : Text) (n : ℕ) (l : List (SearchResult F))
      → mentions w (ids f l) ≡ false
      → mentions w (ids f (take n l)) ≡ false
  unfolding mentions
  mentions-ids-take w zero l h = refl
  mentions-ids-take w (suc n) [] h = refl
  mentions-ids-take w (suc n) (r ∷ l) h = ground (arith, mentions-ids-take w n l)

  take-Once : (n : ℕ) (l : List (SearchResult F)) → Once f l → Once f (take n l)
  take-Once zero l o = tt
  take-Once (suc n) [] o = tt
  take-Once (suc n) (r ∷ l) o = (mentions-ids-take r.neuron_id n l o.0, take-Once n l o.1)

  take-All :
      (P : SearchResult F → Type 0) (n : ℕ) (l : List (SearchResult F)) → All P l → All P (take n l)
  take-All P zero l a = tt
  take-All P (suc n) [] a = tt
  take-All P (suc n) (r ∷ l) a = (a.0, take-All P n l a.1)

  lookup-fire_at :
      (id j : Text) (now : ℕ) (m : Matrix F)
      → lookup text_discrete j (fire_at f id now m).neurons
        ≡ elim (lookup text_discrete j m.neurons) [
          | none ↦ none
          | some n ↦ if text_eq id j then some (fire f now n) else some n
        ]
  unfolding fire_at text_eq
  lookup-fire_at id j now m = elim (Option-cases (lookup text_discrete id m.neurons)) [
    | inl e ↦ rw (e, fire_at) (ground (arith, e))
    | inr (n, e) ↦
        rw (e, fire_at)
          (ground (arith, e, lookup-insert text_discrete id j (fire f now n) m.neurons))
  ]

module _ {F : Type 0} (f : Float F) (s : Searcher F) where
  mentions-score_all :
      (w : Text) (now : ℕ) (q : Query F) (l : List (Text × Neuron F))
      → lookup text_discrete w l ≡ none
      → mentions w (ids f (score_all f s now q l)) ≡ false
  unfolding mentions score_all lookup text_eq
  mentions-score_all w now q [] h = refl
  mentions-score_all w now q ((id, n) ∷ l) h = ground (arith, mentions-score_all w now q l)

  score_all-Once :
      (now : ℕ) (q : Query F) (l : List (Text × Neuron F))
      → Unique text_discrete l
      → Once f (score_all f s now q l)
  unfolding score_all
  score_all-Once now q [] u = tt
  score_all-Once now q ((id, n) ∷ l) u =
      elim (Bool-cases (f.lt (f.ratio 0 1) (score_neuron f s.scorer now n q))) [
        | inl h ↦ rw h (mentions-score_all id now q l u.0, score_all-Once now q l u.1)
        | inr h ↦ rw h (score_all-Once now q l u.1)
      ]

  score_all-Known :
      (now : ℕ) (q : Query F) (l k : List (Text × Neuron F))
      → ((w : Text)
          → is_some (lookup text_discrete w l) ≡ true
          → is_some (lookup text_discrete w k) ≡ true)
      → All (λ r. is_some (lookup text_discrete r.neuron_id k) ≡ true) (score_all f s now q l)
  unfolding score_all lookup
  score_all-Known now q [] k sub = tt
  score_all-Known now q ((id, n) ∷ l) k sub =
      let rest = score_all-Known now q l k (λ w h. sub w (ground arith)) in
      elim (Bool-cases (f.lt (f.ratio 0 1) (score_neuron f s.scorer now n q))) [
        | inl h ↦ rw h (sub id (ground arith), rest)
        | inr h ↦ rw h rest
      ]

  -- Each neuron of the list fires once, and no other does.
  lookup-fire_each :
      (l : List Text) (j : Text) (now : ℕ) (m : Matrix F)
      → NoRepeat l
      → lookup text_discrete j (fire_each f s l now m).neurons
        ≡ elim (lookup text_discrete j m.neurons) [
          | none ↦ none
          | some n ↦ if mentions j l then some (fire f now n) else some n
        ]
  unfolding mentions text_eq fire_each
  lookup-fire_each [] j now m u = ground arith
  lookup-fire_each (id ∷ l) j now m u =
      ground (arith, lookup-fire_each l j now (fire_at f id now m) u.1, lookup-fire_at f id j now m)

  -- what is known of results
  record IsFine (limit : ℕ) (m : Matrix F) (l : List (SearchResult F)) : Type 0 where
    once : Once f l
    known : Known f m l
    bounded : 0 < limit → length l ≤ limit
    matching : s.strict ≡ true → All (λ r. is_match f s m r ≡ true) l

  no_metadata :
      (m : Matrix F) (l : List (SearchResult F))
      → s.metadata ≡ []
      → Known f m l
      → All (λ r. is_match f s m r ≡ true) l
  unfolding is_match has_all
  no_metadata m [] e a = tt
  no_metadata m (r ∷ l) e a = (ground (arith, a.0), no_metadata m l e a.1)

  spread_results-Once-Known :
      (m : Matrix F) (depth : ℕ) (l : List (SearchResult F))
      → Once f l
      → Known f m l
      → Once f (spread_results f s m depth l) × Known f m (spread_results f s m depth l)
  spread_results-Once-Known m depth l o k =
      elim (Bool-cases (ltb 0 depth && not (is_empty_list f s.scorer l))) [
        | inl h ↦ rw h (spread_activation-Once-Known f m depth l [] o k).0
        | inr h ↦ rw h (o, k)
      ]

  filter_results-matching :
      (m : Matrix F) (l : List (SearchResult F))
      → Once f l
      → Known f m l
      → Once f (filter_results f s m l)
        × Known f m (filter_results f s m l)
        × (s.strict ≡ true → All (λ r. is_match f s m r ≡ true) (filter_results f s m l))
  unfolding filter_results
  filter_results-matching m l o k =
      elim (Bool-cases (s.strict && not (is_empty_list f s.scorer s.metadata))) [
        | inl h ↦ rw h (
          select-Once f (is_match f s m) l o,
          select-All f _ (is_match f s m) l k,
          λ st. select_holds f (is_match f s m) l,
        )
        | inr h ↦ rw h (o, k, λ st. no_metadata m l (empty_of s.metadata (ground arith)) k)
      ]
    where
      empty_of : {A : Type 0} (xs : List A) → is_empty_list f s.scorer xs ≡ true → xs ≡ []
      empty_of [] e = refl
      empty_of (x ∷ xs) e = absurd (ground arith)

  limit_results-IsFine :
      (limit : ℕ) (m : Matrix F) (l : List (SearchResult F))
      → Once f l
      → Known f m l
      → (s.strict ≡ true → All (λ r. is_match f s m r ≡ true) l)
      → IsFine limit m (limit_results f s limit l)
  limit_results-IsFine limit m l o k p = elim (Bool-cases (ltb 0 limit && ltb limit (length l))) [
    | inl h ↦ rw h (record {
      once = take-Once f limit l o;
      known = take-All f _ limit l k;
      bounded = λ pos. length-take-le limit l;
      matching = λ st. take-All f _ limit l (p st);
    })
    | inr h ↦ rw h (record { once = o; known = k; bounded = λ pos. ground arith; matching = p })
  ]

  find_results-IsFine :
      (query : Text) (tokens : List Text) (depth limit now : ℕ) (m : Matrix F)
      → Unique text_discrete m.neurons
      → IsFine limit m (find_results f s query tokens depth limit now m)
  unfolding find_results
  find_results-IsFine query tokens depth limit now m u =
      let scored = score_all f s now (prepare f s query tokens) m.neurons in
      let o =
        sort_results-Once f scored (score_all-Once now (prepare f s query tokens) m.neurons u) in
      let k =
        sort_results-Known f m scored
          (score_all-Known now (prepare f s query tokens) m.neurons m.neurons (λ w h. h)) in
      let (o', k') = spread_results-Once-Known m depth (sort_results f scored) o k in
      let (o'', k'', p) =
        filter_results-matching m (spread_results f s m depth (sort_results f scored)) o' k' in
      limit_results-IsFine limit m _ o'' k'' p

  -- what a search promises of its answer
  pub record Answers (limit : ℕ) (now : ℕ) (m : Matrix F) (r : Matrix F × List Text) : Type 0 where
    pub no_repeat : NoRepeat r.1
    pub there : All (λ id. is_some (lookup text_discrete id m.neurons) ≡ true) r.1
    pub bounded : 0 < limit → length r.1 ≤ limit
    pub matching :
        s.strict ≡ true
        → All
            (λ id.
              elim (lookup text_discrete id m.neurons) [
                | none ↦ false
                | some n ↦ has_all f s n.metadata s.metadata
              ]
              ≡ true)
            r.1
    pub fired :
        (j : Text)
        → lookup text_discrete j r.0.neurons ≡ elim (lookup text_discrete j m.neurons) [
          | none ↦ none
          | some n ↦ if mentions j r.1 then some (fire f now n) else some n
        ]

  All-ids :
      (P : Text → Type 0) (l : List (SearchResult F)) → All (λ r. P r.neuron_id) l → All P (ids f l)
  All-ids P [] a = tt
  All-ids P (r ∷ l) a = (a.0, All-ids P l a.1)

  length-ids : (l : List (SearchResult F)) → length (ids f l) ≡ length l
  length-ids [] = refl
  length-ids (r ∷ l) = ap suc (length-ids l)

  Answers-nothing : (limit now : ℕ) (m : Matrix F) → Answers limit now m (m, [])
  unfolding mentions
  Answers-nothing limit now m = record {
    no_repeat = tt;
    there = tt;
    bounded = λ pos. omega arith;
    matching = λ st. tt;
    fired = λ j. ground arith;
  }

  -- A search answers no neuron twice and only neurons of the matrix, not more than a limit that is
  -- set, and with strict metadata only neurons that carry all of it, whatever the spread brought
  -- in; exactly the neurons that it answers have fired, once each, and no other neuron has changed.
  -- No two entries of the matrix share an id.
  pub search-Answers :
      (query : Text) (depth limit now : ℕ) (m : Matrix F)
      → Unique text_discrete m.neurons
      → Answers limit now m (search f s query depth limit now m)
  unfolding search is_match
  search-Answers query depth limit now m u =
      let clean = s.clean_text query in
      let tokens = tokenize f s.scorer clean in
      let l = find_results f s clean tokens depth limit now m in
      let fine = find_results-IsFine clean tokens depth limit now m u in
      let once = Once-NoRepeat f l fine.once in
      elim (Bool-cases (text_eq clean [])) [
        | inl h ↦ rw h (Answers-nothing limit now m)
        | inr h ↦ elim (Bool-cases (is_empty_list f s.scorer tokens)) [
          | inl k ↦ rw (h, k) (Answers-nothing limit now m)
          | inr k ↦
              rw (h, k)
                (record {
                  no_repeat = once;
                  there = All-ids _ l fine.known;
                  bounded = λ pos. omega (arith, fine.bounded pos, length-ids l);
                  matching = λ st. All-ids _ l (fine.matching st);
                  fired = λ j. lookup-fire_each (ids f l) j now m once;
                })
        ]
      ]
