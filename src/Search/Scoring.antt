-- ===== src/Search/Scoring.antt =====
-- The score of a neuron for a query (pkg/engine/search.go, scoreNeuron and what it calls). The cache of tokens is left out: a
-- searcher lives for one search, which asks for the tokens of each neuron once.
use Prim.Native.Nat.{max}
use qubicdb.Prelude.{
  ℕ, zero, suc, Bool, true, false, not, ◌&&◌, ◌||◌, Option, none, some, List, [], ◌∷◌, Text,
  text_eq, text_discrete, length, take, select, map, ltb, leb, ◌==◌, if◌then◌else◌,
}
use qubicdb.Prelude.Assoc.{lookup}
use qubicdb.Core.Float.{Float, le}
use qubicdb.Core.Neuron.{elapsed, Neuron}
use qubicdb.Core.Content.{TextLibrary}
use qubicdb.Sentiment.{label_neutral, sentiment_boost}
use qubicdb.Search.Distance.{Runes, levenshtein_distance}

-- What the scoring calls: strings on Unicode text, `tokenSplitRegex` with `strings.Fields`, package math, and the cosine of package vector.
pub record Scorer (F : Type 0) : Type 0 where
  pub text : TextLibrary
  pub unicode : Runes
  pub split_words : Text → List Text
  pub tanh : F → F
  pub log10 : F → F
  pub cosine : List F → List F → F

-- The query as `Search` has prepared it: its vector and its label are there if the layers are.
pub record Query (F : Type 0) : Type 0 where
  pub text : Text
  pub lower : Text
  pub tokens : List Text
  pub vector : Option (List F)
  pub query_label : Text
  pub metadata : List (Text × Text)
  pub strict : Bool
  pub alpha : F

-- `strings.HasPrefix(t, p)`
unfoldable pub has_prefix : Text → Text → Bool
has_prefix p t = text_eq (take (length p) t) p

-- `strings.Contains(t, p)`
unfoldable pub contains : Text → Text → Bool
unfolding has_prefix
contains p [] = has_prefix p []
contains p (b ∷ t) = has_prefix p (b ∷ t) || contains p t

module _ {F : Type 0} (f : Float F) (lib : Scorer F) where
  unfoldable pub tokenize : Text → List Text
  tokenize t = select (λ w. leb 2 (length w)) (map lib.text.to_lower (lib.split_words t))

  abbrev pub prefix_length : ℕ
  prefix_length = 3

  -- how a token of the query meets one of the content
  pub data Match : Type 0 where
    exact fuzzy : Match

  abbrev pub match_words : Text → Text → Option Match
  match_words qt ct =
      if text_eq ct qt
      then some exact
      else if ltb prefix_length (length ct)
          && ltb prefix_length (length qt)
          && (has_prefix (take prefix_length qt) ct || has_prefix (take prefix_length ct) qt)
      then some fuzzy
      else none

  -- the inner loop, which stops at the first match
  unfoldable pub match_token : Text → List Text → Option Match
  unfolding has_prefix
  match_token qt [] = none
  match_token qt (ct ∷ cts) =
      let rest = match_token qt cts in elim (match_words qt ct) [ some m ↦ some m | none ↦ rest ]

  -- the outer loop: words matched, and the score
  unfoldable pub match_tokens : List Text → List Text → ℕ × F → ℕ × F
  unfolding match_token
  match_tokens [] cts st = st
  match_tokens (qt ∷ qts) cts (matched, score) = match_tokens qts cts (elim (match_token qt cts) [
    | none ↦ (matched, score)
    | some exact ↦ (suc matched, score)
    | some fuzzy ↦ (suc matched, f.add score (f.ratio 3 10))
  ])

  -- the similarities of the first tokens, of which `k` are left
  unfoldable pub add_similarities : ℕ → Text → List Text → F → F
  add_similarities zero query_lower cts score = score
  add_similarities (suc k) query_lower [] score = score
  add_similarities (suc k) query_lower (ct ∷ cts) score =
      let longest = max (length query_lower) (length ct) in
      let similarity =
        f.sub (f.ratio 1 1) (
          f.div (f.ratio (levenshtein_distance lib.unicode query_lower ct) 1)
            (f.ratio longest 1)) in
      add_similarities k query_lower cts (
        if ltb 0 longest && f.lt (f.ratio 7 10) similarity
        then f.add score (f.mul similarity (f.ratio 2 1))
        else score)

  unfoldable pub string_score : Neuron F → Query F → F
  unfolding tokenize contains match_tokens add_similarities
  string_score n q =
      let tokens = tokenize n.content in
      let phrase =
        if contains q.lower (lib.text.to_lower n.content) then f.ratio 10 1 else f.ratio 0 1 in
      let (matched, partial) = match_tokens q.tokens tokens (0, phrase) in
      let score =
        if ltb 0 (length q.tokens)
        then f.add partial
            (f.mul (f.div (f.ratio matched 1) (f.ratio (length q.tokens) 1)) (f.ratio 5 1))
        else partial in
      if leb (length q.text) 20 && f.lt score (f.ratio 8 1)
      then add_similarities 8 q.lower tokens score
      else score

  -- `v, ok := m[k]; ok && v == w`
  abbrev pub has_entry : List (Text × Text) → Text × Text → Bool
  has_entry m e = elim (lookup text_discrete e.0 m) [ none ↦ false | some v ↦ text_eq v e.1 ]

  abbrev pub is_empty_list : {A : Type 0} → List A → Bool
  is_empty_list [] = true
  is_empty_list (_ ∷ _) = false

  abbrev pub vector_score : List F → List F → F
  vector_score v embedding =
      if length v == length embedding
      then (let c = lib.cosine v embedding in if f.lt c (f.ratio 0 1) then f.ratio 0 1 else c)
      else f.ratio 0 1

  -- the hybrid of both scores
  unfoldable pub base_score : Neuron F → Query F → F
  unfolding string_score
  base_score n q = elim q.vector [
    | none ↦ string_score n q
    | some v ↦
        if is_empty_list n.embedding
        then string_score n q
        else f.add (f.mul q.alpha (vector_score v n.embedding)) (
            f.mul (f.sub (f.ratio 1 1) q.alpha)
              (lib.tanh (f.div (string_score n q) (f.ratio 10 1))))
  ]

  -- energy, recency, accesses and depth
  unfoldable pub brain_factors : ℕ → Neuron F → F → F
  brain_factors now n s =
      let one = f.ratio 1 1 in
      let energy = f.mul s (f.add (f.ratio 1 2) (f.mul n.energy (f.ratio 1 2))) in
      let age_hours = f.div (elapsed f now n.last_fired_at) (f.ratio 3600 1) in
      let recency = f.div one (f.add one (f.div age_hours (f.ratio 24 1))) in
      let recent = f.mul energy (f.add (f.ratio 4 5) (f.mul recency (f.ratio 1 5))) in
      let access = lib.log10 (f.add (f.ratio n.access_count 1) one) in
      let used = f.mul recent (f.add one (f.mul access (f.ratio 1 10))) in
      f.mul used (f.div one (f.add one (f.mul (f.ratio n.depth 1) (f.ratio 1 5))))

  abbrev pub sentiment_factor : Neuron F → Query F → F → F
  sentiment_factor n q s =
      if not (text_eq q.query_label label_neutral) && not (text_eq n.sentiment_label [])
      then f.mul s (sentiment_boost f q.query_label n.sentiment_label)
      else s

  unfoldable pub score_neuron : ℕ → Neuron F → Query F → F
  unfolding base_score brain_factors sentiment_boost
  score_neuron now n q =
      let base = base_score n q in
      if le f base (f.ratio 0 1)
      then f.ratio 0 1
      else (let s = sentiment_factor n q (brain_factors now n base) in
          let count = length (select (has_entry n.metadata) q.metadata) in
          if is_empty_list q.metadata
          then s
          else if q.strict && ltb count (length q.metadata)
          then f.ratio 0 1
          else if ltb 0 count
          then f.mul s (f.add (f.ratio 1 1) (f.mul (f.ratio count 1) (f.ratio 3 10)))
          else s)
