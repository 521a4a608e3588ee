-- ===== src/Search/Query.antt =====
-- A search from the query to the neurons that it returns and fires (pkg/engine/search.go, Searcher.Search).
use qubicdb.Prelude.{
  ℕ, zero, suc, Bool, true, false, not, ◌&&◌, Option, none, some, List, [], ◌∷◌, ◌++◌, Text, bytes,
  text_eq, text_discrete, length, take, select, ltb, leb, if◌then◌else◌,
}
use qubicdb.Prelude.Assoc.{lookup}
use qubicdb.Core.Float.{Float}
use qubicdb.Core.Neuron.{Neuron}
use qubicdb.Core.Matrix.{Matrix}
use qubicdb.Engine.{fire_at}
use qubicdb.Search.{SearchResult, ids, spread_activation, sort_results}
use qubicdb.Search.Scoring.{Scorer, Query, tokenize, score_neuron, has_entry, is_empty_list}

-- What a searcher is given: the scoring, `vector.CleanText`, the vectorizer (`EmbedText`, whose error is `none`,
-- followed by `Normalize`), and the label of the sentiment analyzer.
pub record Searcher (F : Type 0) : Type 0 where
  pub scorer : Scorer F
  pub clean_text : Text → Text
  pub embed_text : Option (Text → Option (List F))
  pub alpha : F
  pub query_repeat : ℕ
  pub analyze_label : Option (Text → Text)
  pub metadata : List (Text × Text)
  pub strict : Bool

-- `strings.Join(parts, " ")` of `n + 1` equal parts
unfoldable pub join_copies : ℕ → Text → Text
join_copies zero t = t
join_copies (suc n) t = t ++ (32 ∷ join_copies n t)

-- what is embedded for a query with so many tokens
unfoldable pub embed_input : ℕ → ℕ → Text → Text
unfolding join_copies
embed_input tokens zero query =
    if leb tokens 3 then bytes "search for information about " ++ query else query
embed_input tokens (suc repeat) query =
    join_copies repeat
      (if leb tokens 3 then bytes "search for information about " ++ query else query)

module _ {F : Type 0} (f : Float F) (s : Searcher F) where
  unfoldable pub prepare : Text → List Text → Query F
  unfolding embed_input
  prepare query tokens = record {
    text = query;
    lower = s.scorer.text.to_lower query;
    tokens = tokens;
    vector = elim s.embed_text [
      | none ↦ none
      | some embed ↦ embed (embed_input (length tokens) s.query_repeat query)
    ];
    query_label = elim s.analyze_label [ none ↦ [] | some analyze ↦ analyze query ];
    metadata = s.metadata;
    strict = s.strict;
    alpha = s.alpha;
  }

  -- the neurons with a positive score
  unfoldable pub score_all : ℕ → Query F → List (Text × Neuron F) → List (SearchResult F)
  unfolding score_neuron
  score_all now q [] = []
  score_all now q ((id, n) ∷ neurons) =
      let rest = score_all now q neurons in
      let score = score_neuron f s.scorer now n q in
      if f.lt (f.ratio 0 1) score then (record { neuron_id = id; score = score }) ∷ rest else rest

  unfoldable pub has_all : List (Text × Text) → List (Text × Text) → Bool
  has_all m [] = true
  has_all m (e ∷ es) = has_entry f s.scorer m e && has_all m es

  unfoldable pub is_match : Matrix F → SearchResult F → Bool
  unfolding has_all
  is_match m r = elim (lookup text_discrete r.neuron_id m.neurons) [
    | none ↦ false
    | some n ↦ has_all n.metadata s.metadata
  ]

  -- the filter and the limit
  unfoldable pub filter_results : Matrix F → List (SearchResult F) → List (SearchResult F)
  unfolding is_match
  filter_results m l =
      if s.strict && not (is_empty_list f s.scorer s.metadata) then select (is_match m) l else l

  abbrev pub limit_results : ℕ → List (SearchResult F) → List (SearchResult F)
  limit_results limit l = if ltb 0 limit && ltb limit (length l) then take limit l else l

  abbrev pub spread_results : Matrix F → ℕ → List (SearchResult F) → List (SearchResult F)
  spread_results m depth l =
      if ltb 0 depth && not (is_empty_list f s.scorer l) then spread_activation f m depth l else l

  unfoldable pub find_results : Text → List Text → ℕ → ℕ → ℕ → Matrix F → List (SearchResult F)
  unfolding prepare score_all filter_results sort_results
  find_results query tokens depth limit now m = limit_results limit (
      filter_results m
        (spread_results m depth (sort_results f (score_all now (prepare query tokens) m.neurons))))

  unfoldable pub fire_each : List Text → ℕ → Matrix F → Matrix F
  fire_each [] now m = m
  fire_each (id ∷ l) now m = fire_each l now (fire_at f id now m)

  -- The neurons found, and the matrix in which they have fired. Depth and limit count as 0 where they are negative.
  unfoldable pub search : Text → ℕ → ℕ → ℕ → Matrix F → Matrix F × List Text
  unfolding find_results fire_each tokenize
  search raw_query depth limit now m =
      let query = s.clean_text raw_query in
      let tokens = tokenize f s.scorer query in
      if text_eq query []
      then (m, [])
      else if is_empty_list f s.scorer tokens
      then (m, [])
      else (let found = ids f (find_results query tokens depth limit now m) in
          (fire_each found now m, found))
