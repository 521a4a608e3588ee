-- ===== src/Search/Examples.antt =====
-- The theorem on the spread of a search, applied to concrete data.
use qubicdb.Prelude.{
  ℕ, ◌≡◌, ◌≤◌, refl, arith, none, true, ◌||◌, List, [], ◌∷◌, Text, text_discrete, mentions, text_eq,
  bytes,
}
use qubicdb.Prelude.Assoc.{lookup}
use qubicdb.Core.Fixed.{fixed, fixed_laws}
use qubicdb.Core.Content.{TextLibrary}
use qubicdb.Core.Neuron.{new_neuron}
use qubicdb.Core.Synapse.{new_synapse, new_synapse_id}
use qubicdb.Core.Matrix.{Matrix, default_bounds, new_matrix}
use qubicdb.Search.{SearchResult, ids, spread_activation, spread_score}
use qubicdb.Search.Distance.{Runes, Edits, levenshtein_distance, levenshtein_distance-Edits}
use qubicdb.Search.Query.{Searcher, search}
use qubicdb.Search.Found.{Answers, search-Answers}
use qubicdb.Search.Order.{Descending, spread_activation-Descending}
use qubicdb.Search.Spread.{Once, Known, spread_activation-Once-Known}

abbrev a : Text
a = 97 ∷ []

abbrev b : Text
b = 98 ∷ []

abbrev plain : TextLibrary
plain = record {
  trim_space = λ t. t;
  to_lower = λ t. t;
  fields = λ t. t ∷ [];
  hash_content = λ t. t;
}

abbrev linked : Matrix ℕ
linked = record (new_matrix fixed (bytes "u") default_bounds 0) {
  neurons =
      (a, new_neuron fixed plain a (bytes "tea") 3 0)
      ∷ (b, new_neuron fixed plain b (bytes "milk") 3 0)
      ∷ [];
  synapses = (bytes "a:b", new_synapse fixed a b 400 0) ∷ [];
  adjacency = (a, b ∷ []) ∷ (b, a ∷ []) ∷ [];
}

abbrev found : List (SearchResult ℕ)
found = (record { neuron_id = a; score = 1000 }) ∷ []

-- The neuron at the other end of the synapse is found as well.
spread_reaches : ids fixed (spread_activation fixed linked 1 found) ≡ a ∷ b ∷ []
unfolding spread_activation lookup text_discrete mentions text_eq spread_score new_synapse_id
    new_synapse
spread_reaches = refl

spread_activation-Once-Known_example :
    (Once fixed (spread_activation fixed linked 2 found)
      × Known fixed linked (spread_activation fixed linked 2 found))
    × ((mentions b (ids fixed found)
          || mentions b (ids fixed (spread_activation fixed linked 2 found)))
        ≡ mentions b (ids fixed (spread_activation fixed linked 2 found)))
unfolding mentions lookup text_discrete
spread_activation-Once-Known_example =
    spread_activation-Once-Known fixed linked 2 found b (refl, tt) (refl, tt)

spread_activation-Descending_example : Descending fixed (spread_activation fixed linked 2 found)
spread_activation-Descending_example = spread_activation-Descending fixed fixed_laws linked 2 found

abbrev plain_runes : Runes
plain_runes = record { runes = λ t. t; lower_rune = λ r. r }

distance_code : levenshtein_distance plain_runes (bytes "kitten") (bytes "sitting") ≡ 3
unfolding levenshtein_distance
distance_code = refl

levenshtein_distance-Edits_example :
    Edits plain_runes
      (bytes "kitten")
      (bytes "sitting")
      (levenshtein_distance plain_runes (bytes "kitten") (bytes "sitting"))
    × ((n : ℕ)
        → Edits plain_runes (bytes "kitten") (bytes "sitting") n
        → levenshtein_distance plain_runes (bytes "kitten") (bytes "sitting") ≤ n)
levenshtein_distance-Edits_example =
    levenshtein_distance-Edits plain_runes (bytes "kitten") (bytes "sitting") (omega arith)
      (omega arith)

-- strict, for neurons from the kitchen
abbrev searcher : Searcher ℕ
searcher = record {
  scorer = record {
    text = plain;
    unicode = plain_runes;
    split_words = λ t. t ∷ [];
    tanh = λ x. x;
    log10 = λ x. 0;
    cosine = λ v w. 0;
  };
  clean_text = λ t. t;
  embed_text = none;
  alpha = 600;
  query_repeat = 2;
  analyze_label = none;
  metadata = (bytes "room", bytes "kitchen") ∷ [];
  strict = true;
}

abbrev kitchen : Matrix ℕ
kitchen = record linked {
  neurons =
      (
        a,
        record (new_neuron fixed plain a (bytes "tea") 3 0) {
          metadata = (bytes "room", bytes "kitchen") ∷ [];
        },
      )
      ∷ (b, new_neuron fixed plain b (bytes "teapot") 3 0)
      ∷ [];
}

search_finds : (search fixed searcher (bytes "tea") 1 5 7 kitchen).1 ≡ a ∷ []
unfolding search spread_activation lookup text_discrete text_eq mentions new_neuron
    qubicdb.Prelude.select spread_score new_synapse_id new_synapse qubicdb.Core.Neuron.elapsed
search_finds = refl

search-Answers_example :
    Answers fixed searcher 5 7 kitchen (search fixed searcher (bytes "tea") 1 5 7 kitchen)
unfolding lookup text_discrete
search-Answers_example =
    search-Answers fixed searcher (bytes "tea") 1 5 7 kitchen (refl, (refl, tt))
