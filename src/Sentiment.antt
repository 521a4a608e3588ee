-- ===== src/Sentiment.antt =====
-- The labels of emotions and the boost that a search gives for them (pkg/sentiment/analyzer.go). The analysis itself is a
-- lexicon's.
use qubicdb.Prelude.{Bool, ◌&&◌, ◌||◌, List, [], ◌∷◌, Text, bytes, text_eq, mentions, if◌then◌else◌}
use qubicdb.Core.Float.{Float}

abbrev pub label_neutral : Text
label_neutral = bytes "neutral"

abbrev pub positive_labels : List Text
positive_labels = bytes "happiness" ∷ bytes "surprise" ∷ []

abbrev pub negative_labels : List Text
negative_labels = bytes "sadness" ∷ bytes "fear" ∷ bytes "anger" ∷ bytes "disgust" ∷ []

unfoldable pub is_opposite_valence : Text → Text → Bool
is_opposite_valence a b =
    mentions a positive_labels && mentions b negative_labels
    || mentions a negative_labels && mentions b positive_labels

unfoldable pub sentiment_boost : {F : Type 0} → Float F → Text → Text → F
unfolding is_opposite_valence
sentiment_boost f query neuron =
    if text_eq query label_neutral || text_eq neuron label_neutral
    then f.ratio 1 1
    else if text_eq query neuron
    then f.ratio 6 5
    else if is_opposite_valence query neuron
    then f.ratio 4 5
    else f.ratio 1 1
