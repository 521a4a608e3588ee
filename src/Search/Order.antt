-- ===== src/Search/Order.antt =====
-- The results of a search come in the order of their scores (pkg/engine/search.go).
use qubicdb.Prelude.{◌≡◌, ℕ, false, List, [], ◌∷◌, Bool-cases, inl, inr, All}
use qubicdb.Core.Float.{Float, FloatLaws}
use qubicdb.Core.Matrix.{Matrix}
use qubicdb.Search.{SearchResult, place_result, sort_results, spread_levels, spread_activation, ids}

module _ {F : Type 0} (f : Float F) where
  -- no later score is higher
  abbrev pub Descending : List (SearchResult F) → Type 0
  Descending [] = Unit
  Descending (r ∷ l) = All (λ s. f.lt r.score s.score ≡ false) l × Descending l

  All-place_result :
      (P : SearchResult F → Type 0) (r : SearchResult F) (l : List (SearchResult F))
      → P r
      → All P l
      → All P (place_result f r l)
  unfolding place_result
  All-place_result P r [] p a = (p, tt)
  All-place_result P r (s ∷ l) p a = elim (Bool-cases (f.lt r.score s.score)) [
    | inl below ↦ rw below (a.0, All-place_result P r l p a.1)
    | inr above ↦ rw above (p, a)
  ]

  module _ (laws : FloatLaws f) where
    lower_also :
        (r s : SearchResult F) (l : List (SearchResult F))
        → f.lt r.score s.score ≡ false
        → All (λ t. f.lt s.score t.score ≡ false) l
        → All (λ t. f.lt r.score t.score ≡ false) l
    lower_also r s [] h a = tt
    lower_also r s (t ∷ l) h a =
        (laws.le_trans t.score s.score r.score a.0 h, lower_also r s l h a.1)

    place_result-Descending :
        (r : SearchResult F) (l : List (SearchResult F))
        → Descending l
        → Descending (place_result f r l)
    unfolding place_result
    place_result-Descending r [] d = (tt, tt)
    place_result-Descending r (s ∷ l) d = elim (Bool-cases (f.lt r.score s.score)) [
      | inl below ↦ rw below (
        All-place_result (λ t. f.lt s.score t.score ≡ false) r l
            (laws.lt_asymm r.score s.score below) d.0,
        place_result-Descending r l d.1,
      )
      | inr above ↦ rw above ((above, lower_also r s l above d.0), d)
    ]

    sort_results-Descending : (l : List (SearchResult F)) → Descending (sort_results f l)
    unfolding sort_results
    sort_results-Descending [] = tt
    sort_results-Descending (r ∷ l) =
        place_result-Descending r (sort_results f l) (sort_results-Descending l)

    -- No result of the spread has a higher score than one before it, if the floating-point
    -- comparison is an order.
    pub spread_activation-Descending :
        (m : Matrix F) (depth : ℕ) (initial : List (SearchResult F))
        → Descending (spread_activation f m depth initial)
    unfolding spread_activation
    spread_activation-Descending m depth initial =
        sort_results-Descending (spread_levels f m 0 depth initial (ids f initial) initial)
