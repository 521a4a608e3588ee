-- ===== src/Search.antt =====
-- The spread of a search through the synapses (pkg/engine/search.go, spreadActivation). A result holds
-- the id of its neuron. `sort.Slice` may order equal scores in any way; here they keep their order.
pub mod Spread
pub mod Order
pub mod Distance
pub mod Scoring
pub mod Query
pub mod Found
mod Examples
use qubicdb.Prelude.{
  ℕ, zero, suc, ◌+◌, Bool, true, false, Option, none, some, List, [], ◌∷◌, ◌++◌, Text,
  text_discrete, mentions, if◌then◌else◌, map,
}
use qubicdb.Prelude.Assoc.{lookup}
use qubicdb.Core.Float.{Float}
use qubicdb.Core.Synapse.{new_synapse_id}
use qubicdb.Core.Matrix.{Matrix}

pub record SearchResult (F : Type 0) : Type 0 where
  pub neuron_id : Text
  pub score : F

module _ {F : Type 0} (f : Float F) where
  -- the weight of the synapse in either direction, or the default
  unfoldable pub link_weight : Text → Text → Matrix F → F
  link_weight from to m = elim (lookup text_discrete (new_synapse_id from to) m.synapses) [
    | some s ↦ s.weight
    | none ↦ elim (lookup text_discrete (new_synapse_id to from) m.synapses) [
      | some s ↦ s.weight
      | none ↦ f.ratio 3 10
    ]
  ]

  -- `r.Score * weight * (1.0 / float64(d+2))`
  unfoldable pub spread_score : Matrix F → ℕ → SearchResult F → Text → F
  unfolding link_weight
  spread_score m d r conn_id =
      f.mul (f.mul r.score (link_weight r.neuron_id conn_id m))
        (f.div (f.ratio 1 1) (f.ratio (d + 2) 1))

  -- one connected neuron; the state is what was seen and what the next level starts from
  unfoldable pub visit :
      Matrix F
      → ℕ
      → SearchResult F
      → Text
      → List Text × List (SearchResult F)
      → List Text × List (SearchResult F)
  visit m d r conn_id (seen, next) =
      if mentions conn_id seen
      then (seen, next)
      else elim (lookup text_discrete conn_id m.neurons) [
        | none ↦ (seen, next)
        | some _ ↦
            if f.lt (f.ratio 1 10) (spread_score m d r conn_id)
            then (
              conn_id ∷ seen,
              next ++ ((record { neuron_id = conn_id; score = spread_score m d r conn_id }) ∷ []),
            )
            else (seen, next)
      ]

  unfoldable pub visit_all :
      Matrix F
      → ℕ
      → SearchResult F
      → List Text
      → List Text × List (SearchResult F)
      → List Text × List (SearchResult F)
  unfolding visit
  visit_all m d r [] st = st
  visit_all m d r (c ∷ cs) st = visit_all m d r cs (visit m d r c st)

  -- `s.matrix.Adjacency[id]`
  unfoldable pub connected : Text → Matrix F → List Text
  connected id m = elim (lookup text_discrete id m.adjacency) [ none ↦ [] | some l ↦ l ]

  -- the loop over one level
  unfoldable pub expand_level :
      Matrix F
      → ℕ
      → List (SearchResult F)
      → List Text × List (SearchResult F)
      → List Text × List (SearchResult F)
  unfolding visit_all connected
  expand_level m d [] st = st
  expand_level m d (r ∷ rs) st = expand_level m d rs (visit_all m d r (connected r.neuron_id m) st)

  -- the levels from the d-th on, of which `k` are left, with the results so far
  unfoldable pub spread_levels :
      Matrix F
      → ℕ
      → ℕ
      → List (SearchResult F)
      → List Text
      → List (SearchResult F)
      → List (SearchResult F)
  unfolding expand_level
  spread_levels m d zero current seen results = results
  spread_levels m d (suc k) current seen results =
      let (seen', next) = expand_level m d current (seen, []) in
      let reached = results ++ next in
      let more = spread_levels m (suc d) k next seen' reached in
      elim next [ [] ↦ reached | _ ∷ _ ↦ more ]

  unfoldable pub place_result : SearchResult F → List (SearchResult F) → List (SearchResult F)
  place_result r [] = r ∷ []
  place_result r (s ∷ l) =
      let rest = place_result r l in if f.lt r.score s.score then s ∷ rest else r ∷ s ∷ l

  unfoldable pub sort_results : List (SearchResult F) → List (SearchResult F)
  unfolding place_result
  sort_results [] = []
  sort_results (r ∷ l) = place_result r (sort_results l)

  abbrev pub ids : List (SearchResult F) → List Text
  ids = map (λ r. r.neuron_id)

  unfoldable pub spread_activation : Matrix F → ℕ → List (SearchResult F) → List (SearchResult F)
  unfolding spread_levels sort_results
  spread_activation m depth initial =
      sort_results (spread_levels m 0 depth initial (ids initial) initial)
