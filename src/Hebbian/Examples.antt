-- ===== src/Hebbian/Examples.antt =====
-- The theorems on the Hebbian engine, applied to concrete data.
use qubicdb.Prelude.{
  ℕ, ◌≡◌, ◌≢◌, refl, sym, text_discrete, true, ◌||◌, none, some, [], ◌∷◌, Text, bytes,
  if◌then◌else◌, arith,
}
use qubicdb.Prelude.Assoc.{lookup, Unique}
use qubicdb.Core.Fixed.{fixed, fixed_laws}
use qubicdb.Core.Content.{TextLibrary}
use qubicdb.Core.Neuron.{new_neuron, zeros}
use qubicdb.Engine.Dimension.{IsFitted}
use qubicdb.Hebbian.Cluster.{update_fractal_clusters, pull_to_centroid, repel_unconnected}
use qubicdb.Hebbian.Cube.{Within, repel_unconnected-pull_to_centroid-Within}
use qubicdb.Hebbian.Movement.{Moved, update_fractal_clusters-Moved}
use qubicdb.Core.Synapse.{new_synapse, NoColon, is_alive_synapse}
use qubicdb.Core.Matrix.{Matrix, default_bounds, new_matrix}
use qubicdb.Hebbian.{
  record_fire, co_activated, Hebbian, new_hebbian, neighbours, on_neuron_fired, decay_all,
  strengthen_or_create, prune_dead_synapses,
}
use qubicdb.Hebbian.Wiring.{IsWired}
use qubicdb.Hebbian.Strengthening.{strengthen_or_create-IsWired}
use qubicdb.Hebbian.Pruning.{lookup-prune_dead_synapses}
use qubicdb.Hebbian.Firing.{AreLinked, on_neuron_fired-AreLinked}
use qubicdb.Hebbian.Runs.{fires, decays, Run, rest, onward, Sound, new_hebbian-Run-Sound}

abbrev a : Text
a = 97 ∷ []

abbrev b : Text
b = 98 ∷ []

a-NoColon : NoColon a
a-NoColon = ((λ e. ground arith), tt)

b-NoColon : NoColon b
b-NoColon = ((λ e. ground arith), tt)

abbrev start : Hebbian ℕ × Matrix ℕ
start = (new_hebbian fixed, new_matrix fixed (bytes "u") default_bounds 0)

abbrev fire_both : Hebbian ℕ × Matrix ℕ
fire_both =
    let (h, (m, _)) = on_neuron_fired fixed a 10 start.0 start.1 in
    let (h', (m', _)) = on_neuron_fired fixed b 20 h m in (h', decay_all fixed h' 3600000000020 m')

fire_both-Run : Run fixed start fire_both
fire_both-Run =
    onward (fires a 10 _ _ a-NoColon)
      (onward (fires b 20 _ _ b-NoColon) (onward (decays 3600000000020 _ _) (rest _)))

new_hebbian-Run-Sound_example : Sound fixed 50 fire_both
new_hebbian-Run-Sound_example =
    new_hebbian-Run-Sound fixed (bytes "u") default_bounds 0 fire_both fire_both-Run

start-IsWired : IsWired fixed 50 start.1
unfolding new_hebbian
start-IsWired = (new_hebbian-Run-Sound fixed (bytes "u") default_bounds 0 start (rest start)).wired

a-ne-b : a ≢ b
a-ne-b e = ground arith

-- a has fired at 10
abbrev after_a : Hebbian ℕ × Matrix ℕ
after_a = let (h, (m, _)) = on_neuron_fired fixed a 10 start.0 start.1 in (h, m)

after_a-Sound : Sound fixed 50 after_a
after_a-Sound =
    new_hebbian-Run-Sound fixed (bytes "u") default_bounds 0 after_a
      (onward (fires a 10 _ _ a-NoColon) (rest _))

on_neuron_fired-AreLinked_example :
    AreLinked fixed b a (on_neuron_fired fixed b 20 after_a.0 after_a.1).1.0
unfolding new_hebbian new_matrix neighbours lookup record_fire on_neuron_fired co_activated
    qubicdb.Prelude.Assoc.select_values qubicdb.Prelude.Assoc.insert text_discrete
    qubicdb.Hebbian.link_all
on_neuron_fired-AreLinked_example =
    on_neuron_fired-AreLinked fixed after_a.0 b a 10 20 after_a.1 after_a-Sound b-NoColon
      (λ e. a-ne-b (sym e)) refl (omega arith) (omega arith) (omega arith)

abbrev linked : Matrix ℕ
linked = (strengthen_or_create fixed start.0 a b 20 start.1).0

linked-Unique : Unique text_discrete linked.synapses
unfolding new_hebbian
linked-Unique =
    (strengthen_or_create-IsWired fixed start.0 a b 20 start.1 a-NoColon b-NoColon a-ne-b
      start-IsWired).ids_unique

lookup-prune_dead_synapses_example :
    lookup text_discrete (bytes "a:b") (prune_dead_synapses fixed 30 linked).0.synapses
    ≡ elim (lookup text_discrete (bytes "a:b") linked.synapses) [
      | none ↦ none
      | some s ↦ if is_alive_synapse fixed s then some s else none
    ]
lookup-prune_dead_synapses_example =
    lookup-prune_dead_synapses fixed 30 linked (bytes "a:b") linked-Unique

abbrev plain : TextLibrary
plain = record {
  trim_space = λ t. t;
  to_lower = λ t. t;
  fields = λ t. t ∷ [];
  hash_content = λ t. t;
}

-- two neurons at the origin with a strong synapse
abbrev strong : Matrix ℕ
strong = record start.1 {
  neurons =
      (a, new_neuron fixed plain a (bytes "tea") 3 0)
      ∷ (b, new_neuron fixed plain b (bytes "milk") 3 0)
      ∷ [];
  synapses = (bytes "a:b", new_synapse fixed a b 400 0) ∷ [];
  adjacency = (a, b ∷ []) ∷ (b, a ∷ []) ∷ [];
}

strong-IsFitted : IsFitted strong
unfolding new_matrix new_neuron zeros default_bounds lookup text_discrete
strong-IsFitted = record {
  ids_unique = (refl, (refl, tt));
  positions = ((refl, refl), ((refl, refl), tt));
  above_min = omega arith;
  below_max = omega arith;
}

update_fractal_clusters-Moved_example : Moved fixed strong (update_fractal_clusters fixed strong)
update_fractal_clusters-Moved_example = update_fractal_clusters-Moved fixed strong strong-IsFitted

strong-Within : Within fixed strong
unfolding new_neuron zeros
strong-Within = (
  ((refl, refl), ((refl, refl), ((refl, refl), tt))),
  (((refl, refl), ((refl, refl), ((refl, refl), tt))), tt),
)

repel_unconnected-pull_to_centroid-Within_example :
    Within fixed
      (repel_unconnected fixed b (a ∷ []) 12 (pull_to_centroid fixed a (b ∷ []) 20 strong))
repel_unconnected-pull_to_centroid-Within_example =
    repel_unconnected-pull_to_centroid-Within fixed fixed_laws a b (b ∷ []) (a ∷ []) 20 12 strong
      strong-Within
