-- ===== src/Core/Examples.antt =====
-- The theorems on the energy of neurons and the weight of synapses, applied to concrete data.
use qubicdb.Prelude.{arith, ℕ, refl, List, [], ◌∷◌, bytes}
use qubicdb.Core.Fixed.{fixed, fixed_laws}
use qubicdb.Core.Content.{TextLibrary}
use qubicdb.Core.Neuron.{new_neuron}
use qubicdb.Core.Synapse.{Synapse, new_synapse}
use qubicdb.Core.Energy.{
  Pulse, fired, reactivated, decayed, Change, strengthened, weakened, faded, live, change_all,
  IsCharged, Weighted, live-new_neuron-IsCharged, change_all-Weighted,
}

abbrev plain : TextLibrary
plain = record {
  trim_space = λ t. t;
  to_lower = λ t. t;
  fields = λ t. t ∷ [];
  hash_content = λ t. t;
}

abbrev pulses : List (Pulse ℕ)
pulses = fired 5 ∷ decayed 100 7200000000005 ∷ reactivated 200 7200000000006 ∷ []

live-new_neuron-IsCharged_example :
    IsCharged fixed (live fixed pulses (new_neuron fixed plain (bytes "n1") (bytes "tea") 3 0))
live-new_neuron-IsCharged_example =
    live-new_neuron-IsCharged fixed fixed_laws plain (bytes "n1") (bytes "tea") 3 0 pulses
      (refl, omega arith, (refl, tt))

abbrev changes : List (Change ℕ)
changes = strengthened 80 5 ∷ weakened 10 ∷ faded 10 3600000000005 ∷ []

abbrev link : Synapse ℕ
link = new_synapse fixed (bytes "a") (bytes "b") 200 0

change_all-Weighted_example : Weighted fixed (change_all fixed changes link)
unfolding new_synapse
change_all-Weighted_example =
    change_all-Weighted fixed fixed_laws changes link (refl, (refl, (refl, omega arith, tt)))
      (refl, refl)
