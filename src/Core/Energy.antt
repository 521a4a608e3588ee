-- ===== src/Core/Energy.antt =====
-- The energy of a neuron and the weight of a synapse over a life of events (pkg/core/types.go).
use qubicdb.Prelude.{ℕ, ◌-◌, ◌≡◌, ◌≤◌, true, leb, arith, false, List, [], ◌∷◌, Text}
use qubicdb.Core.Float.{Float, FloatLaws}
use qubicdb.Core.Content.{TextLibrary}
use qubicdb.Core.Neuron.{Neuron, new_neuron, reactivate, fire, elapsed, decay_amount, decay}
use qubicdb.Core.Synapse.{Synapse, strengthen, weaken, decay_synapse}

-- what happens to a neuron
pub data Pulse (F : Type 0) : Type 0 where
  fired : ℕ → Pulse F
  reactivated : F → ℕ → Pulse F
  decayed : F → ℕ → Pulse F

-- what happens to a synapse
pub data Change (F : Type 0) : Type 0 where
  strengthened : F → ℕ → Change F
  weakened : F → Change F
  faded : F → ℕ → Change F

module _ {F : Type 0} (f : Float F) where
  pulse : Pulse F → Neuron F → Neuron F
  pulse (fired now) n = fire f now n
  pulse (reactivated boost now) n = reactivate f boost now n
  pulse (decayed rate now) n = decay f rate now n

  pub live : List (Pulse F) → Neuron F → Neuron F
  live [] n = n
  live (p ∷ ps) n = live ps (pulse p n)

  -- No boost and no rate is negative, and no decay has a reading of the clock before that of the
  -- last decay, of which the first argument is the time.
  abbrev pub Sane : ℕ → List (Pulse F) → Type 0
  Sane last [] = Unit
  Sane last (fired now ∷ ps) = Sane last ps
  Sane last (reactivated boost now ∷ ps) = (f.lt boost (f.ratio 0 1) ≡ false) × Sane last ps
  Sane last (decayed rate now ∷ ps) = (f.lt rate (f.ratio 0 1) ≡ false) × (last ≤ now) × Sane now ps

  -- between its base and 1
  pub record IsCharged (n : Neuron F) : Type 0 where
    pub above_base : f.lt n.energy n.base_energy ≡ false
    pub below_one : f.lt (f.ratio 1 1) n.energy ≡ false
    pub base_below_one : f.lt (f.ratio 1 1) n.base_energy ≡ false

  change : Change F → Synapse F → Synapse F
  change (strengthened delta now) s = strengthen f delta now s
  change (weakened delta) s = weaken f delta s
  change (faded rate now) s = decay_synapse f rate now s

  pub change_all : List (Change F) → Synapse F → Synapse F
  change_all [] s = s
  change_all (c ∷ cs) s = change_all cs (change c s)

  -- No delta and no rate is negative, and no decay has a reading of the clock before the last firing
  -- of both ends, of which the first argument is the time.
  abbrev pub SaneChanges : ℕ → List (Change F) → Type 0
  SaneChanges last [] = Unit
  SaneChanges last (strengthened delta now ∷ cs) =
      (f.lt delta (f.ratio 0 1) ≡ false) × SaneChanges now cs
  SaneChanges last (weakened delta ∷ cs) = (f.lt delta (f.ratio 0 1) ≡ false) × SaneChanges last cs
  SaneChanges last (faded rate now ∷ cs) =
      (f.lt rate (f.ratio 0 1) ≡ false) × (last ≤ now) × SaneChanges last cs

  -- between 0 and 1
  abbrev pub Weighted : Synapse F → Type 0
  Weighted s = (f.lt s.weight (f.ratio 0 1) ≡ false) × (f.lt (f.ratio 1 1) s.weight ≡ false)

  module _ (laws : FloatLaws f) where
    decay_amount-nonneg :
        (rate : F) (now since : ℕ)
        → f.lt rate (f.ratio 0 1) ≡ false
        → since ≤ now
        → f.lt (decay_amount f rate now since) (f.ratio 0 1) ≡ false
    unfolding decay_amount elapsed
    decay_amount-nonneg rate now since h later =
        let forward : leb since now ≡ true = ground arith in
        rw (decay_amount, elapsed, forward)
          (laws.nonneg_div _ _ (laws.nonneg_mul _ _ h (laws.nonneg_seconds (now - since)))
            laws.hour_pos)

    boost_up :
        (boost : F) (n : Neuron F)
        → f.lt boost (f.ratio 0 1) ≡ false
        → IsCharged n
        → f.lt (f.fmin (f.ratio 1 1) (f.add n.energy boost)) n.base_energy ≡ false
    boost_up boost n h v =
        laws.le_min (f.ratio 1 1) (f.add n.energy boost) n.base_energy v.base_below_one (
          laws.le_trans n.base_energy n.energy (f.add n.energy boost) v.above_base
            (laws.add_up n.energy boost h))

    reactivate-IsCharged :
        (boost : F) (now : ℕ) (n : Neuron F)
        → f.lt boost (f.ratio 0 1) ≡ false
        → IsCharged n
        → IsCharged (reactivate f boost now n)
    unfolding reactivate
    reactivate-IsCharged boost now n h v = record {
      above_base = boost_up boost n h v;
      below_one = laws.min_left _ _;
      base_below_one = v.base_below_one;
    }

    fire-IsCharged : (now : ℕ) (n : Neuron F) → IsCharged n → IsCharged (fire f now n)
    unfolding fire
    fire-IsCharged now n v = record {
      above_base = boost_up (f.ratio 3 10) n laws.boost_nonneg v;
      below_one = laws.min_left _ _;
      base_below_one = v.base_below_one;
    }

    decay-IsCharged :
        (rate : F) (now : ℕ) (n : Neuron F)
        → f.lt rate (f.ratio 0 1) ≡ false
        → n.last_decay_at ≤ now
        → IsCharged n
        → IsCharged (decay f rate now n)
    unfolding decay
    decay-IsCharged rate now n h later v = record {
      above_base = laws.max_left _ _;
      below_one = laws.max_le n.base_energy _ (f.ratio 1 1) v.base_below_one (
          laws.le_trans _ n.energy (f.ratio 1 1)
            (laws.sub_down n.energy _ (decay_amount-nonneg rate now n.last_decay_at h later))
            v.below_one);
      base_below_one = v.base_below_one;
    }

    live-IsCharged :
        (ps : List (Pulse F)) (n : Neuron F)
        → Sane n.last_decay_at ps
        → IsCharged n
        → IsCharged (live ps n)
    unfolding live pulse fire reactivate decay
    live-IsCharged [] n s v = v
    live-IsCharged (fired now ∷ ps) n s v = live-IsCharged ps _ s (fire-IsCharged now n v)
    live-IsCharged (reactivated boost now ∷ ps) n s v =
        live-IsCharged ps _ s.1 (reactivate-IsCharged boost now n s.0 v)
    live-IsCharged (decayed rate now ∷ ps) n s v =
        live-IsCharged ps _ s.2 (decay-IsCharged rate now n s.0 s.1 v)

    -- Through any life of fires, reactivations and decays with boosts and rates that are not
    -- negative, the energy of a new neuron stays between its base energy and 1, if no decay reads a
    -- time before the last decay or, for the first one, before the making of the neuron, and the
    -- floating-point operations keep the laws of the order.
    pub live-new_neuron-IsCharged :
        (lib : TextLibrary) (id content : Text) (initial_dim now : ℕ) (ps : List (Pulse F))
        → Sane now ps
        → IsCharged (live ps (new_neuron f lib id content initial_dim now))
    unfolding new_neuron
    live-new_neuron-IsCharged lib id content initial_dim now ps s = live-IsCharged ps _ s (record {
      above_base = laws.tenth_le_one;
      below_one = laws.lt_irrefl (f.ratio 1 1);
      base_below_one = laws.tenth_le_one;
    })

    strengthen-Weighted :
        (delta : F) (now : ℕ) (s : Synapse F)
        → f.lt delta (f.ratio 0 1) ≡ false
        → Weighted s
        → Weighted (strengthen f delta now s)
    unfolding strengthen
    strengthen-Weighted delta now s h v = (
      laws.le_min (f.ratio 1 1) _ (f.ratio 0 1) laws.one_nonneg
          (laws.le_trans (f.ratio 0 1) s.weight _ v.0 (laws.add_up s.weight delta h)),
      laws.min_left _ _,
    )

    lower_weight :
        (loss : F) (s : Synapse F)
        → f.lt loss (f.ratio 0 1) ≡ false
        → Weighted s
        → Weighted (record s { weight = f.fmax (f.ratio 0 1) (f.sub s.weight loss) })
    lower_weight loss s h v = (
      laws.max_left _ _,
      laws.max_le (f.ratio 0 1) _ (f.ratio 1 1) laws.one_nonneg
          (laws.le_trans _ s.weight (f.ratio 1 1) (laws.sub_down s.weight loss h) v.1),
    )

    -- The weight of a synapse that starts between 0 and 1 stays there through whatever
    -- strengthening, weakening and decay with deltas and rates that are not negative, if no decay
    -- has a reading of the clock before the last firing of both ends, and the floating-point
    -- operations keep the laws of the order.
    pub change_all-Weighted :
        (cs : List (Change F)) (s : Synapse F)
        → SaneChanges s.last_co_fire cs
        → Weighted s
        → Weighted (change_all cs s)
    unfolding change_all change strengthen weaken decay_synapse
    change_all-Weighted [] s h v = v
    change_all-Weighted (strengthened delta now ∷ cs) s h v =
        change_all-Weighted cs _ h.1 (strengthen-Weighted delta now s h.0 v)
    change_all-Weighted (weakened delta ∷ cs) s h v =
        change_all-Weighted cs _ h.1 (lower_weight delta s h.0 v)
    change_all-Weighted (faded rate now ∷ cs) s h v = change_all-Weighted cs _ h.2 (
        lower_weight (decay_amount f rate now s.last_co_fire) s
          (decay_amount-nonneg rate now s.last_co_fire h.0 h.1) v)
