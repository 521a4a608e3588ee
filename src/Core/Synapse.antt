-- ===== src/Core/Synapse.antt =====
-- A weighted link between two neurons (pkg/core/types.go).
use qubicdb.Prelude.{ℕ, ◌+◌, ◌≡◌, ◌≢◌, Bool, true, ◌&&◌, [], ◌∷◌, ◌++◌, Text, All, arith, ltb}
use qubicdb.Core.Float.{Float, le}
use qubicdb.Core.Neuron.{u64, decay_amount}

-- `string(from) + ":" + string(to)`
unfoldable pub new_synapse_id : Text → Text → Text
new_synapse_id from to = from ++ (58 ∷ to)

pub record Synapse (F : Type 0) : Type 0 where
  pub id : Text
  pub from_id : Text
  pub to_id : Text
  pub weight : F
  pub co_fire_count : ℕ
  pub last_co_fire : ℕ
  pub bidirectional : Bool
  pub created_at : ℕ

module _ {F : Type 0} (f : Float F) where
  unfoldable pub new_synapse : Text → Text → F → ℕ → Synapse F
  unfolding new_synapse_id
  new_synapse from to initial_weight now = record {
    id = new_synapse_id from to;
    from_id = from;
    to_id = to;
    weight = initial_weight;
    co_fire_count = 1;
    last_co_fire = now;
    bidirectional = true;
    created_at = now;
  }

  -- `Strengthen` and `Reactivate`
  unfoldable pub strengthen : F → ℕ → Synapse F → Synapse F
  strengthen delta now s = record s {
    weight = f.fmin (f.ratio 1 1) (f.add s.weight delta);
    co_fire_count = u64 (s.co_fire_count + 1);
    last_co_fire = now;
  }

  unfoldable pub weaken : F → Synapse F → Synapse F
  weaken delta s = record s { weight = f.fmax (f.ratio 0 1) (f.sub s.weight delta) }

  unfoldable pub decay_synapse : F → ℕ → Synapse F → Synapse F
  decay_synapse rate now s = record s {
    weight = f.fmax (f.ratio 0 1) (f.sub s.weight (decay_amount f rate now s.last_co_fire));
  }

  unfoldable pub is_alive_synapse : Synapse F → Bool
  is_alive_synapse s = f.lt (f.ratio 5 100) s.weight

  unfoldable pub is_weak : Synapse F → Bool
  is_weak s = le f s.weight (f.ratio 5 100) && f.lt (f.ratio 0 1) s.weight

  -- not fired together for 30 days
  unfoldable pub should_archive : ℕ → Synapse F → Bool
  should_archive now s =
      f.lt s.weight (f.ratio 1 100) && ltb (s.last_co_fire + 2592000000000000) now

-- An id without a colon can be read off the front of a synapse id.
abbrev pub NoColon : Text → Type 0
NoColon = All (λ c. c ≢ 58)

pub new_synapse_id-injective :
    (a b c d : Text)
    → NoColon a
    → NoColon c
    → new_synapse_id a b ≡ new_synapse_id c d
    → (a ≡ c) × (b ≡ d)
unfolding new_synapse_id
new_synapse_id-injective [] b [] d p q h = ground arith
new_synapse_id-injective [] b (x ∷ c) d p q h = absurd (ground arith)
new_synapse_id-injective (x ∷ a) b [] d p q h = absurd (ground arith)
new_synapse_id-injective (x ∷ a) b (y ∷ c) d p q h =
    let tails : new_synapse_id a b ≡ new_synapse_id c d = cc in
    ground (arith, new_synapse_id-injective a b c d p.1 q.1)
