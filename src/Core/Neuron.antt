-- ===== src/Core/Neuron.antt =====
-- One memory unit (pkg/core/types.go). A reading of the clock is an argument.
use qubicdb.Prelude.{
  ℕ, zero, suc, ◌+◌, ◌-◌, ◌%◌, ◌^◌, Bool, ◌&&◌, List, [], ◌∷◌, Text, leb, if◌then◌else◌,
}
use qubicdb.Core.Float.{Float, le}
use qubicdb.Core.Content.{TextLibrary}

pub record Neuron (F : Type 0) : Type 0 where
  pub id : Text
  pub content : Text
  pub content_hash : Text
  pub position : List F
  pub energy : F
  pub base_energy : F
  pub depth : ℕ
  pub created_at : ℕ
  pub last_fired_at : ℕ
  pub last_decay_at : ℕ
  pub access_count : ℕ
  pub tags : List Text
  pub sentiment_label : Text
  pub sentiment_score : F
  pub embedding : List F
  pub metadata : List (Text × Text)

-- uint64
abbrev pub u64 : ℕ → ℕ
u64 n = n % 2 ^ 64

module _ {F : Type 0} (f : Float F) where
  -- `make([]float64, n)`
  unfoldable pub zeros : ℕ → List F
  zeros zero = []
  zeros (suc n) = f.ratio 0 1 ∷ zeros n

  -- `id` is what `uuid.New()` returned.
  unfoldable pub new_neuron : TextLibrary → Text → Text → ℕ → ℕ → Neuron F
  unfolding zeros
  new_neuron lib id content initial_dim now = record {
    id = id;
    content = content;
    content_hash = lib.hash_content content;
    position = zeros initial_dim;
    energy = f.ratio 1 1;
    base_energy = f.ratio 1 10;
    depth = 0;
    created_at = now;
    last_fired_at = now;
    last_decay_at = now;
    access_count = 1;
    tags = [];
    sentiment_label = [];
    sentiment_score = f.ratio 0 1;
    embedding = [];
    metadata = [];
  }

  -- `Reactivate`, and `Fire` with the boost 0.3
  unfoldable pub reactivate : F → ℕ → Neuron F → Neuron F
  reactivate boost now n = record n {
    energy = f.fmin (f.ratio 1 1) (f.add n.energy boost);
    last_fired_at = now;
    access_count = u64 (n.access_count + 1);
  }

  unfoldable pub fire : ℕ → Neuron F → Neuron F
  fire now n = record n {
    energy = f.fmin (f.ratio 1 1) (f.add n.energy (f.ratio 3 10));
    last_fired_at = now;
    access_count = u64 (n.access_count + 1);
  }

  -- `now.Sub(since).Seconds()`, negative where the clock was set back
  unfoldable pub elapsed : ℕ → ℕ → F
  elapsed now since =
      if leb since now
      then f.seconds (now - since)
      else f.sub (f.ratio 0 1) (f.seconds (since - now))

  -- `rate * elapsed / 3600`
  unfoldable pub decay_amount : F → ℕ → ℕ → F
  unfolding elapsed
  decay_amount rate now since = f.div (f.mul rate (elapsed now since)) (f.ratio 3600 1)

  unfoldable pub decay : F → ℕ → Neuron F → Neuron F
  unfolding decay_amount
  decay rate now n = record n {
    energy = f.fmax n.base_energy (f.sub n.energy (decay_amount rate now n.last_decay_at));
    last_decay_at = now;
  }

  unfoldable pub is_alive : Neuron F → Bool
  is_alive n = f.lt (f.ratio 1 100) n.energy

  unfoldable pub is_dormant : Neuron F → Bool
  is_dormant n = le f n.energy (f.ratio 1 100) && f.lt (f.ratio 0 1) n.energy

  unfoldable pub should_consolidate : ℕ → ℕ → ℕ → Neuron F → Bool
  should_consolidate access_threshold age_threshold now n =
      leb access_threshold n.access_count
      && (leb (n.created_at + age_threshold) now && f.lt n.energy (f.ratio 1 2))
