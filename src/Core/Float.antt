-- ===== src/Core/Float.antt =====
-- The floating-point operations that pkg/core and pkg/engine use, as an interface. The carrier stands
-- for the float64 values other than NaN; the laws are those of the order, `min` and `max`.
use qubicdb.Prelude.{ℕ, ◌≡◌, Bool, true, false, not}

pub record Float (F : Type 0) : Type 0 where
  pub add : F → F → F
  pub sub : F → F → F
  pub mul : F → F → F
  pub div : F → F → F
  pub fmin : F → F → F
  pub fmax : F → F → F
  -- `a < b`
  pub lt : F → F → Bool
  -- the literal n / d, such as 0.3 for 3 and 10
  pub ratio : ℕ → ℕ → F
  -- `d.Seconds()` of a duration in nanoseconds
  pub seconds : ℕ → F

-- `a <= b`, without NaN
abbrev pub le : {F : Type 0} → Float F → F → F → Bool
le f a b = not (f.lt b a)

pub record FloatLaws {F : Type 0} (f : Float F) : Type 0 where
  pub lt_irrefl : (a : F) → f.lt a a ≡ false
  pub lt_asymm : (a b : F) → f.lt a b ≡ true → f.lt b a ≡ false
  pub le_trans : (a b c : F) → f.lt b a ≡ false → f.lt c b ≡ false → f.lt c a ≡ false
  pub min_left : (a b : F) → f.lt a (f.fmin a b) ≡ false
  pub min_cases : (a b : F) → f.lt (f.fmin a b) a ≡ false → f.fmin a b ≡ a
  pub le_min : (a b c : F) → f.lt a c ≡ false → f.lt b c ≡ false → f.lt (f.fmin a b) c ≡ false
  pub max_left : (a b : F) → f.lt (f.fmax a b) a ≡ false
  pub max_le : (a b c : F) → f.lt c a ≡ false → f.lt c b ≡ false → f.lt c (f.fmax a b) ≡ false
  pub add_up : (a b : F) → f.lt b (f.ratio 0 1) ≡ false → f.lt (f.add a b) a ≡ false
  pub sub_down : (a b : F) → f.lt b (f.ratio 0 1) ≡ false → f.lt a (f.sub a b) ≡ false
  pub nonneg_mul :
      (a b : F)
      → f.lt a (f.ratio 0 1) ≡ false
      → f.lt b (f.ratio 0 1) ≡ false
      → f.lt (f.mul a b) (f.ratio 0 1) ≡ false
  pub nonneg_div :
      (a b : F)
      → f.lt a (f.ratio 0 1) ≡ false
      → f.lt (f.ratio 0 1) b ≡ true
      → f.lt (f.div a b) (f.ratio 0 1) ≡ false
  pub nonneg_seconds : (n : ℕ) → f.lt (f.seconds n) (f.ratio 0 1) ≡ false
  -- -1 and 1
  pub minus_one_le_one : f.lt (f.ratio 1 1) (f.sub (f.ratio 0 1) (f.ratio 1 1)) ≡ false
  pub hour_pos : f.lt (f.ratio 0 1) (f.ratio 3600 1) ≡ true
  pub boost_nonneg : f.lt (f.ratio 3 10) (f.ratio 0 1) ≡ false
  pub one_nonneg : f.lt (f.ratio 1 1) (f.ratio 0 1) ≡ false
  pub tenth_le_one : f.lt (f.ratio 1 1) (f.ratio 1 10) ≡ false
