-- ===== src/Core/Fixed.antt =====
-- The interface of the floating-point operations filled by thousandths that are not negative, for the
-- runs on concrete data.
use Prim.Native.Nat.{min, max}
use qubicdb.Prelude.{ℕ, ◌+◌, ◌-◌, ◌*◌, ◌/◌, refl, ltb, arith}
use qubicdb.Core.Float.{Float, FloatLaws}

abbrev pub fixed : Float ℕ
fixed = record {
  add = λ a b. a + b;
  sub = λ a b. a - b;
  mul = λ a b. a * b / 1000;
  div = λ a b. a * 1000 / b;
  fmin = λ a b. min a b;
  fmax = λ a b. max a b;
  lt = λ a b. ltb a b;
  ratio = λ n d. n * 1000 / d;
  seconds = λ t. t / 1000000;
}

pub fixed_laws : FloatLaws fixed
fixed_laws = record {
  lt_irrefl = λ a. ground arith;
  lt_asymm = λ a b h. ground arith;
  le_trans = λ a b c h g. ground arith;
  min_left = λ a b. ground arith;
  min_cases = λ a b h. ground arith;
  le_min = λ a b c h g. ground arith;
  max_left = λ a b. ground arith;
  max_le = λ a b c h g. ground arith;
  add_up = λ a b h. ground arith;
  sub_down = λ a b h. ground arith;
  nonneg_mul = λ a b h g. ground arith;
  nonneg_div = λ a b h g. ground arith;
  nonneg_seconds = λ n. ground arith;
  minus_one_le_one = refl;
  hour_pos = refl;
  boost_nonneg = refl;
  one_nonneg = refl;
  tenth_le_one = refl;
}
