-- ===== src/Persistence/Words.antt =====
-- Unsigned integers in little-endian bytes, as encoding/binary writes and reads them
-- (pkg/persistence/codec.go and store.go).
use qubicdb.Prelude.{
  ℕ, zero, suc, ◌+◌, ◌*◌, ◌/◌, ◌%◌, ◌^◌, ◌<◌, ◌≡◌, refl, ap, [], ◌∷◌, Text, arith, length, All,
}
use native.Mathlib.Nat.{pow-suc}

-- `n` in `w` bytes; higher bits are cut off.
unfoldable pub put_le : ℕ → ℕ → Text
put_le zero n = []
put_le (suc w) n = (n % 256) ∷ put_le w (n / 256)

unfoldable pub get_le : Text → ℕ
get_le [] = 0
get_le (b ∷ bs) = b + 256 * get_le bs

pub length-put_le : (w n : ℕ) → length (put_le w n) ≡ w
unfolding put_le
length-put_le zero n = refl
length-put_le (suc w) n = ap suc (length-put_le w (n / 256))

pub get_le-put_le : (w n : ℕ) → n < 256 ^ w → get_le (put_le w n) ≡ n
unfolding put_le get_le
get_le-put_le zero n h = omega arith
get_le-put_le (suc w) n h =
    let bound : n < 256 ^ w * 256 = rw pow-suc at h in
    omega (arith, get_le-put_le w (n / 256) (omega arith))

-- bytes
abbrev pub IsBytes : Text → Type 0
IsBytes = All (λ b. b < 256)

pub put_le-IsBytes : (w n : ℕ) → IsBytes (put_le w n)
unfolding put_le
put_le-IsBytes zero n = tt
put_le-IsBytes (suc w) n = (omega arith, put_le-IsBytes w (n / 256))
