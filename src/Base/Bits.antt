-- ===== src/Base/Bits.antt =====
-- Binary digits: the libraries have no law of `bit_and` at variables.
use Prim.Native.Nat.{ℕ, zero, suc, ◌+◌, ◌*◌, ◌/◌, ◌%◌, ◌≤◌, min, bit_and, digits, bit_and-bitwise}
use native.Mathlib.Omega.{arith}
use mathlib.Core.Path.{◌≡◌}
use mathlib.Core.Bool.{Bool, true}
use ivm.Base.Tests.{◌==◌, if◌then◌else◌}

abbrev and_digits : ℕ → ℕ → ℕ → ℕ
and_digits n a b = digits (λ b. zero) min n a b

and_digits-le : (n a b : ℕ) → and_digits n a b ≤ b
and_digits-le zero a b = omega arith
and_digits-le (suc n) zero b = omega arith
and_digits-le (suc n) (suc a) b = omega (arith, and_digits-le n (suc a / 2) (b / 2))

pub bit_and-le : (a b : ℕ) → bit_and a b ≤ b
bit_and-le a b = omega (arith, bit_and-bitwise a b, and_digits-le a a b)

-- `b & (1 << n)`, as a test
unfoldable pub has_bit : ℕ → ℕ → Bool
has_bit zero b = b % 2 == 1
has_bit (suc n) b = has_bit n (b / 2)

-- `b | (1 << n)`
unfoldable pub set_bit : ℕ → ℕ → ℕ
set_bit zero b = b / 2 * 2 + 1
set_bit (suc n) b = set_bit n (b / 2) * 2 + b % 2

pub has_bit-set_bit : (m n b : ℕ) → has_bit m (set_bit n b) ≡ (if n == m then true else has_bit m b)
unfolding has_bit set_bit
has_bit-set_bit zero zero b = ground arith
has_bit-set_bit zero (suc n) b = ground arith
has_bit-set_bit (suc m) zero b =
    let half : (b / 2 * 2 + 1) / 2 ≡ b / 2 = omega arith in rw half (ground arith)
has_bit-set_bit (suc m) (suc n) b =
    let half : (set_bit n (b / 2) * 2 + b % 2) / 2 ≡ set_bit n (b / 2) = omega arith in
    rw half (ground (arith, has_bit-set_bit m n (b / 2)))
