-- ===== src/Base/Int.antt =====
-- Signed integers over the native numbers, and the wrap-around of Go's `int64`.
use oidc_proxy.Base.Test.{ltb, if◌then◌else◌}
use Prim.Native.Nat.{ℕ, zero, suc, ◌-◌, ◌*◌, ◌%◌, ◌^◌}

-- `negsuc n` is -(n + 1).
pub data ℤ : Type 0 where
  pos : ℕ → ℤ
  negsuc : ℕ → ℤ

-- The `int64` with the given bits.
unfoldable pub of_bits : ℕ → ℤ
of_bits m = if ltb m (2 ^ 63) then pos m else negsuc (2 ^ 64 - m - 1)

-- The `int64` that a product with a positive factor wraps around to.
unfoldable pub mul_int64 : ℤ → ℕ → ℤ
unfolding of_bits
mul_int64 (pos n) k = of_bits (n * k % 2 ^ 64)
mul_int64 (negsuc n) k = of_bits ((2 ^ 64 - suc n * k % 2 ^ 64) % 2 ^ 64)

-- `-n`
unfoldable pub negate : ℕ → ℤ
negate zero = pos 0
negate (suc n) = negsuc n
