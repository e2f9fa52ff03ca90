-- ===== src/Common/Integers.antt =====
-- Signed integers over the native numbers, under the library's names, and the 64 bits to which C
-- converts one.
use Prim.Native.Nat.{ℕ, zero, suc, ◌-◌, ◌*◌, ◌%◌, ◌^◌}

pub data ℤ : Type 0 where
  pos : ℕ → ℤ
  -- negsuc n is -(n + 1).
  negsuc : ℕ → ℤ

-- The negation of a natural number.
abbrev pub neg : ℕ → ℤ
neg zero = pos zero
neg (suc n) = negsuc n

-- The conversion to uint64_t.
abbrev pub to_unsigned : ℤ → ℕ
to_unsigned (pos n) = n % 2 ^ 64
to_unsigned (negsuc n) = 2 ^ 64 - 1 - n % 2 ^ 64

-- The product with a positive factor `suc k`.
abbrev pub scale : ℕ → ℤ → ℤ
scale k (pos n) = pos (suc k * n)
scale k (negsuc n) = negsuc (suc k * suc n - 1)
