-- ===== src/Common/Parts.antt =====
-- Parts of a machine word: masks, and words put together by shifts and `|`.
use Prim.Native.Nat.{
  ℕ, zero, suc, ◌+◌, ◌-◌, ◌*◌, ◌/◌, ◌%◌, ◌^◌, ◌<◌, bit_and, bit_or, bit_or-bitwise,
}
use mathlib.Core.Path.{◌≡◌, sym, ◌∙◌}
use native.Mathlib.Omega.{arith}
use native.Mathlib.Nat.{pow-suc, one-le-pow, mul_assoc}
use min_os.Common.Bits.{bit_and_step, bit_or_step, bit_and-zero, bit_or-zero}

-- `w & (2 ^ k - 1)` is what is left of a multiple of `2 ^ k`.
pub bit_and-rest :
    (k w : ℕ) → (q : ℕ) × (bit_and w (2 ^ k - 1) + q * 2 ^ k ≡ w) × (bit_and w (2 ^ k - 1) < 2 ^ k)
bit_and-rest zero w = (w, omega (arith, bit_and-zero w), omega (arith, bit_and-zero w))
bit_and-rest (suc k) w =
    let (q, e, lo) = bit_and-rest k (w / 2) in
    let one_le = one-le-pow k 2 in
    let power = pow-suc 2 k in
    let half : (2 ^ suc k - 1) / 2 ≡ 2 ^ k - 1 = omega (arith, power, one_le) in
    let odd : (2 ^ suc k - 1) % 2 ≡ 1 = omega (arith, power, one_le) in
    let step : bit_and w (2 ^ suc k - 1) ≡ bit_and (w / 2) (2 ^ k - 1) * 2 + w % 2 =
      bit_and_step w (2 ^ suc k - 1) ∙ rw (half, odd) (ground arith) in
    (q, omega (arith, step, e, split q k), omega (arith, step, lo, power))
  where
    split : (q k : ℕ) → q * 2 ^ suc k ≡ q * 2 ^ k * 2
    split q k = rw (pow-suc 2 k) (sym (mul_assoc q (2 ^ k) 2))

-- A word whose low part is below `2 ^ k`, put together with a multiple of it.
pub bit_or-join : (k low high : ℕ) → low < 2 ^ k → bit_or low (high * 2 ^ k) ≡ low + high * 2 ^ k
bit_or-join zero low high h =
    let none_low : low ≡ 0 = omega arith in rw none_low (omega (arith, bit_or-bitwise 0 (high * 1)))
bit_or-join (suc k) low high h =
    let even : high * 2 ^ suc k ≡ high * 2 ^ k * 2 =
      rw (pow-suc 2 k) (sym (mul_assoc high (2 ^ k) 2)) in
    let half : high * 2 ^ k * 2 / 2 ≡ high * 2 ^ k = omega arith in
    rw even (
      bit_or_step low (high * 2 ^ k * 2)
      ∙ rw half (ground (arith, bit_or-join k (low / 2) high (omega (arith, pow-suc 2 k)))))

-- A number put together from its two halves of 16 bits.
pub bit_or-halves :
    (w : ℕ)
    → w < 2 ^ 32
    → bit_or (bit_and w 0xffff) (bit_and (w / 2 ^ 16) 0xffff * 2 ^ 16 % 2 ^ 32) ≡ w
bit_or-halves w h =
    let (q, e, lo) = bit_and-rest 16 w in
    let (q', e', lo') = bit_and-rest 16 (w / 2 ^ 16) in
    let high : bit_and (w / 2 ^ 16) 0xffff * 2 ^ 16 % 2 ^ 32
        ≡ bit_and (w / 2 ^ 16) 0xffff * 2 ^ 16 =
      omega (arith, lo') in
    rw high (
      bit_or-join 16 (bit_and w 0xffff) (bit_and (w / 2 ^ 16) 0xffff) lo
      ∙ omega (arith, e, lo, e', lo'))

-- The same with the multiple first.
pub bit_or-over : (k low high : ℕ) → low < 2 ^ k → bit_or (high * 2 ^ k) low ≡ high * 2 ^ k + low
bit_or-over zero low high h =
    let none_low : low ≡ 0 = omega arith in rw none_low (bit_or-zero (high * 1) ∙ omega arith)
bit_or-over (suc k) low high h =
    let even : high * 2 ^ suc k ≡ high * 2 ^ k * 2 =
      rw (pow-suc 2 k) (sym (mul_assoc high (2 ^ k) 2)) in
    let half : high * 2 ^ k * 2 / 2 ≡ high * 2 ^ k = omega arith in
    rw even (
      bit_or_step (high * 2 ^ k * 2) low
      ∙ rw half (ground (arith, bit_or-over k (low / 2) high (omega (arith, pow-suc 2 k)))))
