-- ===== src/Common/Bits.antt =====
-- Single bits of a machine word: `w & (1 << b)`, `w | (1 << b)` and `w & ~(1 << b)`.
use Prim.Native.Nat.{
  ℕ, zero, suc, ◌+◌, ◌-◌, ◌*◌, ◌/◌, ◌%◌, ◌^◌, ◌≤◌, ◌<◌, min, max, bit_and, bit_or, digits,
  bit_and-bitwise, bit_or-bitwise,
}
use mathlib.Core.Path.{◌≡◌, refl, sym, ◌∙◌}
use mathlib.Core.Bool.{Bool, true, false}
use native.Mathlib.Omega.{arith}
use native.Mathlib.Nat.{pow-suc, one-le-pow, mul_assoc}
use min_os.Common.Tests.{◌==◌, if◌then◌else◌}

-- The native operations are `digits` with the first word as its fuel; more fuel gives no more.
module _ (rest : ℕ → ℕ) (op : ℕ → ℕ → ℕ) where
  digits-zero : (w fuel : ℕ) → digits rest op fuel 0 w ≡ rest w
  digits-zero w (suc fuel) = refl
  digits-zero w zero = refl

  digits-fuel :
      (v w left right : ℕ)
      → v ≤ left
      → v ≤ right
      → digits rest op left v w ≡ digits rest op right v w
  digits-fuel zero w left right _ _ = digits-zero w left ∙ sym (digits-zero w right)
  digits-fuel (suc v) w (suc left) (suc right) lo hi =
      omega (arith, digits-fuel (suc v / 2) (w / 2) left right (omega arith) (omega arith))
  digits-fuel (suc v) w zero right lo hi = absurd (omega arith)
  digits-fuel (suc v) w (suc left) zero lo hi = absurd (omega arith)

  -- The lowest digit, and the others.
  digits-halves :
      (v w : ℕ)
      → digits rest op (suc v) (suc v) w
        ≡ digits rest op (suc v / 2) (suc v / 2) (w / 2) * 2 + op (suc v % 2) (w % 2)
  digits-halves v w =
      omega (arith, digits-fuel (suc v / 2) (w / 2) v (suc v / 2) (omega arith) (omega arith))

pub bit_and_step : (v w : ℕ) → bit_and v w ≡ bit_and (v / 2) (w / 2) * 2 + min (v % 2) (w % 2)
bit_and_step (suc v) w =
    let halves = digits-halves (λ d. zero) min v w in
    omega (arith, halves, bit_and-bitwise (suc v / 2) (w / 2), bit_and-bitwise (suc v) w)
bit_and_step zero w = omega (arith, bit_and-bitwise 0 (w / 2), bit_and-bitwise 0 w)

pub bit_or_step : (v w : ℕ) → bit_or v w ≡ bit_or (v / 2) (w / 2) * 2 + max (v % 2) (w % 2)
bit_or_step (suc v) w =
    let halves = digits-halves (λ d. d) max v w in
    omega (arith, halves, bit_or-bitwise (suc v / 2) (w / 2), bit_or-bitwise (suc v) w)
bit_or_step zero w = omega (arith, bit_or-bitwise 0 (w / 2), bit_or-bitwise 0 w)

zero-bit_and : (w : ℕ) → bit_and 0 w ≡ 0
zero-bit_and = bit_and-bitwise 0

-- Zero as the second word, for a first word of at most `bound`.
zero_last : (bound v : ℕ) → v ≤ bound → (bit_and v 0 ≡ 0) × (bit_or v 0 ≡ v)
zero_last bound zero _ = (refl, refl)
zero_last (suc bound) (suc v) below =
    let ih = zero_last bound (suc v / 2) (omega arith) in
    (omega (arith, ih.0, bit_and_step (suc v) 0), omega (arith, ih.1, bit_or_step (suc v) 0))
zero_last zero (suc v) below = absurd (omega arith)

pub bit_and-zero : (v : ℕ) → bit_and v 0 ≡ 0
bit_and-zero v = (zero_last v v (omega arith)).0

pub bit_or-zero : (v : ℕ) → bit_or v 0 ≡ v
bit_or-zero v = (zero_last v v (omega arith)).1

-- Bit `b` of a word.
pub bit : ℕ → ℕ → Bool
bit w zero = w % 2 == 1
bit w (suc b) = bit (w / 2) b

-- `(w & (1 << b)) != 0` reads bit `b`.
pub bit_and-pow : (b w : ℕ) → (bit_and w (2 ^ b) == 0) ≡ (if bit w b then false else true)
unfolding bit
bit_and-pow zero w = ground (arith, bit_and_step w 1, bit_and-zero (w / 2))
bit_and-pow (suc b) w =
    ground (arith, bit_and_step w (2 ^ suc b), pow-suc 2 b, bit_and-pow b (w / 2))

bit_or-pow_zero-half : (w : ℕ) → bit_or w 1 / 2 ≡ w / 2
bit_or-pow_zero-half w = omega (arith, bit_or_step w 1, bit_or-zero (w / 2))

bit_or-pow_suc-half : (b w : ℕ) → bit_or w (2 ^ suc b) / 2 ≡ bit_or (w / 2) (2 ^ b)
bit_or-pow_suc-half b w = ground (arith, bit_or_step w (2 ^ suc b), pow-suc 2 b)

-- `w | (1 << b)` sets bit `b` and no other.
pub bit-bit_or : (b w c : ℕ) → bit (bit_or w (2 ^ b)) c ≡ (if b == c then true else bit w c)
unfolding bit
bit-bit_or zero w zero = ground (arith, bit_or_step w 1, bit_or-zero (w / 2))
bit-bit_or zero w (suc c) = rw (bit_or-pow_zero-half w) (ground arith)
bit-bit_or (suc b) w zero = ground (arith, bit_or_step w (2 ^ suc b), pow-suc 2 b)
bit-bit_or (suc b) w (suc c) = rw (bit_or-pow_suc-half b w, bit-bit_or b (w / 2) c) (ground arith)

-- `2 ^ n - 1`: all the bits of an n-bit word.
pub bit_and-ones : (n w : ℕ) → w < 2 ^ n → bit_and w (2 ^ n - 1) ≡ w
bit_and-ones zero w h = ground (arith, bit_and-zero w)
bit_and-ones (suc n) w h =
    ground
      (arith, bit_and_step w (2 ^ suc n - 1), pow-suc 2 n, one-le-pow n 2, bit_and-ones n (w / 2))

pow-lt : (n b : ℕ) → b < n → 2 ^ b + 1 ≤ 2 ^ n
pow-lt zero b h = absurd (omega arith)
pow-lt (suc n) zero h = omega (arith, pow-suc 2 n, one-le-pow n 2)
pow-lt (suc n) (suc b) h = omega (arith, pow-suc 2 n, pow-suc 2 b, pow-lt n b)

mask-half : (n b : ℕ) → b < n → (2 ^ suc n - 1 - 2 ^ suc b) / 2 ≡ 2 ^ n - 1 - 2 ^ b
mask-half n b h = omega (arith, pow-suc 2 n, pow-suc 2 b, pow-lt n b h)

bit_and-mask_zero-half : (n w : ℕ) → w < 2 ^ suc n → bit_and w (2 ^ suc n - 1 - 1) / 2 ≡ w / 2
bit_and-mask_zero-half n w h =
    ground (
      arith,
      bit_and_step w (2 ^ suc n - 1 - 1),
      pow-suc 2 n,
      one-le-pow n 2,
      bit_and-ones n (w / 2),
    )

bit_and-mask_suc-half :
    (n b w : ℕ)
    → b < n
    → bit_and w (2 ^ suc n - 1 - 2 ^ suc b) / 2 ≡ bit_and (w / 2) (2 ^ n - 1 - 2 ^ b)
bit_and-mask_suc-half n b w h =
    ground (arith, bit_and_step w (2 ^ suc n - 1 - 2 ^ suc b), mask-half n b h)

-- `w & ~(1 << b)` clears bit `b` and no other, in a word of `n` bits.
pub bit-bit_and_mask :
    (n b w c : ℕ)
    → b < n
    → w < 2 ^ n
    → bit (bit_and w (2 ^ n - 1 - 2 ^ b)) c ≡ (if b == c then false else bit w c)
unfolding bit
bit-bit_and_mask zero b w c h k = absurd (omega arith)
bit-bit_and_mask (suc n) zero w zero h k =
    ground (arith, bit_and_step w (2 ^ suc n - 1 - 1), pow-suc 2 n, one-le-pow n 2)
bit-bit_and_mask (suc n) zero w (suc c) h k = rw (bit_and-mask_zero-half n w k) (ground arith)
bit-bit_and_mask (suc n) (suc b) w zero h k = ground (
  arith,
  bit_and_step w (2 ^ suc n - 1 - 2 ^ suc b),
  pow-suc 2 n,
  pow-suc 2 b,
  pow-lt n b (omega arith),
)
bit-bit_and_mask (suc n) (suc b) w (suc c) h k =
    rw
      (
        bit_and-mask_suc-half n b w (omega arith),
        bit-bit_and_mask n b (w / 2) c (omega arith) (omega (arith, pow-suc 2 n)),
      )
      (ground arith)

pub bit_and-le : (n a b : ℕ) → a ≤ n → bit_and a b ≤ a
bit_and-le zero zero b h = omega (arith, zero-bit_and b)
bit_and-le zero (suc a) b h = absurd (omega arith)
bit_and-le (suc n) zero b h = omega (arith, zero-bit_and b)
bit_and-le (suc n) (suc a) b h =
    omega (arith, bit_and_step (suc a) b, bit_and-le n (suc a / 2) (b / 2) (omega arith))

-- Setting a bit of an n-bit word gives an n-bit word.
pub bit_or-lt : (n b w : ℕ) → b < n → w < 2 ^ n → bit_or w (2 ^ b) < 2 ^ n
bit_or-lt zero b w h k = absurd (omega arith)
bit_or-lt (suc n) zero w h k = ground (arith, bit_or_step w 1, bit_or-zero (w / 2), pow-suc 2 n)
bit_or-lt (suc n) (suc b) w h k =
    ground (arith, bit_or_step w (2 ^ suc b), pow-suc 2 n, pow-suc 2 b, bit_or-lt n b (w / 2))

doubled : (a h q p s : ℕ) → a ≡ h * 2 → h ≡ q * p → s ≡ p * 2 → a ≡ q * s
doubled a h q p s e f g = rw (e, f, g) (mul_assoc q p 2)

-- `w & ~(2 ^ k - 1)` rounds an n-bit word down to a multiple of `2 ^ k`.
pub bit_and-round :
    (n k w : ℕ)
    → k ≤ n
    → w < 2 ^ n
    → (q : ℕ) × (bit_and w (2 ^ n - 2 ^ k) ≡ q * 2 ^ k)
      × (bit_and w (2 ^ n - 2 ^ k) ≤ w)
      × (w < bit_and w (2 ^ n - 2 ^ k) + 2 ^ k)
bit_and-round n zero w h k =
    let same = bit_and-ones n w k in
    (w, omega (arith, same), omega (arith, same), omega (arith, same))
bit_and-round zero (suc b) w h k = absurd (omega arith)
bit_and-round (suc n) (suc b) w h k =
    let (q, e, lo, hi) = bit_and-round n b (w / 2) (omega arith) (omega (arith, pow-suc 2 n)) in
    let half : (2 ^ suc n - 2 ^ suc b) / 2 ≡ 2 ^ n - 2 ^ b =
      omega (arith, pow-suc 2 n, pow-suc 2 b) in
    let even : (2 ^ suc n - 2 ^ suc b) % 2 ≡ 0 = omega (arith, pow-suc 2 n, pow-suc 2 b) in
    let step : bit_and w (2 ^ suc n - 2 ^ suc b) ≡ bit_and (w / 2) (2 ^ n - 2 ^ b) * 2 =
      bit_and_step w (2 ^ suc n - 2 ^ suc b) ∙ rw (half, even) (omega arith) in
    (
      q,
      doubled _ _ q (2 ^ b) (2 ^ suc b) step e (pow-suc 2 b),
      omega (arith, step, lo),
      omega (arith, step, hi, pow-suc 2 b),
    )
