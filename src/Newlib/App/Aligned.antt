-- ===== src/Newlib/App/Aligned.antt =====
-- posix_memalign of apps/newlib_support.c.
use Prim.Native.Nat.{bit_and}
use min_os.Common.{
  ap, ◌∙◌, ℕ, ◌+◌, ◌-◌, ◌*◌, ◌^◌, ◌≤◌, ◌<◌, ◌≡◌, ◌≢◌, refl, none, some, add64, arith, ==_ne,
}
use min_os.Common.Bits.{bit_and-round}
use native.Mathlib.Nat.{one-le-pow}
use min_os.Newlib.App.{posix_memalign, minus_one}

posix_memalign-masks :
    (malloc : ℕ → ℕ) (k size : ℕ)
    → let block = malloc (size + 2 ^ k - 1) in
      k < 64
      → 2 ^ k < 2 ^ 64
      → size + 2 ^ k < 2 ^ 64
      → block ≢ 0
      → block + (size + 2 ^ k) < 2 ^ 64
      → posix_memalign malloc (2 ^ k) size
        ≡ record { returned = none; memptr = some (bit_and (block + 2 ^ k - 1) (2 ^ 64 - 2 ^ k)) }
unfolding posix_memalign
posix_memalign-masks malloc k size small narrow fits got room =
    let pow = one-le-pow k 2 in
    let asked : minus_one (add64 size (2 ^ k)) ≡ size + 2 ^ k - 1 = omega (arith, pow) in
    let block = malloc (size + 2 ^ k - 1) in
    let up : minus_one (add64 block (2 ^ k)) ≡ block + 2 ^ k - 1 = omega (arith, pow) in
    let mask : 2 ^ 64 - 1 - minus_one (2 ^ k) ≡ 2 ^ 64 - 2 ^ k = omega (arith, pow) in
    rw (posix_memalign, asked, ==_ne block 0 got, up, mask) refl

-- When malloc gives a block that fits in memory, and the alignment is a power of two,
-- posix_memalign stores an address that is a multiple of the alignment and from which `size`
-- bytes lie in the block. But it returns no value.
pub posix_memalign-aligned :
    (malloc : ℕ → ℕ) (k size : ℕ)
    → let block = malloc (size + 2 ^ k - 1) in
      k < 64
      → size + 2 ^ k < 2 ^ 64
      → block ≢ 0
      → block + (size + 2 ^ k) < 2 ^ 64
      → (q : ℕ) × (posix_memalign malloc (2 ^ k) size
          ≡ record { returned = none; memptr = some (q * 2 ^ k) })
        × (block ≤ q * 2 ^ k)
        × (q * 2 ^ k + size ≤ block + (size + 2 ^ k - 1))
posix_memalign-aligned malloc k size small fits got room =
    let pow = one-le-pow k 2 in
    let block = malloc (size + 2 ^ k - 1) in
    let (q, e, lo, hi) = bit_and-round 64 k (block + 2 ^ k - 1) (omega arith) (omega arith) in
    (
      q,
      posix_memalign-masks malloc k size small (omega arith) fits got room
          ∙ ap (λ a. record { returned = none; memptr = some a }) e,
      omega (arith, e, hi),
      omega (arith, e, lo, pow),
    )
