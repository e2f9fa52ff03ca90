-- ===== src/Memory/Bitmap.antt =====
-- SetBit and GetBit over kernel/memory_manager.cpp's lines, as a set of frames.
use min_os.Common.{
  ℕ, zero, suc, ◌+◌, ◌-◌, ◌/◌, ◌%◌, ◌^◌, ◌<◌, ◌≡◌, refl, Bool, true, false, ◌&&◌, leb, ltb, ◌==◌,
  if◌then◌else◌, add64, arith,
}
use min_os.Common.Bits.{bit, bit_and-pow, bit-bit_or, bit-bit_and_mask, bit_or-lt, bit_and-le}
use min_os.Memory.{Manager, get_bit, set_bit, set_bits}

-- Every line is a 64-bit word.
abbrev pub IsWords : Manager → Type 0
IsWords m = (i : ℕ) → m.alloc_map i < 2 ^ 64

pub get_bit-eq-bit :
    (m : Manager) (frame : ℕ) → get_bit m frame ≡ bit (m.alloc_map (frame / 64)) (frame % 64)
unfolding get_bit
get_bit-eq-bit m frame = ground (arith, bit_and-pow (frame % 64) (m.alloc_map (frame / 64)))

pub set_bit-IsWords : (m : Manager) (frame : ℕ) (v : Bool) → IsWords m → IsWords (set_bit m frame v)
unfolding set_bit
set_bit-IsWords m frame v w i = ground (
  arith,
  w i,
  w (frame / 64),
  bit_or-lt 64 (frame % 64) (m.alloc_map (frame / 64)),
  bit_and-le (m.alloc_map (frame / 64)) (m.alloc_map (frame / 64)) (2 ^ 64 - 1 - 2 ^ (frame % 64)),
)

-- A write changes the frame that it names, and no other.
pub get_bit-set_bit :
    (m : Manager) (frame : ℕ) (v : Bool) (g : ℕ)
    → IsWords m
    → get_bit (set_bit m frame v) g ≡ (if frame == g then v else get_bit m g)
unfolding set_bit
get_bit-set_bit m frame true g w =
    rw (get_bit-eq-bit m g, get_bit-eq-bit (set_bit m frame true) g)
      (ground (arith, bit-bit_or (frame % 64) (m.alloc_map (frame / 64)) (g % 64)))
get_bit-set_bit m frame false g w =
    rw (get_bit-eq-bit m g, get_bit-eq-bit (set_bit m frame false) g)
      (ground (
        arith,
        bit-bit_and_mask 64 (frame % 64) (m.alloc_map (frame / 64)) (g % 64),
        w (frame / 64),
      ))

-- Whether `g` is one of the `n` frames from `start` on.
abbrev pub within : ℕ → ℕ → ℕ → Bool
within start n g = leb start g && ltb g (start + n)

pub set_bits-IsWords :
    (v : Bool) (m : Manager) (start n i : ℕ) → IsWords m → IsWords (set_bits v m start n i)
unfolding set_bits
set_bits-IsWords v m start zero i w = w
set_bits-IsWords v m start (suc n) i w =
    set_bits-IsWords v (set_bit m (add64 start i) v) start n (i + 1)
      (set_bit-IsWords m (add64 start i) v w)

-- The loop of MarkAllocated and of Free writes the frames that it goes through, and no other.
pub get_bit-set_bits :
    (v : Bool) (m : Manager) (start n i g : ℕ)
    → IsWords m
    → start + i + n < 2 ^ 64
    → get_bit (set_bits v m start n i) g ≡ (if within (start + i) n g then v else get_bit m g)
unfolding set_bits
get_bit-set_bits v m start zero i g w h = ground arith
get_bit-set_bits v m start (suc n) i g w h = ground (
  arith,
  get_bit-set_bits v (set_bit m (add64 start i) v) start n (i + 1) g,
  set_bit-IsWords m (add64 start i) v w,
  get_bit-set_bit m (add64 start i) v g w,
)

-- Neither loop moves the range.
pub range_end-set_bits :
    (v : Bool) (m : Manager) (start n i : ℕ)
    → ((set_bits v m start n i).range_end ≡ m.range_end)
      × ((set_bits v m start n i).range_begin ≡ m.range_begin)
unfolding set_bits set_bit
range_end-set_bits v m start zero i = (refl, refl)
range_end-set_bits v m start (suc n) i =
    range_end-set_bits v (set_bit m (add64 start i) v) start n (i + 1)
