-- ===== src/Memory/Freeing.antt =====
-- Free of one frame in kernel/memory_manager.cpp.
use min_os.Common.{ℕ, ◌%◌, ◌^◌, ◌≡◌, refl, false, ◌==◌, if◌then◌else◌, add64, arith}
use min_os.Error.{success}
use min_os.Memory.{Manager, get_bit, set_bits, free}
use min_os.Memory.Bitmap.{get_bit-set_bit, set_bits-IsWords, range_end-set_bits}
use min_os.Memory.Allocation.{IsValid}

-- A FrameID is a size_t.
pub get_bit-free :
    (m : Manager) (frame g : ℕ)
    → IsValid m
    → get_bit (free m frame 1).0 g ≡ (if frame % 2 ^ 64 == g then false else get_bit m g)
unfolding free set_bits
get_bit-free m frame g v = ground (arith, get_bit-set_bit m (add64 frame 0) false g v.words)

pub free-success : (m : Manager) (frame n : ℕ) → (free m frame n).1 ≡ success
unfolding free
free-success m frame n = refl

pub free-IsValid : (m : Manager) (frame n : ℕ) → IsValid m → IsValid (free m frame n).0
unfolding free
free-IsValid m frame n v = record {
  words = set_bits-IsWords false m frame n 0 v.words;
  ordered = omega (arith, v.ordered, range_end-set_bits false m frame n 0);
  small = omega (arith, v.small, range_end-set_bits false m frame n 0);
}
