-- ===== src/Memory.antt =====
-- kernel/memory_manager.cpp and memory_manager.hpp: the bitmap of page frames.
-- A FrameID is its number. `alloc_map_` is the function from the index of a line to its 64-bit
-- word; the C++ array has `line_count` lines, and an index past it is undefined there.
pub mod Bitmap
pub mod Allocation
pub mod Freeing
pub mod Map
pub mod Setup
mod Tests
use Prim.Native.Nat.{bit_and, bit_or}
use min_os.Common.{
  ℕ, zero, suc, ◌+◌, ◌-◌, ◌/◌, ◌%◌, ◌^◌, ◌*◌, Bool, true, false, not, Option, none, some, leb, ◌==◌,
  if◌then◌else◌, add64,
}
use min_os.Error.{Code, success, no_enough_memory, WithError}

-- kBytesPerFrame, kMaxPhysicalMemoryBytes / kBytesPerFrame and kBitsPerMapLine.
abbrev pub bytes_per_frame : ℕ
bytes_per_frame = 4096

abbrev pub frame_count : ℕ
frame_count = 128 * 1024 * 1024 * 1024 / bytes_per_frame

abbrev pub bits_per_map_line : ℕ
bits_per_map_line = 64

abbrev pub line_count : ℕ
line_count = frame_count / bits_per_map_line

-- kNullFrame: the largest size_t.
abbrev pub null_frame : ℕ
null_frame = 2 ^ 64 - 1

pub record Manager : Type 0 where
  pub alloc_map : ℕ → ℕ
  pub range_begin : ℕ
  pub range_end : ℕ

-- The constructor.
pub empty_manager : Manager
empty_manager = record { alloc_map = λ i. 0; range_begin = 0; range_end = frame_count }

unfoldable pub get_bit : Manager → ℕ → Bool
get_bit m frame =
    let line_index = frame / bits_per_map_line in
    let bit_index = frame % bits_per_map_line in
    not (bit_and (m.alloc_map line_index) (2 ^ bit_index) == 0)

-- `~(1 << bit_index)` of a 64-bit word is all ones less that bit.
unfoldable pub set_bit : Manager → ℕ → Bool → Manager
set_bit m frame allocated =
    let line_index = frame / bits_per_map_line in
    let bit_index = frame % bits_per_map_line in
    let old = m.alloc_map line_index in
    let new =
      if allocated then bit_or old (2 ^ bit_index) else bit_and old (2 ^ 64 - 1 - 2 ^ bit_index) in
    record m { alloc_map = λ i. if i == line_index then new else m.alloc_map i }

-- for (i = 0; i < num_frames; ++i) SetBit(FrameID{start_frame.ID() + i}, v), from round i on.
pub set_bits : Bool → Manager → ℕ → ℕ → ℕ → Manager
set_bits v m start zero i = m
set_bits v m start (suc rounds) i = set_bits v (set_bit m (add64 start i) v) start rounds (i + 1)

pub mark_allocated : Manager → ℕ → ℕ → Manager
unfolding set_bits
mark_allocated m start num_frames = set_bits true m start num_frames 0

pub set_memory_range : Manager → ℕ → ℕ → Manager
set_memory_range m range_begin range_end = record m {
  range_begin = range_begin;
  range_end = range_end;
}

-- What the inner loop of Allocate finds: the end of the range, an allocated frame, or room.
pub data Scan : Type 0 where
  exhausted : Scan
  busy : ℕ → Scan
  room : Scan

-- The inner loop, with the rounds that are left and `i`.
pub scan : Manager → ℕ → ℕ → ℕ → Scan
scan m start zero i = room
scan m start (suc rounds) i =
    let rest = scan m start rounds (i + 1) in
    if leb m.range_end (add64 start i)
    then exhausted
    else if get_bit m (add64 start i)
    then busy i
    else rest

-- What the body of the outer loop does next; the loop goes round again at a busy frame.
abbrev pub after_scan :
    Manager → ℕ → ℕ → (ℕ → Option (Manager × WithError ℕ)) → Scan → Option (Manager × WithError ℕ)
after_scan m num_frames start again exhausted =
    some (m, record { value = null_frame; error = no_enough_memory })
after_scan m num_frames start again room =
    some (mark_allocated m start num_frames, record { value = start; error = success })
after_scan m num_frames start again (busy i) = again i

-- The outer loop; `none` means that the fuel ran out.
pub allocate_from : ℕ → Manager → ℕ → ℕ → Option (Manager × WithError ℕ)
unfolding mark_allocated scan
allocate_from zero m num_frames start = none
allocate_from (suc fuel) m num_frames start =
    after_scan m num_frames start (λ i. allocate_from fuel m num_frames (add64 start (i + 1)))
      (scan m start num_frames 0)

-- Each round but the last moves `start` up, and past `range_end` there is no further round.
unfoldable pub allocate : Manager → ℕ → Option (Manager × WithError ℕ)
unfolding allocate_from
allocate m num_frames = allocate_from (m.range_end + 1) m num_frames m.range_begin

pub free : Manager → ℕ → ℕ → Manager × Code
free m start num_frames = (set_bits false m start num_frames 0, success)

pub get_map_line : Manager → ℕ → ℕ
get_map_line m idx = m.alloc_map idx
