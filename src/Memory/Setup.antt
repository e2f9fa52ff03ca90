-- ===== src/Memory/Setup.antt =====
-- InitializeMemoryManager and InitializeHeap of kernel/memory_manager.cpp.
pub mod Frames
use mathlib.Core.Option
use min_os.Common.{
  ℕ, ◌+◌, ◌-◌, ◌*◌, ◌/◌, ◌%◌, ◌^◌, Bool, ltb, if◌then◌else◌, List, [], ◌∷◌, Option, none, some,
  add64,
}
use min_os.Error.{Code, success, fails, WithError}
use min_os.Memory.{
  Manager, empty_manager, mark_allocated, set_memory_range, allocate, bytes_per_frame,
}
use min_os.Memory.Map.{MemoryDescriptor, is_available, uefi_page_size, sort_memory_map}

-- number_of_pages * kUEFIPageSize, in 64 bits.
abbrev pub byte_size : MemoryDescriptor → ℕ
byte_size desc = desc.number_of_pages * uefi_page_size % 2 ^ 64

-- The end of the last available descriptor, and the map of frames.
pub record Progress : Type 0 where
  pub available_end : ℕ
  pub manager : Manager

-- The gap before a descriptor is marked.
pub mark_gap : MemoryDescriptor → Progress → Progress
mark_gap desc p =
    if ltb p.available_end desc.physical_start
    then record p {
      manager =
          mark_allocated p.manager (p.available_end / bytes_per_frame)
            ((desc.physical_start - p.available_end) / bytes_per_frame);
    }
    else p

-- An available descriptor moves the end, any other is marked.
pub use_descriptor : MemoryDescriptor → Progress → Progress
use_descriptor desc p =
    if is_available desc.type
    then record p { available_end = add64 desc.physical_start (byte_size desc) }
    else record p {
      manager =
          mark_allocated p.manager (desc.physical_start / bytes_per_frame)
            (byte_size desc / bytes_per_frame);
    }

-- The loop over the descriptors.
pub read_map : List MemoryDescriptor → Progress → Progress
unfolding mark_gap use_descriptor
read_map [] p = p
read_map (desc ∷ rest) p = read_map rest (use_descriptor desc (mark_gap desc p))

-- InitializeMemoryManager up to the heap.
unfoldable pub initialize_frames : List MemoryDescriptor → Manager
unfolding read_map set_memory_range empty_manager sort_memory_map
initialize_frames memory_map =
    let p =
      read_map (sort_memory_map memory_map)
        (record { available_end = 0; manager = empty_manager }) in
    set_memory_range p.manager 1 (p.available_end / bytes_per_frame)

abbrev pub heap_frames : ℕ
heap_frames = 64 * 512

-- The two variables that sbrk of kernel/newlib_support.c works on.
pub record Break : Type 0 where
  pub program_break : ℕ
  pub program_break_end : ℕ

-- InitializeHeap after the call of Allocate; `none` where the function returns its error.
abbrev pub heap_of : Manager × WithError ℕ → Manager × Option Break
heap_of (m', heap_start) = (
  m',
  if fails heap_start.error
      then none
      else some (record {
        program_break = heap_start.value * bytes_per_frame % 2 ^ 64;
        program_break_end =
            add64 (heap_start.value * bytes_per_frame) (heap_frames * bytes_per_frame);
      }),
)

-- InitializeHeap; the outer option is the fuel of `allocate`.
pub initialize_heap : Manager → Option (Manager × Option Break)
unfolding allocate
initialize_heap m = Option.map heap_of (allocate m heap_frames)

-- InitializeMemoryManager; the inner `none` is exit(1).
unfoldable pub initialize_memory_manager : List MemoryDescriptor → Option (Manager × Option Break)
unfolding initialize_frames initialize_heap
initialize_memory_manager memory_map = initialize_heap (initialize_frames memory_map)
