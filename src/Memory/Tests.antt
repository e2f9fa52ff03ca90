-- ===== src/Memory/Tests.antt =====
-- Runs of the frame bitmap and of its setup at small inputs, and the theorems at such inputs.
use mathlib.Core.List.{Mem, Perm, mem-cons, not-mem-nil}
use native.Mathlib.Bridge.{le_prop}
use native.Mathlib.Nat.{ℕ_set}
use mathlib.Core.Logic.Or
use min_os.Common.{ℕ, ◌≡◌, refl, true, false, Option, none, some, List, [], ◌∷◌, arith}
use min_os.Error.{WithError}
use min_os.Memory.{
  Manager, empty_manager, set_memory_range, allocate, free, get_bit, set_bit, mark_allocated,
  null_frame,
}
use min_os.Memory.Bitmap.{within}
use min_os.Memory.Allocation.{
  IsValid, Allocated, allocate-Allocated, allocate-disjoint, free-allocate,
}
use min_os.Memory.Map.{MemoryDescriptor, sort_memory_map}
use min_os.Memory.Map.Sorting.{IsSorted, sort_memory_map-IsSorted}
use min_os.Memory.Setup.{initialize_frames, initialize_memory_manager, Break}
use min_os.Memory.Setup.Frames.{
  IsPlaced, Held, initialize_frames-Held, initialize_memory_manager-Held,
}

-- Frames 1 to 9, of which 3 is taken.
abbrev one_taken : Manager
unfolding set_bit empty_manager set_memory_range
one_taken = set_bit (set_memory_range empty_manager 1 10) 3 true

one_taken-IsValid : IsValid one_taken
unfolding set_bit empty_manager set_memory_range
one_taken-IsValid = record { words = λ i. ground arith; ordered = omega arith; small = omega arith }

abbrev start_of : Option (Manager × WithError ℕ) → ℕ
start_of none = 0
start_of (some (m, r)) = r.value

-- Two frames fit in front of frame 3, three do not, and seven fit nowhere.
allocate-runs :
    (start_of (allocate one_taken 2) ≡ 1)
    × (start_of (allocate one_taken 3) ≡ 4)
    × (start_of (allocate one_taken 7) ≡ null_frame)
unfolding allocate one_taken get_bit
allocate-runs = (refl, refl, refl)

allocate-Allocated_example :
    (r : Manager × WithError ℕ) × (allocate one_taken 3 ≡ some r) × Allocated one_taken 3 r
allocate-Allocated_example = allocate-Allocated one_taken 3 one_taken-IsValid (omega arith)

given_back : get_bit (free (mark_allocated one_taken 4 3) 4 3).0 5 ≡ get_bit one_taken 5
unfolding allocate one_taken get_bit mark_allocated
given_back = free-allocate one_taken 3 one_taken-IsValid (omega arith) refl 5

two_runs : within 4 3 2 ≡ false
unfolding allocate one_taken get_bit mark_allocated
two_runs =
    allocate-disjoint one_taken 2 3 one_taken-IsValid (omega arith) (omega arith) refl refl 2 refl

abbrev loader : MemoryDescriptor
loader = record {
  type = 2;
  physical_start = 0x3000;
  virtual_start = 0;
  number_of_pages = 2;
  attribute = 0;
}

abbrev low : MemoryDescriptor
low = record {
  type = 7;
  physical_start = 0x1000;
  virtual_start = 0;
  number_of_pages = 2;
  attribute = 0;
}

-- The heap's 32768 frames and a page more.
abbrev high : MemoryDescriptor
high = record {
  type = 4;
  physical_start = 0x6000;
  virtual_start = 0;
  number_of_pages = 40000;
  attribute = 0;
}

abbrev three : List MemoryDescriptor
three = loader ∷ high ∷ low ∷ []

sort_memory_map-runs : sort_memory_map three ≡ low ∷ loader ∷ high ∷ []
unfolding sort_memory_map
sort_memory_map-runs = refl

initialize_frames-runs :
    (get_bit (initialize_frames three) 0 ≡ true)
    × (get_bit (initialize_frames three) 2 ≡ false)
    × (get_bit (initialize_frames three) 4 ≡ true)
    × (get_bit (initialize_frames three) 5 ≡ true)
    × (get_bit (initialize_frames three) 6 ≡ false)
unfolding initialize_frames mark_allocated get_bit set_bit
initialize_frames-runs = (refl, refl, refl, refl, refl)

sort_memory_map-IsSorted_example :
    Perm three (sort_memory_map three) × IsSorted (sort_memory_map three)
sort_memory_map-IsSorted_example = sort_memory_map-IsSorted three

IsPlaced-prop : (d : MemoryDescriptor) → IsProp (IsPlaced d)
IsPlaced-prop d = hlevel (le_prop, ℕ_set)

three-IsPlaced : (d : MemoryDescriptor) → Mem d three → IsPlaced d
three-IsPlaced d m =
    Or.elim (IsPlaced-prop d) (mem-cons.0 m) (λ e. rw e (omega arith))
      (λ m1.
        Or.elim (IsPlaced-prop d) (mem-cons.0 m1) (λ e. rw e (omega arith))
          (λ m2.
            Or.elim (IsPlaced-prop d) (mem-cons.0 m2) (λ e. rw e (omega arith))
              (λ m3. absurd (not-mem-nil m3))))

three-Held : Held three 7
unfolding initialize_frames mark_allocated get_bit set_bit
three-Held = initialize_frames-Held three three-IsPlaced 7 (omega arith) refl

heap_break : Break
heap_break = record { program_break = 0x6000; program_break_end = 0x8006000 }

heap_manager : Manager
heap_manager = mark_allocated (initialize_frames three) 6 32768

initialize_memory_manager-runs :
    initialize_memory_manager three ≡ some (heap_manager, some heap_break)
unfolding initialize_memory_manager heap_break heap_manager get_bit set_bit
initialize_memory_manager-runs = refl

initialize_memory_manager-Held_example : Held three 100
unfolding heap_break initialize_frames
initialize_memory_manager-Held_example =
    initialize_memory_manager-Held three heap_manager heap_break three-IsPlaced (omega arith)
      initialize_memory_manager-runs 100 (omega arith) (omega arith)
