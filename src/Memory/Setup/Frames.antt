-- ===== src/Memory/Setup/Frames.antt =====
-- The frames that InitializeMemoryManager of kernel/memory_manager.cpp leaves free.
use mathlib.Core.List.{Mem, mem-cons_self, mem-cons_of_mem}
use mathlib.Core.List.Perm
use min_os.Common.{
  ℕ, ◌+◌, ◌-◌, ◌*◌, ◌/◌, ◌%◌, ◌^◌, ◌<◌, ◌≤◌, ◌≡◌, true, false, Bool-cases, ltb, ◌⊎◌, inl, inr, List,
  [], ◌∷◌, arith, some, of_map-some, add64,
}
use min_os.Error.{WithError}
use min_os.Memory.{allocate, Manager, get_bit, empty_manager, set_memory_range, mark_allocated}
use min_os.Memory.Bitmap.{IsWords}
use min_os.Memory.Allocation.{
  IsValid, Success, allocate-Allocated, Allocated, found, failed, mark_allocated-marks,
  mark_allocated-IsWords,
}
use min_os.Memory.Map.{MemoryDescriptor, is_available, sort_memory_map}
use min_os.Memory.Map.Sorting.{sort_memory_map-IsSorted}
use min_os.Memory.Setup.{
  Progress, byte_size, mark_gap, use_descriptor, read_map, initialize_frames, initialize_heap,
  initialize_memory_manager, heap_frames, heap_of, Break,
}

-- A descriptor starts on a page, as UEFI guarantees, and ends within the 128 GiB that the array
-- alloc_map_ of kernel/memory_manager.hpp has bits for. The kernel does not check the end.
pub record IsPlaced (d : MemoryDescriptor) : Type 0 where
  pub on_page : d.physical_start % 4096 ≡ 0
  pub inside : d.physical_start + byte_size d ≤ 2 ^ 37

-- Frame `g` lies in the available descriptor `d`.
pub record Holds (d : MemoryDescriptor) (g : ℕ) : Type 0 where
  pub available : is_available d.type ≡ true
  pub from : d.physical_start ≤ g * 4096
  pub to : g * 4096 < d.physical_start + byte_size d

record Good (Q : ℕ → Type 0) (p : Progress) : Type 0 where
  on_page : p.available_end % 4096 ≡ 0
  small : p.available_end < 2 ^ 64
  words : IsWords p.manager
  held : (g : ℕ) → g * 4096 < p.available_end → get_bit p.manager g ≡ false → Q g

mark_gap-free :
    (d : MemoryDescriptor) (p : Progress) (g : ℕ)
    → IsPlaced d
    → IsWords p.manager
    → p.available_end % 4096 ≡ 0
    → get_bit (mark_gap d p).manager g ≡ false
    → (get_bit p.manager g ≡ false) × ((g * 4096 < p.available_end) ⊎ (d.physical_start ≤ g * 4096))
unfolding mark_gap
mark_gap-free d p g pl w a h = ground (
  arith,
  mark_allocated-marks p.manager (p.available_end / 4096)
      ((d.physical_start - p.available_end) / 4096) g w,
  pl.on_page,
  pl.inside,
)

mark_gap-IsWords :
    (d : MemoryDescriptor) (p : Progress) → IsWords p.manager → IsWords (mark_gap d p).manager
unfolding mark_gap
mark_gap-IsWords d p w = elim (Bool-cases (ltb p.available_end d.physical_start)) [
  | inl e ↦ rw e (mark_allocated-IsWords p.manager _ _ w)
  | inr e ↦ rw e w
]

available_end-mark_gap :
    (d : MemoryDescriptor) (p : Progress) → (mark_gap d p).available_end ≡ p.available_end
unfolding mark_gap
available_end-mark_gap d p = ground arith

-- After the gap before `d` is marked, a free frame below `d` was held before.
gap-held :
    (Q : ℕ → Type 0) (d : MemoryDescriptor) (p : Progress) (g : ℕ)
    → IsPlaced d
    → Good Q p
    → get_bit (mark_gap d p).manager g ≡ false
    → Q g ⊎ (d.physical_start ≤ g * 4096)
gap-held Q d p g pl v h =
    let f = mark_gap-free d p g pl v.words v.on_page h in
    elim f.1 [ inl low ↦ inl (v.held g low f.0) | inr high ↦ inr high ]

-- One descriptor: what is free below the end was held before, or lies in the descriptor.
use_available-Good :
    (Q : ℕ → Type 0) (d : MemoryDescriptor) (p : Progress)
    → is_available d.type ≡ true
    → IsPlaced d
    → Good Q p
    → Good (λ g. Q g ⊎ Holds d g) (use_descriptor d (mark_gap d p))
unfolding use_descriptor
use_available-Good Q d p e pl v = rw e (record {
  on_page = omega (arith, pl.on_page, pl.inside);
  small = omega (arith, pl.inside);
  words = mark_gap-IsWords d p v.words;
  held = λ g low free. elim (gap-held Q d p g pl v free) [
    | inl q ↦ inl q
    | inr high ↦ inr (record { available = e; from = high; to = omega (arith, pl.inside) })
  ];
})

use_other-Good :
    (Q : ℕ → Type 0) (d : MemoryDescriptor) (p : Progress)
    → is_available d.type ≡ false
    → IsPlaced d
    → Good Q p
    → Good (λ g. Q g ⊎ Holds d g) (use_descriptor d (mark_gap d p))
unfolding use_descriptor
use_other-Good Q d p e pl v = rw e (record {
  on_page = rw (available_end-mark_gap d p) v.on_page;
  small = rw (available_end-mark_gap d p) v.small;
  words =
      mark_allocated-IsWords (mark_gap d p).manager (d.physical_start / 4096) (byte_size d / 4096)
        (mark_gap-IsWords d p v.words);
  held = λ g low free. inl (
      v.held g (rw (available_end-mark_gap d p) at low)
        (mark_gap-free d p g pl v.words v.on_page (was_free g free)).0);
})
  where
    was_free :
        (g : ℕ)
        → get_bit
            (mark_allocated (mark_gap d p).manager (d.physical_start / 4096) (byte_size d / 4096))
            g
          ≡ false
        → get_bit (mark_gap d p).manager g ≡ false
    was_free g free = ground (
      arith,
      mark_allocated-marks (mark_gap d p).manager (d.physical_start / 4096) (byte_size d / 4096) g
          (mark_gap-IsWords d p v.words),
      pl.inside,
    )

use_descriptor-Good :
    (Q : ℕ → Type 0) (d : MemoryDescriptor) (p : Progress)
    → IsPlaced d
    → Good Q p
    → Good (λ g. Q g ⊎ Holds d g) (use_descriptor d (mark_gap d p))
use_descriptor-Good Q d p pl v = elim (Bool-cases (is_available d.type)) [
  | inl e ↦ use_available-Good Q d p e pl v
  | inr e ↦ use_other-Good Q d p e pl v
]

-- Some descriptor of the map holds the frame.
abbrev pub Held : List MemoryDescriptor → ℕ → Type 0
Held l g = (d : MemoryDescriptor) × Mem d l × Holds d g

read_map-Good :
    (Q : ℕ → Type 0) (l : List MemoryDescriptor) (p : Progress)
    → ((d : MemoryDescriptor) → Mem d l → IsPlaced d)
    → Good Q p
    → Good (λ g. Q g ⊎ Held l g) (read_map l p)
unfolding read_map
read_map-Good Q [] p pl v = record {
  on_page = v.on_page;
  small = v.small;
  words = v.words;
  held = λ g low free. inl (v.held g low free);
}
read_map-Good Q (d ∷ l) p pl v = weaken (
    read_map-Good (λ g. Q g ⊎ Holds d g) l (use_descriptor d (mark_gap d p))
      (λ e m. pl e (mem-cons_of_mem d m)) (use_descriptor-Good Q d p (pl d mem-cons_self) v))
  where
    move : (g : ℕ) → (Q g ⊎ Holds d g) ⊎ Held l g → Q g ⊎ Held (d ∷ l) g
    move g (inl (inl q)) = inl q
    move g (inl (inr h)) = inr (d, mem-cons_self, h)
    move g (inr (e, m, h)) = inr (e, mem-cons_of_mem d m, h)

    weaken :
        Good (λ g. (Q g ⊎ Holds d g) ⊎ Held l g) (read_map l (use_descriptor d (mark_gap d p)))
        → Good (λ g. Q g ⊎ Held (d ∷ l) g) (read_map l (use_descriptor d (mark_gap d p)))
    weaken w = record {
      on_page = w.on_page;
      small = w.small;
      words = w.words;
      held = λ g low free. move g (w.held g low free);
    }

abbrev start : Progress
start = record { available_end = 0; manager = empty_manager }

start-Good : Good (λ g. ⊥) start
unfolding empty_manager
start-Good = record {
  on_page = omega arith;
  small = omega arith;
  words = λ i. omega arith;
  held = λ g low free. absurd (omega arith);
}

sorted-Good :
    (l : List MemoryDescriptor)
    → ((d : MemoryDescriptor) → Mem d l → IsPlaced d)
    → Good (λ g. ⊥ ⊎ Held (sort_memory_map l) g) (read_map (sort_memory_map l) start)
sorted-Good l pl =
    read_map-Good (λ g. ⊥) (sort_memory_map l) start
      (λ d m. pl d ((Perm.mem_iff (sort_memory_map-IsSorted l).0).1 m)) start-Good

-- Of the frames below the end of its range, InitializeMemoryManager leaves free only such as lie in
-- an available descriptor of the memory map, when every descriptor starts on a page and ends within
-- the 128 GiB of the bitmap.
pub initialize_frames-Held :
    (l : List MemoryDescriptor)
    → ((d : MemoryDescriptor) → Mem d l → IsPlaced d)
    → (g : ℕ) → g < (initialize_frames l).range_end
    → get_bit (initialize_frames l) g ≡ false
    → Held l g
unfolding initialize_frames set_memory_range get_bit
initialize_frames-Held l pl g low free = place (v.held g (omega (arith, v.on_page)) free)
  where
    v : Good (λ g. ⊥ ⊎ Held (sort_memory_map l) g) (read_map (sort_memory_map l) start)
    v = sorted-Good l pl

    place : ⊥ ⊎ Held (sort_memory_map l) g → Held l g
    place (inl no_frame) = absurd no_frame
    place (inr (d, m, h)) = (d, (Perm.mem_iff (sort_memory_map-IsSorted l).0).1 m, h)

initialize_frames-IsValid :
    (l : List MemoryDescriptor)
    → ((d : MemoryDescriptor) → Mem d l → IsPlaced d)
    → 1 ≤ (initialize_frames l).range_end
    → IsValid (initialize_frames l) × ((initialize_frames l).range_end * 4096 < 2 ^ 64)
unfolding initialize_frames set_memory_range
initialize_frames-IsValid l pl h = (
  record { words = v.words; ordered = h; small = omega (arith, v.small) },
  omega (arith, v.small),
)
  where
    v : Good (λ g. ⊥ ⊎ Held (sort_memory_map l) g) (read_map (sort_memory_map l) start)
    v = sorted-Good l pl

-- The heap is a run that Allocate gave, as an interval of addresses.
record IsHeap (m m' : Manager) (b : Break) : Type 0 where
  frame : ℕ
  run : Success m heap_frames m' frame
  low : b.program_break ≡ frame * 4096 % 2 ^ 64
  high : b.program_break_end ≡ add64 (frame * 4096) (heap_frames * 4096)

heap_of-IsHeap :
    (m m' : Manager) (b : Break) (r : Manager × WithError ℕ)
    → Allocated m heap_frames r
    → heap_of r ≡ (m', some b)
    → IsHeap m m' b
heap_of-IsHeap m m' b r (found s lo fits all first) e = record {
  frame = s;
  run = record { above = lo; fits = fits; was_free = all; marked = cc };
  low = ground arith;
  high = ground arith;
}
heap_of-IsHeap m m' b r (failed none_free) e = absurd (ground arith)

initialize_heap-IsHeap :
    (m m' : Manager) (b : Break) → IsValid m → initialize_heap m ≡ some (m', some b) → IsHeap m m' b
unfolding initialize_heap
initialize_heap-IsHeap m m' b v e =
    let (r, done, spec) = allocate-Allocated m heap_frames v (omega arith) in
    heap_of-IsHeap m m' b r spec (of_map-some heap_of (allocate m heap_frames) done e)

-- When InitializeMemoryManager succeeds over a map whose descriptors start on a page and end
-- within the 128 GiB of the bitmap, and which has at least a page of available memory, every page frame
-- of the heap that it gives to sbrk lies in an available descriptor of the map.
pub initialize_memory_manager-Held :
    (l : List MemoryDescriptor) (m : Manager) (b : Break)
    → ((d : MemoryDescriptor) → Mem d l → IsPlaced d)
    → 1 ≤ (initialize_frames l).range_end
    → initialize_memory_manager l ≡ some (m, some b)
    → (g : ℕ) → b.program_break ≤ g * 4096
    → g * 4096 < b.program_break_end
    → Held l g
unfolding initialize_memory_manager
initialize_memory_manager-Held l m b pl page e g lo hi =
    initialize_frames-Held l pl g (omega (arith, h.run.fits, h.high, h.low, v.1)) (
      h.run.was_free g (omega (arith, h.run.fits, h.low, v.1))
        (omega (arith, h.run.fits, h.high, v.1)))
  where
    v : IsValid (initialize_frames l) × ((initialize_frames l).range_end * 4096 < 2 ^ 64)
    v = initialize_frames-IsValid l pl page

    h : IsHeap (initialize_frames l) m b
    h = initialize_heap-IsHeap (initialize_frames l) m b v.0 e
