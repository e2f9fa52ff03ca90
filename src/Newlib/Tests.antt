-- ===== src/Newlib/Tests.antt =====
-- Runs of newlib's support functions at small heaps.
use min_os.Common.{ℕ, pos, ◌+◌, ◌*◌, ◌^◌, ◌≤◌, ◌<◌, ◌≡◌, ◌⊎◌, refl, none, some, [], ◌∷◌, arith}
use min_os.Memory.Setup.{Break}
use min_os.Newlib.Kernel
use min_os.Newlib.Kernel.Breaks.{IsOpen, after, sbrk-grows, sbrk-disjoint}
use min_os.Newlib.App
use min_os.Newlib.App.{Heap, Memalign, posix_memalign}
use min_os.Newlib.App.Pages.{IsBacked, sbrk-IsBacked}
use min_os.Newlib.App.Aligned.{posix_memalign-aligned}

abbrev small_heap : Break
small_heap = record { program_break = 0x1000; program_break_end = 0x3000 }

small_heap-IsOpen : IsOpen small_heap
small_heap-IsOpen = record {
  started = omega arith;
  below_end = omega arith;
  in_memory = omega arith;
}

-- A block of the whole heap does not fit: the break never reaches the end.
sbrk-whole : (Kernel.sbrk small_heap (pos 0x2000)).1 ≡ none
unfolding Kernel.sbrk
sbrk-whole = refl

sixteen_bytes :
    IsOpen ((Kernel.sbrk small_heap (pos 16)).0)
    × ((0x1000 + 16 < 0x3000)
          × (Kernel.sbrk small_heap (pos 16)
              ≡ (record small_heap { program_break = 0x1000 + 16 }, some 0x1000))
        ⊎ (0x3000 ≤ 0x1000 + 16) × (Kernel.sbrk small_heap (pos 16) ≡ (small_heap, none)))
sixteen_bytes = sbrk-grows small_heap 16 small_heap-IsOpen (omega arith)

two_blocks : 0x1000 + 16 ≤ 0x1030
unfolding Kernel.sbrk after
two_blocks =
    sbrk-disjoint small_heap 16 (32 ∷ []) 8 0x1000 0x1030 small_heap-IsOpen
      (omega arith, (omega arith, tt)) (omega arith) refl refl

abbrev fresh : Heap
fresh = record { dpage_end = 0; program_break = 0; dpaging_end = 0x10000 }

grown-IsBacked :
    (h' : Heap) × (p : ℕ) × (App.sbrk fresh (pos 5000) ≡ some (h', some p))
    × (0 ≤ p)
    × (h'.program_break ≡ p + 5000)
    × (0 < h'.dpage_end)
    × IsBacked h'
grown-IsBacked =
    sbrk-IsBacked fresh 5000
      (record { within_dpage = omega arith; within_dpaging = omega arith; begun = omega arith })
      (omega arith) (omega arith)

posix_memalign-aligned_example :
    (q : ℕ) × (posix_memalign (λ n. 0x1234) (2 ^ 4) 40
      ≡ record { returned = none; memptr = some (q * 2 ^ 4) })
    × (0x1234 ≤ q * 2 ^ 4)
    × (q * 2 ^ 4 + 40 ≤ 0x1234 + 55)
posix_memalign-aligned_example =
    posix_memalign-aligned (λ n. 0x1234) 4 40 (omega arith) (omega arith) (omega arith)
      (omega arith)
