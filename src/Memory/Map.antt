-- ===== src/Memory/Map.antt =====
-- kernel/memory_map.hpp: the UEFI memory map and its in-place sort.
-- The buffer is the list of its descriptors, one for each `descriptor_size` bytes. The bytes of a
-- stride past the fields of MemoryDescriptor are never read, and are left out.
pub mod Sorting
use min_os.Common.{ℕ, zero, suc, Bool, ◌||◌, ◌==◌, ltb, if◌then◌else◌, List, [], ◌∷◌, length}

pub record MemoryDescriptor : Type 0 where
  pub type : ℕ
  pub physical_start : ℕ
  pub virtual_start : ℕ
  pub number_of_pages : ℕ
  pub attribute : ℕ

-- The enumerators of MemoryType that IsAvailable names.
abbrev pub boot_services_code : ℕ
boot_services_code = 3

abbrev pub boot_services_data : ℕ
boot_services_data = 4

abbrev pub conventional_memory : ℕ
conventional_memory = 7

abbrev pub is_available : ℕ → Bool
is_available memory_type =
    memory_type == boot_services_code
    || memory_type == boot_services_data
    || memory_type == conventional_memory

abbrev pub uefi_page_size : ℕ
uefi_page_size = 4096

-- What stands at `i` and at `j` after the comparison, and the swap if it is made.
pub swap_if_greater : MemoryDescriptor → MemoryDescriptor → MemoryDescriptor × MemoryDescriptor
swap_if_greater mem_a mem_b =
    if ltb mem_b.physical_start mem_a.physical_start then (mem_b, mem_a) else (mem_a, mem_b)

-- The inner loop: what stands at `i`, with the descriptors at `j`, `j + 1`, ... to the end.
pub sort_row : MemoryDescriptor → List MemoryDescriptor → MemoryDescriptor × List MemoryDescriptor
unfolding swap_if_greater
sort_row mem_a [] = (mem_a, [])
sort_row mem_a (mem_b ∷ rest) =
    let (a, b) = swap_if_greater mem_a mem_b in
    let (least, others) = sort_row a rest in (least, b ∷ others)

-- The outer loop over the descriptors from `i` on, with the rounds that are left.
pub sort_from : ℕ → List MemoryDescriptor → List MemoryDescriptor
unfolding sort_row
sort_from zero l = l
sort_from (suc rounds) [] = []
sort_from (suc rounds) (mem_a ∷ rest) =
    let (least, others) = sort_row mem_a rest in least ∷ sort_from rounds others

unfoldable pub sort_memory_map : List MemoryDescriptor → List MemoryDescriptor
unfolding sort_from
sort_memory_map l = sort_from (length l) l
