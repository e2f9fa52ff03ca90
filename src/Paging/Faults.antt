-- ===== src/Paging/Faults.antt =====
-- HandlePageFault of kernel/paging.cpp with PreparePageCache and FindFileMapping, over what a Task of
-- kernel/task.hpp keeps of its address space. Load of a file descriptor is a parameter: the bytes
-- that it copies to the page, or `none` where it does not return.
pub mod Filling
pub mod Mending
use Prim.Native.Nat.{bit_and}
use min_os.Common.{
  ℕ, zero, suc, ◌+◌, ◌-◌, ◌*◌, ◌/◌, ◌%◌, ◌^◌, Bool, true, false, ◌&&◌, not, Option, none, some,
  List, [], ◌∷◌, ltb, leb, ◌==◌, if◌then◌else◌, put,
}
use min_os.Error.{Code, fails}
use min_os.Fat.Files.{overlay}
use min_os.Paging.{PageMap, Frames, Returned, setup_page_maps}
use min_os.Paging.Views.{Leaf, page_at}
use min_os.Paging.Copies.{copy_one_page}

-- FileMapping.
pub record FileMapping : Type 0 where
  pub fd : ℕ
  pub vaddr_begin : ℕ
  pub vaddr_end : ℕ

-- The fields of Task that say which addresses are given to it.
pub record Space : Type 0 where
  pub dpaging_begin : ℕ
  pub dpaging_end : ℕ
  pub file_map_end : ℕ
  pub file_maps : List FileMapping

-- FindFileMapping.
unfoldable pub find_file_mapping : List FileMapping → (causal_vaddr : ℕ) → Option FileMapping
find_file_mapping [] causal_vaddr = none
find_file_mapping (m ∷ fmaps) causal_vaddr =
    if leb m.vaddr_begin causal_vaddr && ltb causal_vaddr m.vaddr_end
    then some m
    else find_file_mapping fmaps causal_vaddr

-- The bytes that a program writes to a page; where there is no page the kernel faults again.
abbrev pub store_bytes : PageMap 4 → (bytes : List ℕ) → Option Leaf → Frames → Returned (PageMap 4)
store_bytes t bytes none f = none
store_bytes t bytes (some leaf) f = some (
  t,
  record f { contents = put leaf.frame (overlay bytes 0 (f.contents leaf.frame)) f.contents },
  Code.success,
)

-- PreparePageCache after Load.
abbrev pub cache_bytes : PageMap 4 → (page : ℕ) → Option (List ℕ) → Frames → Returned (PageMap 4)
cache_bytes t page none f = none
cache_bytes t page (some bytes) f = store_bytes t bytes (page_at 3 t page) f

-- PreparePageCache after SetupPageMaps.
abbrev pub prepare_page_cache_in :
    (load : (len offset : ℕ) → Option (List ℕ))
    → FileMapping
    → (page_vaddr : ℕ) → Returned (PageMap 4)
    → Returned (PageMap 4)
prepare_page_cache_in load m page_vaddr none = none
prepare_page_cache_in load m page_vaddr (some (t, f, err)) =
    if fails err
    then some (t, f, err)
    else cache_bytes t (page_vaddr / 2 ^ 12 % 2 ^ 36)
        (load 4096 ((page_vaddr + (2 ^ 64 - m.vaddr_begin)) % 2 ^ 64)) f

-- PreparePageCache; `load` is Load of the descriptor.
unfoldable pub prepare_page_cache :
    (load : (len offset : ℕ) → Option (List ℕ))
    → FileMapping
    → PageMap 4
    → (causal_vaddr : ℕ) → Frames
    → Returned (PageMap 4)
prepare_page_cache load m t causal_vaddr f =
    let page_vaddr = causal_vaddr - causal_vaddr % 2 ^ 12 in
    prepare_page_cache_in load m page_vaddr (setup_page_maps true t page_vaddr 1 f)

-- HandlePageFault at an address that FindFileMapping has been asked about.
abbrev pub handle_mapping :
    (load : (fd len offset : ℕ) → Option (List ℕ))
    → PageMap 4
    → (causal_addr : ℕ) → Frames
    → Option FileMapping
    → Returned (PageMap 4)
handle_mapping load t causal_addr f none = some (t, f, Code.index_out_of_range)
handle_mapping load t causal_addr f (some m) = prepare_page_cache (load m.fd) m t causal_addr f

-- HandlePageFault, in the map that CR3 names.
unfoldable pub handle_page_fault :
    (load : (fd len offset : ℕ) → Option (List ℕ))
    → Space
    → PageMap 4
    → (error_code causal_addr : ℕ) → Frames
    → Returned (PageMap 4)
unfolding prepare_page_cache find_file_mapping
handle_page_fault load space t error_code causal_addr f =
    let present = error_code % 2 == 1 in
    let rw_bit = error_code / 2 % 2 == 1 in
    let user = error_code / 4 % 2 == 1 in
    if present && rw_bit && user
    then copy_one_page t causal_addr f
    else if present
    then some (t, f, Code.already_allocated)
    else if leb space.dpaging_begin causal_addr && ltb causal_addr space.dpaging_end
    then setup_page_maps true t causal_addr 1 f
    else handle_mapping load t causal_addr f (find_file_mapping space.file_maps causal_addr)
