-- ===== src/Paging/Cleaning.antt =====
-- CleanPageMap and FreePageMap of kernel/paging.cpp.
pub mod Sets
pub mod Freed
use min_os.Common.{ℕ, zero, suc, ◌+◌, ◌-◌, Bool, true, false, if◌then◌else◌, put}
use min_os.Error.{Code, fails}
use min_os.Memory.{free}
use min_os.Paging.{LinearAddress, address, part, Entry, PageMap, empty_map, Frames}

-- What is left of a map and of the frames, and an error.
abbrev pub Cleaned : Type 0 → Type 0
Cleaned A = A × Frames × Code

-- FreePageMap, by the frame of the table.
unfoldable pub free_page_map : (frame : ℕ) → Frames → Frames × Code
free_page_map frame f = let (m, err) = free f.manager frame 1 in (record f { manager = m }, err)

-- CleanPageMap frees the frame of an entry that can be written to.
unfoldable pub free_writable : (writable : Bool) (addr : ℕ) → Frames → Frames × Code
unfolding free_page_map
free_writable false addr f = (f, Code.success)
free_writable true addr f = free_page_map addr f

-- The end of a round at `i`: page_map[i].data = 0.
unfoldable pub clear_entry :
    (level i : ℕ)
    → PageMap (suc level)
    → (again : PageMap (suc level) → Frames → Cleaned (PageMap (suc level))) → Frames × Code
    → Cleaned (PageMap (suc level))
clear_entry level i t again (f, err) =
    if fails err then (t, f, err) else again (put i (empty_map (suc level) i) t) f

-- A round at an entry that is present, after the inner call of CleanPageMap.
unfoldable pub clean_entry :
    (level i : ℕ)
    → PageMap (suc level)
    → (again : PageMap (suc level) → Frames → Cleaned (PageMap (suc level)))
    → Cleaned (PageMap level)
    → Cleaned (PageMap (suc level))
unfolding free_writable clear_entry
clean_entry level i t again (child, f, err) =
    let t' = put i (record (t i) { child = child }) t in
    if fails err
    then (t', f, err)
    else clear_entry level i t' again (free_writable (t i).writable (t i).addr f)

-- A round at `i`.
abbrev pub clean_round :
    (present : Bool) (level i : ℕ)
    → PageMap (suc level)
    → (clean : PageMap level → Frames → Cleaned (PageMap level))
    → (again : PageMap (suc level) → Frames → Cleaned (PageMap (suc level))) → Frames
    → Cleaned (PageMap (suc level))
clean_round false level i t clean again f = again t f
clean_round true level i t clean again f = clean_entry level i t again (clean (t i).child f)

-- The loop of CleanPageMap in a map of level `level + 1`; `clean` is the inner call.
unfoldable pub clean_loop :
    (rounds level : ℕ)
    → (clean : PageMap level → Frames → Cleaned (PageMap level)) → (i : ℕ) → PageMap (suc level)
    → Frames
    → Cleaned (PageMap (suc level))
unfolding clean_entry
clean_loop zero level clean i t f = (t, f, Code.success)
clean_loop (suc rounds) level clean i t f =
    clean_round (t i).present level i t clean (λ t' f'. clean_loop rounds level clean (i + 1) t' f')
      f

-- CleanPageMap. Level 0 is a page, for which page_map_level 1 makes no inner call.
unfoldable pub clean_page_map :
    (level : ℕ) → PageMap level → LinearAddress → Frames → Cleaned (PageMap level)
unfolding clean_loop
clean_page_map zero t a f = (t, f, Code.success)
clean_page_map (suc level) t a f =
    clean_loop (512 - part (suc level) a) level (λ child f'. clean_page_map level child a f')
      (part (suc level) a) t f

-- CleanPageMaps, in the map that CR3 names.
unfoldable pub clean_page_maps : PageMap 4 → (addr : ℕ) → Frames → Cleaned (PageMap 4)
unfolding clean_page_map
clean_page_maps t addr f = clean_page_map 4 t (address addr) f
