-- ===== src/Paging/Copies.antt =====
-- CopyPageMaps, SetPageContent and CopyOnePage of kernel/paging.cpp: the page maps of an application
-- that runs again, and its own copy of a page that it writes to.
use min_os.Common.{
  ℕ, zero, suc, ◌+◌, ◌-◌, ◌/◌, ◌%◌, ◌^◌, Bool, true, false, Option, none, some, if◌then◌else◌, put,
}
use min_os.Error.{Code, WithError, fails}
use min_os.Paging.{
  LinearAddress, address, part, Entry, PageMap, empty_map, Frames, Returned, new_page_map,
}
use min_os.Paging.Views.{Leaf, page_at}

-- What CopyPageMaps does with an entry after its inner call: the entry points to the new table.
abbrev pub link_table :
    (level : ℕ) (src : Entry (PageMap level)) (table : ℕ)
    → Returned (PageMap level)
    → Returned (Entry (PageMap level))
link_table level src table none = none
link_table level src table (some (child, f, err)) =
    some (record src { addr = table; child = child }, f, err)

-- The same after NewPageMap; `below` copies the entries of a table into a new one.
abbrev pub copy_table :
    (level : ℕ) (dest src : Entry (PageMap level))
    → (below : Frames → Returned (PageMap level)) → Option (Frames × WithError ℕ)
    → Returned (Entry (PageMap level))
copy_table level dest src below none = none
copy_table level dest src below (some (f, table)) =
    if fails table.error
    then some (dest, f, table.error)
    else link_table level src table.value (below f)

-- The loop of CopyPageMaps after the entry at `i`, if that was copied.
abbrev pub copy_next :
    {A : Type 0} (i : ℕ) (dest : ℕ → A) (again : (ℕ → A) → Frames → Returned (ℕ → A))
    → Returned A
    → Returned (ℕ → A)
copy_next i dest again none = none
copy_next i dest again (some (entry, f, err)) =
    if fails err then some (put i entry dest, f, err) else again (put i entry dest) f

-- A round of a loop of CopyPageMaps, by whether the entry at `i` of the source is present.
abbrev pub copy_round :
    {A : Type 0} (present : Bool) (i : ℕ) (dest : ℕ → A) (copy : Frames → Returned A)
    (again : (ℕ → A) → Frames → Returned (ℕ → A))
    → Frames
    → Returned (ℕ → A)
copy_round false i dest copy again f = again dest f
copy_round true i dest copy again f = copy_next i dest again (copy f)

-- A loop of CopyPageMaps, from `i` on; `copy` is what it does with an entry that is present.
unfoldable pub copy_loop :
    (rounds level : ℕ)
    → (copy : Entry (PageMap level)
        → Entry (PageMap level)
        → Frames
        → Returned (Entry (PageMap level)))
    → (i : ℕ) (dest src : PageMap (suc level)) → Frames
    → Returned (PageMap (suc level))
copy_loop zero level copy i dest src f = some (dest, f, Code.success)
copy_loop (suc rounds) level copy i dest src f =
    copy_round (src i).present i dest (copy (dest i) (src i))
      (λ dest' f'. copy_loop rounds level copy (i + 1) dest' src f') f

-- What CopyPageMaps does with an entry that is present. At level 0 it is the branch for part 1: the
-- page is shared, and can only be read.
unfoldable pub copy_entry :
    (level : ℕ) → (dest src : Entry (PageMap level)) → Frames → Returned (Entry (PageMap level))
unfolding copy_loop
copy_entry zero dest src f = some (record src { writable = false }, f, Code.success)
copy_entry (suc level) dest src f =
    copy_table (suc level) dest src
      (copy_loop 512 level (copy_entry level) 0 (empty_map (suc level)) src.child) (new_page_map f)

-- CopyPageMaps of maps of level `level + 1`.
unfoldable pub copy_page_maps :
    (level : ℕ)
    → (dest src : PageMap (suc level)) → (start : ℕ) → Frames
    → Returned (PageMap (suc level))
unfolding copy_entry copy_loop
copy_page_maps level dest src start f =
    copy_loop (512 - start) level (copy_entry level) start dest src f

-- SetPageContent, which never fails.
unfoldable pub set_page_content :
    (level : ℕ) → PageMap level → LinearAddress → (content : ℕ) → PageMap level
set_page_content zero table a content = table
set_page_content (suc zero) table a content =
    let i = part 1 a in put i (record (table i) { addr = content; writable = true }) table
set_page_content (suc (suc level)) table a content =
    let i = part (suc (suc level)) a in
    put i (record (table i) { child = set_page_content (suc level) (table i).child a content })
      table

-- The memcpy of CopyOnePage to a new frame, from the page at the address; where there is no page the
-- kernel faults again (`none`).
abbrev pub copy_bytes : (frame : ℕ) → (source : Option Leaf) → Frames → Option Frames
copy_bytes frame none f = none
copy_bytes frame (some leaf) f =
    some (record f { contents = put frame (f.contents leaf.frame) f.contents })

-- CopyOnePage after the memcpy.
abbrev pub replace_page : PageMap 4 → (causal_addr frame : ℕ) → Option Frames → Returned (PageMap 4)
replace_page t causal_addr frame none = none
replace_page t causal_addr frame (some f) =
    some (set_page_content 4 t (address causal_addr) frame, f, Code.success)

-- CopyOnePage after NewPageMap.
abbrev pub copy_one_page_in :
    PageMap 4 → (causal_addr : ℕ) → Option (Frames × WithError ℕ) → Returned (PageMap 4)
copy_one_page_in t causal_addr none = none
copy_one_page_in t causal_addr (some (f, p)) =
    if fails p.error
    then some (t, f, p.error)
    else replace_page t causal_addr p.value
        (copy_bytes p.value (page_at 3 t (causal_addr / 2 ^ 12 % 2 ^ 36)) f)

-- CopyOnePage, in the map that CR3 names.
unfoldable pub copy_one_page : PageMap 4 → (causal_addr : ℕ) → Frames → Returned (PageMap 4)
unfolding new_page_map
copy_one_page t causal_addr f = copy_one_page_in t causal_addr (new_page_map f)
