-- ===== src/Terminal/Loading.antt =====
-- LoadApp of kernel/terminal.cpp with LoadELF, CopyLoadSegments and SetupPML4, over the page maps of
-- Paging. The headers of the program are given as the records that they are, and its bytes by their
-- offset in the file.
pub mod Image
pub mod Writes
pub mod Segments
pub mod Elf
pub mod Halves
pub mod Sharing
mod Tests
use Prim.Native.Nat.{max}
use min_os.Common.{
  ℕ, zero, suc, ◌+◌, ◌-◌, ◌*◌, ◌/◌, ◌%◌, ◌^◌, Bool, true, false, Option, none, some, List, [], ◌∷◌,
  ltb, ◌==◌, if◌then◌else◌, put, add64,
}
use min_os.Boot.Elf.{ProgramHeader, pt_load}
use min_os.Error.{Code, WithError, fails}
use min_os.Paging.{PageMap, empty_map, Frames, Returned, new_page_map, setup_page_maps}
use min_os.Paging.Views.{Leaf, page_at}
use min_os.Paging.Copies.{copy_page_maps}

-- The file of a program: whether it starts with the bytes of ELF, the members of its header, its
-- program headers, and its bytes.
pub record Program : Type 0 where
  pub is_elf : Bool
  pub type : ℕ
  pub entry : ℕ
  pub headers : List ProgramHeader
  pub bytes : ℕ → ℕ

-- ET_EXEC.
abbrev pub et_exec : ℕ
et_exec = 2

-- The first address of the application half.
abbrev pub app_begin : ℕ
app_begin = 0xffff800000000000

-- GetFirstLoadAddress.
unfoldable pub first_load_address : List ProgramHeader → ℕ
first_load_address [] = 0
first_load_address (p ∷ ps) = if p.type == pt_load then p.vaddr else first_load_address ps

-- A write of a byte to a page.
abbrev pub store_byte : (frame offset byte : ℕ) → Frames → Frames
store_byte frame offset byte f = record f {
  contents = put frame (put offset byte (f.contents frame)) f.contents;
}

-- A write to the page at an address; `none` is a fault of the kernel.
abbrev pub at_page : Option Leaf → (write : Leaf → Option Frames) → Option Frames
at_page none write = none
at_page (some leaf) write = write leaf

-- memcpy and memset to addresses of the program.
unfoldable pub store_range :
    (n : ℕ) → PageMap 4 → (addr : ℕ) → (source : ℕ → ℕ) → Frames → Option Frames
store_range zero t addr source f = some f
store_range (suc n) t addr source f = at_page (page_at 3 t (addr / 2 ^ 12 % 2 ^ 36)) (λ leaf.
    store_range n t (add64 addr 1) (λ i. source (i + 1))
      (store_byte leaf.frame (addr % 2 ^ 12) (source 0) f))

-- num_4kpages of a segment.
abbrev pub segment_pages : ProgramHeader → ℕ
segment_pages p = add64 (add64 (p.vaddr % 4096) p.memsz) 4095 / 4096

-- The segment's bytes, and zeros behind them.
abbrev pub zero_rest : PageMap 4 → ProgramHeader → Option Frames → Option Frames
zero_rest t p none = none
zero_rest t p (some f) =
    store_range ((p.memsz + (2 ^ 64 - p.filesz)) % 2 ^ 64) t (add64 p.vaddr p.filesz) (λ i. 0) f

unfoldable pub fill_segment : PageMap 4 → (bytes : ℕ → ℕ) → ProgramHeader → Frames → Option Frames
unfolding store_range
fill_segment t bytes p f =
    zero_rest t p (store_range p.filesz t p.vaddr (λ i. bytes (p.offset + i)) f)

-- What LoadELF leaves: the map, the frames, and the value beside the error.
abbrev pub Loaded : Type 0
Loaded = Option (PageMap 4 × Frames × WithError ℕ)

-- A round of CopyLoadSegments after the writes.
abbrev pub next_segment : PageMap 4 → (again : PageMap 4 → Frames → Loaded) → Option Frames → Loaded
next_segment t again none = none
next_segment t again (some f) = again t f

-- A round of CopyLoadSegments after SetupPageMaps.
abbrev pub load_segment :
    (bytes : ℕ → ℕ)
    → ProgramHeader
    → (last_addr : ℕ) → (again : PageMap 4 → Frames → Loaded) → Returned (PageMap 4)
    → Loaded
load_segment bytes p last_addr again none = none
load_segment bytes p last_addr again (some (t, f, err)) =
    if fails err
    then some (t, f, record { value = last_addr; error = err })
    else next_segment t again (fill_segment t bytes p f)

-- A round of CopyLoadSegments, by whether the segment is loaded.
abbrev pub load_round :
    (is_load : Bool)
    → (bytes : ℕ → ℕ) → ProgramHeader
    → (last_addr : ℕ) → (again : ℕ → PageMap 4 → Frames → Loaded) → PageMap 4
    → Frames
    → Loaded
load_round false bytes p last_addr again t f = again last_addr t f
load_round true bytes p last_addr again t f =
    let last' = max last_addr (add64 p.vaddr p.memsz) in
    load_segment bytes p last' (again last') (setup_page_maps false t p.vaddr (segment_pages p) f)

-- The loop of CopyLoadSegments.
unfoldable pub load_segments :
    (bytes : ℕ → ℕ) → List ProgramHeader → (last_addr : ℕ) → PageMap 4 → Frames → Loaded
unfolding fill_segment
load_segments bytes [] last_addr t f =
    some (t, f, record { value = last_addr; error = Code.success })
load_segments bytes (p ∷ ps) last_addr t f =
    load_round (p.type == pt_load) bytes p last_addr
      (λ last' t' f'. load_segments bytes ps last' t' f') t f

-- LoadELF.
unfoldable pub load_elf : Program → PageMap 4 → Frames → Loaded
unfolding load_segments first_load_address
load_elf e t f =
    if e.type == et_exec
    then (if ltb (first_load_address e.headers) app_begin
        then some (t, f, record { value = 0; error = Code.invalid_format })
        else load_segments e.bytes e.headers 0 t f)
    else some (t, f, record { value = 0; error = Code.invalid_format })

-- The memcpy of SetupPML4: the kernel's half of the current map.
abbrev pub kernel_half : (current : PageMap 4) → PageMap 4
kernel_half current = λ i. if ltb i 256 then current i else empty_map 4 i

-- AppLoadInfo.
pub record AppLoadInfo : Type 0 where
  pub vaddr_end : ℕ
  pub entry : ℕ
  pub pml4 : PageMap 4

-- AppLoadInfo of a load that has failed.
abbrev pub no_info : AppLoadInfo
no_info = record { vaddr_end = 0; entry = 0; pml4 = empty_map 4 }

-- What LoadApp leaves: what app_loads holds for the file, what it returns, and the frames.
pub record AppLoad : Type 0 where
  pub known : Option AppLoadInfo
  pub app_load : AppLoadInfo
  pub frames : Frames
  pub error : Code

-- The end of LoadApp: CopyPageMaps of the registered pages.
abbrev pub share_in :
    (known : Option AppLoadInfo) → AppLoadInfo → Returned (PageMap 4) → Option AppLoad
share_in known info none = none
share_in known info (some (t, f, err)) =
    some (record { known = known; app_load = record info { pml4 = t }; frames = f; error = err })

abbrev pub share : (registered current : AppLoadInfo) → Frames → Option AppLoad
share registered current f =
    share_in (some registered) registered (copy_page_maps 3 current.pml4 registered.pml4 256 f)

-- SetupPML4 by a continuation: `next` has the new map; it changes the task's CR3, whose map is an
-- argument of what comes next.
abbrev pub with_pml4 :
    (known : Option AppLoadInfo)
    → AppLoadInfo
    → (current : PageMap 4) → (next : PageMap 4 → Frames → Option AppLoad)
    → Option (Frames × WithError ℕ)
    → Option AppLoad
with_pml4 known info current next none = none
with_pml4 known info current next (some (f, pml4)) =
    if fails pml4.error
    then some (record { known = known; app_load = info; frames = f; error = pml4.error })
    else next (kernel_half current) f

-- LoadApp after LoadELF: the program is registered, and the task gets a map of its own.
abbrev pub register : (entry : ℕ) → Loaded → Option AppLoad
register entry none = none
register entry (some (t, f, last)) =
    if fails last.error
    then some (record { known = none; app_load = no_info; frames = f; error = last.error })
    else let info : AppLoadInfo = record { vaddr_end = last.value; entry = entry; pml4 = t } in
      with_pml4 (some info) info t (λ t' f'. share info (record info { pml4 = t' }) f')
        (new_page_map f)

-- LoadApp with the new map: the program is known, or it is loaded.
abbrev pub load_known : (known : Option AppLoadInfo) → Program → PageMap 4 → Frames → Option AppLoad
load_known none e t f =
    if e.is_elf
    then register e.entry (load_elf e t f)
    else some (record { known = none; app_load = no_info; frames = f; error = Code.invalid_file })
load_known (some info) e t f = share info (record info { pml4 = t }) f

-- LoadApp, where app_loads holds `known` for the file.
unfoldable pub load_app :
    (known : Option AppLoadInfo) → Program → (current : PageMap 4) → Frames → Option AppLoad
unfolding load_elf
load_app known e current f =
    with_pml4 known no_info current (λ t f'. load_known known e t f') (new_page_map f)
