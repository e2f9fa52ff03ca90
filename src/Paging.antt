-- ===== src/Paging.antt =====
-- kernel/paging.cpp and paging.hpp: page tables over the frame allocator of Memory. A page map is the
-- value that its frame holds: an entry has the frame that it points to (`addr`) and, above the last
-- level, the map in that frame. The maps of an application are linked from one entry each, so a
-- write through a pointer is an update of the value. The bits of an entry that SetupPageMap and
-- CopyPageMaps do not use are left out, huge_page among them, so the maps here are those of the
-- applications, without the kernel's pages of 2 MiB; `addr` holds the 40 bits of a frame that the
-- allocator has given. The TLB and the registers are hardware.
pub mod Views
pub mod Ways
pub mod Entries
pub mod Changes
pub mod Apart
pub mod Copies
pub mod Contents
pub mod Isolation
pub mod Range
pub mod Faults
pub mod Identity
pub mod Cleaning
mod Tests
pub mod Rounds
pub mod Copying
pub mod Setup
pub mod Sharing
use Prim.Native.Nat.{min}
use min_os.Common.{
  ℕ, zero, suc, ◌+◌, ◌-◌, ◌*◌, ◌/◌, ◌%◌, ◌^◌, Bool, true, false, Option, none, some, ◌==◌, leb, ltb,
  if◌then◌else◌, ◌&&◌, put,
}
use min_os.Error.{Code, WithError, fails}
use min_os.Memory.{Manager, allocate, free}

-- LinearAddress4Level, by its parts.
pub record LinearAddress : Type 0 where
  pub offset : ℕ
  pub page : ℕ
  pub dir : ℕ
  pub pdp : ℕ
  pub pml4 : ℕ

-- The parts of a value of 64 bits.
unfoldable pub address : (value : ℕ) → LinearAddress
address value = record {
  offset = value % 2 ^ 12;
  page = value / 2 ^ 12 % 2 ^ 9;
  dir = value / 2 ^ 21 % 2 ^ 9;
  pdp = value / 2 ^ 30 % 2 ^ 9;
  pml4 = value / 2 ^ 39 % 2 ^ 9;
}

-- Part.
abbrev pub part : (page_map_level : ℕ) → LinearAddress → ℕ
part zero a = a.offset
part (suc zero) a = a.page
part (suc (suc zero)) a = a.dir
part (suc (suc (suc zero))) a = a.pdp
part (suc (suc (suc (suc zero)))) a = a.pml4
part (suc (suc (suc (suc (suc level))))) a = 0

-- SetPart; a part has 9 bits, the offset 12.
abbrev pub set_part : (page_map_level value : ℕ) → LinearAddress → LinearAddress
set_part zero value a = record a { offset = value % 2 ^ 12 }
set_part (suc zero) value a = record a { page = value % 2 ^ 9 }
set_part (suc (suc zero)) value a = record a { dir = value % 2 ^ 9 }
set_part (suc (suc (suc zero))) value a = record a { pdp = value % 2 ^ 9 }
set_part (suc (suc (suc (suc zero)))) value a = record a { pml4 = value % 2 ^ 9 }
set_part (suc (suc (suc (suc (suc level))))) value a = a

-- PageMapEntry; `child` is the map in the frame.
pub record Entry (A : Type 0) : Type 0 where
  pub present : Bool
  pub writable : Bool
  pub user : Bool
  pub addr : ℕ
  pub child : A

-- A page map of a level. Level 0 is a page, whose bytes are in `contents`.
abbrev pub PageMap : (page_map_level : ℕ) → Type 0
PageMap zero = Unit
PageMap (suc level) = ℕ → Entry (PageMap level)

-- A map that memset has filled with zeros.
abbrev pub empty_map : (page_map_level : ℕ) → PageMap page_map_level
empty_map zero = tt
empty_map (suc level) = λ i. record {
  present = false;
  writable = false;
  user = false;
  addr = 0;
  child = empty_map level;
}

-- The allocator, and the bytes of the frames that are pages.
pub record Frames : Type 0 where
  pub manager : Manager
  pub contents : ℕ → ℕ → ℕ

-- What a call returns: what it leaves of a map, the frames and an error; `none` is a call that does
-- not return.
abbrev pub Returned : Type 0 → Type 0
Returned A = Option (A × Frames × Code)

-- NewPageMap after its call of Allocate.
abbrev pub new_page_map_in : Frames → Option (Manager × WithError ℕ) → Option (Frames × WithError ℕ)
new_page_map_in f none = none
new_page_map_in f (some (m, frame)) =
    if fails frame.error
    then some (record f { manager = m }, record { value = 0; error = frame.error })
    else some (
      record { manager = m; contents = put frame.value (λ i. 0) f.contents },
      record { value = frame.value; error = Code.success },
    )

-- NewPageMap: the frame of the new map.
unfoldable pub new_page_map : Frames → Option (Frames × WithError ℕ)
new_page_map f = new_page_map_in f (allocate f.manager 1)

-- SetNewPageMapIfNotPresent: the entry after it.
unfoldable pub set_new_page_map_if_not_present :
    (level : ℕ) → Entry (PageMap level) → Frames → Option (Entry (PageMap level) × Frames × Code)
unfolding new_page_map
set_new_page_map_if_not_present level entry f =
    if entry.present then some (entry, f, Code.success) else elim (new_page_map f) [
      | none ↦ none
      | some (f', child_map) ↦
          if fails child_map.error
          then some (entry, f', child_map.error)
          else some (
            record entry { addr = child_map.value; present = true; child = empty_map level },
            f',
            Code.success,
          )
    ]

-- A map that a loop has changed, with what it returns.
pub record Progress (level : ℕ) : Type 0 where
  pub page_map : PageMap level
  pub frames : Frames
  pub num_4kpages : ℕ
  pub error : Code

-- The loop that sets the parts below a level to 0.
abbrev pub clear_parts : (level : ℕ) → LinearAddress → LinearAddress
clear_parts zero a = a
clear_parts (suc level) a = clear_parts level (set_part (suc level) 0 a)

abbrev pub Setup : (level : ℕ) → Type 0
Setup level = PageMap level → LinearAddress → (num_4kpages : ℕ) → Frames → Option (Progress level)

module _ (writable : Bool) where
  -- The end of a round of SetupPageMap at `entry_index`: the entry with what has been set up below it,
  -- and the next round.
  unfoldable pub finish_round :
      (level : ℕ)
      → Setup (suc level)
      → PageMap (suc level)
      → LinearAddress
      → (num_4kpages : ℕ) → Entry (PageMap level)
      → Progress level
      → Option (Progress (suc level))
  finish_round level again page_map a num_4kpages entry p =
      let entry_index = part (suc level) a in
      let page_map' =
        put entry_index
          (record entry {
            user = true;
            writable = if level == 0 then writable else true;
            child = p.page_map;
          })
          page_map in
      if fails p.error
      then some (record {
        page_map = page_map';
        frames = p.frames;
        num_4kpages = num_4kpages;
        error = p.error;
      })
      else (if entry_index == 511
          then some (record {
            page_map = page_map';
            frames = p.frames;
            num_4kpages = p.num_4kpages;
            error = Code.success;
          })
          else again page_map' (clear_parts level (set_part (suc level) (entry_index + 1) a))
              p.num_4kpages p.frames)

  -- A round after its inner call of SetupPageMap.
  abbrev pub finish_in :
      (level : ℕ)
      → Setup (suc level)
      → PageMap (suc level)
      → LinearAddress
      → (num_4kpages : ℕ) → Entry (PageMap level)
      → Option (Progress level)
      → Option (Progress (suc level))
  finish_in level again page_map a num_4kpages entry none = none
  finish_in level again page_map a num_4kpages entry (some p) =
      finish_round level again page_map a num_4kpages entry p

  -- A round after SetNewPageMapIfNotPresent; `below` is what it does with the map of the entry.
  abbrev pub round_in :
      (level : ℕ)
      → (below : Setup level) → Setup (suc level)
      → PageMap (suc level)
      → LinearAddress
      → (num_4kpages : ℕ) → Option (Entry (PageMap level) × Frames × Code)
      → Option (Progress (suc level))
  round_in level below again page_map a num_4kpages none = none
  round_in level below again page_map a num_4kpages (some (entry, f, err)) =
      if fails err
      then some (record { page_map = page_map; frames = f; num_4kpages = num_4kpages; error = err })
      else finish_in level again page_map a num_4kpages entry (below entry.child a num_4kpages f)

  -- The loop of SetupPageMap in a map of level `level + 1`.
  unfoldable pub setup_loop : (rounds level : ℕ) → (below : Setup level) → Setup (suc level)
  unfolding set_new_page_map_if_not_present finish_round
  setup_loop zero level below page_map a num_4kpages f = none
  setup_loop (suc rounds) level below page_map a num_4kpages f =
      if num_4kpages == 0
      then some (record { page_map = page_map; frames = f; num_4kpages = 0; error = Code.success })
      else round_in level below (setup_loop rounds level below) page_map a num_4kpages
          (set_new_page_map_if_not_present level (page_map (part (suc level) a)) f)

  -- SetupPageMap. Level 0 is the branch for page_map_level 1: a page has been set up.
  unfoldable pub setup_page_map : (level : ℕ) → Setup level
  unfolding setup_loop
  setup_page_map zero page a num_4kpages f =
      some (record {
        page_map = page;
        frames = f;
        num_4kpages = num_4kpages - 1;
        error = Code.success;
      })
  setup_page_map (suc level) page_map a num_4kpages f =
      setup_loop 512 level (setup_page_map level) page_map a num_4kpages f

-- SetupPageMaps after SetupPageMap: the pages that are left are forgotten.
abbrev pub finished : Option (Progress 4) → Returned (PageMap 4)
finished none = none
finished (some p) = some (p.page_map, p.frames, p.error)

-- SetupPageMaps, in the map that CR3 names.
unfoldable pub setup_page_maps :
    (writable : Bool) → PageMap 4 → (addr num_4kpages : ℕ) → Frames → Returned (PageMap 4)
unfolding setup_page_map address
setup_page_maps writable t addr num_4kpages f =
    finished (setup_page_map writable 4 t (address addr) num_4kpages f)
