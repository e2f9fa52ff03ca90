-- ===== src/Boot/Elf.antt =====
-- kernel/elf.hpp, and CalcLoadAddressRange and CopyLoadSegments of
-- bootloader/MinLoaderPkg/Main.c.
pub mod Bounds
pub mod Loading
use Prim.Native.Nat.{min, max}
use min_os.Common.{ℕ, ◌+◌, ◌-◌, ◌/◌, ◌%◌, ◌^◌, List, [], ◌∷◌, ◌==◌, if◌then◌else◌, add64}
use min_os.Boot.{Bytes, BaseMemory}

-- The members of Elf64_Phdr that a loader reads.
pub record ProgramHeader : Type 0 where
  pub type : ℕ
  pub offset : ℕ
  pub vaddr : ℕ
  pub filesz : ℕ
  pub memsz : ℕ

abbrev pub pt_load : ℕ
pt_load = 1

pub record Range : Type 0 where
  pub first : ℕ
  pub last : ℕ

-- The loop of CalcLoadAddressRange.
unfoldable pub widen : List ProgramHeader → Range → Range
widen [] r = r
widen (p ∷ ps) r =
    if p.type == pt_load
    then widen ps
        (record { first = min r.first p.vaddr; last = max r.last (add64 p.vaddr p.memsz) })
    else widen ps r

unfoldable pub calc_load_address_range : List ProgramHeader → Range
unfolding widen
calc_load_address_range ps = widen ps (record { first = 2 ^ 64 - 1; last = 0 })

-- num_pages of UefiMain, for the kernel's segments.
pub kernel_pages : Range → ℕ
kernel_pages r = add64 ((r.last + (2 ^ 64 - r.first)) % 2 ^ 64) 0xfff / 0x1000

module _ (lib : BaseMemory) where
  -- The body of the loop of CopyLoadSegments, for a segment that is loaded from the file at `ehdr`.
  pub copy_segment : ℕ → ProgramHeader → Bytes → Bytes
  copy_segment ehdr p mem =
      lib.set_mem (add64 p.vaddr p.filesz) ((p.memsz + (2 ^ 64 - p.filesz)) % 2 ^ 64) 0
        (lib.copy_mem p.vaddr (add64 ehdr p.offset) p.filesz mem)

  -- CopyLoadSegments.
  pub copy_load_segments : ℕ → List ProgramHeader → Bytes → Bytes
  copy_load_segments ehdr [] mem = mem
  copy_load_segments ehdr (p ∷ ps) mem =
      if p.type == pt_load
      then copy_load_segments ehdr ps (copy_segment ehdr p mem)
      else copy_load_segments ehdr ps mem
