-- ===== src/Boot.antt =====
-- bootloader/MinLoaderPkg/Main.c: the memory that the loader works on, and what the functions of
-- EDK II's BaseMemoryLib that it calls do to it.
pub mod Elf
pub mod Volume
pub mod Services
mod Tests
use min_os.Common.{ℕ, ◌+◌, ◌-◌, ◌≤◌, ◌<◌, ◌≡◌, ◌&&◌, Bool, ltb, leb, if◌then◌else◌}

-- The byte at each address.
abbrev pub Bytes : Type 0
Bytes = ℕ → ℕ

-- Whether the address `a` is one of the `n` from `start`.
abbrev pub inside : ℕ → ℕ → ℕ → Bool
inside start n a = leb start a && ltb a (start + n)

-- CopyMem and SetMem, as EDK II documents them.
pub record BaseMemory : Type 0 where
  pub copy_mem : (destination source n : ℕ) → Bytes → Bytes
  pub set_mem : (buffer n value : ℕ) → Bytes → Bytes
  pub copy_mem_lem :
      (destination source n : ℕ) (mem : Bytes) (a : ℕ)
      → copy_mem destination source n mem a
        ≡ (if inside destination n a then mem (source + (a - destination)) else mem a)
  pub set_mem_lem :
      (buffer n value : ℕ) (mem : Bytes) (a : ℕ)
      → set_mem buffer n value mem a ≡ (if inside buffer n a then value else mem a)
