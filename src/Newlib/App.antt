-- ===== src/Newlib/App.antt =====
-- apps/newlib_support.c, and the system call DemandPages of kernel/syscall.cpp. The other system
-- calls, and newlib's malloc, are arguments. An int that C leaves undefined on overflow makes a
-- result `none`.
pub mod Pages
pub mod Aligned
use Prim.Native.Nat.{bit_and}
use min_os.Common.{
  ℕ, zero, suc, ◌+◌, ◌-◌, ◌*◌, ◌/◌, ◌%◌, ◌^◌, ℤ, pos, negsuc, neg, to_unsigned, scale, Bool, true,
  false, ◌||◌, Option, none, some, ◌==◌, ltb, leb, if◌then◌else◌, add64,
}
use min_os.Newlib.{Errno, Reply, ebadf, eperm, enomem, other}

-- SyscallResult.
pub record SyscallResult : Type 0 where
  pub value : ℕ
  pub error : ℤ

abbrev is_zero : ℤ → Bool
is_zero (pos n) = n == 0
is_zero (negsuc n) = false

-- The end that open, read and write have in common.
reply : SyscallResult → Reply
reply res =
    if is_zero res.error
    then record { value = pos res.value; errno = none }
    else record { value = negsuc 0; errno = some (other res.error) }

open_path : (syscall : ℕ → ℤ → SyscallResult) (path : ℕ) (flags : ℤ) → Reply
unfolding reply
open_path syscall path flags = reply (syscall path flags)

read : (syscall : ℤ → ℕ → ℕ → SyscallResult) (fd : ℤ) (buf count : ℕ) → Reply
unfolding reply
read syscall fd buf count = reply (syscall fd buf count)

write : (syscall : ℤ → ℕ → ℕ → SyscallResult) (fd : ℤ) (buf count : ℕ) → Reply
unfolding reply
write syscall fd buf count = reply (syscall fd buf count)

abbrev fails_with : Errno → Reply
fails_with e = record { value = negsuc 0; errno = some e }

close : (fd : ℤ) → Reply
close fd = fails_with ebadf

fstat : (fd : ℤ) (buf : ℕ) → Reply
fstat fd buf = fails_with ebadf

getpid : Reply
getpid = record { value = pos 0; errno = none }

isatty : (fd : ℤ) → Reply
isatty fd = fails_with ebadf

kill : (pid sig : ℤ) → Reply
kill pid sig = fails_with eperm

lseek : (fd offset whence : ℤ) → Reply
lseek fd offset whence = fails_with ebadf

-- The end of the pages that the kernel hands to the task on demand: DPagingEnd of kernel/task.hpp.
-- The system call DemandPages moves it, and returns where it was.
pub demand_pages : (dpaging_end num_pages : ℕ) → ℕ × SyscallResult
demand_pages dpaging_end num_pages =
    (add64 dpaging_end (4096 * num_pages % 2 ^ 64), record { value = dpaging_end; error = pos 0 })

-- The two static variables of sbrk, and the kernel's end of the demand pages.
pub record Heap : Type 0 where
  pub dpage_end : ℕ
  pub program_break : ℕ
  pub dpaging_end : ℕ

-- (incr + 4095) / 4096 as an int, rounded towards zero.
pub pages_for : ℤ → Option ℤ
pages_for (pos n) = if leb (2 ^ 31 - 4095) n then none else some (pos ((n + 4095) / 4096))
pages_for (negsuc n) =
    some (if ltb n 4095 then pos ((4094 - n) / 4096) else neg ((n - 4094) / 4096))

-- The end of sbrk.
abbrev take_block : Heap → ℤ → Heap × Option ℕ
take_block h incr =
    (record h { program_break = add64 h.program_break (to_unsigned incr) }, some h.program_break)

-- sbrk after the system call for `num_pages` pages.
pub use_pages : Heap → ℤ → ℤ → ℕ × SyscallResult → Heap × Option ℕ
use_pages h incr num_pages (dpaging_end, res) =
    if is_zero res.error
    then take_block
        (record {
          dpage_end = add64 res.value (to_unsigned (scale 4095 num_pages));
          program_break = res.value;
          dpaging_end = dpaging_end;
        })
        incr
    else (record h { dpaging_end = dpaging_end }, none)

-- sbrk; the inner `none` is (caddr_t)-1 with ENOMEM in errno.
pub sbrk : Heap → ℤ → Option (Heap × Option ℕ)
unfolding demand_pages use_pages
sbrk h incr =
    if (h.dpage_end == 0) || ltb h.dpage_end (add64 h.program_break (to_unsigned incr))
    then elim (pages_for incr) [
      | none ↦ none
      | some num_pages ↦
          some (use_pages h incr num_pages (demand_pages h.dpaging_end (to_unsigned num_pages)))
    ]
    else some (take_block h incr)

-- What posix_memalign returns, and what it stores at *memptr. The source returns ENOMEM or, when it
-- has stored the block, falls off its end: `returned = none` is no value at all.
pub record Memalign : Type 0 where
  pub returned : Option Errno
  pub memptr : Option ℕ

-- `a - 1` of a uintptr_t or size_t.
abbrev pub minus_one : ℕ → ℕ
minus_one a = (a + (2 ^ 64 - 1)) % 2 ^ 64

-- posix_memalign; `malloc` gives the address for a size, 0 for NULL.
pub posix_memalign : (malloc : ℕ → ℕ) (alignment size : ℕ) → Memalign
posix_memalign malloc alignment size =
    let addr = malloc (minus_one (add64 size alignment)) in
    if addr == 0 then record { returned = some enomem; memptr = none } else record {
      returned = none;
      memptr = some (bit_and (minus_one (add64 addr alignment)) (2 ^ 64 - 1 - minus_one alignment));
    }
