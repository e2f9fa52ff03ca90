-- ===== src/Newlib/Kernel.antt =====
-- kernel/newlib_support.c.
pub mod Breaks
use min_os.Common.{
  ℕ, ℤ, pos, negsuc, ◌||◌, Option, none, some, ◌==◌, leb, if◌then◌else◌, add64, to_unsigned,
}
use min_os.Newlib.{Errno, Reply, ebadf, einval, enoent}
use min_os.Memory.Setup.{Break}

-- sbrk; `none` is (caddr_t)-1 with ENOMEM in errno.
unfoldable pub sbrk : Break → ℤ → Break × Option ℕ
sbrk b incr =
    let moved = add64 b.program_break (to_unsigned incr) in
    if (b.program_break == 0) || leb b.program_break_end moved
    then (b, none)
    else (record b { program_break = moved }, some b.program_break)

abbrev fails_with : Errno → Reply
fails_with e = record { value = negsuc 0; errno = some e }

getpid : Reply
getpid = record { value = pos 1; errno = none }

kill : (pid sig : ℤ) → Reply
kill pid sig = fails_with einval

open_path : (path : ℕ) (flags : ℤ) → Reply
open_path path flags = fails_with enoent

close : (fd : ℤ) → Reply
close fd = fails_with ebadf

lseek : (fd offset whence : ℤ) → Reply
lseek fd offset whence = fails_with ebadf

read : (fd : ℤ) (buf count : ℕ) → Reply
read fd buf count = fails_with ebadf

write : (fd : ℤ) (buf count : ℕ) → Reply
write fd buf count = fails_with ebadf

fstat : (fd : ℤ) (buf : ℕ) → Reply
fstat fd buf = fails_with ebadf

isatty : (fd : ℤ) → Reply
isatty fd = fails_with ebadf
