-- ===== src/Newlib.antt =====
-- kernel/newlib_support.c and apps/newlib_support.c: what newlib asks of the kernel and of an
-- application. A function leaves errno as it is, or sets it.
pub mod Kernel
pub mod App
mod Tests
use min_os.Common.{ℕ, ℤ, Option}

pub data Errno : Type 0 where
  eperm enoent ebadf enomem einval : Errno
  -- A number that a system call reports.
  other : ℤ → Errno

-- The value that a function returns, and what it writes to errno.
pub record Reply : Type 0 where
  pub value : ℤ
  pub errno : Option Errno
