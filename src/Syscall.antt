-- ===== src/Syscall.antt =====
-- System calls of kernel/syscall.cpp on the descriptors and the address space of a task. An argument
-- is 64 bits; an int that it is cast to is the lower 32, as two's complement. A descriptor is a
-- value of any type, `none` where the table has no file.
pub mod Events
pub mod Timers
pub mod Mapping
pub mod Opening
mod Tests
use min_os.Common.{
  ℕ, zero, suc, ◌+◌, ◌-◌, ◌%◌, ◌^◌, Bool, true, false, ◌&&◌, not, Option, none, some, List, [], ◌∷◌,
  ◌++◌, ltb, leb, ◌==◌, if◌then◌else◌, length, set, get_elem?,
}
use min_os.Error.{Code}
use min_os.Fat.{DirectoryEntry}
use min_os.Fat.Chains.{Table}
use min_os.Fat.Directories.{Directories, Slot, CreateResult, error, done, find_file, create_file}
use min_os.Paging.Faults.{FileMapping, Space}

-- What the system calls return in Result.error.
pub data Errno : Type 0 where
  no_error eperm e2big ebadf efault einval enoent eisdir enospc : Errno

-- Result.
pub record Result : Type 0 where
  pub value : ℕ
  pub error : Errno

abbrev pub returns : (value : ℕ) → Result
returns value = record { value = value; error = Errno.no_error }

abbrev pub refuses : Errno → Result
refuses errno = record { value = 0; error = errno }

-- Is the int of an argument negative?
abbrev pub is_negative : (arg : ℕ) → Bool
is_negative arg = leb (2 ^ 31) (arg % 2 ^ 32)

-- MapFile of an open file of `file_size` bytes, with what it stores behind the pointer that it gets.
abbrev pub map_opened : (fd : ℕ) → Space → Option ℕ → Space × Result × Option ℕ
map_opened fd s none = (s, refuses Errno.ebadf, none)
map_opened fd s (some file_size) =
    let vaddr_end = s.file_map_end in
    let unaligned = (vaddr_end + (2 ^ 64 - file_size)) % 2 ^ 64 in
    let vaddr_begin = unaligned - unaligned % 2 ^ 12 in
    (
      record s {
        file_map_end = vaddr_begin;
        file_maps =
            s.file_maps
            ++ record { fd = fd; vaddr_begin = vaddr_begin; vaddr_end = vaddr_end } ∷ [];
      },
      returns vaddr_begin,
      some file_size,
    )

module _ {A : Type 0} where
  -- AllocateFD: a free descriptor, and the table in which it is.
  unfoldable pub allocate_fd : (files : List (Option A)) → ℕ × List (Option A)
  allocate_fd [] = (0, none ∷ [])
  allocate_fd (none ∷ files) = (0, none ∷ files)
  allocate_fd (some file ∷ files) =
      let (fd, files') = allocate_fd files in (suc fd, some file ∷ files')

  -- The file of a descriptor; there is none behind the end of the table.
  abbrev pub opened : Option (Option A) → Option A
  opened none = none
  opened (some file) = file

  abbrev pub file_at : (files : List (Option A)) (fd : ℕ) → Option A
  file_at files fd = opened (get_elem? files fd)

  -- What a call does with an open file: what it leaves of it, and the number that it returns.
  abbrev pub apply_to :
      (files : List (Option A)) (fd : ℕ) (call : A → A × ℕ) → Option A → List (Option A) × Result
  apply_to files fd call none = (files, refuses Errno.ebadf)
  apply_to files fd call (some file) =
      let (file', count) = call file in (set files fd (some file'), returns count)

  -- ReadFile; `read` is Read of the file, with the buffer and the count.
  unfoldable pub read_file :
      (read : A → A × ℕ) → (files : List (Option A)) → (arg1 : ℕ) → List (Option A) × Result
  read_file read files arg1 =
      if is_negative arg1
      then (files, refuses Errno.ebadf)
      else let fd = arg1 % 2 ^ 32 in apply_to files fd read (file_at files fd)

  -- PutString; `write` is Write of the file, with the string.
  unfoldable pub put_string :
      (write : A → A × ℕ) → (files : List (Option A)) → (fd len : ℕ) → List (Option A) × Result
  put_string write files fd len =
      if ltb 1024 len
      then (files, refuses Errno.e2big)
      else apply_to files fd write (file_at files fd)

  -- MapFile; `size` is Size of a file.
  unfoldable pub map_file :
      (size : A → ℕ) → (files : List (Option A)) → Space → (arg1 : ℕ) → Space × Result × Option ℕ
  map_file size files s arg1 =
      if is_negative arg1
      then (s, refuses Errno.ebadf, none)
      else let fd = arg1 % 2 ^ 32 in
        map_opened fd s (elim (file_at files fd) [ none ↦ none | some file ↦ some (size file) ])

-- CreateFile of kernel/syscall.cpp: the errno of an error.
abbrev pub errno_of : Code → Errno
errno_of Code.is_directory = Errno.eisdir
errno_of Code.no_such_entry = Errno.enoent
errno_of Code.no_enough_memory = Errno.enospc
errno_of _ = Errno.no_error

-- strcmp, for equality.
abbrev pub is_same : (text other : List ℕ) → Bool
is_same [] [] = true
is_same [] (d ∷ ds) = false
is_same (c ∷ cs) [] = false
is_same (c ∷ cs) (d ∷ ds) = (c == d) && is_same cs ds

-- "@stdin".
abbrev pub at_stdin : List ℕ
at_stdin = b'@' ∷ b's' ∷ b't' ∷ b'd' ∷ b'i' ∷ b'n' ∷ []

-- The volume, a task's table of descriptors and a result; `none` is a search that does not end.
abbrev pub OpenResult : Type 0
OpenResult = Option (Table × Directories × List (Option Slot) × Result)

-- The end of OpenFile: a descriptor for the file.
unfoldable pub open_slot : Table → Directories → (files : List (Option Slot)) → Slot → OpenResult
unfolding allocate_fd
open_slot fat dirs files file =
    let (fd, files') = allocate_fd files in some (fat, dirs, set files' fd (some file), returns fd)

-- OpenFile after CreateFile. Where the latter reports no error and has no file, the kernel faults.
abbrev pub open_created :
    Table → Directories → (files : List (Option Slot)) → Option CreateResult → OpenResult
open_created fat dirs files none = none
open_created fat dirs files (some (done fat' dirs' file)) = open_slot fat' dirs' files file
open_created fat dirs files (some (error code)) = elim (errno_of code) [
  | Errno.no_error ↦ none
  | errno ↦ some (fat, dirs, files, refuses errno)
]

-- OpenFile after FindFile; `create` is the bit O_CREAT of the flags.
abbrev pub open_found :
    (create : Bool)
    → Table
    → Directories
    → (files : List (Option Slot)) → Option CreateResult
    → Option (Option Slot × Bool)
    → OpenResult
open_found create fat dirs files created none = none
open_found create fat dirs files created (some (none, post_slash)) =
    if create
    then open_created fat dirs files created
    else some (fat, dirs, files, refuses Errno.enoent)
open_found create fat dirs files created (some (some file, post_slash)) =
    if not (file.entry.attr == 0x10) && post_slash
    then some (fat, dirs, files, refuses Errno.enoent)
    else open_slot fat dirs files file

-- OpenFile, on files of the FAT volume.
unfoldable pub open_file :
    (toupper : ℕ → ℕ)
    → (depth fuel root_cluster : ℕ) → Table
    → Directories
    → (files : List (Option Slot)) → (path : List ℕ) → (create : Bool) → OpenResult
unfolding open_slot
open_file toupper depth fuel root_cluster fat dirs files path create =
    if is_same path at_stdin
    then some (fat, dirs, files, returns 0)
    else open_found create fat dirs files
        (create_file toupper depth fuel root_cluster fat dirs path)
        (find_file toupper (suc depth) fuel root_cluster fat dirs path 0)
