-- ===== src/Syscall/Opening.antt =====
-- AllocateFD and OpenFile of kernel/syscall.cpp over the directories of Fat.
use min_os.Common.{
  ℕ, zero, suc, ◌<◌, ◌≡◌, ◌≢◌, refl, ap, ◌∙◌, true, false, Option, none, some, List, [], ◌∷◌, ◌==◌,
  length, set, if◌then◌else◌, arith,
}
use min_os.Fat.Chains.{Table, end_of_clusterchain}
use min_os.Fat.Chains.Extension.{Chain}
use min_os.Fat.Chains.Append.{Distinct}
use min_os.Fat.Names.Stored.{text_of, IsShort}
use min_os.Fat.Directories.{Directories, Slot, first_char, created}
use min_os.Fat.Directories.Lookup.{slots, lookup}
use min_os.Fat.Directories.Allocation.{unused_in}
use min_os.Fat.Directories.Creation.{with_entry}
use min_os.Fat.Directories.Paths.{IsName, create_file-find_file}
use min_os.Syscall.{
  Errno, returns, refuses, file_at, allocate_fd, is_same, at_stdin, open_slot, open_file,
}

module _ {A : Type 0} where
  -- AllocateFD returns the first descriptor that has no file. It is in the table afterwards, and no
  -- descriptor has another file.
  pub allocate_fd_lem :
      (files : List (Option A))
      → let (fd, files') = allocate_fd files in
        (file_at files fd ≡ none)
        × ((k : ℕ) → k < fd → (file : A) × (file_at files k ≡ some file))
        × (fd < length files')
        × ((k : ℕ) → file_at files' k ≡ file_at files k)
  unfolding allocate_fd
  allocate_fd_lem [] = (refl, λ k lt. absurd (omega arith), omega arith, empty)
    where
      empty : (k : ℕ) → file_at {A = A} (none ∷ []) k ≡ file_at [] k
      empty zero = refl
      empty (suc k) = refl
  allocate_fd_lem (none ∷ files) = (refl, λ k lt. absurd (omega arith), omega arith, λ k. refl)
  allocate_fd_lem (some file ∷ files) =
      let (gone, below, room, same) = allocate_fd_lem files in
      (gone, first below, omega (arith, room), others same)
    where
      first :
          ((k : ℕ) → k < (allocate_fd files).0 → (x : A) × (file_at files k ≡ some x))
          → (k : ℕ) → k < suc (allocate_fd files).0
          → (x : A) × (file_at (some file ∷ files) k ≡ some x)
      first below zero lt = (file, refl)
      first below (suc k) lt = below k (omega arith)

      others :
          ((k : ℕ) → file_at (allocate_fd files).1 k ≡ file_at files k)
          → (k : ℕ) → file_at (some file ∷ (allocate_fd files).1) k ≡ file_at (some file ∷ files) k
      others same zero = refl
      others same (suc k) = same k

  -- A write to a descriptor of the table.
  pub file_at-set :
      (files : List (Option A)) (fd k : ℕ) (file : A)
      → fd < length files
      → file_at (set files fd (some file)) k ≡ (if k == fd then some file else file_at files k)
  file_at-set [] fd k file h = absurd (omega arith)
  file_at-set (x ∷ files) zero zero file h = refl
  file_at-set (x ∷ files) zero (suc k) file h =
      let e : (suc k == 0) ≡ false = ground arith in rw e refl
  file_at-set (x ∷ files) (suc fd) zero file h =
      let e : (0 == suc fd) ≡ false = ground arith in rw e refl
  file_at-set (x ∷ files) (suc fd) (suc k) file h =
      let e : (suc k == suc fd) ≡ (k == fd) = ground arith in
      rw e (file_at-set files fd k file (omega arith))

-- A descriptor that had no file has one, and the others are as they were.
pub record IsOpened (files files' : List (Option Slot)) (fd : ℕ) (file : Slot) : Type 0 where
  pub was_free : file_at files fd ≡ none
  pub table : (k : ℕ) → file_at files' k ≡ (if k == fd then some file else file_at files k)

open_slot-IsOpened :
    (fat : Table) (dirs : Directories) (files : List (Option Slot)) (file : Slot)
    → (files' : List (Option Slot)) × (fd : ℕ) × (open_slot fat dirs files file
        ≡ some (fat, dirs, files', returns fd))
      × IsOpened files files' fd file
unfolding open_slot
open_slot-IsOpened fat dirs files file =
    let (gone, below, room, same) = allocate_fd_lem files in
    (
      _,
      _,
      refl,
      record {
        was_free = gone;
        table = λ k.
            file_at-set (allocate_fd files).1 (allocate_fd files).0 k file room
            ∙ ap (λ (x : Option Slot). if k == (allocate_fd files).0 then some file else x)
                (same k);
      },
    )

different_fd :
    (files files' files'' : List (Option Slot)) (fd fd' : ℕ) (file other : Slot)
    → IsOpened files files' fd file
    → IsOpened files' files'' fd' other
    → fd' ≢ fd
different_fd files files' files'' fd fd' file other first second e =
    let same : (fd' == fd) ≡ true = ground arith in
    let taken : file_at files' fd' ≡ some file = first.table fd' ∙ rw same refl in
    cc (taken, second.was_free)

module _ (toupper : ℕ → ℕ) (depth fuel root : ℕ) where
  -- OpenFile of a name of the form 8.3 that is not in the root directory, which has room for one more
  -- entry: it fails with ENOENT without O_CREAT and changes nothing. With O_CREAT it creates the
  -- file and opens it under a descriptor that had no file; a further OpenFile without O_CREAT then
  -- opens the same file under another descriptor. No other descriptor changes.
  pub open_file-create :
      (fat : Table) (dirs : Directories) (cs base : List ℕ) (ext : Option (List ℕ)) (slot : Slot)
      (files : List (Option Slot))
      → Chain fat (root ∷ cs)
      → (root == end_of_clusterchain) ≡ false
      → Distinct (root ∷ cs)
      → length (root ∷ cs) < fuel
      → IsShort base ext
      → IsName (text_of base ext)
      → (first_char (created toupper (text_of base ext)) == 0) ≡ false
      → unused_in (slots dirs (root ∷ cs)) ≡ some slot
      → lookup toupper (text_of base ext) (slots dirs (root ∷ cs)) ≡ none
      → is_same (text_of base ext) at_stdin ≡ false
      → let text = text_of base ext in
        let open_it = open_file toupper depth fuel root in
        let file = with_entry slot (created toupper text) in
        (open_it fat dirs files text false ≡ some (fat, dirs, files, refuses Errno.enoent))
        × (dirs' : Directories) × (files' : List (Option Slot)) × (fd : ℕ) × (open_it fat dirs files
              text true
            ≡ some (fat, dirs', files', returns fd))
        × IsOpened files files' fd file
        × (files'' : List (Option Slot)) × (fd' : ℕ) × (open_it fat dirs' files' text false
            ≡ some (fat, dirs', files'', returns fd'))
        × IsOpened files' files'' fd' file
        × (fd' ≢ fd)
  unfolding open_file
  open_file-create fat dirs cs base ext slot files chain inside distinct long short name named free
        missing other =
      let text = text_of base ext in
      let file = with_entry slot (created toupper text) in
      let (dirs', absent, makes, finds, size, cluster) =
        create_file-find_file toupper depth fuel root fat dirs cs base ext slot chain inside
          distinct long short name named free missing in
      let (files', fd, opens, first) = open_slot-IsOpened fat dirs' files file in
      let (files'', fd', opens', second) = open_slot-IsOpened fat dirs' files' file in
      (
        rw (other, absent) refl,
        dirs',
        files',
        fd,
        rw (other, absent, makes) opens,
        first,
        files'',
        fd',
        rw (other, finds) opens',
        second,
        different_fd files files' files'' fd fd' file file first second,
      )
