-- ===== src/Syscall/Tests.antt =====
-- System calls at small inputs.
use min_os.Common.{
  ℕ, ◌+◌, ◌-◌, ◌%◌, ◌^◌, ◌≤◌, ◌<◌, ◌≡◌, ◌≢◌, refl, true, false, Option, none, some, List, [], ◌∷◌,
  if◌then◌else◌, arith,
}
use min_os.Fat.Directories.{created, zero_entry}
use min_os.Fat.Directories.Creation.{with_entry}
use min_os.Fat.Directories.{Directories, Slot}
use min_os.Fat.Directories.Lookup.{lookup}
use min_os.Fat.Directories.Allocation.{unused_in}
use min_os.Fat.Names.{name_is_equal, set_file_name}
use min_os.Fat.Tests.{upper, small_fat, root, other_name}
use min_os.Message.{Message, window_active, key_push, timer_timeout}
use min_os.Paging.Faults.{FileMapping, Space, find_file_mapping}
use min_os.Timer.{empty_manager, add_timer, task_timer_value}
use min_os.Syscall.{Errno, returns, refuses, map_file, open_file}
use min_os.Syscall.Mapping.{IsApart, holds, map_file-finds}
use min_os.Syscall.Opening.{IsOpened, open_file-create}
use min_os.Syscall.Events.{timed_out, key_pushed, event_of, read_batches, read_event}
use min_os.Syscall.Events.Delivery.{Delivers, read_batches-Delivers}
use min_os.Syscall.Timers.{create_timer, create_timer-timed_out}

-- A key, a timer of the kernel's and one of the application's, and Ctrl + Q.
abbrev messages : List (List Message)
messages =
    (window_active 1 ∷ [])
    ∷ (timer_timeout 5 7
        ∷ key_push 0 4 97 1
        ∷ timer_timeout 9 (2 ^ 32 - 3)
        ∷ key_push 1 20 113 1
        ∷ [])
    ∷ []

two_events :
    read_batches messages 2
    ≡ some (key_pushed 0 4 97 1 ∷ timed_out 9 3 ∷ [], key_push 1 20 113 1 ∷ [])
unfolding read_batches
two_events = refl

-- The kernel's addresses are refused.
no_buffer :
    (read_event messages 0xffff800000000000 2
      ≡ some (returns 2, key_pushed 0 4 97 1 ∷ timed_out 9 3 ∷ []))
    × (read_event messages 4096 2 ≡ some (refuses Errno.efault, []))
unfolding read_event
no_buffer = (refl, refl)

read_batches-Delivers_example : Delivers messages 2 (read_batches messages 2)
read_batches-Delivers_example = read_batches-Delivers messages 2

create_timer-timed_out_example :
    (create_timer empty_manager 3 1 7 500 ≡ (
      add_timer empty_manager (record { timeout = 500; value = 2 ^ 32 - 7; task_id = 3 }),
      returns 500,
    ))
    × (◌≢◌ {A = ℕ} (2 ^ 32 - 7) task_timer_value)
    × (event_of (timer_timeout 500 (2 ^ 32 - 7)) ≡ some (timed_out 500 7))
create_timer-timed_out_example =
    create_timer-timed_out empty_manager 3 1 7 500 (omega arith) (omega arith) (omega arith)

-- One file is mapped, to the two pages below 0xffffffffffff0000.
abbrev space : Space
space = record {
  dpaging_begin = 0;
  dpaging_end = 0;
  file_map_end = 0xfffffffffffee000;
  file_maps =
      record { fd = 3; vaddr_begin = 0xfffffffffffee000; vaddr_end = 0xffffffffffff0000 } ∷ [];
}

abbrev sizes : List (Option ℕ)
sizes = some 0 ∷ none ∷ some 5000 ∷ []

map_file-finds_example :
    let (s', r, stored) = map_file (λ (n : ℕ). n) sizes space 2 in
    let m : FileMapping = record {
      fd = 2;
      vaddr_begin = r.value;
      vaddr_end = space.file_map_end;
    } in
    (r.error ≡ Errno.no_error)
    × (stored ≡ some 5000)
    × (r.value % 4096 ≡ 0)
    × (5000 ≤ space.file_map_end - r.value)
    × (space.file_map_end - r.value < 5000 + 4096)
    × (r.value ≤ space.file_map_end)
    × ((addr : ℕ)
        → find_file_mapping s'.file_maps addr
          ≡ (if holds m addr then some m else find_file_mapping space.file_maps addr))
    × IsApart s'
map_file-finds_example =
    map_file-finds (λ (n : ℕ). n) sizes space 2 5000 refl refl (omega arith) (omega arith)
      (omega arith)

abbrev files : List (Option Slot)
files = none ∷ []

open_file-create_example :
    let open_it = open_file upper 0 8 2 small_fat in
    let file : Slot =
      with_entry
        (record { cluster = 2; index = 1; entry = zero_entry })
        (created upper other_name) in
    (open_it root files other_name false ≡ some (small_fat, root, files, refuses Errno.enoent))
    × (dirs' : Directories) × (files' : List (Option Slot)) × (fd : ℕ) × (open_it root files
          other_name true
        ≡ some (small_fat, dirs', files', returns fd))
    × IsOpened files files' fd file
    × (files'' : List (Option Slot)) × (fd' : ℕ) × (open_it dirs' files' other_name false
        ≡ some (small_fat, dirs', files'', returns fd'))
    × IsOpened files' files'' fd' file
    × (fd' ≢ fd)
unfolding lookup name_is_equal set_file_name unused_in
open_file-create_example =
    open_file-create upper 0 8 2 small_fat root [] (97 ∷ []) (some (116 ∷ 120 ∷ 116 ∷ []))
      (record { cluster = 2; index = 1; entry = zero_entry }) files refl refl (refl, tt)
      (omega arith) ((refl, tt), omega arith, (refl, (refl, (refl, tt))), omega arith)
      (refl, (refl, (refl, (refl, (refl, tt))))) refl refl refl refl
