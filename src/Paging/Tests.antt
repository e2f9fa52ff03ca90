-- ===== src/Paging/Tests.antt =====
-- The page maps of an application at a small allocator, and the theorems there.
use min_os.Common.{
  ℕ, ◌+◌, ◌-◌, ◌/◌, ◌%◌, ◌*◌, ◌^◌, ◌≤◌, ◌<◌, ◌≡◌, ◌⊎◌, refl, true, false, Option, none, some, List,
  [], ◌∷◌, ◌&&◌, leb, ltb, put, arith,
}
use min_os.Error.{Code, success, no_enough_memory, index_out_of_range, already_allocated}
use min_os.Memory.{get_bit, set_bit, allocate}
use min_os.Memory.Allocation.{IsValid}
use min_os.Paging.{address, part, Entry, PageMap, empty_map, Frames, Returned, setup_page_maps}
use min_os.Paging.Views.{page_at, Leaf, Grown}
use min_os.Paging.Range.{AreSet, setup_page_maps-Changed}
use min_os.Paging.Copies.{copy_page_maps, copy_one_page}
use min_os.Paging.Copying.{Shares}
use min_os.Paging.Sharing.{copy_page_maps-Shares}
use min_os.Paging.Isolation.{IsOwnCopy, copy_one_page-isolates}
use min_os.Paging.Cleaning.{clean_page_map}
use min_os.Paging.Cleaning.Sets.{Frees}
use min_os.Paging.Cleaning.Freed.{MapFrames, Owned, clean_page_map-frees}
use min_os.Paging.Faults.{Space, find_file_mapping, handle_page_fault}
use min_os.Paging.Identity.{
  Tables, setup_identity_page_table, IsIdentity, setup_identity_page_table-IsIdentity,
}
use min_os.Paging.Faults.Mending.{IsReported, IsMended, handle_page_fault-mends}

-- Frames 1 to 99 are free.
abbrev frames : Frames
frames = record {
  manager = record { alloc_map = λ i. 0; range_begin = 1; range_end = 100 };
  contents = λ frame i. 0;
}

frames-IsValid : IsValid frames.manager
frames-IsValid = record { words = λ i. omega arith; ordered = omega arith; small = omega arith }

-- The first address that an application may use.
abbrev app_address : ℕ
app_address = 0xffff800000000000

abbrev app_page : ℕ
app_page = 2 ^ 35

abbrev look : Returned (PageMap 4) → ℕ → Option Leaf
look none number = none
look (some (t, f, err)) number = page_at 3 t number

-- Three tables in frames 1 to 3, and a page in frame 4.
first_page :
    look (setup_page_maps true (empty_map 4) app_address 2 frames) app_page
    ≡ some (record { frame = 4; writable = true; user = true })
unfolding setup_page_maps allocate get_bit set_bit
first_page = refl

-- The second page follows it, and no third one is there.
second_page :
    (look (setup_page_maps true (empty_map 4) app_address 2 frames) (app_page + 1)
      ≡ some (record { frame = 5; writable = true; user = true }))
    × (look (setup_page_maps true (empty_map 4) app_address 2 frames) (app_page + 2) ≡ none)
unfolding setup_page_maps allocate get_bit set_bit
second_page = (refl, refl)

setup_page_maps-Changed_example :
    (t' : PageMap 4) × (g : Frames) × (err : Code) × (setup_page_maps true
        (empty_map 4)
        app_address
        2
        frames
      ≡ some (t', g, err))
    × Grown frames g
    × ((err ≡ success) ⊎ (err ≡ no_enough_memory))
    × (err ≡ success → AreSet true (empty_map 4) t' (app_address / 2 ^ 12 % 2 ^ 36) 2 frames g)
setup_page_maps-Changed_example =
    setup_page_maps-Changed true (empty_map 4) app_address 2 frames frames-IsValid

abbrev entry : {A : Type 0} → ℕ → A → Entry A
entry frame child = record {
  present = true;
  writable = true;
  user = true;
  addr = frame;
  child = child;
}

-- An application with one page, which holds the byte 7 in frame 4, and its tables.
abbrev app_map : PageMap 4
app_map =
    put 256
      (entry 1 (
        put 0 (entry 2 (put 0 (entry 3 (put 0 (entry 4 tt) (empty_map 1))) (empty_map 2)))
          (empty_map 3)))
      (empty_map 4)

abbrev app_frames : Frames
app_frames = record {
  manager = record { alloc_map = put 0 30 (λ i. 0); range_begin = 1; range_end = 100 };
  contents = put 4 (λ i. 7) (λ frame i. 0);
}

app_frames-IsValid : IsValid app_frames.manager
app_frames-IsValid = record {
  words = λ i. ground arith;
  ordered = omega arith;
  small = omega arith;
}

abbrev app_leaf : Leaf
app_leaf = record { frame = 4; writable = true; user = true }

copy_page_maps-Shares_example :
    (new : PageMap 4) × (g : Frames) × (err : Code) × (copy_page_maps 3
        (empty_map 4)
        app_map
        256
        app_frames
      ≡ some (new, g, err))
    × Grown app_frames g
    × ((err ≡ success) ⊎ (err ≡ no_enough_memory))
    × (err ≡ success
        → (k : ℕ)
        → (k < 256 → new k ≡ empty_map 4 k)
          × (256 ≤ k → k < 512 → Shares 3 (empty_map 4 k) (app_map k) (new k)))
copy_page_maps-Shares_example =
    copy_page_maps-Shares 3 (empty_map 4) app_map 256 app_frames app_frames-IsValid

copy_one_page-isolates_example :
    (t' : PageMap 4) × (g : Frames) × (err : Code) × (copy_one_page app_map app_address app_frames
      ≡ some (t', g, err))
    × Grown app_frames g
    × (((err ≡ no_enough_memory) × (t' ≡ app_map))
        ⊎ ((err ≡ success)
            × (frame : ℕ) × IsOwnCopy app_map t'
                (app_address / 2 ^ 12 % 2 ^ 36)
                app_leaf
                app_frames
                g
                frame))
unfolding get_bit
copy_one_page-isolates_example =
    copy_one_page-isolates app_map app_address app_leaf app_frames app_frames-IsValid refl refl

clean_page_map-frees_example :
    ((clean_page_map 4 app_map (address app_address) app_frames).2 ≡ success)
    × Frees
        (MapFrames 3
          (Owned 3)
          (512 - part 4 (address app_address))
          (part 4 (address app_address))
          app_map)
        app_frames
        (clean_page_map 4 app_map (address app_address) app_frames).1
    × ((k : ℕ)
        → (k < part 4 (address app_address)
            → (clean_page_map 4 app_map (address app_address) app_frames).0 k ≡ app_map k)
          × (part 4 (address app_address) ≤ k
              → k < 512
              → ((clean_page_map 4 app_map (address app_address) app_frames).0 k).present ≡ false))
unfolding address
clean_page_map-frees_example =
    clean_page_map-frees 3 app_map (address app_address) app_frames app_frames-IsValid (omega arith)
      (omega arith)

-- A file of two bytes is mapped to the page behind the application's.
abbrev space : Space
space = record {
  dpaging_begin = 0;
  dpaging_end = 0;
  file_map_end = app_address + 4096;
  file_maps =
      record { fd = 3; vaddr_begin = app_address + 4096; vaddr_end = app_address + 4098 } ∷ [];
}

abbrev load : (fd len offset : ℕ) → Option (List ℕ)
load fd len offset = some (1 ∷ 2 ∷ [])

behind-IsReported : IsReported app_map app_frames 6 ((app_address + 4097) / 2 ^ 12 % 2 ^ 36)
behind-IsReported = (λ h. absurd (omega arith), λ h. refl)

handle_page_fault-mends_example :
    (t' : PageMap 4) × (g : Frames) × (err : Code) × (handle_page_fault load space app_map 6
        (app_address + 4097)
        app_frames
      ≡ some (t', g, err))
    × Grown app_frames g
    × (((err ≡ success) × IsMended app_map t' ((app_address + 4097) / 2 ^ 12 % 2 ^ 36))
        ⊎ ((err ≡ no_enough_memory)
            ⊎ (((err ≡ already_allocated) × (6 % 2 ≡ 1))
                ⊎ ((err ≡ index_out_of_range)
                    × (find_file_mapping space.file_maps (app_address + 4097) ≡ none)
                    × (leb space.dpaging_begin (app_address + 4097)
                          && ltb (app_address + 4097) space.dpaging_end
                        ≡ false)))))
handle_page_fault-mends_example =
    handle_page_fault-mends load space app_map 6 (app_address + 4097) app_frames app_frames-IsValid
      (λ fd len offset. (1 ∷ 2 ∷ [], refl)) behind-IsReported

-- The tables behind the kernel.
abbrev tables : Tables
tables = record { pml4_table = λ i. 0; pdp_table = λ i. 0; page_directory = λ i j. 0 }

abbrev directories : ℕ → ℕ
directories i = 0x400000 + i * 4096

setup_identity_page_table-IsIdentity_example :
    IsIdentity 0x300000 directories
      (setup_identity_page_table 0x300000 directories tables)
      0x40212345
setup_identity_page_table-IsIdentity_example =
    setup_identity_page_table-IsIdentity 0x300000 directories tables 0x40212345 (omega arith)
      (λ i. omega arith) (omega arith)
