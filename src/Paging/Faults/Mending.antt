-- ===== src/Paging/Faults/Mending.antt =====
-- A page fault that HandlePageFault of kernel/paging.cpp has handled does not come again.
use min_os.Common.{
  ℕ, ◌+◌, ◌-◌, ◌/◌, ◌%◌, ◌^◌, ◌<◌, ◌≡◌, ◌≢◌, ◌⊎◌, inl, inr, refl, ◌∙◌, true, false, Option, none,
  some, List, ◌==◌, ltb, leb, ◌&&◌, arith, Bool-cases,
}
use min_os.Error.{Code, success, no_enough_memory, index_out_of_range, already_allocated}
use min_os.Fat.Files.{overlay}
use min_os.Memory.{get_bit}
use min_os.Memory.Allocation.{IsValid}
use min_os.Paging.{PageMap, Frames, Returned, setup_page_maps}
use min_os.Paging.Views.{span, Leaf, page_at, Grown, Grown-refl}
use min_os.Paging.Ways.{open_at}
use min_os.Paging.Isolation.{IsOwnCopy, copy_one_page-isolates}
use min_os.Paging.Copies.{copy_one_page}
use min_os.Paging.Faults.{FileMapping, Space, find_file_mapping, handle_mapping, handle_page_fault}
use min_os.Paging.Faults.Filling.{IsFilled, setup_one, prepare_page_cache-fills}

-- What the processor reports of a fault: whether the page is there. A page that an application has
-- written to and that is there is one that the kernel gave it: its frame is allocated, it is the
-- user's, and the entries above the last level let the user write.
abbrev pub IsReported : PageMap 4 → Frames → (error_code page : ℕ) → Type 0
IsReported t f error_code page =
    (error_code % 2 ≡ 1
      → error_code / 2 % 2 ≡ 1
      → error_code / 4 % 2 ≡ 1
      → (leaf : Leaf) × (page_at 3 t page ≡ some leaf)
        × (get_bit f.manager leaf.frame ≡ true)
        × (leaf.user ≡ true)
        × (open_at 3 t page ≡ true))
    × (error_code % 2 ≢ 1 → page_at 3 t page ≡ none)

-- The user can read and write the page, by the entries of every level, and no other page has
-- changed.
abbrev pub IsMended : (t t' : PageMap 4) → (page : ℕ) → Type 0
IsMended t t' page =
    ((leaf : Leaf) × (page_at 3 t' page ≡ some leaf)
      × (leaf.writable ≡ true)
      × (leaf.user ≡ true)
      × (open_at 3 t' page ≡ true))
    × ((number : ℕ) → number < span 4 → number ≢ page → page_at 3 t' number ≡ page_at 3 t number)

IsMended-of_IsFilled :
    (t t' : PageMap 4) (page : ℕ) (bytes : ℕ → ℕ) (f g : Frames) (frame : ℕ)
    → IsFilled t t' page bytes f g frame
    → IsMended t t' page
IsMended-of_IsFilled t t' page bytes f g frame h = ((_, h.there, refl, refl, h.way), h.others)

IsMended-of_IsOwnCopy :
    (t t' : PageMap 4) (page : ℕ) (leaf : Leaf) (f g : Frames) (frame : ℕ)
    → page < span 4
    → page_at 3 t page ≡ some leaf
    → leaf.user ≡ true
    → open_at 3 t page ≡ true
    → IsOwnCopy t t' page leaf f g frame
    → IsMended t t' page
IsMended-of_IsOwnCopy t t' page leaf f g frame lt there user way h =
    let here : (page == page) ≡ true = ground arith in
    (
      (
        record leaf { frame = frame; writable = true },
        h.pages page lt ∙ rw (here, there) refl,
        refl,
        user,
        h.ways page ∙ way,
      ),
      λ number small other.
          let away : (number == page) ≡ false = ground arith in rw away at (h.pages number small),
    )

-- HandlePageFault for a fault as the processor reports it, on a valid allocator, where Load always
-- returns, and where an application that writes to a page that is there has that page from the
-- kernel, always returns itself, and changes nothing of the frames that were allocated. When it
-- succeeds, the page of the address is there and the user can write to it, by the entries of every
-- level, and every other page is as it was.
-- Otherwise the error is kNoEnoughMemory, kAlreadyAllocated for a page that is there, or
-- kIndexOutOfRange for an address that is neither in the demand paging range nor in a mapped file.
pub handle_page_fault-mends :
    (load : (fd len offset : ℕ) → Option (List ℕ)) (space : Space) (t : PageMap 4)
    (error_code causal_addr : ℕ) (f : Frames)
    → IsValid f.manager
    → ((fd len offset : ℕ) → (bytes : List ℕ) × (load fd len offset ≡ some bytes))
    → IsReported t f error_code (causal_addr / 2 ^ 12 % 2 ^ 36)
    → (t' : PageMap 4) × (g : Frames) × (err : Code) × (handle_page_fault load space t error_code
          causal_addr f
        ≡ some (t', g, err))
      × Grown f g
      × (((err ≡ success) × IsMended t t' (causal_addr / 2 ^ 12 % 2 ^ 36))
          ⊎ ((err ≡ no_enough_memory)
              ⊎ (((err ≡ already_allocated) × (error_code % 2 ≡ 1))
                  ⊎ ((err ≡ index_out_of_range)
                      × (find_file_mapping space.file_maps causal_addr ≡ none)
                      × (leb space.dpaging_begin causal_addr && ltb causal_addr space.dpaging_end
                          ≡ false)))))
unfolding handle_page_fault
handle_page_fault-mends load space t error_code causal_addr f v loads reported =
    elim (Bool-cases (error_code % 2 == 1)) [
      | inl present ↦ elim (Bool-cases (error_code / 2 % 2 == 1 && error_code / 4 % 2 == 1)) [
        | inl write ↦
            let (leaf, there, held, user, way) =
              reported.0 (ground arith) (ground arith) (ground arith) in
            by_case (rw (present, write) refl) (copied leaf there held user way)
        | inr other ↦
            by_case (rw (present, other) refl)
              (t, f, already_allocated, refl, Grown-refl f v, inr (inr (inl (refl, ground arith))))
      ]
      | inr absent ↦
          let gone = reported.1 (ground arith) in
          elim (Bool-cases
            (leb space.dpaging_begin causal_addr && ltb causal_addr space.dpaging_end)) [
              | inl demanded ↦ by_case (rw (absent, demanded) refl) (paged gone)
              | inr other ↦
                  by_case (rw (absent, other) refl)
                    (mapped gone other (find_file_mapping space.file_maps causal_addr) refl)
            ]
    ]
  where
    page : ℕ
    page = causal_addr / 2 ^ 12 % 2 ^ 36

    Handled : Returned (PageMap 4) → Type 0
    Handled o =
        (t' : PageMap 4) × (g : Frames) × (err : Code) × (o ≡ some (t', g, err))
        × Grown f g
        × (((err ≡ success) × IsMended t t' (causal_addr / 2 ^ 12 % 2 ^ 36))
            ⊎ ((err ≡ no_enough_memory)
                ⊎ (((err ≡ already_allocated) × (error_code % 2 ≡ 1))
                    ⊎ ((err ≡ index_out_of_range)
                        × (find_file_mapping space.file_maps causal_addr ≡ none)
                        × (leb space.dpaging_begin causal_addr && ltb causal_addr space.dpaging_end
                            ≡ false)))))

    by_case : {o o' : Returned (PageMap 4)} → o ≡ o' → Handled o' → Handled o
    by_case e (t', g, err, eq, grown, r) = (t', g, err, e ∙ eq, grown, r)

    copied :
        (leaf : Leaf)
        → page_at 3 t page ≡ some leaf
        → get_bit f.manager leaf.frame ≡ true
        → leaf.user ≡ true
        → open_at 3 t page ≡ true
        → Handled (copy_one_page t causal_addr f)
    copied leaf there held user way =
        let (t', g, err, eq, grown, r) = copy_one_page-isolates t causal_addr leaf f v there held in
        elim r [
          | inl full ↦ (t', g, err, eq, grown, inr (inl full.0))
          | inr own ↦ (
            t',
            g,
            err,
            eq,
            grown,
            inl (
              own.0,
              IsMended-of_IsOwnCopy t t' page leaf f g own.1 (omega arith) there user way own.2,
            ),
          )
        ]

    of_filled :
        (o : Returned (PageMap 4)) (bytes : ℕ → ℕ) (t' : PageMap 4) (g : Frames) (err : Code)
        → o ≡ some (t', g, err)
        → Grown f g
        → (err ≡ success) ⊎ (err ≡ no_enough_memory)
        → (err ≡ success → (frame : ℕ) × IsFilled t t' page bytes f g frame)
        → Handled o
    of_filled o bytes t' g err eq grown (inr bad) all = (t', g, err, eq, grown, inr (inl bad))
    of_filled o bytes t' g err eq grown (inl ok) all =
        let (frame, h) = all ok in
        (t', g, err, eq, grown, inl (ok, IsMended-of_IsFilled t t' page bytes f g frame h))

    paged : page_at 3 t page ≡ none → Handled (setup_page_maps true t causal_addr 1 f)
    paged gone =
        let (t', g, err, eq, grown, er, all) = setup_one t causal_addr f v gone in
        of_filled _ (λ i. 0) t' g err eq grown er all

    mapped :
        page_at 3 t page ≡ none
        → leb space.dpaging_begin causal_addr && ltb causal_addr space.dpaging_end ≡ false
        → (m : Option FileMapping) → find_file_mapping space.file_maps causal_addr ≡ m
        → Handled (handle_mapping load t causal_addr f m)
    mapped gone outside none e =
        (t, f, index_out_of_range, refl, Grown-refl f v, inr (inr (inr (refl, e, outside))))
    mapped gone outside (some m) e =
        let (bytes, loaded) =
          loads m.fd 4096
            ((causal_addr - causal_addr % 2 ^ 12 + (2 ^ 64 - m.vaddr_begin)) % 2 ^ 64) in
        let (t', g, err, eq, grown, er, all) =
          prepare_page_cache-fills (load m.fd) m t causal_addr bytes f v gone loaded in
        of_filled _ (overlay bytes 0 (λ i. 0)) t' g err eq grown er all
