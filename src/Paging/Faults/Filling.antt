-- ===== src/Paging/Faults/Filling.antt =====
-- PreparePageCache of kernel/paging.cpp: a page that was not there is filled from its file.
use min_os.Common.{
  ℕ, ◌+◌, ◌-◌, ◌/◌, ◌%◌, ◌^◌, ◌<◌, ◌≡◌, ◌≢◌, ◌⊎◌, inl, inr, refl, ap, ◌∙◌, true, false, Option,
  none, some, List, put, put_self, put_other, arith,
}
use min_os.Error.{Code, success, no_enough_memory}
use min_os.Fat.Files.{overlay}
use min_os.Memory.{get_bit}
use min_os.Memory.Allocation.{IsValid}
use min_os.Memory.Bitmap.{within}
use min_os.Paging.{PageMap, Frames, Returned, setup_page_maps}
use min_os.Paging.Views.{span, Leaf, page_at, Grown}
use min_os.Paging.Ways.{open_at}
use min_os.Paging.Range.{AreSet, setup_page_maps-Changed}
use min_os.Paging.Faults.{
  FileMapping, store_bytes, cache_bytes, prepare_page_cache_in, prepare_page_cache,
}

-- The page at `page` lies in a frame that was free, is the user's to read and write at every level
-- of the maps, and holds these bytes; every other page is as it was.
pub record IsFilled (t t' : PageMap 4) (page : ℕ) (bytes : ℕ → ℕ) (f g : Frames) (frame : ℕ)
    : Type 0 where
  pub was_free : get_bit f.manager frame ≡ false
  pub is_taken : get_bit g.manager frame ≡ true
  pub way : open_at 3 t' page ≡ true
  pub there : page_at 3 t' page ≡ some (record { frame = frame; writable = true; user = true })
  pub filled : g.contents frame ≡ bytes
  pub others :
      (number : ℕ) → number < span 4 → number ≢ page → page_at 3 t' number ≡ page_at 3 t number

-- What a call promises of the frames, and of its result when it succeeds.
abbrev Promised : Frames → (PageMap 4 → Frames → Type 0) → Returned (PageMap 4) → Type 0
Promised f Q o =
    (t' : PageMap 4) × (g : Frames) × (err : Code) × (o ≡ some (t', g, err))
    × Grown f g
    × (err ≡ success → Q t' g)

-- SetupPageMaps of one page that is not there.
pub setup_one :
    (t : PageMap 4) (addr : ℕ) (f : Frames)
    → IsValid f.manager
    → page_at 3 t (addr / 2 ^ 12 % 2 ^ 36) ≡ none
    → (t' : PageMap 4) × (g : Frames) × (err : Code) × (setup_page_maps true t addr 1 f
        ≡ some (t', g, err))
      × Grown f g
      × ((err ≡ success) ⊎ (err ≡ no_enough_memory))
      × (err ≡ success → (frame : ℕ) × IsFilled t t' (addr / 2 ^ 12 % 2 ^ 36) (λ i. 0) f g frame)
setup_one t addr f v absent =
    let (t', g, err, eq, grown, er, all) = setup_page_maps-Changed true t addr 1 f v in
    (t', g, err, eq, grown, er, λ ok. filled t' g (all ok))
  where
    filled :
        (t' : PageMap 4) (g : Frames)
        → AreSet true t t' (addr / 2 ^ 12 % 2 ^ 36) 1 f g
        → (frame : ℕ) × IsFilled t t' (addr / 2 ^ 12 % 2 ^ 36) (λ i. 0) f g frame
    filled t' g all =
        let page = addr / 2 ^ 12 % 2 ^ 36 in
        let inside : within page 1 page ≡ true = ground arith in
        let (frame, there, fresh) = rw absent at (rw inside at (all page (omega arith)).0) in
        (
          frame,
          record {
            was_free = fresh.was_free;
            is_taken = fresh.is_taken;
            there = there;
            way = (all page (omega arith)).1 (ground (arith, inside));
            filled = fresh.zeros;
            others = λ number lt other.
                let outside : within page 1 number ≡ false = ground arith in
                rw outside at (all number lt).0;
          },
        )

-- PreparePageCache at an address whose page is not there, on a valid allocator, where Load of the
-- page's place in the file copies some bytes, always returns, with success or kNoEnoughMemory, and
-- changes nothing of the frames that were allocated. When it succeeds, the page lies in a frame that
-- was free, is the user's to read and write, and holds those bytes, and zeros after them; every other
-- page is as it was.
pub prepare_page_cache-fills :
    (load : (len offset : ℕ) → Option (List ℕ)) (m : FileMapping) (t : PageMap 4) (causal_vaddr : ℕ)
    (bytes : List ℕ) (f : Frames)
    → IsValid f.manager
    → page_at 3 t (causal_vaddr / 2 ^ 12 % 2 ^ 36) ≡ none
    → load 4096 ((causal_vaddr - causal_vaddr % 2 ^ 12 + (2 ^ 64 - m.vaddr_begin)) % 2 ^ 64)
      ≡ some bytes
    → (t' : PageMap 4) × (g : Frames) × (err : Code) × (prepare_page_cache load m t causal_vaddr f
        ≡ some (t', g, err))
      × Grown f g
      × ((err ≡ success) ⊎ (err ≡ no_enough_memory))
      × (err ≡ success
          → (frame : ℕ) × IsFilled t t'
              (causal_vaddr / 2 ^ 12 % 2 ^ 36)
              (overlay bytes 0 (λ i. 0))
              f
              g
              frame)
unfolding prepare_page_cache
prepare_page_cache-fills load m t causal_vaddr bytes f v absent loaded =
    let (t', g, err, eq, grown, er, all) =
      setup_one t (causal_vaddr - causal_vaddr % 2 ^ 12) f v (rw same_page absent) in
    after_setup t' g err eq grown er all
  where
    page_vaddr : ℕ
    page_vaddr = causal_vaddr - causal_vaddr % 2 ^ 12

    same_page :
        (causal_vaddr - causal_vaddr % 2 ^ 12) / 2 ^ 12 % 2 ^ 36 ≡ causal_vaddr / 2 ^ 12 % 2 ^ 36
    same_page = omega arith

    fill : Returned (PageMap 4) → Returned (PageMap 4)
    fill = prepare_page_cache_in load m page_vaddr

    after_setup :
        (t' : PageMap 4) (g : Frames) (err : Code)
        → setup_page_maps true t page_vaddr 1 f ≡ some (t', g, err)
        → Grown f g
        → (err ≡ success) ⊎ (err ≡ no_enough_memory)
        → (err ≡ success
            → (frame : ℕ) × IsFilled t t' (page_vaddr / 2 ^ 12 % 2 ^ 36) (λ i. 0) f g frame)
        → (t' : PageMap 4) × (g : Frames) × (err : Code) × (fill
              (setup_page_maps true t page_vaddr 1 f)
            ≡ some (t', g, err))
          × Grown f g
          × ((err ≡ success) ⊎ (err ≡ no_enough_memory))
          × (err ≡ success
              → (frame : ℕ) × IsFilled t t'
                  (causal_vaddr / 2 ^ 12 % 2 ^ 36)
                  (overlay bytes 0 (λ i. 0))
                  f
                  g
                  frame)
    after_setup t' g err eq grown (inr bad) all =
        (t', g, no_enough_memory, ap fill eq ∙ rw bad refl, grown, inr refl, λ x. cc)
    after_setup t' g err eq grown (inl ok) all =
        let (frame, h) = all ok in
        let page = page_vaddr / 2 ^ 12 % 2 ^ 36 in
        let written : ℕ → ℕ = overlay bytes 0 (g.contents frame) in
        (
          t',
          record g { contents = put frame written g.contents },
          success,
          ap fill eq
              ∙ rw ok (
                  ap (λ (o : Option (List ℕ)). cache_bytes t' page o g) loaded
                  ∙ ap (λ (o : Option Leaf). store_bytes t' bytes o g) h.there),
          record {
            valid = grown.valid;
            kept = grown.kept;
            same = λ k held.
                put_other frame k written g.contents
                  (λ e. cc (ap (get_bit f.manager) e, held, h.was_free))
                ∙ grown.same k held;
          },
          inl refl,
          λ x. (
            frame,
            record {
              was_free = h.was_free;
              is_taken = h.is_taken;
              there = rw same_page at h.there;
              way = rw same_page at h.way;
              filled = put_self frame written g.contents ∙ ap (overlay bytes 0) h.filled;
              others = λ number lt other. h.others number lt (rw same_page other);
            },
          ),
        )
