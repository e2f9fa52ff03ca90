-- ===== src/Paging/Sharing.antt =====
-- CopyPageMaps of kernel/paging.cpp: the copy shares the pages, and cannot write to them.
use native.Mathlib.Nat.{div-add-mod, mod-lt}
use min_os.Common.{
  ℕ, zero, suc, ◌-◌, ◌/◌, ◌%◌, ◌≤◌, ◌<◌, ◌≡◌, ◌⊎◌, inl, inr, refl, ap, sym, ◌∙◌, true, false, some,
  arith, Bool-cases,
}
use min_os.Error.{Code, success, no_enough_memory, WithError}
use min_os.Memory.Allocation.{IsValid}
use min_os.Paging.{Entry, PageMap, empty_map, Frames, Returned, new_page_map}
use min_os.Paging.Views.{
  span, see, page_at, see-absent, see-empty_map, span-pos, Grown, Grown-refl, Grown-trans,
}
use min_os.Paging.Entries.{Taken, taken, refused, new_page_map-Taken}
use min_os.Paging.Copies.{link_table, copy_table, copy_loop, copy_entry, copy_page_maps}
use min_os.Paging.Copying.{Shares, EntryOutcome, LoopOutcome, copy_loop-LoopOutcome, read_only}

-- An entry that points to a filled table.
link_table-Shares :
    (level : ℕ) (dest src : Entry (PageMap (suc level))) (child : PageMap (suc level)) (table : ℕ)
    → src.present ≡ true
    → ((k : ℕ) → k < 512 → Shares level (empty_map (suc level) k) (src.child k) (child k))
    → Shares (suc level) dest src (record src { addr = table; child = child })
link_table-Shares level dest src child table present all =
    (λ p number lt. rw present (below number lt), λ absent. cc (present, absent))
  where
    below :
        (number : ℕ)
        → number < span (suc level)
        → page_at level child number ≡ read_only (page_at level src.child number)
    below number lt =
        let s = span-pos level in
        let whole = div-add-mod number (span level) in
        let k = number / span level in
        let r = number % span level in
        let small : r < span level = mod-lt number s in
        let (there, gone) = all k (grind (arith, whole)) in
        elim (Bool-cases (src.child k).present) [
          | inl p ↦ there p r small
          | inr p ↦
              ap (λ (e : Entry (PageMap level)). see level e r) (gone p)
              ∙ see-empty_map level k r
              ∙ ap read_only (sym (see-absent level (src.child k) r p))
        ]

copy_entry-EntryOutcome :
    (level : ℕ) (dest src : Entry (PageMap level)) (f : Frames)
    → IsValid f.manager
    → src.present ≡ true
    → EntryOutcome level dest src f (copy_entry level dest src f)
unfolding copy_entry
copy_entry-EntryOutcome zero dest src f v present = (
  record src { writable = false },
  f,
  success,
  refl,
  Grown-refl f v,
  inl refl,
  λ ok. (λ p number lt. rw present refl, λ absent. cc (present, absent)),
)
copy_entry-EntryOutcome (suc level) dest src f v present =
    let (f', p, eq, t) = new_page_map-Taken f v in
    after_map f' p eq t (λ v'.
      copy_loop-LoopOutcome 512 level (copy_entry level) 0 (empty_map (suc level)) src.child f'
        (λ d s g w here. copy_entry-EntryOutcome level d s g w here) v')
  where
    below : Frames → Returned (PageMap (suc level))
    below = copy_loop 512 level (copy_entry level) 0 (empty_map (suc level)) src.child

    after_map :
        (f' : Frames) (p : WithError ℕ)
        → new_page_map f ≡ some (f', p)
        → Taken f f' p
        → (IsValid f'.manager
            → LoopOutcome 512 level 0 (empty_map (suc level)) src.child f' (below f'))
        → EntryOutcome
            (suc level)
            dest
            src
            f
            (copy_table (suc level) dest src below (new_page_map f))
    after_map f' p eq refused loop = (
      dest,
      f,
      no_enough_memory,
      ap (copy_table (suc level) dest src below) eq,
      Grown-refl f v,
      inr refl,
      λ ok. cc,
    )
    after_map f' p eq (taken _ frame grown fresh) loop =
        let (child, h, err, eq', grown', er, all) = loop grown.valid in
        (
          record src { addr = frame; child = child },
          h,
          err,
          ap (copy_table (suc level) dest src below) eq ∙ ap (link_table (suc level) src frame) eq',
          Grown-trans f f' h grown grown',
          er,
          λ ok.
              link_table-Shares level dest src child frame present
                (λ k lt. (all ok k).1 (omega arith) (omega arith)),
        )

-- CopyPageMaps on a valid allocator always returns, with success or kNoEnoughMemory. It allocates
-- frames, and changes nothing of those that were allocated. When it succeeds, an entry of the new
-- map from `start` on that is present in the source leads to the same pages, which can only be
-- read, and the other entries stay.
pub copy_page_maps-Shares :
    (level : ℕ) (dest src : PageMap (suc level)) (start : ℕ) (f : Frames)
    → IsValid f.manager
    → (new : PageMap (suc level)) × (g : Frames) × (err : Code) × (copy_page_maps level dest src
          start f
        ≡ some (new, g, err))
      × Grown f g
      × ((err ≡ success) ⊎ (err ≡ no_enough_memory))
      × (err ≡ success
          → (k : ℕ)
          → (k < start → new k ≡ dest k)
            × (start ≤ k → k < 512 → Shares level (dest k) (src k) (new k)))
unfolding copy_page_maps
copy_page_maps-Shares level dest src start f v =
    let (new, g, err, eq, grown, er, all) =
      copy_loop-LoopOutcome (512 - start) level (copy_entry level) start dest src f
        (λ d s h w here. copy_entry-EntryOutcome level d s h w here) v in
    (new, g, err, eq, grown, er, λ ok k. ((all ok k).0, λ lo hi. (all ok k).1 lo (omega arith)))
