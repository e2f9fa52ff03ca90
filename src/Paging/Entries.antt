-- ===== src/Paging/Entries.antt =====
-- NewPageMap and SetNewPageMapIfNotPresent of kernel/paging.cpp.
use min_os.Common.{ℕ, ◌≡◌, inl, inr, refl, ap, true, false, some, put, arith, Bool-cases}
use min_os.Error.{Code, WithError}
use min_os.Memory.{Manager, allocate, mark_allocated}
use min_os.Memory.Allocation.{IsValid, Allocated, found, failed, allocate-Allocated, allocate-marks}
use min_os.Paging.{
  Entry, PageMap, empty_map, Frames, new_page_map_in, new_page_map, set_new_page_map_if_not_present,
}
use min_os.Paging.Views.{Grown, IsFresh}

-- What NewPageMap does: it takes a free frame and fills it with zeros, or there is none.
pub data Taken (f : Frames) : Frames → WithError ℕ → Type 0 where
  taken :
      (f' : Frames) (frame : ℕ)
      → Grown f f'
      → IsFresh f f' frame
      → Taken f f' (record { value = frame; error = Code.success })
  refused : Taken f f (record { value = 0; error = Code.no_enough_memory })

Taken-of_Allocated :
    (f : Frames) (r : Manager × WithError ℕ)
    → IsValid f.manager
    → allocate f.manager 1 ≡ some r
    → Allocated f.manager 1 r
    → (f' : Frames) × (p : WithError ℕ) × (new_page_map f ≡ some (f', p)) × Taken f f' p
unfolding new_page_map
Taken-of_Allocated f r v e (found s lo hi fits first) =
    let q = allocate-marks f.manager 1 v (omega arith) e in
    (
      record { manager = mark_allocated f.manager s 1; contents = put s (λ i. 0) f.contents },
      record { value = s; error = Code.success },
      ap (new_page_map_in f) e,
      taken _ s
          (record {
            valid = q.2;
            kept = λ g h. ground (arith, q.1 g);
            same = λ g h. ground (arith, fits s, fits g);
          })
          (record {
            was_free = fits s (omega arith) (omega arith);
            is_taken = ground (arith, q.1 s);
            zeros = ground arith;
          }),
    )
Taken-of_Allocated f r v e (failed none_free) =
    (f, record { value = 0; error = Code.no_enough_memory }, ap (new_page_map_in f) e, refused)

-- NewPageMap always returns, on a valid allocator.
pub new_page_map-Taken :
    (f : Frames)
    → IsValid f.manager
    → (f' : Frames) × (p : WithError ℕ) × (new_page_map f ≡ some (f', p)) × Taken f f' p
new_page_map-Taken f v =
    let (r, e, t) = allocate-Allocated f.manager 1 v (omega arith) in Taken-of_Allocated f r v e t

-- What SetNewPageMapIfNotPresent does: nothing at an entry that is present, and else the entry
-- points to a fresh frame, or there is none.
pub data Provided (level : ℕ) (entry : Entry (PageMap level)) (f : Frames)
    : Entry (PageMap level) → Frames → Code → Type 0 where
  at_hand : entry.present ≡ true → Provided level entry f entry f Code.success
  linked :
      (f' : Frames) (frame : ℕ)
      → entry.present ≡ false
      → Grown f f'
      → IsFresh f f' frame
      → Provided level entry f
          (record entry { addr = frame; present = true; child = empty_map level })
          f'
          Code.success
  unlinked : Provided level entry f entry f Code.no_enough_memory

Provided-of_Taken :
    (level : ℕ) (entry : Entry (PageMap level)) (f f' : Frames) (p : WithError ℕ)
    → entry.present ≡ false
    → new_page_map f ≡ some (f', p)
    → Taken f f' p
    → (e : Entry (PageMap level)) × (g : Frames) × (err : Code) × (set_new_page_map_if_not_present
          level entry f
        ≡ some (e, g, err))
      × Provided level entry f e g err
unfolding set_new_page_map_if_not_present
Provided-of_Taken level entry f f' p absent e (taken f'' frame grown fresh) =
    (_, _, _, simp (absent, e), linked _ frame absent grown fresh)
Provided-of_Taken level entry f f' p absent e refused = (entry, f, _, simp (absent, e), unlinked)

pub set_new_page_map_if_not_present-Provided :
    (level : ℕ) (entry : Entry (PageMap level)) (f : Frames)
    → IsValid f.manager
    → (e : Entry (PageMap level)) × (g : Frames) × (err : Code) × (set_new_page_map_if_not_present
          level entry f
        ≡ some (e, g, err))
      × Provided level entry f e g err
unfolding set_new_page_map_if_not_present
set_new_page_map_if_not_present-Provided level entry f v = elim (Bool-cases entry.present) [
  | inl h ↦ (_, _, _, rw h refl, at_hand h)
  | inr h ↦ let (f', p, e, t) = new_page_map-Taken f v in Provided-of_Taken level entry f f' p h e t
]
