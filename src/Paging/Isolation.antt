-- ===== src/Paging/Isolation.antt =====
-- CopyOnePage of kernel/paging.cpp: after a write to a shared page the application has a page of its
-- own with the same bytes, and no other page has changed.
use min_os.Common.{
  ℕ, ◌/◌, ◌%◌, ◌^◌, ◌<◌, ◌≡◌, ◌⊎◌, inl, inr, refl, ap, ◌∙◌, true, false, Option, some, ◌==◌, put,
  put_self, put_other,
}
use min_os.Error.{Code, success, no_enough_memory, WithError}
use min_os.Memory.{get_bit}
use min_os.Memory.Allocation.{IsValid}
use min_os.Paging.{address, PageMap, Frames, new_page_map}
use min_os.Paging.Views.{span, Leaf, page_at, Grown, Grown-refl}
use min_os.Paging.Ways.{open_at}
use min_os.Paging.Entries.{Taken, taken, refused, new_page_map-Taken}
use min_os.Paging.Contents.{replaced, opens-set_page_content, set_page_content-page_at}
use min_os.Paging.Copies.{
  set_page_content, copy_bytes, replace_page, copy_one_page_in, copy_one_page,
}

-- What CopyOnePage promises: the application's page is replaced by a copy in a fresh frame.
pub record IsOwnCopy (t t' : PageMap 4) (page : ℕ) (leaf : Leaf) (f g : Frames) (frame : ℕ)
    : Type 0 where
  pub was_free : get_bit f.manager frame ≡ false
  pub is_taken : get_bit g.manager frame ≡ true
  pub bytes : g.contents frame ≡ f.contents leaf.frame
  pub pages :
      (number : ℕ)
      → number < span 4
      → page_at 3 t' number ≡ replaced (number == page) frame (page_at 3 t number)
  pub ways : (number : ℕ) → open_at 3 t' number ≡ open_at 3 t number

-- CopyOnePage at an address whose page is there, in a frame that is allocated, on a valid allocator,
-- always returns. It changes nothing of the frames that were allocated. Either it fails with
-- kNoEnoughMemory and the maps are as they were, or it succeeds: the page then lies in a frame that
-- was free, can be written to and holds the bytes of the old frame, and every other page is as it
-- was. No entry above the last level permits less or more than before.
pub copy_one_page-isolates :
    (t : PageMap 4) (causal_addr : ℕ) (leaf : Leaf) (f : Frames)
    → IsValid f.manager
    → page_at 3 t (causal_addr / 2 ^ 12 % 2 ^ 36) ≡ some leaf
    → get_bit f.manager leaf.frame ≡ true
    → (t' : PageMap 4) × (g : Frames) × (err : Code) × (copy_one_page t causal_addr f
        ≡ some (t', g, err))
      × Grown f g
      × (((err ≡ no_enough_memory) × (t' ≡ t))
          ⊎ ((err ≡ success)
              × (frame : ℕ) × IsOwnCopy t t' (causal_addr / 2 ^ 12 % 2 ^ 36) leaf f g frame))
unfolding copy_one_page
copy_one_page-isolates t causal_addr leaf f v there held =
    let (f', p, eq, q) = new_page_map-Taken f v in after_map f' p eq q
  where
    Isolated : Option (PageMap 4 × Frames × Code) → Type 0
    Isolated o =
        (t' : PageMap 4) × (g : Frames) × (err : Code) × (o ≡ some (t', g, err))
        × Grown f g
        × (((err ≡ no_enough_memory) × (t' ≡ t))
            ⊎ ((err ≡ success)
                × (frame : ℕ) × IsOwnCopy t t' (causal_addr / 2 ^ 12 % 2 ^ 36) leaf f g frame))

    copied :
        (f' : Frames) (frame : ℕ)
        → copy_one_page_in t causal_addr (some (f', record { value = frame; error = success }))
          ≡ some (
            set_page_content 4 t (address causal_addr) frame,
            record f' { contents = put frame (f'.contents leaf.frame) f'.contents },
            success,
          )
    copied f' frame =
        ap (λ (o : Option Leaf). replace_page t causal_addr frame (copy_bytes frame o f')) there

    after_map :
        (f' : Frames) (p : WithError ℕ)
        → new_page_map f ≡ some (f', p)
        → Taken f f' p
        → Isolated (copy_one_page_in t causal_addr (new_page_map f))
    after_map f' p eq refused = (
      t,
      f,
      no_enough_memory,
      ap (copy_one_page_in t causal_addr) eq,
      Grown-refl f v,
      inl (refl, refl),
    )
    after_map f' p eq (taken _ frame grown fresh) = (
      set_page_content 4 t (address causal_addr) frame,
      record f' { contents = put frame (f'.contents leaf.frame) f'.contents },
      success,
      ap (copy_one_page_in t causal_addr) eq ∙ copied f' frame,
      record {
        valid = grown.valid;
        kept = grown.kept;
        same = λ k h.
            put_other frame k (f'.contents leaf.frame) f'.contents
              (λ e. cc (ap (get_bit f.manager) e, h, fresh.was_free))
            ∙ grown.same k h;
      },
      inr (
        refl,
        frame,
        record {
          was_free = fresh.was_free;
          is_taken = fresh.is_taken;
          bytes = put_self frame (f'.contents leaf.frame) f'.contents ∙ grown.same leaf.frame held;
          pages = λ number lt. set_page_content-page_at t causal_addr frame number lt;
          ways = λ number.
              opens-set_page_content 3 t (address causal_addr) frame (number / span 3)
                (number % span 3);
        },
      ),
    )
