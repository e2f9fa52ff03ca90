-- ===== src/Paging/Range.antt =====
-- SetupPageMaps of kernel/paging.cpp over the pages of the address space.
use min_os.Common.{ℕ, ◌+◌, ◌*◌, ◌/◌, ◌%◌, ◌^◌, ◌<◌, ◌≡◌, ◌≢◌, ◌⊎◌, ap, Bool, some, arith}
use min_os.Error.{Code, success, no_enough_memory}
use min_os.Memory.Allocation.{IsValid}
use min_os.Memory.Bitmap.{within}
use min_os.Paging.{address, PageMap, Frames, finished, setup_page_maps}
use min_os.Paging.Views.{span, address-IsIndexed, page_number-address, page_at, Grown}
use min_os.Paging.Ways.{Opened, open_at}
use min_os.Paging.Changes.{Changed}
use min_os.Paging.Apart.{Differ, Apart-at}
use min_os.Paging.Setup.{setup_page_map-Promises}

-- What SetupPageMaps does to each page, where the range is the `n` pages from `first` on. A page of
-- the range is there afterwards, by the entries of every level, and two pages that were not there
-- lie in different frames.
abbrev pub AreSet : (writable : Bool) → (t t' : PageMap 4) → (first n : ℕ) → (f g : Frames) → Type 0
AreSet writable t t' first n f g =
    (number : ℕ)
    → number < span 4
    → Changed writable f g (within first n number) (page_at 3 t number) (page_at 3 t' number)
      × Opened (within first n number) (open_at 3 t number) (open_at 3 t' number)
      × ((other : ℕ)
          → other < span 4
          → number ≢ other
          → Differ (page_at 3 t number) (page_at 3 t other) (page_at 3 t' number)
              (page_at 3 t' other))

-- SetupPageMaps on a valid allocator always returns, with success or kNoEnoughMemory; the allocator
-- stays valid, and what was allocated stays so and holds the same bytes. When it succeeds, each of
-- the `num_4kpages` pages from the one of `addr` on, as far as the address space goes, is there for
-- the user with the permission that was asked for: in its old frame if it was there, and else in a
-- frame of zeros that was free, a different one for each page. The entries above the last level on the way to it are there, writable
-- and the user's, so that only the entry of the page decides. Every other page is as it was, and
-- the way to it is still open if it was.
pub setup_page_maps-Changed :
    (writable : Bool) (t : PageMap 4) (addr num_4kpages : ℕ) (f : Frames)
    → IsValid f.manager
    → (t' : PageMap 4) × (g : Frames) × (err : Code) × (setup_page_maps writable t addr num_4kpages
          f
        ≡ some (t', g, err))
      × Grown f g
      × ((err ≡ success) ⊎ (err ≡ no_enough_memory))
      × (err ≡ success → AreSet writable t t' (addr / 2 ^ 12 % 2 ^ 36) num_4kpages f g)
unfolding setup_page_maps
setup_page_maps-Changed writable t addr num_4kpages f v =
    let (p, eq, s) =
      setup_page_map-Promises writable 4 (omega arith) t (address addr) num_4kpages f v
        (address-IsIndexed addr) in
    (
      p.page_map,
      p.frames,
      p.error,
      ap finished eq,
      s.grown,
      s.error,
      λ ok number lt.
          let split : number / span 3 * span 3 + number % span 3 ≡ number = omega arith in
          let here = s.pages ok (number / span 3) (number % span 3) (omega arith) (omega arith) in
          let way = s.ways ok (number / span 3) (number % span 3) (omega arith) (omega arith) in
          (
            rw (page_number-address addr) at (rw split at here),
            rw (page_number-address addr) at (rw split at way),
            λ other lt' away.
                Apart-at 3 t p.page_map number other (s.apart ok) (omega arith) (omega arith) away,
          ),
    )
