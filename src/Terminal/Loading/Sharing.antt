-- ===== src/Terminal/Loading/Sharing.antt =====
-- LoadApp of kernel/terminal.cpp: a task that runs a program sees the pages that are registered for
-- it, and cannot write to them.
use min_os.Common.{
  ℕ, ◌≡◌, ◌⊎◌, inl, inr, refl, ap, ◌∙◌, true, false, Option, none, some, Bool-cases,
}
use min_os.Error.{WithError, success, no_enough_memory, invalid_format, invalid_file, fails}
use min_os.Memory.Allocation.{IsValid}
use min_os.Paging.{PageMap, Frames, new_page_map}
use min_os.Paging.Views.{Grown}
use min_os.Paging.Entries.{Taken, taken, refused, new_page_map-Taken}
use min_os.Paging.Sharing.{copy_page_maps-Shares}
use min_os.Terminal.Loading.{
  Program, Loaded, kernel_half, AppLoadInfo, no_info, AppLoad, share_in, share, with_pml4, register,
  load_known, load_app, load_elf,
}
use min_os.Terminal.Loading.Image.{Shows, IsOwn, Shows-Grown, IsOwn-Grown}
use min_os.Terminal.Loading.Segments.{SameKernel, Loads, AreSegments, AreSeen, image, program_end}
use min_os.Terminal.Loading.Elf.{load_elf-Loads}
use min_os.Terminal.Loading.Halves.{
  IsShared, copied-IsShared, kernel_half-SameKernel, kernel_half-IsOwn, kernel_half-Shows,
}

-- What is registered of a program: its entry, the end of its last segment, and pages that a user can
-- read and not write, in which every loaded address shows the byte of the last segment over it.
pub record IsRegistered (e : Program) (info : AppLoadInfo) (f : Frames) : Type 0 where
  pub entry : info.entry ≡ e.entry
  pub vaddr_end : info.vaddr_end ≡ program_end e.headers
  pub seen : AreSeen info.pml4 e.headers
  pub bytes : Shows info.pml4 f (image e.bytes e.headers (λ a. 0))

-- What app_loads holds afterwards: what it held, or the program that has been loaded.
abbrev pub IsFrom :
    (known : Option AppLoadInfo) → Program → (info : AppLoadInfo) → (f : Frames) → Type 0
IsFrom known e info f = (known ≡ some info) ⊎ ((known ≡ none) × IsRegistered e info f)

-- What LoadApp promises when it succeeds; the frames are valid also when it fails.
abbrev pub IsLoaded :
    (known : Option AppLoadInfo) → Program → (current : PageMap 4) → AppLoad → Type 0
IsLoaded known e current a =
    IsValid a.frames.manager
    × (a.error ≡ success
        → (info : AppLoadInfo) × (a.known ≡ some info)
          × IsFrom known e info a.frames
          × (a.app_load.vaddr_end ≡ info.vaddr_end)
          × (a.app_load.entry ≡ info.entry)
          × IsShared current a.app_load.pml4 info.pml4)

abbrev Outcome :
    (known : Option AppLoadInfo) → Program → (current : PageMap 4) → Option AppLoad → Type 0
Outcome known e current o = (a : AppLoad) × (o ≡ some a) × IsLoaded known e current a

-- The pages that are registered, in a later state of the frames.
abbrev Registered :
    (known : Option AppLoadInfo) → Program → (info : AppLoadInfo) → (f : Frames) → Type 0
Registered known e info f =
    (known ≡ some info) ⊎ ((known ≡ none) × IsRegistered e info f × IsOwn info.pml4 f.manager)

Registered-Grown :
    (known : Option AppLoadInfo) (e : Program) (info : AppLoadInfo) (f g : Frames)
    → Grown f g
    → Registered known e info f
    → Registered known e info g
Registered-Grown known e info f g grown (inl same) = inl same
Registered-Grown known e info f g grown (inr (new, r, own)) = inr (
  new,
  record {
    entry = r.entry;
    vaddr_end = r.vaddr_end;
    seen = r.seen;
    bytes = Shows-Grown info.pml4 f g (image e.bytes e.headers (λ a. 0)) own grown r.bytes;
  },
  IsOwn-Grown info.pml4 f g own grown,
)

IsFrom-Registered :
    (known : Option AppLoadInfo) (e : Program) (info : AppLoadInfo) (f : Frames)
    → Registered known e info f
    → IsFrom known e info f
IsFrom-Registered known e info f (inl same) = inl same
IsFrom-Registered known e info f (inr (new, r, own)) = inr (new, r)

-- The registered pages are shared with a map that has the kernel's half only.
share-IsLoaded :
    (known : Option AppLoadInfo) (e : Program) (info : AppLoadInfo) (before current : PageMap 4)
    (f : Frames)
    → IsValid f.manager
    → Registered known e info f
    → SameKernel before current
    → Outcome known e before (share info (record info { pml4 = kernel_half current }) f)
share-IsLoaded known e info before current f v from same =
    let (new, g, err, eq, grown, er, all) =
      copy_page_maps-Shares 3 (kernel_half current) info.pml4 256 f v in
    (
      _,
      ap (share_in (some info) info) eq,
      (
        grown.valid,
        λ ok.
            let shared = copied-IsShared current new info.pml4 (all ok) in
            (
              info,
              refl,
              IsFrom-Registered known e info g (Registered-Grown known e info f g grown from),
              refl,
              refl,
              record {
                kernel = λ number lt. shared.kernel number lt ∙ same number lt;
                app = shared.app;
              },
            ),
      ),
    )

-- What follows SetupPML4.
with_pml4-IsLoaded :
    (known known' : Option AppLoadInfo) (e : Program) (info : AppLoadInfo)
    (before current : PageMap 4) (next : PageMap 4 → Frames → Option AppLoad) (f : Frames)
    → IsValid f.manager
    → ((f' : Frames)
        → IsValid f'.manager
        → Grown f f'
        → Outcome known e before (next (kernel_half current) f'))
    → Outcome known e before (with_pml4 known' info current next (new_page_map f))
with_pml4-IsLoaded known known' e info before current next f v h =
    let (f', p, eq, t) = new_page_map-Taken f v in after_map f' p eq t
  where
    step : Option (Frames × WithError ℕ) → Option AppLoad
    step = with_pml4 known' info current next

    after_map :
        (f' : Frames) (p : WithError ℕ)
        → new_page_map f ≡ some (f', p)
        → Taken f f' p
        → Outcome known e before (step (new_page_map f))
    after_map f' p eq refused = (_, ap step eq, (v, λ ok. cc))
    after_map f' p eq (taken _ frame grown fresh) =
        let (a, eq', loaded) = h f' grown.valid grown in (a, ap step eq ∙ eq', loaded)

module _ (e : Program) (current t : PageMap 4) (g : Frames) (last : WithError ℕ)
    (v : IsValid g.manager) where
  register-fails :
      fails last.error ≡ true → Outcome none e current (register e.entry (some (t, g, last)))
  register-fails bad = (
    record { known = none; app_load = no_info; frames = g; error = last.error },
    simp bad,
    (v, λ ok. cc (ap fails ok, bad)),
  )

  register-shares :
      fails last.error ≡ false
      → SameKernel current t
      → IsOwn t g.manager
      → IsRegistered e (record { vaddr_end = last.value; entry = e.entry; pml4 = t }) g
      → Outcome none e current (register e.entry (some (t, g, last)))
  register-shares ok same own r =
      let info : AppLoadInfo = record { vaddr_end = last.value; entry = e.entry; pml4 = t } in
      let next = λ (t' : PageMap 4) (f' : Frames). share info (record info { pml4 = t' }) f' in
      let go : register e.entry (some (t, g, last))
          ≡ with_pml4 (some info) info t next (new_page_map g) =
        simp ok in
      let (a, eq, loaded) =
        with_pml4-IsLoaded none (some info) e info current t next g v (λ f' v' grown.
          share-IsLoaded none e info current t f' v'
            (Registered-Grown none e info g f' grown (inr (refl, r, own))) same) in
      (a, go ∙ eq, loaded)

register-IsLoaded :
    (e : Program) (current t : PageMap 4) (o : Loaded)
    → SameKernel current t
    → Loads t e.headers (image e.bytes e.headers (λ a. 0)) (program_end e.headers) o
    → Outcome none e current (register e.entry o)
register-IsLoaded e current t o same (t', g, last, eq, v, fine, er) =
    let (a, eq', loaded) = by_error er in (a, ap (register e.entry) eq ∙ eq', loaded)
  where
    by_error :
        (last.error ≡ success) ⊎ ((last.error ≡ no_enough_memory) ⊎ (last.error ≡ invalid_format))
        → Outcome none e current (register e.entry (some (t', g, last)))
    by_error (inl ok) =
        let (h, end) = fine ok in
        register-shares e current t' g last v (ap fails ok)
          (λ number lt. h.kernel number lt ∙ same number lt) h.own
          (record { entry = refl; vaddr_end = end; seen = h.seen; bytes = h.bytes })
    by_error (inr (inl full)) = register-fails e current t' g last v (ap fails full)
    by_error (inr (inr bad)) = register-fails e current t' g last v (ap fails bad)

load_known-IsLoaded :
    (known : Option AppLoadInfo) (e : Program) (current : PageMap 4) (f : Frames)
    → AreSegments e.headers
    → IsValid f.manager
    → Outcome known e current (load_known known e (kernel_half current) f)
load_known-IsLoaded (some info) e current f s v =
    share-IsLoaded (some info) e info current current f v (inl refl) (λ number lt. refl)
load_known-IsLoaded none e current f s v = elim (Bool-cases e.is_elf) [
  | inl elf ↦
      let half = kernel_half current in
      let (a, eq, loaded) =
        register-IsLoaded e current half (load_elf e half f) (kernel_half-SameKernel current) (
          load_elf-Loads e half f s v (kernel_half-IsOwn current f)
            (kernel_half-Shows current f)) in
      let go : load_known none e half f ≡ register e.entry (load_elf e half f) = simp elf in
      (a, go ∙ eq, loaded)
  | inr other ↦ (
    record { known = none; app_load = no_info; frames = f; error = invalid_file },
    simp other,
    (v, λ ok. cc),
  )
]

-- LoadApp on a valid allocator, where the segments that the program loads lie in the application
-- half, do not reach its last page and are no shorter than their bytes, always returns and leaves
-- the allocator valid. When it succeeds, what is registered is what was known; or nothing was, and
-- it is this program: its entry, the end of its last segment, and pages that a user can read and
-- not write, where each address of a segment shows the byte of the file, or zero behind the bytes
-- of the file, and where segments overlap, the later one's. LoadApp gives the registered entry and
-- end to the task, whose map has the kernel's half of the current map, and every page of the
-- application half is the registered one, or is not there like it, and cannot be written to.
pub load_app-IsLoaded :
    (known : Option AppLoadInfo) (e : Program) (current : PageMap 4) (f : Frames)
    → AreSegments e.headers
    → IsValid f.manager
    → (a : AppLoad) × (load_app known e current f ≡ some a) × IsLoaded known e current a
unfolding load_app
load_app-IsLoaded known e current f s v =
    with_pml4-IsLoaded known known e no_info current current (λ t f'. load_known known e t f') f v
      (λ f' v' grown. load_known-IsLoaded known e current f' s v')
