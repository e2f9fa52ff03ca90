-- ===== src/Terminal/Loading/Segments.antt =====
-- CopyLoadSegments of kernel/terminal.cpp: what a program is to see in its segments, and a segment
-- that has been set up and filled.
use Prim.Native.Nat.{max}
use min_os.Common.{
  ℕ, if◌then◌else◌, ◌+◌, ◌-◌, ◌%◌, ◌^◌, ◌≤◌, ◌<◌, ◌≡◌, ◌⊎◌, ap, ◌∙◌, Bool, true, false, Option,
  none, some, List, [], ◌∷◌, ◌==◌, ltb, add64, All, arith,
}
use min_os.Boot.Elf.{ProgramHeader, pt_load}
use min_os.Error.{WithError, success, no_enough_memory, invalid_format}
use min_os.Memory.Allocation.{IsValid}
use min_os.Memory.Bitmap.{within}
use min_os.Paging.{PageMap, Frames}
use min_os.Paging.Views.{Leaf, page_at}
use min_os.Paging.Ways.{open_at}
use min_os.Paging.Changes.{Changed}
use min_os.Terminal.Loading.Image.{page_of, Shows, IsOwn}
use min_os.Terminal.Loading.Writes.{written, store_range-Shows}
use min_os.Paging.Range.{AreSet}
use min_os.Terminal.Loading.{app_begin, store_range, segment_pages, zero_rest, fill_segment, Loaded}

-- A segment lies in the application half and does not reach its last page, and it is no shorter
-- than its bytes.
pub record IsSegment (p : ProgramHeader) : Type 0 where
  pub low : app_begin ≤ p.vaddr
  pub high : p.vaddr + p.memsz + 4095 < 2 ^ 64
  pub bytes : p.filesz ≤ p.memsz

-- The pages of the kernel's half are the same.
abbrev pub SameKernel : (t t' : PageMap 4) → Type 0
SameKernel t t' = (number : ℕ) → number < 2 ^ 35 → page_at 3 t' number ≡ page_at 3 t number

-- The page at an address is there, and the user can read it and not write to it.
abbrev pub IsSeen : PageMap 4 → (addr : ℕ) → Type 0
IsSeen t addr =
    (frame : ℕ) × (page_at 3 t (page_of addr)
      ≡ some (record { frame = frame; writable = false; user = true }))
    × (open_at 3 t (page_of addr) ≡ true)

-- The bytes of a segment, by their place in it: the file's, and zeros behind them.
abbrev pub segment_bytes : (bytes : ℕ → ℕ) → ProgramHeader → ℕ → ℕ
segment_bytes bytes p i = if ltb i p.filesz then bytes (p.offset + i) else 0

-- The bytes at the addresses of a program whose segments are put one after the other over `spec`.
unfoldable pub image : (bytes : ℕ → ℕ) → List ProgramHeader → (spec : ℕ → ℕ) → ℕ → ℕ
image bytes [] spec = spec
image bytes (p ∷ ps) spec =
    image bytes ps
      (if p.type == pt_load then written p.vaddr p.memsz (segment_bytes bytes p) spec else spec)

-- The end of the last segment in memory.
unfoldable pub program_end : List ProgramHeader → ℕ
program_end [] = 0
program_end (p ∷ ps) =
    let rest = program_end ps in if p.type == pt_load then max (p.vaddr + p.memsz) rest else rest

-- The pages of the segments are seen.
abbrev pub AreSeen : PageMap 4 → List ProgramHeader → Type 0
AreSeen t ps =
    All (λ p. (p.type == pt_load) ≡ true → (j : ℕ) → j < p.memsz → IsSeen t (p.vaddr + j)) ps

-- What a map and its frames are when the segments have been loaded into the map `t`.
pub record IsImage (t t' : PageMap 4) (g : Frames) (ps : List ProgramHeader) (shown : ℕ → ℕ)
    : Type 0 where
  pub kernel : SameKernel t t'
  pub own : IsOwn t' g.manager
  pub bytes : Shows t' g shown
  pub seen : AreSeen t' ps
  pub keeps : (addr : ℕ) → app_begin ≤ addr → addr < 2 ^ 64 → IsSeen t addr → IsSeen t' addr

-- What CopyLoadSegments and LoadELF promise.
abbrev pub Loads :
    PageMap 4 → (ps : List ProgramHeader) → (shown : ℕ → ℕ) → (end : ℕ) → Loaded → Type 0
Loads t ps shown end o =
    (t' : PageMap 4) × (g : Frames) × (last : WithError ℕ) × (o ≡ some (t', g, last))
    × IsValid g.manager
    × (last.error ≡ success → IsImage t t' g ps shown × (last.value ≡ end))
    × ((last.error ≡ success) ⊎ ((last.error ≡ no_enough_memory) ⊎ (last.error ≡ invalid_format)))

filled_bytes :
    (bytes : ℕ → ℕ) (p : ProgramHeader) (spec : ℕ → ℕ) (a : ℕ)
    → p.filesz ≤ p.memsz
    → written
        (p.vaddr + p.filesz)
        (p.memsz - p.filesz)
        (λ i. 0)
        (written p.vaddr p.filesz (λ i. bytes (p.offset + i)) spec)
        a
      ≡ written p.vaddr p.memsz (segment_bytes bytes p) spec a
filled_bytes bytes p spec a fits = ground (arith, fits)

pub fill_segment-Shows :
    (t : PageMap 4) (bytes spec : ℕ → ℕ) (p : ProgramHeader) (f : Frames)
    → IsSegment p
    → ((j : ℕ) → j < p.memsz → (leaf : Leaf) × (page_at 3 t (page_of (p.vaddr + j)) ≡ some leaf))
    → IsOwn t f.manager
    → Shows t f spec
    → (f' : Frames) × (fill_segment t bytes p f ≡ some f')
      × (f'.manager ≡ f.manager)
      × Shows t f' (written p.vaddr p.memsz (segment_bytes bytes p) spec)
unfolding fill_segment
fill_segment-Shows t bytes spec p f s there own shows =
    let (f1, e1, m1, shown1) =
      store_range-Shows p.filesz t p.vaddr (λ i. bytes (p.offset + i)) spec f s.low
        (omega (arith, s.high, s.bytes)) (λ j lt. there j (omega (arith, s.bytes))) own shows in
    let rest : (p.memsz + (2 ^ 64 - p.filesz)) % 2 ^ 64 ≡ p.memsz - p.filesz =
      omega (arith, s.high, s.bytes) in
    let start : add64 p.vaddr p.filesz ≡ p.vaddr + p.filesz = omega (arith, s.high, s.bytes) in
    let own1 : IsOwn t f1.manager = rw m1 own in
    let (f2, e2, m2, shown2) =
      store_range-Shows (p.memsz - p.filesz) t (p.vaddr + p.filesz) (λ i. 0)
        (written p.vaddr p.filesz (λ i. bytes (p.offset + i)) spec) f1 (omega (arith, s.low))
        (omega (arith, s.high, s.bytes))
        (λ j lt.
          let next : p.vaddr + (p.filesz + j) ≡ p.vaddr + p.filesz + j = omega arith in
          rw next at (there (p.filesz + j) (omega arith)))
        own1 shown1 in
    (
      f2,
      ap (zero_rest t p) e1
          ∙ ap (λ (n : ℕ). store_range n t (add64 p.vaddr p.filesz) (λ i. 0) f1) rest
          ∙ ap (λ (a : ℕ). store_range (p.memsz - p.filesz) t a (λ i. 0) f1) start
          ∙ e2,
      m2 ∙ m1,
      λ a lo hi. shown2 a lo hi ∙ filled_bytes bytes p spec a s.bytes,
    )

Changed-there :
    (f g : Frames) (old new : Option Leaf)
    → Changed false f g true old new
    → (frame : ℕ) × (new ≡ some (record { frame = frame; writable = false; user = true }))
Changed-there f g none new c = (_, c.1)
Changed-there f g (some leaf) new c = (_, c)

Changed-stays :
    (f g : Frames) (inside : Bool) (old new : Option Leaf) (frame : ℕ)
    → Changed false f g inside old new
    → old ≡ some (record { frame = frame; writable = false; user = true })
    → (frame' : ℕ) × (new ≡ some (record { frame = frame'; writable = false; user = true }))
Changed-stays f g false old new frame c e = (frame, c ∙ e)
Changed-stays f g true old new frame c e = Changed-there f g old new c

module _ (p : ProgramHeader) (t t1 : PageMap 4) (f f1 : Frames) (s : IsSegment p)
    (all : AreSet false t t1 (page_of p.vaddr) (segment_pages p) f f1) where
  pub setup-SameKernel : SameKernel t t1
  setup-SameKernel number lt =
      let outside : within (page_of p.vaddr) (segment_pages p) number ≡ false =
        ground (arith, s.low, s.high) in
      rw outside at (all number (omega arith)).0

  pub segment-IsSeen : (j : ℕ) → j < p.memsz → IsSeen t1 (p.vaddr + j)
  segment-IsSeen j lt =
      let number = page_of (p.vaddr + j) in
      let inside : within (page_of p.vaddr) (segment_pages p) number ≡ true =
        ground (arith, s.low, s.high) in
      let (frame, e) =
        Changed-there f f1 (page_at 3 t number) (page_at 3 t1 number)
          (rw inside at (all number (omega arith)).0) in
      (frame, e, (all number (omega arith)).1 (ground (arith, inside)))

  pub stays-IsSeen : (addr : ℕ) → IsSeen t addr → IsSeen t1 addr
  stays-IsSeen addr (frame, e, way) =
      let number = page_of addr in
      let (frame', e') =
        Changed-stays f f1 (within (page_of p.vaddr) (segment_pages p) number) (page_at 3 t number)
          (page_at 3 t1 number) frame (all number (omega arith)).0 e in
      (frame', e', (all number (omega arith)).1 (ground (arith, way)))

-- Each segment that is loaded is well placed.
abbrev pub AreSegments : List ProgramHeader → Type 0
AreSegments ps = All (λ p. (p.type == pt_load) ≡ true → IsSegment p) ps
