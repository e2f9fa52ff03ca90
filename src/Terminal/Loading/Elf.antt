-- ===== src/Terminal/Loading/Elf.antt =====
-- CopyLoadSegments and LoadELF of kernel/terminal.cpp: the program's bytes are at their addresses,
-- and no write to them faults.
use Prim.Native.Nat.{max}
use min_os.Common.{
  ℕ, ◌+◌, ◌≡◌, ◌⊎◌, inl, inr, refl, ap, ◌∙◌, false, some, List, [], ◌∷◌, ◌==◌, ltb, add64, arith,
  Bool-cases,
}
use min_os.Boot.Elf.{ProgramHeader, pt_load}
use min_os.Error.{Code, success, no_enough_memory, invalid_format}
use min_os.Memory.Allocation.{IsValid}
use min_os.Paging.{PageMap, Frames, Returned, setup_page_maps}
use min_os.Paging.Views.{Grown}
use min_os.Paging.Range.{AreSet, setup_page_maps-Changed}
use min_os.Terminal.Loading.{
  Program, et_exec, app_begin, first_load_address, segment_pages, Loaded, next_segment,
  load_segment, load_segments, load_elf,
}
use min_os.Terminal.Loading.Image.{page_of, Shows, IsOwn, AreSet-IsOwn, AreSet-Shows}
use min_os.Terminal.Loading.Writes.{written}
use min_os.Terminal.Loading.Segments.{
  IsSegment, AreSegments, segment_bytes, image, program_end, IsImage, Loads, fill_segment-Shows,
  setup-SameKernel, segment-IsSeen, stays-IsSeen,
}

-- The pages of a segment that has been set up, and filled.
IsImage-cons :
    (p : ProgramHeader) (ps : List ProgramHeader) (t t1 t' : PageMap 4) (f f1 g : Frames)
    (shown : ℕ → ℕ)
    → IsSegment p
    → AreSet false t t1 (page_of p.vaddr) (segment_pages p) f f1
    → IsImage t1 t' g ps shown
    → IsImage t t' g (p ∷ ps) shown
IsImage-cons p ps t t1 t' f f1 g shown s all h = record {
  kernel = λ number lt. h.kernel number lt ∙ setup-SameKernel p t t1 f f1 s all number lt;
  own = h.own;
  bytes = h.bytes;
  seen = (
    λ loads j lt.
        h.keeps (p.vaddr + j) (omega (arith, s.low)) (omega (arith, s.high))
          (segment-IsSeen p t t1 f f1 s all j lt),
    h.seen,
  );
  keeps = λ addr lo hi see. h.keeps addr lo hi (stays-IsSeen p t t1 f f1 s all addr see);
}

load_segment-Loads :
    (bytes spec : ℕ → ℕ) (p : ProgramHeader) (ps : List ProgramHeader) (shown : ℕ → ℕ) (end : ℕ)
    (last_addr : ℕ) (again : PageMap 4 → Frames → Loaded) (t : PageMap 4) (f : Frames)
    → IsSegment p
    → IsValid f.manager
    → IsOwn t f.manager
    → Shows t f spec
    → ((t' : PageMap 4) (f' : Frames)
        → IsValid f'.manager
        → IsOwn t' f'.manager
        → Shows t' f' (written p.vaddr p.memsz (segment_bytes bytes p) spec)
        → Loads t' ps shown end (again t' f'))
    → Loads t
        (p ∷ ps)
        shown
        end
        (load_segment bytes p last_addr again (setup_page_maps false t p.vaddr (segment_pages p) f))
load_segment-Loads bytes spec p ps shown end last_addr again t f s v own shows next =
    let (t1, f1, err, eq, grown, er, all) =
      setup_page_maps-Changed false t p.vaddr (segment_pages p) f v in
    after t1 f1 err eq grown er all
  where
    step : Returned (PageMap 4) → Loaded
    step = load_segment bytes p last_addr again

    after :
        (t1 : PageMap 4) (f1 : Frames) (err : Code)
        → setup_page_maps false t p.vaddr (segment_pages p) f ≡ some (t1, f1, err)
        → Grown f f1
        → (err ≡ success) ⊎ (err ≡ no_enough_memory)
        → (err ≡ success → AreSet false t t1 (page_of p.vaddr) (segment_pages p) f f1)
        → Loads t (p ∷ ps) shown end (step (setup_page_maps false t p.vaddr (segment_pages p) f))
    after t1 f1 err eq grown (inr bad) all = (
      t1,
      f1,
      record { value = last_addr; error = no_enough_memory },
      ap step eq ∙ rw bad refl,
      grown.valid,
      λ ok. cc,
      inr (inl refl),
    )
    after t1 f1 err eq grown (inl ok) all =
        let first = page_of p.vaddr in
        let own1 = AreSet-IsOwn false t t1 first (segment_pages p) f f1 grown (all ok) own in
        let shown1 =
          AreSet-Shows false t t1 first (segment_pages p) f f1 grown (all ok) own spec shows in
        let (f2, e2, m2, shown2) =
          fill_segment-Shows t1 bytes spec p f1 s
            (λ j lt. let (frame, e, way) = segment-IsSeen p t t1 f f1 s (all ok) j lt in (_, e))
            own1 shown1 in
        let v2 : IsValid f2.manager = rw m2 grown.valid in
        let own2 : IsOwn t1 f2.manager = rw m2 own1 in
        let (t3, f3, last, e3, v3, fine, er3) = next t1 f2 v2 own2 shown2 in
        (
          t3,
          f3,
          last,
          ap step eq ∙ rw ok (ap (next_segment t1 again) e2 ∙ e3),
          v3,
          λ done. (IsImage-cons p ps t t1 t3 f f1 f3 shown s (all ok) (fine done).0, (fine done).1),
          er3,
        )

IsImage-skip :
    (p : ProgramHeader) (ps : List ProgramHeader) (t t' : PageMap 4) (g : Frames) (shown : ℕ → ℕ)
    → (p.type == pt_load) ≡ false
    → IsImage t t' g ps shown
    → IsImage t t' g (p ∷ ps) shown
IsImage-skip p ps t t' g shown other h = record {
  kernel = h.kernel;
  own = h.own;
  bytes = h.bytes;
  seen = (λ loads. cc, h.seen);
  keeps = h.keeps;
}

load_segments-Loads :
    (bytes spec : ℕ → ℕ) (ps : List ProgramHeader) (last_addr : ℕ) (t : PageMap 4) (f : Frames)
    → AreSegments ps
    → IsValid f.manager
    → IsOwn t f.manager
    → Shows t f spec
    → Loads t ps
        (image bytes ps spec)
        (max last_addr (program_end ps))
        (load_segments bytes ps last_addr t f)
unfolding load_segments image program_end
load_segments-Loads bytes spec [] last_addr t f s v own shows = (
  t,
  f,
  _,
  refl,
  v,
  λ fine. (
    record {
      kernel = λ number lt. refl;
      own = own;
      bytes = shows;
      seen = tt;
      keeps = λ addr lo hi see. see;
    },
    omega arith,
  ),
  inl refl,
)
load_segments-Loads bytes spec (p ∷ ps) last_addr t f s v own shows =
    elim (Bool-cases (p.type == pt_load)) [
      | inr other ↦
          let (t', g, last, eq, v', h, er) =
            load_segments-Loads bytes spec ps last_addr t f s.1 v own shows in
          rw other (
            t',
            g,
            last,
            eq,
            v',
            λ fine. (IsImage-skip p ps t t' g _ other (h fine).0, (h fine).1),
            er,
          )
      | inl loads ↦
          let end : add64 p.vaddr p.memsz ≡ p.vaddr + p.memsz = omega (arith, (s.0 loads).high) in
          let last' = max last_addr (p.vaddr + p.memsz) in
          let assoc : max last' (program_end ps)
              ≡ max last_addr (max (p.vaddr + p.memsz) (program_end ps)) =
            omega arith in
          rw (loads, end)
            (rw (← assoc) (
              load_segment-Loads bytes spec p ps _ _ last'
                (λ t1 f1. load_segments bytes ps last' t1 f1) t f (s.0 loads) v own shows
                (λ t1 f1 v1 own1 shows1.
                  load_segments-Loads bytes (written p.vaddr p.memsz (segment_bytes bytes p) spec)
                    ps last' t1 f1 s.1 v1 own1 shows1)))
    ]

-- LoadELF of a program whose segments are well placed always returns: no write to them faults.
pub load_elf-Loads :
    (e : Program) (t : PageMap 4) (f : Frames)
    → AreSegments e.headers
    → IsValid f.manager
    → IsOwn t f.manager
    → Shows t f (λ a. 0)
    → Loads t e.headers (image e.bytes e.headers (λ a. 0)) (program_end e.headers) (load_elf e t f)
unfolding load_elf
load_elf-Loads e t f s v own shows = elim (Bool-cases (e.type == et_exec)) [
  | inr other ↦ rw other invalid
  | inl exec ↦ elim (Bool-cases (ltb (first_load_address e.headers) app_begin)) [
    | inl low ↦ rw (exec, low) invalid
    | inr high ↦
        let top : max 0 (program_end e.headers) ≡ program_end e.headers = omega arith in
        rw (exec, high)
          (rw top at (load_segments-Loads e.bytes (λ a. 0) e.headers 0 t f s v own shows))
  ]
]
  where
    invalid :
        Loads t e.headers
          (image e.bytes e.headers (λ a. 0))
          (program_end e.headers)
          (some (t, f, record { value = 0; error = invalid_format }))
    invalid = (t, f, _, refl, v, λ fine. cc, inr (inr refl))
