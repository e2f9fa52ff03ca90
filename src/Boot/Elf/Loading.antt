-- ===== src/Boot/Elf/Loading.antt =====
-- What CopyLoadSegments of bootloader/MinLoaderPkg/Main.c leaves in memory.
use min_os.Common.{
  ◌++◌, false, true, refl, ◌⊎◌, ◌<◌, ◌≤◌, ◌%◌, ℕ, ◌+◌, ◌-◌, ◌^◌, ◌≡◌, ◌∙◌, ap, inl, inr, Bool, ◌&&◌,
  List, [], ◌∷◌, ◌==◌, ltb, if◌then◌else◌, add64, All, arith, Bool-cases,
}
use min_os.Boot.{Bytes, BaseMemory, inside}
use min_os.Boot.Elf.Bounds.{IsSound, Covers, calc_load_address_range-Covers}
use min_os.Boot.Elf.{
  Range, calc_load_address_range, ProgramHeader, pt_load, copy_segment, copy_load_segments,
}

-- Whether a segment is loaded over the address `a`.
abbrev pub loads : ProgramHeader → ℕ → Bool
loads p a = (p.type == pt_load) && inside p.vaddr p.memsz a

-- The byte that a segment has for an address in it: the file's, and zero after the file's end.
abbrev pub segment_byte : ℕ → Bytes → ProgramHeader → ℕ → ℕ
segment_byte ehdr mem p a =
    if ltb (a - p.vaddr) p.filesz then mem (ehdr + p.offset + (a - p.vaddr)) else 0

-- A segment of a file of `size` bytes at `ehdr`, whose place in memory is apart from the file.
pub record IsLoadable (ehdr size : ℕ) (p : ProgramHeader) : Type 0 where
  pub within_memory : p.filesz ≤ p.memsz
  pub no_wrap : p.vaddr + p.memsz < 2 ^ 64
  pub within_file : p.offset + p.filesz ≤ size
  pub apart : (p.vaddr + p.memsz ≤ ehdr) ⊎ (ehdr + size ≤ p.vaddr)

-- The byte at `a`, `d` before any segment is loaded, when the segments are read from `mem`.
loaded : ℕ → Bytes → List ProgramHeader → ℕ → ℕ → ℕ
loaded ehdr mem [] a d = d
loaded ehdr mem (p ∷ ps) a d =
    loaded ehdr mem ps a (if loads p a then segment_byte ehdr mem p a else d)

-- The two memories have the same file.
abbrev SameFile : ℕ → ℕ → Bytes → Bytes → Type 0
SameFile ehdr size mem mem' = (a : ℕ) → ehdr ≤ a → a < ehdr + size → mem' a ≡ mem a

module _ (lib : BaseMemory) (ehdr size : ℕ) (fits : ehdr + size < 2 ^ 64) where
  copy_segment_lem :
      (p : ProgramHeader) (mem : Bytes) (a : ℕ)
      → IsLoadable ehdr size p
      → copy_segment lib ehdr p mem a
        ≡ (if inside p.vaddr p.memsz a then segment_byte ehdr mem p a else mem a)
  unfolding copy_segment
  copy_segment_lem p mem a l =
      let e0 : add64 p.vaddr p.filesz ≡ p.vaddr + p.filesz =
        omega (arith, l.within_memory, l.no_wrap) in
      let e1 : add64 ehdr p.offset ≡ ehdr + p.offset = omega (arith, l.within_file) in
      ground (
        arith,
        l.within_memory,
        l.no_wrap,
        e0,
        e1,
        lib.set_mem_lem (add64 p.vaddr p.filesz) ((p.memsz + (2 ^ 64 - p.filesz)) % 2 ^ 64) 0
            (lib.copy_mem p.vaddr (add64 ehdr p.offset) p.filesz mem) a,
        lib.copy_mem_lem p.vaddr (add64 ehdr p.offset) p.filesz mem a,
      )

  SameFile-copy_segment :
      (p : ProgramHeader) (mem : Bytes)
      → IsLoadable ehdr size p
      → SameFile ehdr size mem (copy_segment lib ehdr p mem)
  SameFile-copy_segment p mem l a lo hi = ground (arith, copy_segment_lem p mem a l, l.apart)

  loaded-SameFile :
      (ps : List ProgramHeader) (mem mem' : Bytes) (a d : ℕ)
      → SameFile ehdr size mem mem'
      → All (IsLoadable ehdr size) ps
      → loaded ehdr mem' ps a d ≡ loaded ehdr mem ps a d
  unfolding loaded
  loaded-SameFile [] mem mem' a d same all = refl
  loaded-SameFile (p ∷ ps) mem mem' a d same all =
      let l = all.0 in
      let e : segment_byte ehdr mem' p a ≡ segment_byte ehdr mem p a =
        ground (arith, l.within_file, same (ehdr + p.offset + (a - p.vaddr))) in
      rw e (
        loaded-SameFile ps mem mem' a (if loads p a then segment_byte ehdr mem p a else d) same
          all.1)

  copy_load_segments_lem :
      (ps : List ProgramHeader) (mem : Bytes) (a : ℕ)
      → All (IsLoadable ehdr size) ps
      → copy_load_segments lib ehdr ps mem a ≡ loaded ehdr mem ps a (mem a)
  unfolding copy_load_segments loaded
  copy_load_segments_lem [] mem a all = refl
  copy_load_segments_lem (p ∷ ps) mem a all = elim (Bool-cases (p.type == pt_load)) [
    | inl e ↦
        let mem' : Bytes = copy_segment lib ehdr p mem in
        rw e (
          copy_load_segments_lem ps mem' a all.1
          ∙ loaded-SameFile ps mem mem' a (mem' a) (SameFile-copy_segment p mem all.0) all.1
          ∙ ap (loaded ehdr mem ps a) (copy_segment_lem p mem a all.0))
    | inr e ↦ rw e (copy_load_segments_lem ps mem a all.1)
  ]

  loaded-none :
      (ps : List ProgramHeader) (mem : Bytes) (a d : ℕ)
      → All (λ q. loads q a ≡ false) ps
      → loaded ehdr mem ps a d ≡ d
  unfolding loaded
  loaded-none [] mem a d off = refl
  loaded-none (p ∷ ps) mem a d off = rw off.0 (loaded-none ps mem a d off.1)

  loaded-split :
      (before : List ProgramHeader) (p : ProgramHeader) (after : List ProgramHeader) (mem : Bytes)
      (a d : ℕ)
      → loads p a ≡ true
      → All (λ q. loads q a ≡ false) after
      → loaded ehdr mem (before ++ (p ∷ after)) a d ≡ segment_byte ehdr mem p a
  unfolding loaded
  loaded-split [] p after mem a d on off =
      rw (loaded, on) (loaded-none after mem a (segment_byte ehdr mem p a) off)
  loaded-split (q ∷ before) p after mem a d on off =
      loaded-split before p after mem a (if loads q a then segment_byte ehdr mem q a else d) on off

  -- When the file and the segments' places fit in memory and are apart, each address of a segment
  -- that is loaded, and of no later one, gets that segment's byte of the file as the file was
  -- at the start, or zero after the end of the segment's part of the file.
  pub copy_load_segments-loads :
      (before : List ProgramHeader) (p : ProgramHeader) (after : List ProgramHeader) (mem : Bytes)
      (a : ℕ)
      → All (IsLoadable ehdr size) (before ++ (p ∷ after))
      → loads p a ≡ true
      → All (λ q. loads q a ≡ false) after
      → copy_load_segments lib ehdr (before ++ (p ∷ after)) mem a ≡ segment_byte ehdr mem p a
  copy_load_segments-loads before p after mem a all on off =
      copy_load_segments_lem (before ++ (p ∷ after)) mem a all
      ∙ loaded-split before p after mem a (mem a) on off

  outside-none :
      (ps : List ProgramHeader) (r : Range) (a : ℕ)
      → (a < r.first) ⊎ (r.last ≤ a)
      → All (Covers r) ps
      → All (λ q. loads q a ≡ false) ps
  outside-none [] r a out c = tt
  outside-none (p ∷ ps) r a out c = (ground (arith, c.0), outside-none ps r a out c.1)

  loadable-IsSound : (ps : List ProgramHeader) → All (IsLoadable ehdr size) ps → All IsSound ps
  loadable-IsSound [] all = tt
  loadable-IsSound (p ∷ ps) all = ((λ load. all.0.no_wrap), loadable-IsSound ps all.1)

  -- When the file and the segments' places fit in memory and are apart, CopyLoadSegments
  -- changes no byte outside the range that CalcLoadAddressRange computes for the same program
  -- headers.
  pub copy_load_segments-outside :
      (ps : List ProgramHeader) (mem : Bytes) (a : ℕ)
      → All (IsLoadable ehdr size) ps
      → let r = calc_load_address_range ps in
        (a < r.first) ⊎ (r.last ≤ a) → copy_load_segments lib ehdr ps mem a ≡ mem a
  copy_load_segments-outside ps mem a all out =
      copy_load_segments_lem ps mem a all
      ∙ loaded-none ps mem a (mem a) (
          outside-none ps (calc_load_address_range ps) a out
            (calc_load_address_range-Covers ps (loadable-IsSound ps all)).0)
