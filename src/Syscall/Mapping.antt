-- ===== src/Syscall/Mapping.antt =====
-- MapFile of kernel/syscall.cpp with FindFileMapping of kernel/paging.cpp: every address of a mapped
-- file is found, and files do not overlap.
use min_os.Common.{
  ℕ, ◌+◌, ◌-◌, ◌%◌, ◌^◌, ◌≤◌, ◌<◌, ◌≡◌, inl, inr, refl, ◌∙◌, Bool, false, ◌&&◌, Option, none, some,
  List, [], ◌∷◌, ◌++◌, ltb, leb, if◌then◌else◌, All, arith, Bool-cases,
}
use min_os.Paging.Faults.{FileMapping, Space, find_file_mapping}
use min_os.Syscall.{Errno, is_negative, file_at, map_opened, map_file}

-- A mapping lies above an address.
abbrev pub IsAbove : ℕ → FileMapping → Type 0
IsAbove bound m = (bound ≤ m.vaddr_begin) × (m.vaddr_begin ≤ m.vaddr_end)

-- The files that are mapped lie above the end of what is left for others.
abbrev pub IsApart : Space → Type 0
IsApart s = All (IsAbove s.file_map_end) s.file_maps

abbrev pub holds : FileMapping → ℕ → Bool
holds m addr = leb m.vaddr_begin addr && ltb addr m.vaddr_end

find_file_mapping-append :
    (ms : List FileMapping) (m : FileMapping) (addr bound : ℕ)
    → All (IsAbove bound) ms
    → addr < bound
    → find_file_mapping (ms ++ m ∷ []) addr ≡ (if holds m addr then some m else none)
unfolding find_file_mapping
find_file_mapping-append [] m addr bound all lt = refl
find_file_mapping-append (x ∷ ms) m addr bound all lt =
    let miss : (leb x.vaddr_begin addr && ltb addr x.vaddr_end) ≡ false = ground (arith, all.0) in
    rw miss (find_file_mapping-append ms m addr bound all.1 lt)

find_file_mapping-keeps :
    (ms : List FileMapping) (m : FileMapping) (addr : ℕ)
    → holds m addr ≡ false
    → find_file_mapping (ms ++ m ∷ []) addr ≡ find_file_mapping ms addr
unfolding find_file_mapping
find_file_mapping-keeps [] m addr h = rw h refl
find_file_mapping-keeps (x ∷ ms) m addr h =
    elim (Bool-cases (leb x.vaddr_begin addr && ltb addr x.vaddr_end)) [
      | inl hit ↦ rw hit refl
      | inr miss ↦ rw miss (find_file_mapping-keeps ms m addr h)
    ]

All-lower :
    (ms : List FileMapping) (bound low : ℕ)
    → low ≤ bound
    → All (IsAbove bound) ms
    → All (IsAbove low) ms
All-lower [] bound low h all = tt
All-lower (m ∷ ms) bound low h all =
    ((omega (arith, all.0.0), all.0.1), All-lower ms bound low h all.1)

All-end :
    (ms : List FileMapping) (m : FileMapping) (low : ℕ)
    → All (IsAbove low) ms
    → IsAbove low m
    → All (IsAbove low) (ms ++ m ∷ [])
All-end [] m low all h = (h, tt)
All-end (x ∷ ms) m low all h = (all.0, All-end ms m low all.1 h)

map_opened-finds :
    (fd : ℕ) (s : Space) (file_size : ℕ)
    → IsApart s
    → file_size ≤ s.file_map_end
    → s.file_map_end < 2 ^ 64
    → let (s', r, stored) = map_opened fd s (some file_size) in
      let m : FileMapping = record { fd = fd; vaddr_begin = r.value; vaddr_end = s.file_map_end } in
      (r.error ≡ Errno.no_error)
      × (stored ≡ some file_size)
      × (r.value % 4096 ≡ 0)
      × (file_size ≤ s.file_map_end - r.value)
      × (s.file_map_end - r.value < file_size + 4096)
      × (r.value ≤ s.file_map_end)
      × ((addr : ℕ)
          → find_file_mapping s'.file_maps addr
            ≡ (if holds m addr then some m else find_file_mapping s.file_maps addr))
      × IsApart s'
map_opened-finds fd s file_size apart fits small = (
  refl,
  refl,
  omega arith,
  omega arith,
  omega arith,
  omega arith,
  λ addr. finds addr _ refl,
  All-end _ _ _ (All-lower s.file_maps s.file_map_end _ (omega arith) apart)
      (omega arith, omega arith),
)
  where
    finds :
        (addr : ℕ) (m : FileMapping)
        → m.vaddr_end ≡ s.file_map_end
        → find_file_mapping (s.file_maps ++ m ∷ []) addr
          ≡ (if holds m addr then some m else find_file_mapping s.file_maps addr)
    finds addr m e = elim (Bool-cases (holds m addr)) [
      | inl hit ↦
          find_file_mapping-append s.file_maps m addr s.file_map_end apart (ground arith)
          ∙ rw hit refl
      | inr miss ↦ find_file_mapping-keeps s.file_maps m addr miss ∙ rw miss refl
    ]

-- MapFile of a descriptor that has a file no larger than the addresses that are left, in a space whose
-- mappings lie above those addresses. It stores the size, and returns the start of a page; the mapping from there holds
-- the file, with less than a page to spare, and becomes the one that FindFileMapping finds for each
-- of its addresses. For every other address FindFileMapping finds what it found before, and the
-- mappings lie above what is left again.
pub map_file-finds :
    {A : Type 0} (size : A → ℕ) (files : List (Option A)) (s : Space) (arg1 : ℕ) (file : A)
    → is_negative arg1 ≡ false
    → file_at files (arg1 % 2 ^ 32) ≡ some file
    → IsApart s
    → size file ≤ s.file_map_end
    → s.file_map_end < 2 ^ 64
    → let (s', r, stored) = map_file size files s arg1 in
      let m : FileMapping = record {
        fd = arg1 % 2 ^ 32;
        vaddr_begin = r.value;
        vaddr_end = s.file_map_end;
      } in
      (r.error ≡ Errno.no_error)
      × (stored ≡ some (size file))
      × (r.value % 4096 ≡ 0)
      × (size file ≤ s.file_map_end - r.value)
      × (s.file_map_end - r.value < size file + 4096)
      × (r.value ≤ s.file_map_end)
      × ((addr : ℕ)
          → find_file_mapping s'.file_maps addr
            ≡ (if holds m addr then some m else find_file_mapping s.file_maps addr))
      × IsApart s'
unfolding map_file
map_file-finds size files s arg1 file h e apart fits small =
    rw (h, e) (map_opened-finds (arg1 % 2 ^ 32) s (size file) apart fits small)
