-- ===== src/Boot/Elf/Bounds.antt =====
-- What CalcLoadAddressRange of bootloader/MinLoaderPkg/Main.c computes.
use Prim.Native.Nat.{min, max}
use mathlib.Core.Path.{subst}
use min_os.Common.{
  sym, ℕ, true, false, ◌+◌, ◌-◌, ◌*◌, ◌≤◌, ◌<◌, ◌^◌, ◌≡◌, ◌⊎◌, inl, inr, refl, List, [], ◌∷◌, ◌==◌,
  add64, All, arith, Bool-cases, ==_iff,
}
use min_os.Boot.Elf.{ProgramHeader, Range, pt_load, widen, calc_load_address_range, kernel_pages}

-- A segment that is loaded does not wrap around.
abbrev pub IsSound : ProgramHeader → Type 0
IsSound p = p.type ≡ pt_load → p.vaddr + p.memsz < 2 ^ 64

-- Every segment that is loaded lies in the range.
abbrev pub Covers : Range → ProgramHeader → Type 0
Covers r p = p.type ≡ pt_load → (r.first ≤ p.vaddr) × (p.vaddr + p.memsz ≤ r.last)

-- Some segment that is loaded starts at, or ends at, an address.
abbrev pub StartsAt : ℕ → List ProgramHeader → Type 0
StartsAt a [] = ⊥
StartsAt a (p ∷ ps) = ((p.type ≡ pt_load) × (p.vaddr ≡ a)) ⊎ StartsAt a ps

abbrev pub EndsAt : ℕ → List ProgramHeader → Type 0
EndsAt a [] = ⊥
EndsAt a (p ∷ ps) = ((p.type ≡ pt_load) × (p.vaddr + p.memsz ≡ a)) ⊎ EndsAt a ps

le_cases : (a b : ℕ) → (a ≤ b) ⊎ (b ≤ a)
le_cases a b = grind arith

-- The range after a segment that is loaded.
abbrev next : ProgramHeader → Range → Range
next p r = record { first = min r.first p.vaddr; last = max r.last (add64 p.vaddr p.memsz) }

widen-load :
    (p : ProgramHeader) (ps : List ProgramHeader) (r : Range)
    → (p.type == pt_load) ≡ true
    → widen (p ∷ ps) r ≡ widen ps (next p r)
unfolding widen
widen-load p ps r e = rw (widen, e) refl

widen-skip :
    (p : ProgramHeader) (ps : List ProgramHeader) (r : Range)
    → (p.type == pt_load) ≡ false
    → widen (p ∷ ps) r ≡ widen ps r
unfolding widen
widen-skip p ps r e = rw (widen, e) refl

widen-bounds :
    (ps : List ProgramHeader) (r : Range)
    → ((widen ps r).first ≤ r.first) × (r.last ≤ (widen ps r).last)
unfolding widen
widen-bounds [] r = (omega arith, omega arith)
widen-bounds (p ∷ ps) r = elim (Bool-cases (p.type == pt_load)) [
  | inl e ↦
      rw (widen-load p ps r e) (
        omega (arith, (widen-bounds ps (next p r)).0),
        omega (arith, (widen-bounds ps (next p r)).1),
      )
  | inr e ↦ rw (widen-skip p ps r e) (widen-bounds ps r)
]

widen-Covers : (ps : List ProgramHeader) (r : Range) → All IsSound ps → All (Covers (widen ps r)) ps
widen-Covers [] r s = tt
widen-Covers (p ∷ ps) r s = elim (Bool-cases (p.type == pt_load)) [
  | inl e ↦
      subst (λ w. All (Covers w) (p ∷ ps)) (sym (widen-load p ps r e))
        (
          (λ load.
              let w = s.0 load in
              (
                omega (arith, (widen-bounds ps (next p r)).0),
                omega (arith, w, (widen-bounds ps (next p r)).1),
              )),
          widen-Covers ps (next p r) s.1,
        )
  | inr e ↦
      subst (λ w. All (Covers w) (p ∷ ps)) (sym (widen-skip p ps r e))
        ((λ load. absurd (ground arith)), widen-Covers ps r s.1)
]

attained_first :
    (w r : ℕ) (p : ProgramHeader) (ps : List ProgramHeader)
    → p.type ≡ pt_load
    → (w ≡ min r p.vaddr) ⊎ StartsAt w ps
    → (w ≡ r) ⊎ StartsAt w (p ∷ ps)
attained_first w r p ps load (inl e) = elim (le_cases r p.vaddr) [
  | inl le ↦ inl (omega arith)
  | inr ge ↦ inr (inl (load, omega arith))
]
attained_first w r p ps load (inr later) = inr (inr later)

attained_last :
    (w r : ℕ) (p : ProgramHeader) (ps : List ProgramHeader)
    → IsSound p
    → p.type ≡ pt_load
    → (w ≡ max r (add64 p.vaddr p.memsz)) ⊎ EndsAt w ps
    → (w ≡ r) ⊎ EndsAt w (p ∷ ps)
attained_last w r p ps sound load (inl e) =
    let small = sound load in
    elim (le_cases (p.vaddr + p.memsz) r) [
      | inl le ↦ inl (omega arith)
      | inr ge ↦ inr (inl (load, omega arith))
    ]
attained_last w r p ps sound load (inr later) = inr (inr later)

later_first :
    (w r : ℕ) (p : ProgramHeader) (ps : List ProgramHeader)
    → (w ≡ r) ⊎ StartsAt w ps
    → (w ≡ r) ⊎ StartsAt w (p ∷ ps)
later_first w r p ps (inl e) = inl e
later_first w r p ps (inr e) = inr (inr e)

later_last :
    (w r : ℕ) (p : ProgramHeader) (ps : List ProgramHeader)
    → (w ≡ r) ⊎ EndsAt w ps
    → (w ≡ r) ⊎ EndsAt w (p ∷ ps)
later_last w r p ps (inl e) = inl e
later_last w r p ps (inr e) = inr (inr e)

-- Each end of the range `w` is that of the range `r` or that of a segment that is loaded.
abbrev IsAttained : Range → Range → List ProgramHeader → Type 0
IsAttained w r ps =
    ((w.first ≡ r.first) ⊎ StartsAt w.first ps) × ((w.last ≡ r.last) ⊎ EndsAt w.last ps)

widen-IsAttained :
    (ps : List ProgramHeader) (r : Range) → All IsSound ps → IsAttained (widen ps r) r ps
unfolding widen
widen-IsAttained [] r s = (inl refl, inl refl)
widen-IsAttained (p ∷ ps) r s = elim (Bool-cases (p.type == pt_load)) [
  | inl e ↦
      let ih = widen-IsAttained ps (next p r) s.1 in
      let load = (==_iff p.type pt_load).0 e in
      subst (λ w. IsAttained w r (p ∷ ps)) (sym (widen-load p ps r e))
        (attained_first _ r.first p ps load ih.0, attained_last _ r.last p ps s.0 load ih.1)
  | inr e ↦
      let ih = widen-IsAttained ps r s.1 in
      subst (λ w. IsAttained w r (p ∷ ps)) (sym (widen-skip p ps r e))
        (later_first _ r.first p ps ih.0, later_last _ r.last p ps ih.1)
]

-- When no segment that is loaded wraps around, each lies in the range that CalcLoadAddressRange
-- computes, and the range is no wider: it starts where one of them starts and ends where
-- one of them ends, or is the initial empty one.
pub calc_load_address_range-Covers :
    (ps : List ProgramHeader)
    → All IsSound ps
    → let r = calc_load_address_range ps in
      All (Covers r) ps
      × ((r.first ≡ 2 ^ 64 - 1) ⊎ StartsAt r.first ps)
      × ((r.last ≡ 0) ⊎ EndsAt r.last ps)
unfolding calc_load_address_range
calc_load_address_range-Covers ps s =
    let start : Range = record { first = 2 ^ 64 - 1; last = 0 } in
    let attained = widen-IsAttained ps start s in (widen-Covers ps start s, attained.0, attained.1)

-- The pages that UefiMain asks for hold a range that is not reversed and does not reach the last
-- page of the address space, with less than a page to spare.
pub kernel_pages-hold :
    (r : Range)
    → r.first ≤ r.last
    → r.last + 0xfff < 2 ^ 64
    → (r.last ≤ r.first + kernel_pages r * 0x1000)
      × (r.first + kernel_pages r * 0x1000 < r.last + 0x1000)
unfolding kernel_pages
kernel_pages-hold r h k = (omega arith, omega arith)
