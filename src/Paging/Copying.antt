-- ===== src/Paging/Copying.antt =====
-- The loop of CopyPageMaps in kernel/paging.cpp.
use min_os.Common.{
  ℕ, zero, suc, ◌+◌, ◌≤◌, ◌<◌, ◌≡◌, ◌⊎◌, inl, inr, refl, ap, ◌∙◌, Bool, true, false, Option, none,
  some, put, put_self, put_other, arith, Bool-cases, eq_cases,
}
use min_os.Error.{Code, success, no_enough_memory}
use min_os.Memory.Allocation.{IsValid}
use min_os.Paging.{Entry, PageMap, Frames, Returned}
use min_os.Paging.Views.{span, Leaf, see, Grown, Grown-refl, Grown-trans}
use min_os.Paging.Copies.{copy_next, copy_round, copy_loop}

-- A page as the copy sees it.
abbrev pub read_only : Option Leaf → Option Leaf
read_only none = none
read_only (some leaf) = some (record leaf { writable = false })

-- What becomes of an entry: one that is present in the source has the same pages, read-only, and
-- any other stays.
abbrev pub Shares : (level : ℕ) → (dest src new : Entry (PageMap level)) → Type 0
Shares level dest src new =
    (src.present ≡ true
      → (number : ℕ) → number < span level
      → see level new number ≡ read_only (see level src number))
    × (src.present ≡ false → new ≡ dest)

-- What CopyPageMaps promises of an entry.
abbrev pub EntryOutcome :
    (level : ℕ)
    → (dest src : Entry (PageMap level)) → Frames
    → Returned (Entry (PageMap level))
    → Type 0
EntryOutcome level dest src f o =
    (new : Entry (PageMap level)) × (g : Frames) × (err : Code) × (o ≡ some (new, g, err))
    × Grown f g
    × ((err ≡ success) ⊎ (err ≡ no_enough_memory))
    × (err ≡ success → Shares level dest src new)

-- What its loop promises of the entries from `i` on.
abbrev pub LoopOutcome :
    (rounds level i : ℕ)
    → (dest src : PageMap (suc level)) → Frames
    → Returned (PageMap (suc level))
    → Type 0
LoopOutcome rounds level i dest src f o =
    (new : PageMap (suc level)) × (g : Frames) × (err : Code) × (o ≡ some (new, g, err))
    × Grown f g
    × ((err ≡ success) ⊎ (err ≡ no_enough_memory))
    × (err ≡ success
        → (k : ℕ)
        → (k < i → new k ≡ dest k)
          × (i ≤ k → k < i + rounds → Shares level (dest k) (src k) (new k)))

-- The rounds after one that has stored an entry.
stored-LoopOutcome :
    (rounds level i : ℕ) (dest src : PageMap (suc level)) (e : Entry (PageMap level))
    (f f' : Frames) (o : Returned (PageMap (suc level)))
    → Grown f f'
    → Shares level (dest i) (src i) e
    → LoopOutcome rounds level (i + 1) (put i e dest) src f' o
    → LoopOutcome (suc rounds) level i dest src f o
stored-LoopOutcome rounds level i dest src e f f' o g shares (new, h, err, eq, grown, er, all) = (
  new,
  h,
  err,
  eq,
  Grown-trans f f' h g grown,
  er,
  λ ok k. (
    λ lt. (all ok k).0 (omega arith) ∙ put_other i k e dest (omega arith),
    λ lo hi. elim (eq_cases k i) [
      | inl same ↦
          let here : new k ≡ e = (all ok k).0 (omega arith) ∙ rw same (put_self i e dest) in
          rw (here, same) shares
      | inr other ↦ rw (put_other i k e dest other) at ((all ok k).1 (omega arith) (omega arith))
    ],
  ),
)

-- The rounds after one at an entry that is absent.
skipped-LoopOutcome :
    (rounds level i : ℕ) (dest src : PageMap (suc level)) (f : Frames)
    (o : Returned (PageMap (suc level)))
    → (src i).present ≡ false
    → LoopOutcome rounds level (i + 1) dest src f o
    → LoopOutcome (suc rounds) level i dest src f o
skipped-LoopOutcome rounds level i dest src f o absent (new, h, err, eq, grown, er, all) = (
  new,
  h,
  err,
  eq,
  grown,
  er,
  λ ok k. (
    λ lt. (all ok k).0 (omega arith),
    λ lo hi. elim (eq_cases k i) [
      | inl same ↦ rw same (λ present. cc (absent, present), λ x. (all ok i).0 (omega arith))
      | inr other ↦ (all ok k).1 (omega arith) (omega arith)
    ],
  ),
)

pub copy_loop-LoopOutcome :
    (rounds level : ℕ)
    (copy : Entry (PageMap level)
      → Entry (PageMap level)
      → Frames
      → Returned (Entry (PageMap level)))
    (i : ℕ) (dest src : PageMap (suc level)) (f : Frames)
    → ((d s : Entry (PageMap level)) (f' : Frames)
        → IsValid f'.manager
        → s.present ≡ true
        → EntryOutcome level d s f' (copy d s f'))
    → IsValid f.manager
    → LoopOutcome rounds level i dest src f (copy_loop rounds level copy i dest src f)
unfolding copy_loop
copy_loop-LoopOutcome zero level copy i dest src f copies v = (
  dest,
  f,
  success,
  refl,
  Grown-refl f v,
  inl refl,
  λ ok k. (λ lt. refl, λ lo hi. absurd (omega arith)),
)
copy_loop-LoopOutcome (suc rounds) level copy i dest src f copies v =
    elim (Bool-cases (src i).present) [
      | inr absent ↦
          let (new, h, err, eq, grown, er, all) =
            skipped-LoopOutcome rounds level i dest src f _ absent
              (copy_loop-LoopOutcome rounds level copy (i + 1) dest src f copies v) in
          (new, h, err, ap round absent ∙ eq, grown, er, all)
      | inl present ↦
          let (e, g, err, eq, grown, er, shares) = copies (dest i) (src i) f v present in
          let (new, h, err', eq', grown', er', all) = after_copy e g err eq grown er shares (
            copy_loop-LoopOutcome rounds level copy (i + 1) (put i e dest) src g copies
              grown.valid) in
          (new, h, err', ap round present ∙ eq', grown', er', all)
    ]
  where
    again : PageMap (suc level) → Frames → Returned (PageMap (suc level))
    again dest' f' = copy_loop rounds level copy (i + 1) dest' src f'

    round : Bool → Returned (PageMap (suc level))
    round present = copy_round present i dest (copy (dest i) (src i)) again f

    after_copy :
        (e : Entry (PageMap level)) (g : Frames) (err : Code)
        → copy (dest i) (src i) f ≡ some (e, g, err)
        → Grown f g
        → (err ≡ success) ⊎ (err ≡ no_enough_memory)
        → (err ≡ success → Shares level (dest i) (src i) e)
        → LoopOutcome rounds level (i + 1) (put i e dest) src g (again (put i e dest) g)
        → LoopOutcome
            (suc rounds)
            level
            i
            dest
            src
            f
            (copy_next i dest again (copy (dest i) (src i) f))
    after_copy e g err eq grown (inr bad) shares rest = (
      put i e dest,
      g,
      no_enough_memory,
      ap (copy_next i dest again) eq ∙ rw bad refl,
      grown,
      inr refl,
      λ ok. cc,
    )
    after_copy e g err eq grown (inl ok) shares rest =
        let (new, h, err', eq', grown', er', more) =
          stored-LoopOutcome rounds level i dest src e f g (again (put i e dest) g) grown
            (shares ok) rest in
        (new, h, err', ap (copy_next i dest again) eq ∙ rw ok eq', grown', er', more)
