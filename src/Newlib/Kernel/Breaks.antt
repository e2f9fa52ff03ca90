-- ===== src/Newlib/Kernel/Breaks.antt =====
-- The blocks that sbrk of kernel/newlib_support.c hands out.
use mathlib.Core.Option.{some-injective, none-ne-some}
use min_os.Common.{
  ℕ, to_unsigned, lt_cases, All, sym, ap, ◌∙◌, pos, ◌+◌, ◌≤◌, ◌<◌, ◌^◌, ◌≡◌, ◌⊎◌, inl, inr, refl,
  true, false, none, some, List, [], ◌∷◌, ◌==◌, leb, add64, arith,
}
use min_os.Memory.Setup.{Break}
use min_os.Newlib.Kernel.{sbrk}

-- The heap is set up, and the break has not reached its end.
pub record IsOpen (b : Break) : Type 0 where
  pub started : 0 < b.program_break
  pub below_end : b.program_break < b.program_break_end
  pub in_memory : b.program_break_end + 2 ^ 31 ≤ 2 ^ 64

module _ (b : Break) (n : ℕ) (o : IsOpen b) (h : n < 2 ^ 31) where
  moved : add64 b.program_break (to_unsigned (pos n)) ≡ b.program_break + n
  moved = omega (arith, o.below_end, o.in_memory)

  started : (b.program_break == 0) ≡ false
  started = ground (arith, o.started)

  sbrk-fits :
      b.program_break + n < b.program_break_end
      → sbrk b (pos n) ≡ (record b { program_break = b.program_break + n }, some b.program_break)
  unfolding sbrk
  sbrk-fits fits = rw (sbrk, moved, started, below) refl
    where
      below : leb b.program_break_end (b.program_break + n) ≡ false
      below = ground arith

  sbrk-full : b.program_break_end ≤ b.program_break + n → sbrk b (pos n) ≡ (b, none)
  unfolding sbrk
  sbrk-full full = rw (sbrk, moved, started, above) refl
    where
      above : leb b.program_break_end (b.program_break + n) ≡ true
      above = ground arith

  -- sbrk by `n`, an int that is not negative, on an open heap succeeds exactly if the block
  -- ends below the end of the heap. It then returns the block's start, which is the old break,
  -- and moves the break to the block's end; otherwise nothing changes. Either way the heap
  -- stays open.
  pub sbrk-grows :
      IsOpen ((sbrk b (pos n)).0)
      × ((b.program_break + n < b.program_break_end)
            × (sbrk b (pos n)
                ≡ (record b { program_break = b.program_break + n }, some b.program_break))
          ⊎ (b.program_break_end ≤ b.program_break + n) × (sbrk b (pos n) ≡ (b, none)))
  sbrk-grows = elim (lt_cases (b.program_break + n) b.program_break_end) [
    | inl fits ↦ rw (sbrk-fits fits) (
      record {
        started = omega (arith, o.started);
        below_end = omega arith;
        in_memory = o.in_memory;
      },
      inl (fits, refl),
    )
    | inr full ↦ rw (sbrk-full full) (o, inr (full, refl))
  ]

-- The heap after sbrk by each of the increments.
unfoldable pub after : Break → List ℕ → Break
after b [] = b
after b (n ∷ ns) = after ((sbrk b (pos n)).0) ns

after-grows :
    (b : Break) (ns : List ℕ)
    → IsOpen b
    → All (λ n. n < 2 ^ 31) ns
    → IsOpen (after b ns) × (b.program_break ≤ (after b ns).program_break)
unfolding after
after-grows b [] o all = (o, omega arith)
after-grows b (n ∷ ns) o all =
    let (o', grew) = sbrk-grows b n o all.0 in
    let ih = after-grows ((sbrk b (pos n)).0) ns o' all.1 in
    (
      ih.0,
      elim grew [
        | inl (fits, e) ↦ omega (arith, ih.1, ap (λ r. r.0.program_break) e)
        | inr (full, e) ↦ omega (arith, ih.1, ap (λ r. r.0.program_break) e)
      ],
    )

-- Two blocks of an open heap that sbrk returns are disjoint, whatever calls with increments that
-- are not negative come between: the second starts where the first ends, or later.
pub sbrk-disjoint :
    (b : Break) (n : ℕ) (ns : List ℕ) (k p q : ℕ)
    → IsOpen b
    → All (λ i. i < 2 ^ 31) (n ∷ ns)
    → k < 2 ^ 31
    → let b' = (sbrk b (pos n)).0 in
      (sbrk b (pos n)).1 ≡ some p → (sbrk (after b' ns) (pos k)).1 ≡ some q → p + n ≤ q
sbrk-disjoint b n ns k p q o all h first second =
    let (o', grew) = sbrk-grows b n o all.0 in
    let (o'', rest) = after-grows ((sbrk b (pos n)).0) ns o' all.1 in
    let (_, again) = sbrk-grows (after ((sbrk b (pos n)).0) ns) k o'' h in
    elim grew [
      | inr (full, e) ↦ absurd (none-ne-some _ (sym (ap (λ r. r.1) e) ∙ first))
      | inl (fits, e) ↦ elim again [
        | inr (full', e') ↦ absurd (none-ne-some _ (sym (ap (λ r. r.1) e') ∙ second))
        | inl (fits', e') ↦
            let p_is = some-injective _ _ (sym (ap (λ r. r.1) e) ∙ first) in
            let q_is = some-injective _ _ (sym (ap (λ r. r.1) e') ∙ second) in
            omega (arith, rest, p_is, q_is, ap (λ r. r.0.program_break) e)
      ]
    ]
