-- ===== src/Paging/Ways.antt =====
-- The entries above the last level of the page maps of kernel/paging.cpp. The processor lets a
-- program write to a page only where each of them permits it too.
use native.Mathlib.Nat.{div-add-mod, mod-lt, mul-le-mul_right}
use min_os.Common.{
  ℕ, zero, suc, ◌+◌, ◌-◌, ◌*◌, ◌/◌, ◌%◌, ◌≤◌, ◌<◌, ◌≡◌, inl, inr, refl, ap, Bool, true, ◌||◌, ◌&&◌,
  put, put_self, put_other, arith, lt_cases, eq_cases,
}
use min_os.Memory.Bitmap.{within}
use min_os.Paging.{Entry, PageMap}
use min_os.Paging.Views.{span, span-pos}

-- Every entry above the last level, on the way from an entry of level `level + 1` to the page
-- `number` below it, is there and lets the user write.
abbrev pub opens : (level : ℕ) → Entry (PageMap level) → (number : ℕ) → Bool
opens zero e number = true
opens (suc level) e number =
    e.present
    && e.writable
    && e.user
    && opens level (e.child (number / span level)) (number % span level)

-- The same for the page `number` of a map of level `level + 1`.
abbrev pub open_at : (level : ℕ) → PageMap (suc level) → (number : ℕ) → Bool
open_at level t number = opens level (t (number / span level)) (number % span level)

-- The way to a page in the range is open afterwards, and one that was open stays so.
abbrev pub Opened : (inside old new : Bool) → Type 0
Opened inside old new = inside || old ≡ true → new ≡ true

-- The same for each page below a map, where the range is the `n` pages from `start` on.
abbrev pub Ways : (level : ℕ) → (old new : PageMap level) → (start n : ℕ) → Type 0
Ways zero old new start n = Unit {0}
Ways (suc level) old new start n =
    (i number : ℕ)
    → i < 512
    → number < span level
    → Opened (within start n (i * span level + number)) (opens level (old i) number)
        (opens level (new i) number)

Ways-at :
    (level : ℕ) (old new : PageMap (suc level)) (start n number : ℕ)
    → Ways (suc level) old new start n
    → number < span (suc level)
    → Opened (within start n number) (open_at level old number) (open_at level new number)
Ways-at level old new start n number ways lt =
    let whole = div-add-mod number (span level) in
    let split : number / span level * span level + number % span level ≡ number =
      grind (arith, whole) in
    let small = mod-lt number (span-pos level) in
    rw split at (ways (number / span level) (number % span level) (grind (arith, whole)) small)

gate :
    (inside p w u x y p' w' u' z : Bool)
    → (p ≡ true → y ≡ x)
    → p' && w' && u' ≡ true
    → Opened inside y z
    → Opened inside (p && w && u && x) (p' && w' && u' && z)
gate inside p w u x y p' w' u' z same free below = ground (arith, same, free, below)

-- The ways below an entry that lets the user write, whose map has been set up from `old`; where
-- the entry was there before, `old` was its map.
pub below-Opened :
    (level : ℕ) (entry entry' : Entry (PageMap level)) (old : PageMap level) (start n number : ℕ)
    → (entry.present ≡ true → old ≡ entry.child)
    → entry'.present && entry'.writable && entry'.user ≡ true
    → number < span level
    → Ways level old entry'.child start n
    → Opened (within start n number) (opens level entry number) (opens level entry' number)
below-Opened zero entry entry' old start n number same free lt ways = λ h. refl
below-Opened (suc level) entry entry' old start n number same free lt ways =
    let here = Ways-at level old entry'.child start n number ways lt in
    gate (within start n number) entry.present entry.writable entry.user
      (open_at level entry.child number) (open_at level old number) entry'.present entry'.writable
      entry'.user (open_at level entry'.child number)
      (λ h. ap (λ (m : PageMap (suc level)). open_at level m number) (same h)) free here

module _ (level i0 idx n n' : ℕ) (t t'' : PageMap (suc level)) (e : Entry (PageMap level))
    (lt : idx < span level) (rest : n' ≡ n - (span level - idx))
    (here : (number : ℕ)
      → number < span level
      → Opened (within idx n number) (opens level (t i0) number) (opens level e number))
    (later : Ways (suc level) (put i0 e t) t'' ((i0 + 1) * span level) n') where
  -- An entry other than that of the round.
  Ways-other :
      (i number : ℕ)
      → (i ≡ i0 → ⊥)
      → within (i0 * span level + idx) n (i * span level + number)
        ≡ within ((i0 + 1) * span level) n' (i * span level + number)
      → i < 512
      → number < span level
      → Opened
          (within (i0 * span level + idx) n (i * span level + number))
          (opens level (t i) number)
          (opens level (t'' i) number)
  Ways-other i number other same bound small =
      rw same (rw (put_other i0 i e t other) at (later i number bound small))

  -- The entry of the round.
  Ways-here :
      (number : ℕ)
      → number < span level
      → i0 < 512
      → Opened
          (within (i0 * span level + idx) n (i0 * span level + number))
          (opens level (t i0) number)
          (opens level (t'' i0) number)
  Ways-here number small bound =
      let next : (i0 + 1) * span level ≡ i0 * span level + span level = grind arith in
      let same : within (i0 * span level + idx) n (i0 * span level + number) ≡ within idx n number =
        ground arith in
      let kept = rw (put_self i0 e t) at (later i0 number bound small) in
      rw same (λ h. kept (ground (arith, here number small h)))

  pub Ways-round : i0 < 512 → Ways (suc level) t t'' (i0 * span level + idx) n
  Ways-round bound i number lti small =
      let next : (i0 + 1) * span level ≡ i0 * span level + span level = grind arith in
      elim (eq_cases i i0) [
        | inl same ↦ rw same (Ways-here number small bound)
        | inr other ↦ elim (lt_cases i i0) [
          | inl before ↦
              let order : i * span level + span level ≤ i0 * span level =
                omega (arith, mul-le-mul_right (span level) before) in
              Ways-other i number other (ground (arith, next, order)) lti small
          | inr after ↦
              let above : i0 < i = omega arith in
              let order : i0 * span level + span level ≤ i * span level =
                omega (arith, mul-le-mul_right (span level) above) in
              Ways-other i number other (ground (arith, next, order)) lti small
        ]
      ]
