-- ===== src/Memory/Allocation.antt =====
-- Allocate and Free of kernel/memory_manager.cpp: first fit over the frames of the range.
use min_os.Common.{
  ℕ, zero, suc, ◌+◌, ◌^◌, ◌≤◌, ◌<◌, ◌≡◌, ◌⊎◌, inl, inr, refl, true, false, leb, if◌then◌else◌,
  add64, arith, Bool-cases, eq_cases, lt_cases, leb→le, Option, some,
}
use mathlib.Core.Path.{subst}
use min_os.Error.{success, no_enough_memory, WithError}
use min_os.Memory.{
  Manager, get_bit, mark_allocated, Scan, exhausted, busy, room, scan, allocate_from, after_scan,
  allocate, free, null_frame,
}
use min_os.Memory.Bitmap.{IsWords, within, get_bit-set_bits, set_bits-IsWords, range_end-set_bits}

-- The state in which the manager is used.
pub record IsValid (m : Manager) : Type 0 where
  pub words : IsWords m
  pub ordered : m.range_begin ≤ m.range_end
  pub small : m.range_end < 2 ^ 64

-- The `n` frames from `s` on are free.
abbrev pub AllFree : Manager → ℕ → ℕ → Type 0
AllFree m s n = (g : ℕ) → s ≤ g → g < s + n → get_bit m g ≡ false

abbrev Scanned : Manager → ℕ → ℕ → ℕ → Scan → Type 0
Scanned m s r i exhausted = m.range_end < s + i + r
Scanned m s r i (busy j) =
    (i ≤ j) × (j < i + r) × (s + j < m.range_end) × (get_bit m (s + j) ≡ true)
Scanned m s r i room = ((r ≡ 0) ⊎ (s + i + r ≤ m.range_end)) × AllFree m (s + i) r

-- A round on a free frame of the range.
Scanned-step :
    (m : Manager) (s r i : ℕ) (found : Scan)
    → s + i < m.range_end
    → get_bit m (s + i) ≡ false
    → Scanned m s r (i + 1) found
    → Scanned m s (suc r) i found
Scanned-step m s r i exhausted h e p = omega arith
Scanned-step m s r i (busy j) h e p = (omega arith, omega arith, p.2, p.3)
Scanned-step m s r i room h e p = (inr (ground arith), all)
  where
    all : AllFree m (s + i) (suc r)
    all g lo hi = elim (eq_cases g (s + i)) [
      | inl here ↦ rw here e
      | inr other ↦ p.1 g (omega arith) (omega arith)
    ]

scan-Scanned :
    (m : Manager) (s r i : ℕ)
    → m.range_end < 2 ^ 64
    → s + i ≤ m.range_end
    → Scanned m s r i (scan m s r i)
unfolding scan
scan-Scanned m s zero i h k = (inl refl, λ g a b. absurd (omega arith))
scan-Scanned m s (suc r) i h k = elim (Bool-cases (leb m.range_end (s + i))) [
  | inl past ↦ rw (no_wrap h k, past) (omega (arith, leb→le m.range_end (s + i) past))
  | inr inside ↦
      let lt : s + i < m.range_end = ground arith in
      elim (Bool-cases (get_bit m (s + i))) [
        | inl taken ↦ rw (no_wrap h k, inside, taken) (omega arith, omega arith, lt, taken)
        | inr fresh ↦
            rw (no_wrap h k, inside, fresh)
              (Scanned-step m s r i (scan m s r (i + 1)) lt fresh
                (scan-Scanned m s r (i + 1) h (omega arith)))
      ]
]
  where
    no_wrap : m.range_end < 2 ^ 64 → s + i ≤ m.range_end → add64 s i ≡ s + i
    no_wrap h k = omega arith

-- No `n` free frames of the range begin in [lo, hi).
abbrev pub NoneBelow : Manager → ℕ → ℕ → ℕ → Type 0
NoneBelow m n lo hi = (s : ℕ) → lo ≤ s → s < hi → s + n ≤ m.range_end → AllFree m s n → ⊥

-- What Allocate promises of its result.
pub data Allocated (m : Manager) (n : ℕ) : Manager × WithError ℕ → Type 0 where
  found :
      (s : ℕ)
      → m.range_begin ≤ s
      → s + n ≤ m.range_end
      → AllFree m s n
      → NoneBelow m n m.range_begin s
      → Allocated m n (mark_allocated m s n, record { value = s; error = success })
  failed :
      NoneBelow m n m.range_begin (m.range_end + 1)
      → Allocated m n (m, record { value = null_frame; error = no_enough_memory })

Outcome : Manager → ℕ → Option (Manager × WithError ℕ) → Type 0
Outcome m n o = (r : Manager × WithError ℕ) × (o ≡ some r) × Allocated m n r

-- A run that begins at or below a taken frame and reaches it is not free.
NoneBelow-busy :
    (m : Manager) (n s j : ℕ)
    → NoneBelow m n m.range_begin s
    → j < n
    → get_bit m (s + j) ≡ true
    → NoneBelow m n m.range_begin (s + j + 1)
NoneBelow-busy m n s j below jn taken t lo hi fits all = elim (lt_cases t s) [
  | inl before ↦ below t lo before fits all
  | inr after ↦ cc (all (s + j) (omega arith) (omega arith))
]

after_scan-Outcome :
    (m : Manager) (n s : ℕ) (again : ℕ → Option (Manager × WithError ℕ)) (found : Scan)
    → m.range_begin ≤ s
    → 0 < n
    → NoneBelow m n m.range_begin s
    → ((j : ℕ)
        → s + j < m.range_end
        → NoneBelow m n m.range_begin (s + j + 1)
        → Outcome m n (again j))
    → Scanned m s n 0 found
    → Outcome m n (after_scan m n s again found)
unfolding Outcome
after_scan-Outcome m n s again exhausted lo pos below next p =
    (_, refl, failed (λ t tlo thi fits all. below t tlo (omega arith) fits all))
after_scan-Outcome m n s again room lo pos below next p =
    (_, refl, found s lo (ground arith) (λ g a b. p.1 g (omega arith) (omega arith)) below)
after_scan-Outcome m n s again (busy j) lo pos below next p =
    next j p.2 (NoneBelow-busy m n s j below (omega arith) p.3)

allocate_from-Outcome :
    (fuel : ℕ) (m : Manager) (n s : ℕ)
    → IsValid m
    → 0 < n
    → m.range_begin ≤ s
    → s ≤ m.range_end
    → m.range_end < s + fuel
    → NoneBelow m n m.range_begin s
    → Outcome m n (allocate_from fuel m n s)
unfolding allocate_from
allocate_from-Outcome zero m n s v pos lo hi f below = absurd (omega arith)
allocate_from-Outcome (suc fuel) m n s v pos lo hi f below =
    after_scan-Outcome m n s _ (scan m s n 0) lo pos below
      (λ j h more. rw (no_wrap j h) (
        allocate_from-Outcome fuel m n (s + j + 1) v pos (omega arith) (omega arith) (omega arith)
          more))
      (scan-Scanned m s n 0 v.small (omega arith))
  where
    no_wrap : (j : ℕ) → s + j < m.range_end → add64 s (j + 1) ≡ s + j + 1
    no_wrap j h = omega (arith, v.small)

-- Allocate of at least one frame, on a valid manager, always ends: with the first free run of the
-- range, marked, or with kNoEnoughMemory and the map unchanged when the range has no free run of
-- that length.
pub allocate-Allocated :
    (m : Manager) (n : ℕ)
    → IsValid m
    → 0 < n
    → (r : Manager × WithError ℕ) × (allocate m n ≡ some r) × Allocated m n r
unfolding allocate Outcome
allocate-Allocated m n v pos =
    allocate_from-Outcome (m.range_end + 1) m n m.range_begin v pos (omega arith) v.ordered
      (omega arith) (λ s lo hi fits all. absurd (omega arith))

-- The postcondition holds of the result that a call gave.
pub Allocated-of_allocate :
    (m : Manager) (n : ℕ) {r : Manager × WithError ℕ}
    → IsValid m
    → 0 < n
    → allocate m n ≡ some r
    → Allocated m n r
Allocated-of_allocate m n {r} v pos e =
    let t = allocate-Allocated m n v pos in
    let same : t.0 ≡ r = cc (t.1) in subst (Allocated m n) same t.2

-- What a successful result says, field by field.
pub record Success (m : Manager) (n : ℕ) (m' : Manager) (s : ℕ) : Type 0 where
  pub above : m.range_begin ≤ s
  pub fits : s + n ≤ m.range_end
  pub was_free : AllFree m s n
  pub marked : m' ≡ mark_allocated m s n

pub Success-of_Allocated :
    (m : Manager) (n : ℕ) (r : Manager × WithError ℕ)
    → Allocated m n r
    → r.1.error ≡ success
    → Success m n r.0 r.1.value
Success-of_Allocated m n r (found s lo fits all first) e = record {
  above = lo;
  fits = fits;
  was_free = all;
  marked = refl;
}
Success-of_Allocated m n r (failed none_free) e = cc

pub mark_allocated-marks :
    (m : Manager) (s n g : ℕ)
    → IsWords m
    → s + n < 2 ^ 64
    → get_bit (mark_allocated m s n) g ≡ (if within s n g then true else get_bit m g)
unfolding mark_allocated
mark_allocated-marks m s n g w h =
    rw (get_bit-set_bits true m s n 0 g w (omega arith)) (ground arith)

pub mark_allocated-IsWords : (m : Manager) (s n : ℕ) → IsWords m → IsWords (mark_allocated m s n)
unfolding mark_allocated
mark_allocated-IsWords m s n w = set_bits-IsWords true m s n 0 w

mark_allocated-IsValid : (m : Manager) (s n : ℕ) → IsValid m → IsValid (mark_allocated m s n)
unfolding mark_allocated
mark_allocated-IsValid m s n v = record {
  words = set_bits-IsWords true m s n 0 v.words;
  ordered = omega (arith, v.ordered, range_end-set_bits true m s n 0);
  small = omega (arith, v.small, range_end-set_bits true m s n 0);
}

-- A successful call returns a free run of the range, marks its frames, leaves every other frame as
-- it was, and leaves a valid manager.
pub allocate-marks :
    (m : Manager) (n : ℕ) {m' : Manager} {s : ℕ}
    → IsValid m
    → 0 < n
    → allocate m n ≡ some (m', record { value = s; error = success })
    → Success m n m' s
      × ((g : ℕ) → get_bit m' g ≡ (if within s n g then true else get_bit m g))
      × IsValid m'
allocate-marks m n {m'} {s} v pos e =
    let q = Success-of_Allocated m n _ (Allocated-of_allocate m n v pos e) refl in
    (
      q,
      λ g. rw q.marked (mark_allocated-marks m s n g v.words (omega (arith, q.fits, v.small))),
      rw q.marked (mark_allocated-IsValid m s n v),
    )

-- Two successful calls in a row, each for at least one frame and the first on a valid manager,
-- return runs that share no frame.
pub allocate-disjoint :
    (m : Manager) (n k : ℕ) {m' m'' : Manager} {s t : ℕ}
    → IsValid m
    → 0 < n
    → 0 < k
    → allocate m n ≡ some (m', record { value = s; error = success })
    → allocate m' k ≡ some (m'', record { value = t; error = success })
    → (g : ℕ) → within s n g ≡ true
    → within t k g ≡ false
allocate-disjoint m n k {m'} {m''} {s} {t} v pn pk e f g h =
    let p = allocate-marks m n v pn e in
    let q = (allocate-marks m' k p.2 pk f).0 in ground (arith, p.1 g, q.was_free g)

-- Free of what a successful call for at least one frame returned on a valid manager gives back
-- the map that the call found, frame by frame.
pub free-allocate :
    (m : Manager) (n : ℕ) {m' : Manager} {s : ℕ}
    → IsValid m
    → 0 < n
    → allocate m n ≡ some (m', record { value = s; error = success })
    → (g : ℕ) → get_bit (free m' s n).0 g ≡ get_bit m g
unfolding free
free-allocate m n {m'} {s} v pos e g =
    let p = allocate-marks m n v pos e in
    ground
      (arith, get_bit-set_bits false m' s n 0 g p.2.words, p.0.fits, v.small, p.1 g, p.0.was_free g)
