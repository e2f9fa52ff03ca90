-- ===== src/Paging/Changes.antt =====
-- What SetupPageMap of kernel/paging.cpp does to the pages of a map, round by round.
use native.Mathlib.Nat.{div-add-mod, mod-lt, mul-le-mul_right}
use min_os.Common.{
  ℕ, zero, suc, ◌+◌, ◌-◌, ◌*◌, ◌/◌, ◌%◌, ◌≤◌, ◌<◌, ◌≡◌, inl, inr, refl, ap, sym, ◌∙◌, Bool, true,
  false, Option, none, some, ◌==◌, if◌then◌else◌, put, put_self, put_other, arith, lt_cases,
  eq_cases,
}
use min_os.Memory.Bitmap.{within}
use min_os.Paging.{LinearAddress, Entry, PageMap, empty_map, Frames}
use min_os.Paging.Ways.{opens, Opened, Ways, below-Opened}
use min_os.Paging.Views.{
  span, page_number, Leaf, see, see-empty_map, span-pos, Grown, IsFresh, IsFresh-Grown,
  Grown-IsFresh,
}

module _ (writable : Bool) where
  -- What becomes of a page: in the range, a page that is there keeps its frame, and one that is not
  -- gets a fresh frame of zeros; both are the user's, with the given permission. Outside the range
  -- nothing changes.
  abbrev pub Changed : Frames → Frames → (inside : Bool) → (old new : Option Leaf) → Type 0
  Changed f f' false old new = new ≡ old
  Changed f f' true (some leaf) new =
      new ≡ some (record { frame = leaf.frame; writable = writable; user = true })
  Changed f f' true none new =
      (frame : ℕ) × (new ≡ some (record { frame = frame; writable = writable; user = true }))
      × IsFresh f f' frame

  -- The same for each page below a map, where the range is the `n` pages from `start` on.
  abbrev pub Pages :
      (level : ℕ) → (old new : PageMap level) → (start n : ℕ) → Frames → Frames → Type 0
  Pages zero old new start n f f' = Unit {0}
  Pages (suc level) old new start n f f' =
      (i number : ℕ)
      → i < 512
      → number < span level
      → Changed f f' (within start n (i * span level + number)) (see level (old i) number)
          (see level (new i) number)

  pub Changed-Grown :
      (f f' f'' : Frames) (inside : Bool) (old new : Option Leaf)
      → Grown f' f''
      → Changed f f' inside old new
      → Changed f f'' inside old new
  Changed-Grown f f' f'' false old new g c = c
  Changed-Grown f f' f'' true (some leaf) new g c = c
  Changed-Grown f f' f'' true none new g c = (c.0, c.1, IsFresh-Grown f f' f'' c.0 g c.2)

  pub Grown-Changed :
      (f f' f'' : Frames) (inside : Bool) (old new : Option Leaf)
      → Grown f f'
      → Changed f' f'' inside old new
      → Changed f f'' inside old new
  Grown-Changed f f' f'' false old new g c = c
  Grown-Changed f f' f'' true (some leaf) new g c = c
  Grown-Changed f f' f'' true none new g c = (c.0, c.1, Grown-IsFresh f f' f'' c.0 g c.2)

  -- The entry that a round stores.
  abbrev pub stored : (level : ℕ) → Entry (PageMap level) → PageMap level → Entry (PageMap level)
  stored level entry child = record entry {
    user = true;
    writable = if level == 0 then writable else true;
    child = child;
  }

  -- A page of a map, by the entry that it lies below.
  Pages-at :
      (level : ℕ) (old new : PageMap (suc level)) (start n : ℕ) (f f' : Frames) (number : ℕ)
      → Pages (suc level) old new start n f f'
      → number < span (suc level)
      → Changed f f'
          (within start n number)
          (see level (old (number / span level)) (number % span level))
          (see level (new (number / span level)) (number % span level))
  Pages-at level old new start n f f' number pages lt =
      let s = span-pos level in
      let whole = div-add-mod number (span level) in
      let split : number / span level * span level + number % span level ≡ number =
        grind (arith, whole) in
      let small = mod-lt number s in
      rw split at (pages (number / span level) (number % span level) (grind (arith, whole)) small)

  -- The pages below an entry that was there.
  pub at_hand-Changed :
      (level : ℕ) (entry : Entry (PageMap level)) (child : PageMap level) (a : LinearAddress)
      (n : ℕ) (f f' : Frames) (number : ℕ)
      → entry.present ≡ true
      → 0 < n
      → number < span level
      → Pages level entry.child child (page_number level a) n f f'
      → Changed f f'
          (within (page_number level a) n number)
          (see level entry number)
          (see level (stored level entry child) number)
  at_hand-Changed zero entry child a n f f' number h pos lt pages =
      let inside : within 0 n number ≡ true = ground arith in rw (inside, h) refl
  at_hand-Changed (suc level) entry child a n f f' number h pos lt pages =
      rw h (Pages-at level entry.child child (page_number (suc level) a) n f f' number pages lt)

  -- The pages below an entry that has got a map.
  pub linked-Changed :
      (level : ℕ) (entry : Entry (PageMap level)) (frame : ℕ) (child : PageMap level)
      (a : LinearAddress) (n : ℕ) (f f' f'' : Frames) (number : ℕ)
      → entry.present ≡ false
      → 0 < n
      → number < span level
      → IsFresh f f' frame
      → Grown f f'
      → Grown f' f''
      → Pages level (empty_map level) child (page_number level a) n f' f''
      → Changed f f'' (within (page_number level a) n number) (see level entry number) (
          see level
            (stored level
              (record entry { addr = frame; present = true; child = empty_map level })
              child)
            number)
  linked-Changed zero entry frame child a n f f' f'' number h pos lt fresh g g' pages =
      let inside : within 0 n number ≡ true = ground arith in
      rw (inside, h) (frame, refl, IsFresh-Grown f f' f'' frame g' fresh)
  linked-Changed (suc level) entry frame child a n f f' f'' number h pos lt fresh g g' pages =
      rw h (
        Grown-Changed f f' f'' (within (page_number (suc level) a) n number) none
          (see level (child (number / span level)) (number % span level)) g
          (rw (see-empty_map level (number / span level) (number % span level)) at (
            Pages-at level (empty_map (suc level)) child (page_number (suc level) a) n f' f'' number
              pages lt)))

  -- The ways below the entry that a round stores. `provided` is the entry that is there before.
  pub stored-Opened :
      (level : ℕ) (entry provided : Entry (PageMap level)) (child : PageMap level) (start n : ℕ)
      (number : ℕ)
      → (entry.present ≡ true → provided ≡ entry)
      → provided.present ≡ true
      → number < span level
      → Ways level provided.child child start n
      → Opened
          (within start n number)
          (opens level entry number)
          (opens level (stored level provided child) number)
  stored-Opened zero entry provided child start n number same present lt ways = λ h. refl
  stored-Opened (suc level) entry provided child start n number same present lt ways =
      below-Opened (suc level) entry (stored (suc level) provided child) provided.child start n
        number (λ h. ap (λ (e : Entry (PageMap (suc level))). e.child) (same h)) (ground arith) lt
        ways

  Changed-eq :
      (f f' : Frames) {inside inside' : Bool} {old old' new new' : Option Leaf}
      → inside ≡ inside'
      → old ≡ old'
      → new ≡ new'
      → Changed f f' inside old new
      → Changed f f' inside' old' new'
  Changed-eq f f' {inside} {inside'} {old} {old'} {new} {new'} p q r c = rw (← p, ← q, ← r) c

  module _ (level i0 idx n n' : ℕ) (t t'' : PageMap (suc level)) (e : Entry (PageMap level))
      (f f1 f2 : Frames) (lt : idx < span level) (rest : n' ≡ n - (span level - idx))
      (g : Grown f f1) (g' : Grown f1 f2)
      (here : (number : ℕ)
        → number < span level
        → Changed f f1 (within idx n number) (see level (t i0) number) (see level e number))
      (later : Pages (suc level) (put i0 e t) t'' ((i0 + 1) * span level) n' f1 f2) where
    -- The entry of the round.
    Pages-here :
        (number : ℕ)
        → number < span level
        → i0 < 512
        → Changed f f2
            (within (i0 * span level + idx) n (i0 * span level + number))
            (see level (t i0) number)
            (see level (t'' i0) number)
    Pages-here number small bound =
        let next : (i0 + 1) * span level ≡ i0 * span level + span level = grind arith in
        let past : within ((i0 + 1) * span level) n' (i0 * span level + number) ≡ false =
          ground (arith, next) in
        let kept : see level (t'' i0) number ≡ see level (put i0 e t i0) number =
          rw past at (later i0 number bound small) in
        Changed-eq f f2 {inside = within idx n number} (ground arith) refl
          (ap (λ (x : Entry (PageMap level)). see level x number) (sym (put_self i0 e t))
            ∙ sym kept)
          (Changed-Grown f f1 f2 (within idx n number) (see level (t i0) number)
            (see level e number) g' (here number small))

    -- An entry before it.
    Pages-before :
        (i number : ℕ)
        → i < i0
        → number < span level
        → i0 < 512
        → Changed f f2
            (within (i0 * span level + idx) n (i * span level + number))
            (see level (t i) number)
            (see level (t'' i) number)
    Pages-before i number before small bound =
        let next : (i0 + 1) * span level ≡ i0 * span level + span level = grind arith in
        let order : i * span level + span level ≤ i0 * span level =
          omega (arith, mul-le-mul_right (span level) before) in
        let past : within ((i0 + 1) * span level) n' (i * span level + number) ≡ false =
          ground (arith, next, order) in
        let kept : see level (t'' i) number ≡ see level (put i0 e t i) number =
          rw past at (later i number (omega arith) small) in
        Changed-eq f f2 {inside = false} (ground (arith, order)) refl
          (ap (λ (x : Entry (PageMap level)). see level x number)
              (sym (put_other i0 i e t (omega arith)))
            ∙ sym kept)
          refl

    -- An entry after it.
    Pages-after :
        (i number : ℕ)
        → i0 < i
        → number < span level
        → i < 512
        → Changed f f2
            (within (i0 * span level + idx) n (i * span level + number))
            (see level (t i) number)
            (see level (t'' i) number)
    Pages-after i number after small bound =
        let next : (i0 + 1) * span level ≡ i0 * span level + span level = grind arith in
        let order : i0 * span level + span level ≤ i * span level =
          omega (arith, mul-le-mul_right (span level) after) in
        Changed-eq f f2 {inside = within ((i0 + 1) * span level) n' (i * span level + number)}
          (ground (arith, next, order))
          (ap (λ (x : Entry (PageMap level)). see level x number)
            (put_other i0 i e t (omega arith)))
          refl (Grown-Changed f f1 f2 _ _ _ g (later i number bound small))

    pub Pages-round : i0 < 512 → Pages (suc level) t t'' (i0 * span level + idx) n f f2
    Pages-round bound i number lti small = elim (eq_cases i i0) [
      | inl same ↦ rw same (Pages-here number small bound)
      | inr other ↦ elim (lt_cases i i0) [
        | inl before ↦ Pages-before i number before small bound
        | inr after ↦ Pages-after i number (omega arith) small lti
      ]
    ]
