-- ===== src/Paging/Apart.antt =====
-- The frames that SetupPageMap of kernel/paging.cpp gives to new pages are different ones.
use native.Mathlib.Nat.{div-add-mod, mod-lt}
use min_os.Common.{
  ℕ, zero, suc, ◌+◌, ◌-◌, ◌*◌, ◌/◌, ◌%◌, ◌<◌, ◌≡◌, ◌≢◌, ◌⊎◌, inl, inr, ap, sym, ◌∙◌, Bool, true,
  false, Option, none, some, put, put_self, put_other, arith, eq_cases,
}
use min_os.Memory.{get_bit}
use min_os.Memory.Bitmap.{within}
use min_os.Error.{Code}
use min_os.Paging.{LinearAddress, Entry, PageMap, empty_map, Frames, Progress}
use min_os.Paging.Ways.{Ways}
use min_os.Paging.Views.{see-empty_map, span, span-pos, page_number, Leaf, see, page_at, Grown}
use min_os.Paging.Changes.{Changed, Pages}

-- Two pages that were not there lie in different frames.
abbrev pub Differ : (old old' new new' : Option Leaf) → Type 0
Differ old old' new new' =
    old ≡ none → old' ≡ none → (a b : Leaf) → new ≡ some a → new' ≡ some b → a.frame ≢ b.frame

-- The same for any two pages below an entry, and below a map.
abbrev pub EntryApart : (level : ℕ) → (old new : Entry (PageMap level)) → Type 0
EntryApart level old new =
    (n m : ℕ)
    → n < span level
    → m < span level
    → n ≢ m
    → Differ (see level old n) (see level old m) (see level new n) (see level new m)

abbrev pub Apart : (level : ℕ) → (old new : PageMap level) → Type 0
Apart zero old new = Unit {0}
Apart (suc level) old new =
    (i j n m : ℕ)
    → i < 512
    → j < 512
    → n < span level
    → m < span level
    → (i ≡ j → n ≢ m)
    → Differ (see level (old i) n) (see level (old j) m) (see level (new i) n) (see level (new j) m)

pub Apart-same : (level : ℕ) (t : PageMap level) → Apart level t t
Apart-same zero t = tt
Apart-same (suc level) t = λ i j n m li lj ln lm other gone gone' a b h h'. absurd cc

-- By the number of a page below the map.
pub Apart-at :
    (level : ℕ) (old new : PageMap (suc level)) (n m : ℕ)
    → Apart (suc level) old new
    → n < span (suc level)
    → m < span (suc level)
    → n ≢ m
    → Differ (page_at level old n) (page_at level old m) (page_at level new n) (page_at level new m)
Apart-at level old new n m apart ln lm other =
    let pos = span-pos level in
    let whole = div-add-mod n (span level) in
    let whole' = div-add-mod m (span level) in
    apart (n / span level) (m / span level) (n % span level) (m % span level) (grind (arith, whole))
      (grind (arith, whole')) (mod-lt n pos) (mod-lt m pos)
      (λ same e. other (sym whole ∙ rw (same, e) whole'))

frame_of : Option Leaf → ℕ
frame_of none = 0
frame_of (some leaf) = leaf.frame

-- The frame of a page that was not there.
new_frame :
    (writable : Bool) (f f' : Frames) (inside : Bool) (old new : Option Leaf) (a : Leaf)
    → Changed writable f f' inside old new
    → old ≡ none
    → new ≡ some a
    → (get_bit f.manager a.frame ≡ false) × (get_bit f'.manager a.frame ≡ true)
unfolding frame_of
new_frame writable f f' false old new a c gone there = absurd cc
new_frame writable f f' true (some leaf) new a c gone there = absurd cc
new_frame writable f f' true none new a c gone there =
    let same : c.0 ≡ a.frame = ap frame_of (sym c.1 ∙ there) in
    rw (← same) (c.2.was_free, c.2.is_taken)

module _ (writable : Bool) (level i0 idx n n' : ℕ) (t t'' : PageMap (suc level))
    (e : Entry (PageMap level)) (f f1 f2 : Frames) (lt : idx < span level)
    (rest : n' ≡ n - (span level - idx))
    (here : (number : ℕ)
      → number < span level
      → Changed writable f f1 (within idx n number) (see level (t i0) number) (see level e number))
    (later : Pages writable (suc level) (put i0 e t) t'' ((i0 + 1) * span level) n' f1 f2)
    (here-apart : EntryApart level (t i0) e)
    (later-apart : Apart (suc level) (put i0 e t) t'') where
  -- The entry of the round stays.
  kept :
      (number : ℕ) → number < span level → i0 < 512 → see level (t'' i0) number ≡ see level e number
  kept number small bound =
      let next : (i0 + 1) * span level ≡ i0 * span level + span level = grind arith in
      let past : within ((i0 + 1) * span level) n' (i0 * span level + number) ≡ false =
        ground (arith, next) in
      rw (put_self i0 e t) at (rw past at (later i0 number bound small))

  -- A frame from the round is not one from a later round.
  mixed :
      (j n m : ℕ) (a b : Leaf)
      → i0 < 512
      → j < 512
      → n < span level
      → m < span level
      → j ≢ i0
      → see level (t i0) n ≡ none
      → see level (t j) m ≡ none
      → see level (t'' i0) n ≡ some a
      → see level (t'' j) m ≡ some b
      → a.frame ≢ b.frame
  mixed j n m a b li lj ln lm other gone gone' h h' =
      let old = new_frame writable f f1 _ _ _ a (here n ln) gone (sym (kept n ln li) ∙ h) in
      let new =
        new_frame writable f1 f2 _ _ _ b (later j m lj lm)
          (ap (λ (x : Entry (PageMap level)). see level x m) (put_other i0 j e t other) ∙ gone')
          h' in
      λ same. cc (ap (get_bit f1.manager) same, old.1, new.0)

  pub Apart-round : i0 < 512 → Apart (suc level) t t''
  Apart-round bound i j n m li lj ln lm other = elim (eq_cases i i0) [
    | inl same ↦ elim (eq_cases j i0) [
      | inl same' ↦
          rw (same, same')
            (rw (kept n ln bound, kept m lm bound)
              (here-apart n m ln lm (other (same ∙ sym same'))))
      | inr away ↦ rw same (λ e e' a b h h'. mixed j n m a b bound lj ln lm away e e' h h')
    ]
    | inr away ↦ elim (eq_cases j i0) [
      | inl same' ↦
          rw same' (λ e e' a b h h' q. mixed i m n b a bound li lm ln away e' e h' h (sym q))
      | inr away' ↦
          rw (put_other i0 i e t away, put_other i0 j e t away') at
            (later-apart i j n m li lj ln lm other)
    ]
  ]

-- An entry with a map has no pages that were not there.
abbrev pub Gone : (level : ℕ) → (entry provided : Entry (PageMap level)) → Type 0
Gone zero entry provided = Unit {0}
Gone (suc level) entry provided =
    (n : ℕ) → see (suc level) entry n ≡ none → see (suc level) provided n ≡ none

pub Gone-refl : (level : ℕ) (entry : Entry (PageMap level)) → Gone level entry entry
Gone-refl zero entry = tt
Gone-refl (suc level) entry = λ n e. e

pub Gone-linked :
    (level : ℕ) (entry : Entry (PageMap level)) (frame : ℕ)
    → Gone level entry (record entry { addr = frame; present = true; child = empty_map level })
Gone-linked zero entry frame = tt
Gone-linked (suc level) entry frame = λ n e. see-empty_map level (n / span level) (n % span level)

-- The pages below an entry whose map has been set up; `provided` is the entry before that.
pub below-Apart :
    (level : ℕ) (entry provided entry' : Entry (PageMap level))
    → provided.present ≡ true
    → entry'.present ≡ true
    → Gone level entry provided
    → Apart level provided.child entry'.child
    → EntryApart level entry entry'
below-Apart zero entry provided entry' p p' same apart n m ln lm other e e' = absurd (omega arith)
below-Apart (suc level) entry provided entry' p p' same apart n m ln lm other e e' =
    let at = rw p at (same n e) in
    let at' = rw p at (same m e') in
    rw p' (Apart-at level provided.child entry'.child n m apart ln lm other at at')

-- What SetupPageMap promises of its result.
pub record IsSetup (writable : Bool) (level : ℕ) (page_map : PageMap level) (a : LinearAddress)
    (n : ℕ) (f : Frames) (p : Progress level) : Type 0 where
  pub grown : Grown f p.frames
  pub error : (p.error ≡ Code.success) ⊎ (p.error ≡ Code.no_enough_memory)
  pub rest : p.error ≡ Code.success → p.num_4kpages ≡ n - (span level - page_number level a)
  pub pages :
      p.error ≡ Code.success
      → Pages writable level page_map p.page_map (page_number level a) n f p.frames
  pub ways : p.error ≡ Code.success → Ways level page_map p.page_map (page_number level a) n
  pub apart : p.error ≡ Code.success → Apart level page_map p.page_map
