-- ===== src/Terminal/Loading/Image.antt =====
-- What a program sees in the pages that CopyLoadSegments of kernel/terminal.cpp fills.
use min_os.Common.{
  ℕ, ◌/◌, ◌%◌, ◌^◌, ◌≤◌, ◌<◌, ◌≡◌, ◌≢◌, refl, ap, sym, ◌∙◌, Bool, true, false, Option, none, some,
  arith,
}
use min_os.Memory.{Manager, get_bit}
use min_os.Memory.Bitmap.{within}
use min_os.Paging.{PageMap, Frames}
use min_os.Paging.Views.{Leaf, page_at, Grown}
use min_os.Paging.Changes.{Changed}
use min_os.Paging.Range.{AreSet}
use min_os.Terminal.Loading.{app_begin}

-- The page of an address.
abbrev pub page_of : ℕ → ℕ
page_of addr = addr / 2 ^ 12 % 2 ^ 36

-- The byte at an offset of a page; where there is no page it is 0 here.
abbrev pub byte_in : Frames → (offset : ℕ) → Option Leaf → ℕ
byte_in f offset none = 0
byte_in f offset (some leaf) = f.contents leaf.frame offset

-- The bytes that a program sees at the addresses of the application half.
abbrev pub Shows : PageMap 4 → Frames → (spec : ℕ → ℕ) → Type 0
Shows t f spec =
    (addr : ℕ)
    → app_begin ≤ addr
    → addr < 2 ^ 64
    → byte_in f (addr % 2 ^ 12) (page_at 3 t (page_of addr)) ≡ spec addr

-- The pages of the application half lie in frames that are allocated, each in its own.
pub record IsOwn (t : PageMap 4) (m : Manager) : Type 0 where
  pub held :
      (n : ℕ)
      → 2 ^ 35 ≤ n
      → n < 2 ^ 36
      → (a : Leaf) → page_at 3 t n ≡ some a
      → get_bit m a.frame ≡ true
  pub apart :
      (n k : ℕ)
      → 2 ^ 35 ≤ n
      → n < 2 ^ 36
      → 2 ^ 35 ≤ k
      → k < 2 ^ 36
      → n ≢ k
      → (a b : Leaf) → page_at 3 t n ≡ some a
      → page_at 3 t k ≡ some b
      → a.frame ≢ b.frame

-- A later state of the frames shows the same.
pub Shows-Grown :
    (t : PageMap 4) (f g : Frames) (spec : ℕ → ℕ)
    → IsOwn t f.manager
    → Grown f g
    → Shows t f spec
    → Shows t g spec
Shows-Grown t f g spec own grown shows addr lo hi =
    by_page (page_at 3 t (page_of addr)) refl ∙ shows addr lo hi
  where
    by_page :
        (page : Option Leaf)
        → page_at 3 t (page_of addr) ≡ page
        → byte_in g (addr % 2 ^ 12) page ≡ byte_in f (addr % 2 ^ 12) page
    by_page none e = refl
    by_page (some leaf) e =
        ap (λ (c : ℕ → ℕ). c (addr % 2 ^ 12))
          (grown.same leaf.frame (own.held (page_of addr) (omega (arith, lo)) (omega arith) leaf e))

pub IsOwn-Grown : (t : PageMap 4) (f g : Frames) → IsOwn t f.manager → Grown f g → IsOwn t g.manager
IsOwn-Grown t f g own grown = record {
  held = λ n lo hi a e. grown.kept a.frame (own.held n lo hi a e);
  apart = own.apart;
}

-- What Changed says of a page, by where it comes from.
data Origin (f g : Frames) (old : Option Leaf) (a : Leaf) : Type 0 where
  was_there : (b : Leaf) → old ≡ some b → a.frame ≡ b.frame → Origin f g old a
  is_new :
      old ≡ none
      → get_bit f.manager a.frame ≡ false
      → get_bit g.manager a.frame ≡ true
      → g.contents a.frame ≡ (λ i. 0)
      → Origin f g old a

frame_of : Option Leaf → ℕ
frame_of none = 0
frame_of (some leaf) = leaf.frame

Changed-Origin :
    (writable : Bool) (f g : Frames) (inside : Bool) (old new : Option Leaf) (a : Leaf)
    → Changed writable f g inside old new
    → new ≡ some a
    → Origin f g old a
unfolding frame_of
Changed-Origin writable f g false old new a c e = was_there a (sym c ∙ e) refl
Changed-Origin writable f g true (some b) new a c e = was_there b refl (ap frame_of (sym e ∙ c))
Changed-Origin writable f g true none new a c e =
    let same : c.0 ≡ a.frame = ap frame_of (sym c.1 ∙ e) in
    is_new refl (rw (← same) c.2.was_free) (rw (← same) c.2.is_taken) (rw (← same) c.2.zeros)

module _ (writable : Bool) (t t' : PageMap 4) (first n : ℕ) (f g : Frames) (grown : Grown f g)
    (set : AreSet writable t t' first n f g) (own : IsOwn t f.manager) where
  origin : (k : ℕ) (a : Leaf) → k < 2 ^ 36 → page_at 3 t' k ≡ some a → Origin f g (page_at 3 t k) a
  origin k a lt e =
      Changed-Origin writable f g (within first n k) (page_at 3 t k) (page_at 3 t' k) a
        (set k (omega (arith, lt))).0 e

  pub AreSet-IsOwn : IsOwn t' g.manager
  AreSet-IsOwn = record {
    held = λ k lo hi a e. elim (origin k a hi e) [
      | was_there b old same ↦ rw same (grown.kept b.frame (own.held k lo hi b old))
      | is_new old free taken zeros ↦ taken
    ];
    apart = λ k l lo hi lo' hi' other a b e e'. elim (origin k a hi e) [
      | was_there a0 old same ↦ elim (origin l b hi' e') [
        | was_there b0 old' same' ↦
            λ q. own.apart k l lo hi lo' hi' other a0 b0 old old' (sym same ∙ q ∙ same')
        | is_new old' free' taken' zeros' ↦
            let held = own.held k lo hi a0 old in
            λ q. cc (ap (get_bit f.manager) (sym same ∙ q), held, free')
      ]
      | is_new old free taken zeros ↦ elim (origin l b hi' e') [
        | was_there b0 old' same' ↦
            let held = own.held l lo' hi' b0 old' in
            λ q. cc (ap (get_bit f.manager) (q ∙ same'), held, free)
        | is_new old' free' taken' zeros' ↦
            (set k (omega (arith, hi))).2 l (omega (arith, hi')) other old old' a b e e'
      ]
    ];
  }

  pub AreSet-Shows : (spec : ℕ → ℕ) → Shows t f spec → Shows t' g spec
  AreSet-Shows spec shows addr lo hi =
      by_page (within first n (page_of addr)) (page_at 3 t (page_of addr))
        (page_at 3 t' (page_of addr)) refl (set (page_of addr) (omega arith)).0
      ∙ shows addr lo hi
    where
      stays :
          (leaf : Leaf)
          → page_at 3 t (page_of addr) ≡ some leaf
          → g.contents leaf.frame (addr % 2 ^ 12) ≡ f.contents leaf.frame (addr % 2 ^ 12)
      stays leaf e =
          ap (λ (b : ℕ → ℕ). b (addr % 2 ^ 12))
            (grown.same leaf.frame
              (own.held (page_of addr) (omega (arith, lo)) (omega arith) leaf e))

      by_page :
          (inside : Bool) (old new : Option Leaf)
          → page_at 3 t (page_of addr) ≡ old
          → Changed writable f g inside old new
          → byte_in g (addr % 2 ^ 12) new ≡ byte_in f (addr % 2 ^ 12) old
      by_page false none new e c = rw c refl
      by_page false (some leaf) new e c = rw c (stays leaf e)
      by_page true (some leaf) new e c = rw c (stays leaf e)
      by_page true none new e c = rw (c.1) (ap (λ (b : ℕ → ℕ). b (addr % 2 ^ 12)) (c.2.zeros))
