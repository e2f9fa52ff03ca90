-- ===== src/Terminal/Loading/Writes.antt =====
-- memcpy and memset of kernel/terminal.cpp to the pages of a program: what it sees afterwards.
use min_os.Common.{
  ℕ, zero, suc, ◌+◌, ◌-◌, ◌%◌, ◌^◌, ◌≤◌, ◌<◌, ◌≡◌, ◌≢◌, inl, inr, refl, ap, sym, ◌∙◌, Option, none,
  some, ◌&&◌, if◌then◌else◌, leb, ltb, add64, put, put_self, put_other, arith, Bool-cases, eq_cases,
}
use min_os.Paging.{PageMap, Frames}
use min_os.Paging.Views.{Leaf, page_at}
use min_os.Terminal.Loading.{app_begin, at_page, store_byte, store_range}
use min_os.Terminal.Loading.Image.{page_of, byte_in, Shows, IsOwn}

-- A write of `n` bytes at `addr`.
abbrev pub written : (addr n : ℕ) → (source spec : ℕ → ℕ) → ℕ → ℕ
written addr n source spec a = if leb addr a && ltb a (addr + n) then source (a - addr) else spec a

store_byte-here :
    (f : Frames) (offset byte i : ℕ) (leaf : Leaf) (page : Option Leaf)
    → page ≡ some leaf
    → byte_in (store_byte leaf.frame offset byte f) i page
      ≡ put offset byte (f.contents leaf.frame) i
store_byte-here f offset byte i leaf page e = rw e (
    ap (λ (c : ℕ → ℕ). c i)
      (put_self leaf.frame (put offset byte (f.contents leaf.frame)) f.contents))

store_byte-away :
    (f : Frames) (frame offset byte i : ℕ) (page : Option Leaf)
    → ((b : Leaf) → page ≡ some b → b.frame ≢ frame)
    → byte_in (store_byte frame offset byte f) i page ≡ byte_in f i page
store_byte-away f frame offset byte i none away = refl
store_byte-away f frame offset byte i (some b) away =
    ap (λ (c : ℕ → ℕ). c i)
      (put_other frame b.frame (put offset byte (f.contents frame)) f.contents (away b refl))

-- The bytes after a write of one, at an address whose page is there.
store_byte-Shows :
    (t : PageMap 4) (f : Frames) (spec : ℕ → ℕ) (addr byte : ℕ) (leaf : Leaf)
    → app_begin ≤ addr
    → addr < 2 ^ 64
    → page_at 3 t (page_of addr) ≡ some leaf
    → IsOwn t f.manager
    → Shows t f spec
    → Shows t (store_byte leaf.frame (addr % 2 ^ 12) byte f) (put addr byte spec)
store_byte-Shows t f spec addr byte leaf lo hi there own shows a lo' hi' =
    elim (eq_cases (page_of a) (page_of addr)) [
      | inl same ↦
          let page : page_at 3 t (page_of a) ≡ some leaf =
            ap (λ (n : ℕ). page_at 3 t n) same ∙ there in
          store_byte-here f (addr % 2 ^ 12) byte (a % 2 ^ 12) leaf (page_at 3 t (page_of a)) page
          ∙ within_page same page
      | inr away ↦
          store_byte-away f leaf.frame (addr % 2 ^ 12) byte (a % 2 ^ 12) (page_at 3 t (page_of a))
            (λ b e.
              own.apart (page_of a) (page_of addr) (omega (arith, lo')) (omega arith)
                (omega (arith, lo)) (omega arith) away b leaf e there)
          ∙ shows a lo' hi'
          ∙ sym (put_other addr a byte spec (λ e. away (ap page_of e)))
    ]
  where
    within_page :
        page_of a ≡ page_of addr
        → page_at 3 t (page_of a) ≡ some leaf
        → put (addr % 2 ^ 12) byte (f.contents leaf.frame) (a % 2 ^ 12) ≡ put addr byte spec a
    within_page same page = elim (eq_cases a addr) [
      | inl here ↦
          rw here
            (put_self (addr % 2 ^ 12) byte (f.contents leaf.frame) ∙ sym (put_self addr byte spec))
      | inr other ↦
          put_other (addr % 2 ^ 12) (a % 2 ^ 12) byte (f.contents leaf.frame)
            (λ e. other (omega (arith, e, same, lo, lo', hi, hi')))
          ∙ sym (ap (byte_in f (a % 2 ^ 12)) page)
          ∙ shows a lo' hi'
          ∙ sym (put_other addr a byte spec other)
    ]

Shows-eq :
    (t : PageMap 4) (f : Frames) (spec spec' : ℕ → ℕ)
    → ((a : ℕ) → app_begin ≤ a → spec a ≡ spec' a)
    → Shows t f spec
    → Shows t f spec'
Shows-eq t f spec spec' same shows a lo hi = shows a lo hi ∙ same a lo

written-suc :
    (addr n : ℕ) (source spec : ℕ → ℕ) (a : ℕ)
    → written (addr + 1) n (λ i. source (i + 1)) (put addr (source 0) spec) a
      ≡ written addr (suc n) source spec a
written-suc addr n source spec a = elim (eq_cases a addr) [
  | inl here ↦ let first : a - addr ≡ 0 = omega arith in rw first (ground (arith, here))
  | inr other ↦ elim (Bool-cases (leb (addr + 1) a)) [
    | inl above ↦
        let index : a - (addr + 1) + 1 ≡ a - addr = ground arith in
        rw index (ground (arith, above, other))
    | inr below ↦ ground (arith, below, other)
  ]
]

-- memcpy and memset to pages that are there do not fault, and write the bytes.
pub store_range-Shows :
    (n : ℕ) (t : PageMap 4) (addr : ℕ) (source spec : ℕ → ℕ) (f : Frames)
    → app_begin ≤ addr
    → addr + n < 2 ^ 64
    → ((j : ℕ) → j < n → (leaf : Leaf) × (page_at 3 t (page_of (addr + j)) ≡ some leaf))
    → IsOwn t f.manager
    → Shows t f spec
    → (f' : Frames) × (store_range n t addr source f ≡ some f')
      × (f'.manager ≡ f.manager)
      × Shows t f' (written addr n source spec)
unfolding store_range
store_range-Shows zero t addr source spec f lo lt there own shows =
    (f, refl, refl, Shows-eq t f spec (written addr 0 source spec) (λ a h. ground arith) shows)
store_range-Shows (suc n) t addr source spec f lo lt there own shows =
    let (leaf, e0) = there 0 (omega arith) in
    let here : addr + 0 ≡ addr = omega arith in
    let e = rw here at e0 in
    let wide : add64 addr 1 ≡ addr + 1 = omega arith in
    let f1 = store_byte leaf.frame (addr % 2 ^ 12) (source 0) f in
    let (f', eq, same, shown) =
      store_range-Shows n t (addr + 1) (λ i. source (i + 1)) (put addr (source 0) spec) f1
        (omega (arith, lo)) (omega arith)
        (λ j lt.
          let next : addr + (j + 1) ≡ addr + 1 + j = omega arith in
          rw next at (there (j + 1) (omega arith)))
        own (store_byte-Shows t f spec addr (source 0) leaf lo (omega arith) e own shows) in
    (
      f',
      ap
            (λ (o : Option Leaf). at_page o (λ leaf'.
              store_range n t (add64 addr 1) (λ i. source (i + 1))
                (store_byte leaf'.frame (addr % 2 ^ 12) (source 0) f)))
            e
          ∙ ap (λ (a : ℕ). store_range n t a (λ i. source (i + 1)) f1) wide
          ∙ eq,
      same,
      Shows-eq t f' (written (addr + 1) n (λ i. source (i + 1)) (put addr (source 0) spec))
          (written addr (suc n) source spec) (λ a h. written-suc addr n source spec a) shown,
    )
