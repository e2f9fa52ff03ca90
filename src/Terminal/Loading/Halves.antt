-- ===== src/Terminal/Loading/Halves.antt =====
-- The two halves of the map that LoadApp of kernel/terminal.cpp makes: the kernel's half is copied,
-- and the pages of the application half are shared.
use min_os.Common.{
  ℕ, ◌/◌, ◌%◌, ◌^◌, ◌≤◌, ◌<◌, ◌≡◌, inl, inr, refl, ap, sym, ◌∙◌, true, false, Option, none, some,
  ltb, arith, Bool-cases,
}
use min_os.Paging.{Entry, PageMap, Frames}
use min_os.Paging.Views.{span, Leaf, see, page_at, see-absent}
use min_os.Paging.Copying.{Shares, read_only}
use min_os.Terminal.Loading.{kernel_half}
use min_os.Terminal.Loading.Image.{page_of, byte_in, Shows, IsOwn}
use min_os.Terminal.Loading.Segments.{SameKernel}

-- The map that the task gets: the kernel's half of the current one, and the registered program's
-- pages, read-only.
pub record IsShared (current new registered : PageMap 4) : Type 0 where
  pub kernel : SameKernel current new
  pub app :
      (number : ℕ)
      → 2 ^ 35 ≤ number
      → number < 2 ^ 36
      → page_at 3 new number ≡ read_only (page_at 3 registered number)

-- A page in an entry that was copied.
shared-page :
    (src new dest : Entry (PageMap 3)) (number : ℕ)
    → Shares 3 dest src new
    → dest.present ≡ false
    → number < span 3
    → see 3 new number ≡ read_only (see 3 src number)
shared-page src new dest number h gone lt = elim (Bool-cases src.present) [
  | inl there ↦ h.0 there number lt
  | inr absent ↦
      ap (λ (e : Entry (PageMap 3)). see 3 e number) (h.1 absent)
      ∙ see-absent 3 dest number gone
      ∙ ap read_only (sym (see-absent 3 src number absent))
]

pub copied-IsShared :
    (current new registered : PageMap 4)
    → ((k : ℕ)
        → (k < 256 → new k ≡ kernel_half current k)
          × (256 ≤ k → k < 512 → Shares 3 (kernel_half current k) (registered k) (new k)))
    → IsShared current new registered
copied-IsShared current new registered all = record {
  kernel = λ number lt.
      let below : number / span 3 < 256 = omega arith in
      let test : ltb (number / span 3) 256 ≡ true = ground arith in
      let half : kernel_half current (number / span 3) ≡ current (number / span 3) = rw test refl in
      ap (λ (e : Entry (PageMap 3)). see 3 e (number % span 3))
        ((all (number / span 3)).0 below ∙ half);
  app = λ number lo hi.
      let test : ltb (number / span 3) 256 ≡ false = ground (arith, lo) in
      let gone : (kernel_half current (number / span 3)).present ≡ false = rw test refl in
      shared-page (registered (number / span 3)) (new (number / span 3))
        (kernel_half current (number / span 3)) (number % span 3)
        ((all (number / span 3)).1 (omega (arith, lo)) (omega (arith, hi))) gone (omega arith);
}

-- The map that the program was loaded into has the kernel's half of the current one.
pub kernel_half-SameKernel : (current : PageMap 4) → SameKernel current (kernel_half current)
kernel_half-SameKernel current number lt =
    let test : ltb (number / span 3) 256 ≡ true = ground arith in
    let half : kernel_half current (number / span 3) ≡ current (number / span 3) = rw test refl in
    ap (λ (e : Entry (PageMap 3)). see 3 e (number % span 3)) half

-- No page of the application half is there in the kernel's half.
kernel_half-none :
    (current : PageMap 4) (n : ℕ) → 2 ^ 35 ≤ n → page_at 3 (kernel_half current) n ≡ none
kernel_half-none current n lo =
    let test : ltb (n / span 3) 256 ≡ false = ground (arith, lo) in
    let gone : (kernel_half current (n / span 3)).present ≡ false = rw test refl in
    see-absent 3 (kernel_half current (n / span 3)) (n % span 3) gone

no_page : (page : Option Leaf) (a : Leaf) → page ≡ none → page ≡ some a → ⊥
no_page page a gone there = cc

pub kernel_half-IsOwn : (current : PageMap 4) (f : Frames) → IsOwn (kernel_half current) f.manager
kernel_half-IsOwn current f = record {
  held = λ n lo hi a e.
      absurd (no_page (page_at 3 (kernel_half current) n) a (kernel_half-none current n lo) e);
  apart = λ n k lo hi lo' hi' other a b e e'.
      absurd (no_page (page_at 3 (kernel_half current) n) a (kernel_half-none current n lo) e);
}

pub kernel_half-Shows : (current : PageMap 4) (f : Frames) → Shows (kernel_half current) f (λ a. 0)
kernel_half-Shows current f addr lo hi =
    ap (byte_in f (addr % 2 ^ 12)) (kernel_half-none current (page_of addr) (omega (arith, lo)))
