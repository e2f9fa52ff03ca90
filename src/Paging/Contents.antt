-- ===== src/Paging/Contents.antt =====
-- SetPageContent of kernel/paging.cpp: it replaces one page, and no other page changes.
use native.Mathlib.Nat.{div-add-mod, mod-lt, mul-le-mul_right}
use min_os.Common.{
  ℕ, zero, suc, ◌+◌, ◌*◌, ◌/◌, ◌%◌, ◌^◌, ◌≤◌, ◌<◌, ◌≡◌, ◌≢◌, inl, inr, refl, ap, sym, ◌∙◌, Bool,
  true, false, Option, none, some, ◌==◌, ◌&&◌, put, put_self, put_other, arith, Bool-cases,
  eq_cases, lt_cases,
}
use min_os.Paging.{LinearAddress, address, part, Entry, PageMap}
use min_os.Paging.Views.{
  span, page_number, IsIndexed, address-IsIndexed, page_number-address, Leaf, see, page_at,
  span-pos, page_number-lt,
}
use min_os.Paging.Ways.{opens}
use min_os.Paging.Copies.{set_page_content}

-- What SetPageContent makes of a page, by whether the address lies in it.
abbrev pub replaced : (here : Bool) (content : ℕ) → Option Leaf → Option Leaf
replaced false content old = old
replaced true content none = none
replaced true content (some leaf) = some (record leaf { frame = content; writable = true })

-- Numbers below different entries differ.
different :
    (i j number idx s : ℕ) → number < s → idx < s → i ≢ j → (i * s + number == j * s + idx) ≡ false
different i j number idx s small lt other = elim (lt_cases i j) [
  | inl before ↦
      let order : i * s + s ≤ j * s = omega (arith, mul-le-mul_right s before) in
      ground (arith, order)
  | inr after ↦
      let above : j < i = omega arith in
      let order : j * s + s ≤ i * s = omega (arith, mul-le-mul_right s above) in
      ground (arith, order)
]

replaced-none : (here : Bool) (content : ℕ) → replaced here content none ≡ none
replaced-none true content = refl
replaced-none false content = refl

set_page_content-below :
    (level : ℕ) (e : Entry (PageMap (suc level))) (a : LinearAddress) (content number : ℕ)
    → ((i r : ℕ)
        → r < span level
        → see level (set_page_content (suc level) e.child a content i) r
          ≡ replaced
              (i * span level + r == page_number (suc level) a)
              content
              (see level (e.child i) r))
    → see (suc level) (record e { child = set_page_content (suc level) e.child a content }) number
      ≡ replaced (number == page_number (suc level) a) content (see (suc level) e number)
set_page_content-below level e a content number below = elim (Bool-cases e.present) [
  | inr absent ↦ rw absent (sym (replaced-none (number == page_number (suc level) a) content))
  | inl present ↦
      let split : number / span level * span level + number % span level ≡ number =
        grind (arith, div-add-mod number (span level)) in
      let here =
        below (number / span level) (number % span level) (mod-lt number (span-pos level)) in
      rw present (rw split at here)
]

-- An entry of the map, where `new` is the one that is written.
stored-see :
    (level : ℕ) (t : PageMap (suc level)) (new : Entry (PageMap level)) (a : LinearAddress)
    (content i number : ℕ)
    → IsIndexed (suc level) a
    → number < span level
    → ((r : ℕ)
        → r < span level
        → see level new r
          ≡ replaced (r == page_number level a) content (see level (t (part (suc level) a)) r))
    → see level (put (part (suc level) a) new t i) number
      ≡ replaced
          (i * span level + number == page_number (suc level) a)
          content
          (see level (t i) number)
stored-see level t new a content i number indexed small h =
    let idx = page_number-lt level a indexed.1 in
    elim (eq_cases i (part (suc level) a)) [
      | inl same ↦
          let test : (number == page_number level a)
              ≡ (i * span level + number == page_number (suc level) a) =
            rw same (ground arith) in
          rw (← test) (
            rw same (
              ap (λ (e : Entry (PageMap level)). see level e number)
                (put_self (part (suc level) a) new t)
              ∙ h number small))
      | inr other ↦
          let apart : (i * span level + number
                == part (suc level) a * span level + page_number level a)
              ≡ false =
            different i (part (suc level) a) number (page_number level a) (span level) small idx
              other in
          rw (put_other (part (suc level) a) i new t other, apart) refl
    ]

set_page_content-see :
    (level : ℕ) (t : PageMap (suc level)) (a : LinearAddress) (content i number : ℕ)
    → IsIndexed (suc level) a
    → number < span level
    → see level (set_page_content (suc level) t a content i) number
      ≡ replaced
          (i * span level + number == page_number (suc level) a)
          content
          (see level (t i) number)
unfolding set_page_content
set_page_content-see zero t a content i number indexed small =
    stored-see zero t (record (t (part 1 a)) { addr = content; writable = true }) a content i number
      indexed small (λ r lt. last (t (part 1 a)) r lt)
  where
    last :
        (e : Entry (PageMap zero)) (r : ℕ)
        → r < 1
        → see zero (record e { addr = content; writable = true }) r
          ≡ replaced (r == 0) content (see zero e r)
    last e r lt =
        let test : (r == 0) ≡ true = ground arith in
        elim (Bool-cases e.present) [
          | inl present ↦ rw (test, present) refl
          | inr absent ↦ rw (test, absent) refl
        ]
set_page_content-see (suc level) t a content i number indexed small =
    stored-see (suc level) t _ a content i number indexed small (λ r lt.
      set_page_content-below level (t (part (suc (suc level)) a)) a content r (λ k q lo.
        set_page_content-see level (t (part (suc (suc level)) a)).child a content k q indexed.1 lo))

-- The entries above the last level permit what they did.
pub opens-set_page_content :
    (level : ℕ) (t : PageMap (suc level)) (a : LinearAddress) (content i number : ℕ)
    → opens level (set_page_content (suc level) t a content i) number ≡ opens level (t i) number
unfolding set_page_content
opens-set_page_content zero t a content i number = refl
opens-set_page_content (suc level) t a content i number =
    elim (eq_cases i (part (suc (suc level)) a)) [
      | inl same ↦
          let old = t (part (suc (suc level)) a) in
          let new : Entry (PageMap (suc level)) = record old {
            child = set_page_content (suc level) old.child a content;
          } in
          rw same (
            ap (λ (e : Entry (PageMap (suc level))). opens (suc level) e number)
              (put_self (part (suc (suc level)) a) new t)
            ∙ ap (λ (b : Bool). old.present && old.writable && old.user && b)
                (opens-set_page_content level old.child a content (number / span level)
                  (number % span level)))
      | inr other ↦
          ap (λ (e : Entry (PageMap (suc level))). opens (suc level) e number)
            (put_other (part (suc (suc level)) a) i _ t other)
    ]

-- The same for a page by its number.
pub set_page_content-page_at :
    (t : PageMap 4) (value content number : ℕ)
    → number < span 4
    → page_at 3 (set_page_content 4 t (address value) content) number
      ≡ replaced (number == value / 2 ^ 12 % 2 ^ 36) content (page_at 3 t number)
set_page_content-page_at t value content number lt =
    let split : number / span 3 * span 3 + number % span 3 ≡ number = omega arith in
    let here =
      set_page_content-see 3 t (address value) content (number / span 3) (number % span 3)
        (address-IsIndexed value) (omega arith) in
    rw (page_number-address value) at (rw split at here)
