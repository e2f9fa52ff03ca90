-- ===== src/Paging/Rounds.antt =====
-- A round of SetupPageMap of kernel/paging.cpp after its inner call.
use native.Mathlib.Nat.{mul-le-mul_right, add-mul}
use min_os.Common.{
  ℕ, zero, suc, ◌+◌, ◌-◌, ◌*◌, ◌≤◌, ◌<◌, ◌≡◌, ◌≢◌, ◌⊎◌, inl, inr, refl, ap, ◌∙◌, Bool, true, false,
  Option, some, ◌==◌, put, arith, eq_cases,
}
use min_os.Error.{success, no_enough_memory}
use min_os.Memory.Allocation.{IsValid}
use min_os.Memory.Bitmap.{within}
use min_os.Paging.{
  LinearAddress, part, set_part, clear_parts, Entry, PageMap, Frames, Progress, Setup, finish_round,
}
use min_os.Paging.Views.{
  span, page_number, IsIndexed, see, page_number-lt, Grown, Grown-refl, Grown-trans,
}
use min_os.Paging.Ways.{opens, Opened, Ways, Ways-round}
use min_os.Paging.Changes.{Changed, Pages, stored, Pages-round}
use min_os.Paging.Apart.{EntryApart, IsSetup, Apart-same, Apart-round}

-- The next round's address: the next entry, and the first page below it.
abbrev next_entry : (level : ℕ) → LinearAddress → LinearAddress
next_entry level a = clear_parts level (set_part (suc level) (part (suc level) a + 1) a)

next_entry_lem :
    (level : ℕ) (a : LinearAddress)
    → level < 4
    → part (suc level) a + 1 < 512
    → (part (suc level) (next_entry level a) ≡ part (suc level) a + 1)
      × (page_number level (next_entry level a) ≡ 0)
      × IsIndexed level (next_entry level a)
next_entry_lem zero a lv h = omega arith
next_entry_lem (suc zero) a lv h = omega arith
next_entry_lem (suc (suc zero)) a lv h = omega arith
next_entry_lem (suc (suc (suc zero))) a lv h = omega arith
next_entry_lem (suc (suc (suc (suc level)))) a lv h = absurd (omega arith)

module _ (writable : Bool) where
  module _ (level : ℕ) (again : Setup (suc level)) (t : PageMap (suc level)) (a : LinearAddress)
      (n : ℕ) (f : Frames) (e : Entry (PageMap level)) (q : Progress level) where
    abbrev here : PageMap (suc level)
    here = put (part (suc level) a) (stored writable level e q.page_map) t

    finish_round-fails :
        q.error ≡ no_enough_memory
        → finish_round writable level again t a n e q
          ≡ some (record {
            page_map = here;
            frames = q.frames;
            num_4kpages = n;
            error = no_enough_memory;
          })
    unfolding finish_round
    finish_round-fails h = simp h

    finish_round-last :
        q.error ≡ success
        → part (suc level) a ≡ 511
        → finish_round writable level again t a n e q
          ≡ some (record {
            page_map = here;
            frames = q.frames;
            num_4kpages = q.num_4kpages;
            error = success;
          })
    unfolding finish_round
    finish_round-last h l = let b : (part (suc level) a == 511) ≡ true = ground arith in simp (h, b)

    finish_round-more :
        q.error ≡ success
        → part (suc level) a ≢ 511
        → finish_round writable level again t a n e q
          ≡ again here (next_entry level a) q.num_4kpages q.frames
    unfolding finish_round
    finish_round-more h l =
        let b : (part (suc level) a == 511) ≡ false = ground arith in simp (h, b)

  abbrev pub Outcome :
      (level : ℕ)
      → PageMap level
      → LinearAddress
      → (n : ℕ) → Frames
      → Option (Progress level)
      → Type 0
  Outcome level t a n f o = (p : Progress level) × (o ≡ some p) × IsSetup writable level t a n f p

  -- No page of a map lies behind its last entry.
  Pages-past :
      (level start n : ℕ) (t : PageMap (suc level)) (f : Frames)
      → span (suc level) ≤ start
      → Pages writable (suc level) t t start n f f
  Pages-past level start n t f h i number lt small =
      let order : i * span level + span level ≤ 512 * span level =
        omega (arith, mul-le-mul_right (span level) lt) in
      let outside : within start n (i * span level + number) ≡ false = ground (arith, order) in
      rw outside refl

  Ways-past :
      (level start n : ℕ) (t : PageMap (suc level))
      → span (suc level) ≤ start
      → Ways (suc level) t t start n
  Ways-past level start n t h i number lt small =
      let order : i * span level + span level ≤ 512 * span level =
        omega (arith, mul-le-mul_right (span level) lt) in
      let outside : within start n (i * span level + number) ≡ false = ground (arith, order) in
      rw outside (λ e. e)

  pub Ways-none : (level start : ℕ) (t : PageMap (suc level)) → Ways (suc level) t t start 0
  Ways-none level start t i number lt small =
      let outside : within start 0 (i * span level + number) ≡ false = ground arith in
      rw outside (λ e. e)

  -- No page is in an empty range.
  pub Pages-none :
      (level start : ℕ) (t : PageMap (suc level)) (f : Frames)
      → Pages writable (suc level) t t start 0 f f
  Pages-none level start t f i number lt small =
      let outside : within start 0 (i * span level + number) ≡ false = ground arith in
      rw outside refl

  module _ (level : ℕ) (again : Setup (suc level)) (t : PageMap (suc level)) (a : LinearAddress)
      (n : ℕ) (f : Frames) (e : Entry (PageMap level)) (q : Progress level) (lv : level < 4)
      (indexed : IsIndexed (suc level) a) (grown : Grown f q.frames)
      (rest : q.error ≡ success → q.num_4kpages ≡ n - (span level - page_number level a))
      (apart : q.error ≡ success
        → EntryApart level (t (part (suc level) a)) (stored writable level e q.page_map))
      (opened : q.error ≡ success
        → (number : ℕ) → number < span level
        → Opened
            (within (page_number level a) n number)
            (opens level (t (part (suc level) a)) number)
            (opens level (stored writable level e q.page_map) number))
      (changed : q.error ≡ success
        → (number : ℕ) → number < span level
        → Changed writable f q.frames
            (within (page_number level a) n number)
            (see level (t (part (suc level) a)) number)
            (see level (stored writable level e q.page_map) number)) where
    finish-last :
        q.error ≡ success
        → part (suc level) a ≡ 511
        → Outcome (suc level) t a n f (finish_round writable level again t a n e q)
    finish-last ok last = (
      _,
      finish_round-last level again t a n f e q ok last,
      record {
        grown = grown;
        error = inl refl;
        rest = λ x. omega (arith, rest ok, ap (λ (i : ℕ). i * span level) last);
        pages = λ x.
            Pages-round writable level (part (suc level) a) (page_number level a) n q.num_4kpages t
              (here level again t a n f e q) (stored writable level e q.page_map) f q.frames
              q.frames (page_number-lt level a indexed.1) (rest ok) grown
              (Grown-refl q.frames grown.valid) (changed ok)
              (Pages-past level ((part (suc level) a + 1) * span level) q.num_4kpages
                (here level again t a n f e q) q.frames
                (omega (arith, ap (λ (i : ℕ). (i + 1) * span level) last)))
              indexed.0;
        apart = λ x.
            Apart-round writable level (part (suc level) a) (page_number level a) n q.num_4kpages t
              (here level again t a n f e q) (stored writable level e q.page_map) f q.frames
              q.frames (page_number-lt level a indexed.1) (rest ok) (changed ok)
              (Pages-past level ((part (suc level) a + 1) * span level) q.num_4kpages
                (here level again t a n f e q) q.frames
                (omega (arith, ap (λ (i : ℕ). (i + 1) * span level) last)))
              (apart ok) (Apart-same (suc level) (here level again t a n f e q)) indexed.0;
        ways = λ x.
            Ways-round level (part (suc level) a) (page_number level a) n q.num_4kpages t
              (here level again t a n f e q) (stored writable level e q.page_map)
              (page_number-lt level a indexed.1) (rest ok) (opened ok)
              (Ways-past level ((part (suc level) a + 1) * span level) q.num_4kpages
                (here level again t a n f e q)
                (omega (arith, ap (λ (i : ℕ). (i + 1) * span level) last)))
              indexed.0;
      },
    )

    finish-more :
        q.error ≡ success
        → part (suc level) a ≢ 511
        → Outcome
            (suc level)
            (here level again t a n f e q)
            (next_entry level a)
            q.num_4kpages
            q.frames
            (again (here level again t a n f e q) (next_entry level a) q.num_4kpages q.frames)
        → Outcome (suc level) t a n f (finish_round writable level again t a n e q)
    finish-more ok more (p, eq, s) =
        let (at, first, ix) = next_entry_lem level a lv (omega (arith, indexed.0)) in
        let start : page_number (suc level) (next_entry level a)
            ≡ (part (suc level) a + 1) * span level =
          rw (at, first) (omega arith) in
        (
          p,
          finish_round-more level again t a n f e q ok more ∙ eq,
          record {
            grown = Grown-trans f q.frames p.frames grown s.grown;
            error = s.error;
            rest = λ x. omega (
              arith,
              rest ok,
              s.rest x,
              start,
              page_number-lt level a indexed.1,
              mul-le-mul_right (span level) indexed.0,
              add-mul (part (suc level) a) 1 (span level),
            );
            pages = λ x.
                Pages-round writable level (part (suc level) a) (page_number level a) n
                  q.num_4kpages t p.page_map (stored writable level e q.page_map) f q.frames
                  p.frames (page_number-lt level a indexed.1) (rest ok) grown s.grown (changed ok)
                  (rw start at (s.pages x)) indexed.0;
            apart = λ x.
                Apart-round writable level (part (suc level) a) (page_number level a) n
                  q.num_4kpages t p.page_map (stored writable level e q.page_map) f q.frames
                  p.frames (page_number-lt level a indexed.1) (rest ok) (changed ok)
                  (rw start at (s.pages x)) (apart ok) (s.apart x) indexed.0;
            ways = λ x.
                Ways-round level (part (suc level) a) (page_number level a) n q.num_4kpages t
                  p.page_map (stored writable level e q.page_map) (page_number-lt level a indexed.1)
                  (rest ok) (opened ok) (rw start at (s.ways x)) indexed.0;
          },
        )

    pub finish-Outcome :
        (q.error ≡ success) ⊎ (q.error ≡ no_enough_memory)
        → ((page_map : PageMap (suc level)) (a' : LinearAddress) (n' : ℕ) (f' : Frames)
            → IsValid f'.manager
            → IsIndexed (suc level) a'
            → part (suc level) a' ≡ part (suc level) a + 1
            → Outcome (suc level) page_map a' n' f' (again page_map a' n' f'))
        → Outcome (suc level) t a n f (finish_round writable level again t a n e q)
    finish-Outcome (inr bad) next = (
      _,
      finish_round-fails level again t a n f e q bad,
      record {
        grown = grown;
        error = inr refl;
        rest = λ x. cc;
        pages = λ x. cc;
        ways = λ x. cc;
        apart = λ x. cc;
      },
    )
    finish-Outcome (inl ok) next = elim (eq_cases (part (suc level) a) 511) [
      | inl last ↦ finish-last ok last
      | inr more ↦
          let (at, first, ix) = next_entry_lem level a lv (omega (arith, indexed.0)) in
          finish-more ok more (
            next (here level again t a n f e q) (next_entry level a) q.num_4kpages q.frames
              grown.valid (omega (arith, at, indexed.0), ix) at)
    ]
