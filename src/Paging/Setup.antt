-- ===== src/Paging/Setup.antt =====
-- SetupPageMap of kernel/paging.cpp: the pages of a range are there afterwards.
use min_os.Common.{
  ℕ, zero, suc, ◌+◌, ◌≤◌, ◌<◌, ◌≡◌, inl, inr, refl, ap, ◌∙◌, Bool, false, some, ◌==◌, arith,
  eq_cases,
}
use min_os.Error.{Code}
use min_os.Memory.Allocation.{IsValid}
use min_os.Paging.{
  LinearAddress, part, Entry, PageMap, Frames, Progress, Setup, finish_in, round_in, setup_loop,
  setup_page_map,
}
use min_os.Paging.Views.{page_number, IsIndexed, Grown-refl, Grown-trans}
use min_os.Paging.Entries.{
  Provided, at_hand, linked, unlinked, set_new_page_map_if_not_present-Provided,
}
use min_os.Paging.Changes.{stored, at_hand-Changed, linked-Changed, stored-Opened}
use min_os.Paging.Apart.{IsSetup, below-Apart, Apart-same, Gone-refl, Gone-linked}
use min_os.Paging.Rounds.{Outcome, finish-Outcome, Pages-none, Ways-none}

module _ (writable : Bool) where
  -- What a call that sets up a map of a level promises.
  abbrev pub Promises : (level : ℕ) → Setup level → Type 0
  Promises level setup =
      (page_map : PageMap level) (a : LinearAddress) (n : ℕ) (f : Frames)
      → IsValid f.manager
      → IsIndexed level a
      → (p : Progress level) × (setup page_map a n f ≡ some p)
        × IsSetup writable level page_map a n f p

  page-Promises : Promises zero (setup_page_map writable zero)
  unfolding setup_page_map
  page-Promises page a n f v h = (
    _,
    refl,
    record {
      grown = Grown-refl f v;
      error = inl refl;
      rest = λ e. refl;
      pages = λ e. tt;
      ways = λ e. tt;
      apart = λ e. tt;
    },
  )

  round-Outcome :
      (level : ℕ) (below : Setup level) (again : Setup (suc level)) (t : PageMap (suc level))
      (a : LinearAddress) (n : ℕ) (f : Frames) (e : Entry (PageMap level)) (g : Frames) (err : Code)
      → level < 4
      → IsIndexed (suc level) a
      → 0 < n
      → IsValid f.manager
      → Promises level below
      → ((page_map : PageMap (suc level)) (a' : LinearAddress) (n' : ℕ) (f' : Frames)
          → IsValid f'.manager
          → IsIndexed (suc level) a'
          → part (suc level) a' ≡ part (suc level) a + 1
          → Outcome writable (suc level) page_map a' n' f' (again page_map a' n' f'))
      → Provided level (t (part (suc level) a)) f e g err
      → Outcome writable
          (suc level)
          t
          a
          n
          f
          (round_in writable level below again t a n (some (e, g, err)))
  round-Outcome level below again t a n f e g err lv indexed pos v promises next unlinked = (
    _,
    refl,
    record {
      grown = Grown-refl f v;
      error = inr refl;
      rest = λ x. cc;
      pages = λ x. cc;
      ways = λ x. cc;
      apart = λ x. cc;
    },
  )
  round-Outcome level below again t a n f e g err lv indexed pos v promises next (at_hand h) =
      let (q, eq, s) = promises e.child a n f v indexed.1 in
      let (p, eq', r) =
        finish-Outcome writable level again t a n f e q lv indexed s.grown s.rest
          (λ ok.
            below-Apart level e e (stored writable level e q.page_map) h h (Gone-refl level e)
              (s.apart ok))
          (λ ok number lt.
            stored-Opened writable level e e q.page_map (page_number level a) n number (λ x. refl) h
              lt (s.ways ok))
          (λ ok number lt.
            at_hand-Changed writable level e q.page_map a n f q.frames number h pos lt (s.pages ok))
          s.error next in
      (p, ap (finish_in writable level again t a n e) eq ∙ eq', r)
  round-Outcome level below again t a n f e g err lv indexed pos v promises next
        (linked f' frame h grown fresh) =
      let (q, eq, s) = promises e.child a n f' grown.valid indexed.1 in
      let (p, eq', r) =
        finish-Outcome writable level again t a n f e q lv indexed
          (Grown-trans f f' q.frames grown s.grown) s.rest
          (λ ok.
            below-Apart level (t (part (suc level) a)) e (stored writable level e q.page_map) refl
              refl (Gone-linked level (t (part (suc level) a)) frame) (s.apart ok))
          (λ ok number lt.
            stored-Opened writable level (t (part (suc level) a)) e q.page_map (page_number level a)
              n number (λ x. cc) refl lt (s.ways ok))
          (λ ok number lt.
            linked-Changed writable level (t (part (suc level) a)) frame q.page_map a n f f'
              q.frames number h pos lt fresh grown s.grown (s.pages ok))
          s.error next in
      (p, ap (finish_in writable level again t a n e) eq ∙ eq', r)

  setup_loop-Outcome :
      (rounds level : ℕ) (below : Setup level) (t : PageMap (suc level)) (a : LinearAddress) (n : ℕ)
      (f : Frames)
      → level < 4
      → Promises level below
      → IsValid f.manager
      → IsIndexed (suc level) a
      → 512 ≤ rounds + part (suc level) a
      → Outcome writable (suc level) t a n f (setup_loop writable rounds level below t a n f)
  unfolding setup_loop
  setup_loop-Outcome zero level below t a n f lv promises v indexed h =
      absurd (omega (arith, indexed.0))
  setup_loop-Outcome (suc rounds) level below t a n f lv promises v indexed h =
      elim (eq_cases n 0) [
        | inl done ↦ rw done (
          _,
          refl,
          record {
            grown = Grown-refl f v;
            error = inl refl;
            rest = λ x. omega arith;
            pages = λ x. Pages-none writable level (page_number (suc level) a) t f;
            apart = λ x. Apart-same (suc level) t;
            ways = λ x. Ways-none writable level (page_number (suc level) a) t;
          },
        )
        | inr more ↦
            let test : (n == 0) ≡ false = ground arith in
            let (e, g, err, eq, provided) =
              set_new_page_map_if_not_present-Provided level (t (part (suc level) a)) f v in
            let (p, eq', s) =
              round-Outcome level below (setup_loop writable rounds level below) t a n f e g err lv
                indexed (omega arith) v promises
                (λ t' a' n' f' v' ix at.
                  setup_loop-Outcome rounds level below t' a' n' f' lv promises v' ix (omega arith))
                provided in
            (
              p,
              rw test (
                  ap (round_in writable level below (setup_loop writable rounds level below) t a n)
                    eq
                  ∙ eq'),
              s,
            )
      ]

  pub setup_page_map-Promises :
      (level : ℕ) → level ≤ 4 → Promises level (setup_page_map writable level)
  unfolding setup_page_map
  setup_page_map-Promises zero lv t a n f v indexed = page-Promises t a n f v indexed
  setup_page_map-Promises (suc level) lv t a n f v indexed =
      setup_loop-Outcome 512 level (setup_page_map writable level) t a n f (omega arith)
        (setup_page_map-Promises level (omega arith)) v indexed (omega arith)
