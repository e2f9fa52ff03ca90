-- ===== src/Paging/Cleaning/Freed.antt =====
-- Which frames CleanPageMap of kernel/paging.cpp frees, and what it leaves of a map.
use min_os.Common.{
  ℕ, zero, suc, ◌+◌, ◌-◌, ◌%◌, ◌^◌, ◌≤◌, ◌<◌, ◌≡◌, ◌≢◌, ◌⊎◌, inl, inr, refl, ap, sym, ◌∙◌, Bool,
  true, false, put, put_self, put_other, arith, Bool-cases, eq_cases,
}
use mathlib.Core.Path.{subst}
use min_os.Error.{success}
use min_os.Memory.Allocation.{IsValid}
use min_os.Paging.{LinearAddress, part, Entry, PageMap, empty_map, Frames}
use min_os.Paging.Cleaning.{
  Cleaned, free_writable, clear_entry, clean_entry, clean_round, clean_loop, clean_page_map,
}
use min_os.Paging.Cleaning.Sets.{Frees, Frees-none, Frees-trans, free_writable-Frees}

module _ (level : ℕ) (C : PageMap level → ℕ → Type 0) where
  -- The frames that belong to an entry: its own, if it can be written to, and those below it.
  abbrev pub EntryFrames : Entry (PageMap level) → ℕ → Type 0
  EntryFrames e frame =
      (e.present ≡ true) × (((e.writable ≡ true) × (frame ≡ e.addr % 2 ^ 64)) ⊎ C e.child frame)

  -- The same of `rounds` entries from `i` on.
  abbrev pub MapFrames : (rounds i : ℕ) → PageMap (suc level) → ℕ → Type 0
  MapFrames rounds i t frame = (k : ℕ) × (i ≤ k) × (k < i + rounds) × EntryFrames (t k) frame

  -- What a call promises.
  record IsCleaned (rounds i : ℕ) (t : PageMap (suc level)) (f : Frames)
      (o : Cleaned (PageMap (suc level))) : Type 0 where
    succeeds : o.2 ≡ success
    frames : Frees (MapFrames rounds i t) f o.1
    cleared : (k : ℕ) → i ≤ k → k < i + rounds → (o.0 k).present ≡ false
    same : (k : ℕ) → (k < i) ⊎ (i + rounds ≤ k) → o.0 k ≡ t k

  -- The first of the entries, and the others.
  cons-Frees :
      (rounds i : ℕ) (t t' : PageMap (suc level)) (f g h : Frames)
      → ((k : ℕ) → i < k → t' k ≡ t k)
      → Frees (EntryFrames (t i)) f g
      → Frees (MapFrames rounds (i + 1) t') g h
      → Frees (MapFrames (suc rounds) i t) f h
  cons-Frees rounds i t t' f g h later p q =
      Frees-trans (EntryFrames (t i)) (MapFrames rounds (i + 1) t') (MapFrames (suc rounds) i t) f g
        h
        (λ frame (k, lo, hi, own). elim (eq_cases k i) [
          | inl e ↦ inl (rw e at own)
          | inr e ↦ inr (k, omega arith, omega arith, rw (later k (omega arith)) own)
        ])
        (λ frame own. (i, omega arith, omega arith, own))
        (λ frame (k, lo, hi, own). (k, omega arith, omega arith, rw (later k (omega arith)) at own))
        p q

  -- A round at an entry that is absent.
  skip-IsCleaned :
      (rounds i : ℕ) (t : PageMap (suc level)) (f : Frames) (o : Cleaned (PageMap (suc level)))
      → IsValid f.manager
      → (t i).present ≡ false
      → IsCleaned rounds (i + 1) t f o
      → IsCleaned (suc rounds) i t f o
  skip-IsCleaned rounds i t f o v absent h = record {
    succeeds = h.succeeds;
    frames =
        cons-Frees rounds i t t f f o.1 (λ k lt. refl)
          (Frees-none (EntryFrames (t i)) f v (λ frame own. cc (own.0, absent))) h.frames;
    cleared = λ k lo hi. elim (eq_cases k i) [
      | inl e ↦
          rw e
            (ap (λ (x : Entry (PageMap level)). x.present) (h.same i (inl (omega arith))) ∙ absent)
      | inr e ↦ h.cleared k (omega arith) (omega arith)
    ];
    same = λ k r. h.same k (ground arith);
  }

  -- A round at an entry that is present, after the inner call.
  entry-IsCleaned :
      (rounds i : ℕ) (t : PageMap (suc level)) (f : Frames)
      (again : PageMap (suc level) → Frames → Cleaned (PageMap (suc level)))
      (r : Cleaned (PageMap level))
      → (t i).present ≡ true
      → r.2 ≡ success
      → Frees (C (t i).child) f r.1
      → ((t' : PageMap (suc level)) (f' : Frames)
          → IsValid f'.manager
          → IsCleaned rounds (i + 1) t' f' (again t' f'))
      → IsCleaned (suc rounds) i t f (clean_entry level i t again r)
  unfolding clean_entry clear_entry
  entry-IsCleaned rounds i t f again (child, f', err) present ok below next =
      let (freed, fine) = free_writable-Frees (t i).writable (t i).addr f' below.valid in
      let f'' = (free_writable (t i).writable (t i).addr f').0 in
      let stored : PageMap (suc level) = put i (record (t i) { child = child }) t in
      let t' : PageMap (suc level) = put i (empty_map (suc level) i) stored in
      let later : (k : ℕ) → k ≢ i → t' k ≡ t k = λ k other.
        put_other i k (empty_map (suc level) i) stored other
        ∙ put_other i k (record (t i) { child = child }) t other in
      let h = next t' f'' freed.valid in
      rw (ok, fine)
        (record {
          succeeds = h.succeeds;
          frames =
              cons-Frees rounds i t t' f f'' _ (λ k lt. later k (omega arith))
                (Frees-trans (C (t i).child)
                  (λ frame. ((t i).writable ≡ true) × (frame ≡ (t i).addr % 2 ^ 64))
                  (EntryFrames (t i)) f f' f''
                  (λ frame own. elim (own.1) [
                    | inl own_frame ↦ inr own_frame
                    | inr under ↦ inl under
                  ])
                  (λ frame under. (present, inr under))
                  (λ frame own_frame. (present, inl own_frame)) below freed)
                h.frames;
          cleared = λ k lo hi. elim (eq_cases k i) [
            | inl e ↦ rw e (
                ap (λ (x : Entry (PageMap level)). x.present)
                  (h.same i (inl (omega arith)) ∙ put_self i (empty_map (suc level) i) stored))
            | inr e ↦ h.cleared k (omega arith) (omega arith)
          ];
          same = λ k r. h.same k (ground arith) ∙ later k (ground arith);
        })

  clean_loop-IsCleaned :
      (rounds : ℕ) (clean : PageMap level → Frames → Cleaned (PageMap level)) (i : ℕ)
      (t : PageMap (suc level)) (f : Frames)
      → ((child : PageMap level) (f' : Frames)
          → IsValid f'.manager
          → ((clean child f').2 ≡ success) × Frees (C child) f' (clean child f').1)
      → IsValid f.manager
      → IsCleaned rounds i t f (clean_loop rounds level clean i t f)
  unfolding clean_loop
  clean_loop-IsCleaned zero clean i t f cleans v = record {
    succeeds = refl;
    frames = Frees-none (MapFrames 0 i t) f v (λ frame (k, lo, hi, own). absurd (omega arith));
    cleared = λ k lo hi. absurd (omega arith);
    same = λ k r. refl;
  }
  clean_loop-IsCleaned (suc rounds) clean i t f cleans v = elim (Bool-cases (t i).present) [
    | inr absent ↦ subst (IsCleaned (suc rounds) i t f) (sym (ap round absent)) (
        skip-IsCleaned rounds i t f (again t f) v absent
          (clean_loop-IsCleaned rounds clean (i + 1) t f cleans v))
    | inl present ↦
        let (ok, below) = cleans (t i).child f v in
        subst (IsCleaned (suc rounds) i t f) (sym (ap round present)) (
          entry-IsCleaned rounds i t f again (clean (t i).child f) present ok below
            (λ t' f' v'. clean_loop-IsCleaned rounds clean (i + 1) t' f' cleans v'))
  ]
    where
      again : PageMap (suc level) → Frames → Cleaned (PageMap (suc level))
      again t' f' = clean_loop rounds level clean (i + 1) t' f'

      round : Bool → Cleaned (PageMap (suc level))
      round b = clean_round b level i t clean again f

-- The frames that belong to a whole map: for each of its 512 entries that is there, the frame of
-- the entry, if it can be written to, and the frames of the map below.
abbrev pub Owned : (level : ℕ) → PageMap level → ℕ → Type 0
Owned zero t frame = ⊥
Owned (suc level) t frame = MapFrames level (Owned level) 512 0 t frame

-- The parts of an address up to a level are 0: it is the first one below an entry above them.
abbrev pub IsFirst : (level : ℕ) → LinearAddress → Type 0
IsFirst zero a = Unit {0}
IsFirst (suc level) a = (part (suc level) a ≡ 0) × IsFirst level a

clean_page_map-Frees :
    (level : ℕ) (t : PageMap level) (a : LinearAddress) (f : Frames)
    → IsFirst level a
    → IsValid f.manager
    → ((clean_page_map level t a f).2 ≡ success)
      × Frees (Owned level t) f (clean_page_map level t a f).1
unfolding clean_page_map
clean_page_map-Frees zero t a f first v = (refl, Frees-none _ f v (λ frame p. p))
clean_page_map-Frees (suc level) t a f first v =
    let h =
      clean_loop-IsCleaned level (Owned level) 512 (λ child f'. clean_page_map level child a f') 0 t
        f (λ child f' w. clean_page_map-Frees level child a f' first.1 w) v in
    rw first.0 (h.succeeds, h.frames)

-- CleanPageMap on a valid allocator, for an address whose parts below the level are 0, as the kernel
-- calls it, succeeds. It frees exactly the frames of the entries that can be written to, in the map
-- from the part of the address on and in the whole of the maps below those entries; the allocator
-- stays valid, and no byte changes. Of the map, the entries from the part of the address on are
-- cleared and the others stay.
pub clean_page_map-frees :
    (level : ℕ) (t : PageMap (suc level)) (a : LinearAddress) (f : Frames)
    → IsValid f.manager
    → part (suc level) a < 512
    → IsFirst level a
    → ((clean_page_map (suc level) t a f).2 ≡ success)
      × Frees
          (MapFrames level (Owned level) (512 - part (suc level) a) (part (suc level) a) t)
          f
          (clean_page_map (suc level) t a f).1
      × ((k : ℕ)
          → (k < part (suc level) a → (clean_page_map (suc level) t a f).0 k ≡ t k)
            × (part (suc level) a ≤ k
                → k < 512
                → ((clean_page_map (suc level) t a f).0 k).present ≡ false))
unfolding clean_page_map
clean_page_map-frees level t a f v h first =
    let c =
      clean_loop-IsCleaned level (Owned level) (512 - part (suc level) a)
        (λ child f'. clean_page_map level child a f') (part (suc level) a) t f
        (λ child f' w. clean_page_map-Frees level child a f' first w) v in
    (c.succeeds, c.frames, λ k. (λ lt. c.same k (inl lt), λ lo hi. c.cleared k lo (omega arith)))
