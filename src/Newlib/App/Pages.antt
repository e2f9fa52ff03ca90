-- ===== src/Newlib/App/Pages.antt =====
-- The blocks that sbrk of apps/newlib_support.c hands out.
use min_os.Common.{
  ◌%◌, ap, ℕ, pos, to_unsigned, scale, ◌+◌, ◌-◌, ◌*◌, ◌/◌, ◌^◌, ◌≤◌, ◌<◌, ◌≡◌, inl, inr, refl, true,
  false, ◌||◌, some, ◌==◌, ltb, leb, add64, arith, Bool-cases,
}
use min_os.Newlib.App.{Heap, demand_pages, pages_for, use_pages, sbrk}

-- The break lies in the pages that the kernel has set aside for the task.
pub record IsBacked (h : Heap) : Type 0 where
  pub within_dpage : h.program_break ≤ h.dpage_end
  pub within_dpaging : h.dpage_end ≤ h.dpaging_end
  pub begun : 0 < h.dpaging_end

module _ (h : Heap) (n : ℕ) (b : IsBacked h) (small : n < 2 ^ 31 - 4095)
    (room : h.dpaging_end + n + 4096 < 2 ^ 64) where
  sbrk-demands :
      (h.dpage_end == 0) || ltb h.dpage_end (h.program_break + n) ≡ true
      → let end = h.dpaging_end + 4096 * ((n + 4095) / 4096) in
        sbrk h (pos n)
        ≡ some (
          record { dpage_end = end; program_break = h.dpaging_end + n; dpaging_end = end },
          some h.dpaging_end,
        )
  unfolding sbrk demand_pages pages_for use_pages
  sbrk-demands out =
      let moved : add64 h.program_break (to_unsigned (pos n)) ≡ h.program_break + n =
        omega (arith, b.within_dpage, b.within_dpaging) in
      let few : leb (2 ^ 31 - 4095) n ≡ false = ground arith in
      let pages = 4096 * ((n + 4095) / 4096) in
      let app_end : add64 h.dpaging_end (to_unsigned (scale 4095 (pos ((n + 4095) / 4096))))
          ≡ h.dpaging_end + pages =
        omega arith in
      let kernel_end : add64 h.dpaging_end (4096 * to_unsigned (pos ((n + 4095) / 4096)) % 2 ^ 64)
          ≡ h.dpaging_end + pages =
        omega arith in
      let end : add64 h.dpaging_end (to_unsigned (pos n)) ≡ h.dpaging_end + n = omega arith in
      rw (sbrk, moved, out, few) (ap some (rw (app_end, kernel_end, end) refl))

  sbrk-stays :
      (h.dpage_end == 0) || ltb h.dpage_end (h.program_break + n) ≡ false
      → sbrk h (pos n)
        ≡ some (record h { program_break = h.program_break + n }, some h.program_break)
  unfolding sbrk
  sbrk-stays within = ground arith

  -- sbrk by `n`, where `n + 4095` is an int, the break lies in pages that the kernel has set
  -- aside and their end is not about to wrap around, always succeeds. The block that it returns
  -- starts at or after the old break and ends at the new one, which lies in pages that the
  -- kernel has set aside; so the same holds of the heap that it leaves.
  pub sbrk-IsBacked :
      (h' : Heap) × (p : ℕ) × (sbrk h (pos n) ≡ some (h', some p))
      × (h.program_break ≤ p)
      × (h'.program_break ≡ p + n)
      × (0 < h'.dpage_end)
      × IsBacked h'
  sbrk-IsBacked = elim (Bool-cases ((h.dpage_end == 0) || ltb h.dpage_end (h.program_break + n))) [
    | inl out ↦ (
      _,
      _,
      sbrk-demands out,
      omega (arith, b.within_dpage, b.within_dpaging),
      refl,
      omega (arith, b.begun),
      record {
        within_dpage = omega arith;
        within_dpaging = omega arith;
        begun = omega (arith, b.begun);
      },
    )
    | inr within ↦ (
      _,
      _,
      sbrk-stays within,
      omega arith,
      refl,
      ground arith,
      record { within_dpage = ground arith; within_dpaging = b.within_dpaging; begun = b.begun },
    )
  ]
