-- ===== src/Acpi/Waiting.antt =====
-- WaitMilliseconds of kernel/acpi.cpp waits for as long as it is asked to.
use min_os.Common.{
  ℕ, zero, suc, ◌+◌, ◌-◌, ◌*◌, ◌%◌, ◌≤◌, ◌<◌, ◌≡◌, inl, inr, refl, ap, ◌∙◌, Bool, true, false, some,
  ltb, leb, arith, Bool-cases, eq_cases, lt_cases,
}
use min_os.Acpi.{wait_while, timer_range, ticks_of, end_of, wait_end, wait_milliseconds}

-- The loop ends at the read `last` at the latest, if that ends it.
wait_while_lem :
    (fuel : ℕ) (test : ℕ → Bool) (reads : ℕ → ℕ) (k last : ℕ)
    → k ≤ last
    → last < k + fuel
    → test (reads last) ≡ false
    → (k' : ℕ) × (wait_while fuel test reads k ≡ some (k' + 1))
      × (k ≤ k')
      × (k' ≤ last)
      × (test (reads k') ≡ false)
unfolding wait_while
wait_while_lem zero test reads k last lo hi e = absurd (omega arith)
wait_while_lem (suc fuel) test reads k last lo hi e = elim (Bool-cases (test (reads k))) [
  | inr ends ↦ (k, rw ends refl, omega arith, lo, ends)
  | inl again ↦
      let more : k + 1 ≤ last = elim (eq_cases k last) [
        | inl same ↦ absurd (differ (ap (λ (n : ℕ). test (reads n)) same) again e)
        | inr other ↦ omega arith
      ] in
      let (k', eq, from, to, at_end) =
        wait_while_lem fuel test reads (k + 1) last more (omega arith) e in
      (k', rw again eq, omega arith, to, at_end)
]
  where
    differ : {a b : Bool} → a ≡ b → a ≡ true → b ≡ false → ⊥
    differ p q r = cc

-- A timer that stands at `start` at the first read and has moved by `ticks k` at the read `k`.
pub record IsTimer (range : ℕ) (reads ticks : ℕ → ℕ) : Type 0 where
  pub starts : ticks 0 ≡ 0
  pub moves : (k l : ℕ) → k ≤ l → ticks k ≤ ticks l
  pub in_range : reads 0 < range
  pub shows : (k : ℕ) → reads k ≡ (reads 0 + ticks k) % range

low : (b : Bool) (x : ℕ) → x < timer_range b → x % timer_range b ≡ x
low true x h = omega arith
low false x h = omega arith

high :
    (b : Bool) (x : ℕ)
    → timer_range b ≤ x
    → x < 2 * timer_range b
    → x % timer_range b ≡ x - timer_range b
high true x h k = omega arith
high false x h k = omega arith

end_of-low :
    (b : Bool) (start msec : ℕ)
    → start + ticks_of msec < timer_range b
    → end_of b start msec ≡ start + ticks_of msec
end_of-low true start msec h = omega arith
end_of-low false start msec h = omega arith

end_of-high :
    (b : Bool) (start msec : ℕ)
    → start < timer_range b
    → ticks_of msec < timer_range b
    → timer_range b ≤ start + ticks_of msec
    → end_of b start msec ≡ start + ticks_of msec - timer_range b
end_of-high true start msec h k l = omega arith
end_of-high false start msec h k l = omega arith

module _ (fuel : ℕ) (b : Bool) (reads ticks : ℕ → ℕ) (msec last : ℕ)
    (t : IsTimer (timer_range b) reads ticks) (short : ticks_of msec < timer_range b)
    (pos : 0 < last) (enough : last < fuel) (over : ticks_of msec ≤ ticks last) where
  -- The end is before the timer goes round.
  waits-low :
      reads 0 + ticks_of msec < timer_range b
      → reads 0 + ticks last < timer_range b
      → (k : ℕ) × (wait_milliseconds fuel b reads msec ≡ some (k + 1))
        × (k ≤ last + 1)
        × (ticks_of msec ≤ ticks k)
  unfolding wait_milliseconds
  waits-low inside stays =
      let end = end_of b (reads 0) msec in
      let ends = end_of-low b (reads 0) msec inside in
      let first : ltb end (reads 0) ≡ false = ground (arith, ends) in
      let shown : reads last ≡ reads 0 + ticks last = t.shows last ∙ low b _ stays in
      let (k, eq, from, to, at_end) =
        wait_while_lem fuel (λ r. ltb r end) reads 1 last pos (omega arith)
          (ground (arith, ends, shown)) in
      (
        k,
        rw first eq,
        omega arith,
        elim (lt_cases (ticks k) (ticks_of msec)) [
          | inr done ↦ done
          | inl early ↦
              let seen : reads k ≡ reads 0 + ticks k = t.shows k ∙ low b _ (omega arith) in
              absurd (ground (arith, ends, seen, at_end))
        ],
      )

  -- The end is after the timer has gone round.
  waits-high :
      timer_range b ≤ reads 0 + ticks_of msec
      → ticks (last + 1) < timer_range b
      → (k : ℕ) × (wait_milliseconds fuel b reads msec ≡ some (k + 1))
        × (k ≤ last + 1)
        × (ticks_of msec ≤ ticks k)
  unfolding wait_milliseconds
  waits-high outside goes =
      let end = end_of b (reads 0) msec in
      let s = t.in_range in
      let ends = end_of-high b (reads 0) msec s short outside in
      let first : ltb end (reads 0) ≡ true = ground (arith, ends) in
      let up = t.moves last (last + 1) (omega arith) in
      let shown : reads last ≡ reads 0 + ticks last - timer_range b =
        t.shows last ∙ high b _ (omega arith) (omega (arith, up)) in
      let (k1, eq1, from1, to1, at_end1) =
        wait_while_lem fuel (λ r. leb (reads 0) r) reads 1 last pos (omega arith)
          (ground (arith, shown, up, goes)) in
      let round : timer_range b ≤ reads 0 + ticks k1 =
        elim (lt_cases (reads 0 + ticks k1) (timer_range b)) [
          | inr done ↦ done
          | inl early ↦
              let seen : reads k1 ≡ reads 0 + ticks k1 = t.shows k1 ∙ low b _ early in
              absurd (ground (arith, seen, at_end1))
        ] in
      let shown' : reads (last + 1) ≡ reads 0 + ticks (last + 1) - timer_range b =
        t.shows (last + 1) ∙ high b _ (omega (arith, up)) (omega (arith, goes)) in
      let (k2, eq2, from2, to2, at_end2) =
        wait_while_lem fuel (λ r. ltb r end) reads (k1 + 1) (last + 1) (omega arith) (omega arith)
          (ground (arith, ends, shown', up)) in
      let later = t.moves k1 k2 (omega arith) in
      (
        k2,
        rw first (ap (wait_end fuel reads end) eq1 ∙ eq2),
        to2,
        elim (lt_cases (ticks k2) (ticks_of msec)) [
          | inr done ↦ done
          | inl early ↦
              let seen : reads k2 ≡ reads 0 + ticks k2 - timer_range b =
                t.shows k2 ∙ high b _ (omega arith) (omega arith) in
              absurd (ground (arith, ends, seen, at_end2))
        ],
      )

-- WaitMilliseconds for a time shorter than the timer takes to go round. When the time is over at the
-- read `last`, and the timer has not gone past its end since then, where the time ends before that,
-- or has not gone round since the start up to the next read, where it ends after that, the call
-- returns with the next read at the latest. When it returns, the time is over.
pub wait_milliseconds-waits :
    (fuel : ℕ) (pm_timer_32 : Bool) (reads ticks : ℕ → ℕ) (msec last : ℕ)
    → IsTimer (timer_range pm_timer_32) reads ticks
    → ticks_of msec < timer_range pm_timer_32
    → 0 < last
    → last < fuel
    → ticks_of msec ≤ ticks last
    → (reads 0 + ticks_of msec < timer_range pm_timer_32
        → reads 0 + ticks last < timer_range pm_timer_32)
    → (timer_range pm_timer_32 ≤ reads 0 + ticks_of msec
        → ticks (last + 1) < timer_range pm_timer_32)
    → (k : ℕ) × (wait_milliseconds fuel pm_timer_32 reads msec ≡ some (k + 1))
      × (k ≤ last + 1)
      × (ticks_of msec ≤ ticks k)
wait_milliseconds-waits fuel b reads ticks msec last t short pos enough over stays goes =
    elim (lt_cases (reads 0 + ticks_of msec) (timer_range b)) [
      | inl inside ↦
          waits-low fuel b reads ticks msec last t short pos enough over inside (stays inside)
      | inr outside ↦
          waits-high fuel b reads ticks msec last t short pos enough over outside (goes outside)
    ]
