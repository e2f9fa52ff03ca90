-- ===== src/Acpi.antt =====
-- WaitMilliseconds of kernel/acpi.cpp over the values that are read from the power management timer,
-- in their order.
pub mod Waiting
mod Tests
use min_os.Common.{
  ℕ, zero, suc, ◌+◌, ◌*◌, ◌/◌, ◌%◌, ◌^◌, Bool, true, false, Option, none, some, ltb, leb,
  if◌then◌else◌,
}

-- kPMTimerFreq.
abbrev pub pm_timer_freq : ℕ
pm_timer_freq = 3579545

-- while (test(IoIn32(...))), from the read `k` on: the number of reads up to the end of the loop.
-- `none` means that the fuel ran out.
unfoldable pub wait_while : (fuel : ℕ) → (test : ℕ → Bool) → (reads : ℕ → ℕ) → (k : ℕ) → Option ℕ
wait_while zero test reads k = none
wait_while (suc fuel) test reads k =
    let rest = wait_while fuel test reads (k + 1) in if test (reads k) then rest else some (k + 1)

-- The timer counts modulo this.
abbrev pub timer_range : (pm_timer_32 : Bool) → ℕ
timer_range true = 2 ^ 32
timer_range false = 2 ^ 24

-- The ticks of the milliseconds.
abbrev pub ticks_of : (msec : ℕ) → ℕ
ticks_of msec = pm_timer_freq * msec % 2 ^ 64 / 1000

abbrev pub end_of : (pm_timer_32 : Bool) (start msec : ℕ) → ℕ
end_of pm_timer_32 start msec = (start + ticks_of msec) % 2 ^ 32 % timer_range pm_timer_32

-- The second loop, after the reads of the first.
abbrev pub wait_end : (fuel : ℕ) → (reads : ℕ → ℕ) → (end : ℕ) → Option ℕ → Option ℕ
wait_end fuel reads end none = none
wait_end fuel reads end (some k) = wait_while fuel (λ r. ltb r end) reads k

-- WaitMilliseconds: the number of reads.
unfoldable pub wait_milliseconds :
    (fuel : ℕ) → (pm_timer_32 : Bool) → (reads : ℕ → ℕ) → (msec : ℕ) → Option ℕ
unfolding wait_while
wait_milliseconds fuel pm_timer_32 reads msec =
    let start = reads 0 in
    let end = end_of pm_timer_32 start msec in
    wait_end fuel reads end
      (if ltb end start then wait_while fuel (λ r. leb start r) reads 1 else some 1)
