-- ===== src/Acpi/Tests.antt =====
-- A millisecond over the end of the timer.
use min_os.Common.{ℕ, ◌+◌, ◌-◌, ◌*◌, ◌%◌, ◌^◌, ◌≤◌, ◌≡◌, refl, false, some, arith}
use min_os.Acpi.{timer_range, ticks_of, wait_milliseconds}
use min_os.Acpi.Waiting.{IsTimer, wait_milliseconds-waits}

-- The timer is read every 2000 ticks, and starts 1000 ticks before it goes round.
abbrev reads : ℕ → ℕ
reads k = (2 ^ 24 - 1000 + 2000 * k) % 2 ^ 24

abbrev ticks : ℕ → ℕ
ticks k = 2000 * k

reads-IsTimer : IsTimer (timer_range false) reads ticks
reads-IsTimer = record {
  starts = refl;
  moves = λ k l h. omega arith;
  in_range = omega arith;
  shows = λ k. omega arith;
}

two_reads : wait_milliseconds 10 false reads 1 ≡ some 3
unfolding wait_milliseconds
two_reads = refl

wait_milliseconds-waits_example :
    (k : ℕ) × (wait_milliseconds 10 false reads 1 ≡ some (k + 1))
    × (k ≤ 2 + 1)
    × (ticks_of 1 ≤ ticks k)
wait_milliseconds-waits_example =
    wait_milliseconds-waits 10 false reads ticks 1 2 reads-IsTimer (omega arith) (omega arith)
      (omega arith) (omega arith) (λ h. absurd (omega arith)) (λ h. omega arith)
