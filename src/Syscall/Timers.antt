-- ===== src/Syscall/Timers.antt =====
-- CreateTimer of kernel/syscall.cpp over the timers of Timer, and the event that comes of it.
use min_os.Common.{
  ℕ, ◌+◌, ◌-◌, ◌*◌, ◌/◌, ◌%◌, ◌^◌, ◌<◌, ◌≡◌, ◌≢◌, refl, true, false, ◌||◌, some, ◌==◌, add64,
  if◌then◌else◌, leb, arith,
}
use min_os.Message.{timer_timeout}
use min_os.Timer.{Timer, TimerManager, add_timer, task_timer_value}
use min_os.Syscall.{Errno, Result, returns, refuses, is_negative}
use min_os.Syscall.Events.{timed_out, event_of}

-- kTimerFreq.
abbrev pub timer_freq : ℕ
timer_freq = 1000

-- The time at which the timer is due, in ticks: from the start of the system, or from now if bit 0 of
-- the mode is set.
abbrev pub due_at : (mode msecs tick : ℕ) → ℕ
due_at mode msecs tick =
    let ticks = msecs * timer_freq % 2 ^ 64 / 1000 in
    if mode % 2 == 1 then add64 ticks tick else ticks

-- CreateTimer by the task `task_id`.
unfoldable pub create_timer :
    (tm : TimerManager) (task_id arg1 arg2 arg3 : ℕ) → TimerManager × Result
create_timer tm task_id arg1 arg2 arg3 =
    let timer_value = arg2 % 2 ^ 32 in
    if (timer_value == 0) || is_negative arg2
    then (tm, refuses Errno.einval)
    else let timeout = due_at arg1 arg3 tm.tick in
      (
        add_timer tm
            (record { timeout = timeout; value = 2 ^ 32 - timer_value; task_id = task_id }),
        returns (timeout * 1000 % 2 ^ 64 / timer_freq),
      )

-- CreateTimer with a value that is an int above 0, at a time that fits in 64 bits by a factor of
-- 1000, adds a timer for the task that is due at that time, counted from now if bit 0 of the mode is
-- set, and returns the time. The scheduler does not take the timer for its own, and its message, as
-- Tick sends it, is for ReadEvent the event of a timer with that value and that time.
pub create_timer-timed_out :
    (tm : TimerManager) (task_id mode value msecs : ℕ)
    → 0 < value
    → value < 2 ^ 31
    → (msecs + tm.tick) * 1000 < 2 ^ 64
    → let timeout = if mode % 2 == 1 then msecs + tm.tick else msecs in
      let t : Timer = record { timeout = timeout; value = 2 ^ 32 - value; task_id = task_id } in
      (create_timer tm task_id mode value msecs ≡ (add_timer tm t, returns timeout))
      × (t.value ≢ task_timer_value)
      × (event_of (timer_timeout t.timeout t.value) ≡ some (timed_out timeout value))
unfolding create_timer event_of
create_timer-timed_out tm task_id mode value msecs pos small fits =
    let int : value % 2 ^ 32 ≡ value = omega arith in
    let ticks : msecs * 1000 % 2 ^ 64 / 1000 ≡ msecs = omega arith in
    let sum : add64 msecs tm.tick ≡ msecs + tm.tick = omega arith in
    let nonzero : (value == 0) ≡ false = ground arith in
    let positive : leb (2 ^ 31) value ≡ false = ground arith in
    let timeout = if mode % 2 == 1 then msecs + tm.tick else msecs in
    let msec : timeout * 1000 % 2 ^ 64 / 1000 ≡ timeout = ground arith in
    let negative : leb (2 ^ 31) (2 ^ 32 - value) ≡ true = ground arith in
    let back : (2 ^ 32 - (2 ^ 32 - value)) % 2 ^ 32 ≡ value = omega arith in
    (rw (int, nonzero, positive, ticks, sum, msec) refl, omega arith, rw (negative, back) refl)
