-- ===== src/Timer/Tests.antt =====
-- Runs of the timers over a small scheduler.
use min_os.Common.{ℕ, ◌≤◌, ◌<◌, ◌≡◌, refl, some, [], All, ltb, arith}
use min_os.Task.{TaskManager, initial_manager, max_level}
use min_os.Task.Invariant.{IsValid, initial_manager-IsValid}
use min_os.Task.Levels.{IsLevelled, initial_manager-IsLevelled}
use min_os.Timer.{TimerManager, empty_manager, push, add_timer, tick, on_interrupt}
use min_os.Timer.Queue.{IsReady, pending}
use min_os.Timer.Expiry.{rearm, turns_due, notify_due, tick-expires}
use min_os.Timer.Interrupt.{on_interrupt-IsValid}

-- A timer of the main task and the task timer, both due at the tick 5.
abbrev two_due : TimerManager
unfolding add_timer push
two_due =
    record (add_timer (add_timer empty_manager (record { timeout = 5; value = 9; task_id = 1 }))
      (record { timeout = 4; value = 0x7fffffff; task_id = 1 })) { tick = 4 }

two_due-IsReady : IsReady two_due.timers
unfolding two_due pending push add_timer
two_due-IsReady = record {
  sorted = ((omega arith, (omega arith, tt)), ((omega arith, tt), (tt, tt)));
  ended = omega arith;
}

-- The task timer is set for the tick 25, and the main task has a message.
tick-two_due : turns_due 5 two_due.timers ≡ 1
unfolding two_due turns_due push add_timer
tick-two_due = refl

tick-expires_example :
    (tick 4 two_due initial_manager
      ≡ some (
        record {
          tick = 5;
          timers = rearm (turns_due 5 two_due.timers) 5 (pending 5 two_due.timers);
        },
        notify_due 5 two_due.timers initial_manager,
        ltb 0 (turns_due 5 two_due.timers),
      ))
    × All (λ t. 5 < t.timeout) (rearm (turns_due 5 two_due.timers) 5 (pending 5 two_due.timers))
    × IsReady (rearm (turns_due 5 two_due.timers) 5 (pending 5 two_due.timers))
unfolding two_due
tick-expires_example =
    tick-expires 4 two_due initial_manager two_due-IsReady (omega arith) (omega arith)

on_interrupt-IsValid_example :
    (tm' : TimerManager) × (m' : TaskManager) × (on_interrupt 4 two_due initial_manager
      ≡ some (tm', m'))
    × (tm'.tick ≡ 5)
    × IsReady tm'.timers
    × IsValid m'
    × IsLevelled m'
    × (0 < turns_due 5 two_due.timers
        → (lv : ℕ) → m'.current_level < lv
        → lv ≤ max_level
        → m'.running lv ≡ [])
unfolding two_due
on_interrupt-IsValid_example =
    on_interrupt-IsValid 4 two_due initial_manager two_due-IsReady (omega arith) (omega arith)
      initial_manager-IsValid initial_manager-IsLevelled
