-- ===== src/Timer/Interrupt.antt =====
-- LAPICTimerOnInterrupt of kernel/timer.cpp, and the scheduler below it.
use min_os.Common.{
  ℕ, ◌+◌, ◌≤◌, ◌<◌, ◌^◌, ◌≡◌, refl, ◌∙◌, inl, inr, true, false, some, List, [], ◌∷◌, ltb, ◌==◌,
  length, arith, Bool-cases, lt→ltb,
}
use min_os.Message.{timer_timeout}
use min_os.Task.{TaskManager, max_level, switch_task}
use min_os.Task.Invariant.{IsValid}
use min_os.Task.Levels.{IsLevelled, send_message-IsValid, switch_task-tasks}
use min_os.Task.Turns.{switch_task-highest}
use min_os.Timer.{Timer, TimerManager, task_timer_value, tick, on_interrupt}
use min_os.Timer.Queue.{IsReady, pending}
use min_os.Timer.Expiry.{notify_due, turns_due, rearm, tick-expires}

notify_due-IsValid :
    (now : ℕ) (ts : List Timer) (m : TaskManager)
    → IsValid m
    → IsLevelled m
    → IsValid (notify_due now ts m) × IsLevelled (notify_due now ts m)
unfolding notify_due
notify_due-IsValid now [] m v l = (v, l)
notify_due-IsValid now (t ∷ ts) m v l = elim (Bool-cases (ltb now t.timeout)) [
  | inl late ↦ rw late (notify_due-IsValid now ts m v l)
  | inr due ↦ elim (Bool-cases (t.value == task_timer_value)) [
    | inl task ↦ rw (due, task) (notify_due-IsValid now ts m v l)
    | inr other ↦
        let sent = send_message-IsValid m t.task_id (timer_timeout t.timeout t.value) v l in
        rw (due, other) (notify_due-IsValid now ts _ sent.0 sent.1)
  ]
]

on_interrupt-stays :
    (n : ℕ) (tm tm' : TimerManager) (m m' : TaskManager)
    → tick n tm m ≡ some (tm', m', false)
    → on_interrupt n tm m ≡ some (tm', m')
unfolding on_interrupt
on_interrupt-stays n tm tm' m m' e = rw (on_interrupt, e) refl

on_interrupt-turns :
    (n : ℕ) (tm tm' : TimerManager) (m m' m'' : TaskManager)
    → tick n tm m ≡ some (tm', m', true)
    → switch_task m' ≡ some m''
    → on_interrupt n tm m ≡ some (tm', m'')
unfolding on_interrupt
on_interrupt-turns n tm tm' m m' m'' e f = rw (on_interrupt, e, f) refl

-- The timer interrupt, given more rounds than there are timers, ends, when the scheduler is
-- valid, every task's level is in range, the timer queue is ready and the clock is not about to
-- wrap around. The tick is one more, the same conditions hold of the scheduler and of the queue
-- that it leaves, and if a task timer was due, no task waits at a level above that of the task
-- that now runs.
pub on_interrupt-IsValid :
    (n : ℕ) (tm : TimerManager) (m : TaskManager)
    → IsReady tm.timers
    → tm.tick + 1 + 20 < 2 ^ 64
    → length tm.timers < n
    → IsValid m
    → IsLevelled m
    → (tm' : TimerManager) × (m' : TaskManager) × (on_interrupt n tm m ≡ some (tm', m'))
      × (tm'.tick ≡ tm.tick + 1)
      × IsReady tm'.timers
      × IsValid m'
      × IsLevelled m'
      × (0 < turns_due (tm.tick + 1) tm.timers
          → (lv : ℕ) → m'.current_level < lv
          → lv ≤ max_level
          → m'.running lv ≡ [])
on_interrupt-IsValid n tm m r h fuel v l =
    let now = tm.tick + 1 in
    let (run, _, ready) = tick-expires n tm m r h fuel in
    let (v', l') = notify_due-IsValid now tm.timers m v l in
    let left : TimerManager = record {
      tick = now;
      timers = rearm (turns_due now tm.timers) now (pending now tm.timers);
    } in
    let told : TaskManager = notify_due now tm.timers m in
    elim (Bool-cases (ltb 0 (turns_due now tm.timers))) [
      | inl turn ↦
          let (next, e, w, high) = switch_task-highest told v' in
          (
            left,
            next,
            on_interrupt-turns n tm left m told next (run ∙ rw turn refl) e,
            refl,
            ready,
            w,
            (λ id task at. l' id task (rw (← switch_task-tasks told next v' e) at)),
            λ due. high,
          )
      | inr stay ↦ (
        left,
        told,
        on_interrupt-stays n tm left m told (run ∙ rw stay refl),
        refl,
        ready,
        v',
        l',
        λ due. absurd (ground (arith, lt→ltb 0 (turns_due now tm.timers) due)),
      )
    ]
