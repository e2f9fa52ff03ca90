-- ===== src/Timer.antt =====
-- kernel/timer.cpp and timer.hpp: the queue of timers, the tick, and the timer interrupt.
-- std::priority_queue is the list of its timers, the earliest in front; among timers with one
-- timeout, whose order the C++ standard leaves open, the one that was pushed first is in front.
-- The registers of the local APIC (InitializeLAPICTimer and its kin) are not modelled. An int is
-- its 32-bit two's complement pattern.
pub mod Queue
pub mod Expiry
pub mod Interrupt
mod Tests
use min_os.Common.{
  ℕ, zero, suc, ◌-◌, ◌^◌, Bool, true, false, Option, none, some, List, [], ◌∷◌, ltb, ◌==◌, add64,
  if◌then◌else◌,
}
use min_os.Message.{timer_timeout}
use min_os.Task.{TaskManager, send_message, switch_task, main_id}

pub record Timer : Type 0 where
  pub timeout : ℕ
  pub value : ℕ
  pub task_id : ℕ

-- kTaskTimerPeriod: 20 ms at kTimerFreq = 1000.
abbrev pub task_timer_period : ℕ
task_timer_period = 20

-- kTaskTimerValue: the greatest int.
abbrev pub task_timer_value : ℕ
task_timer_value = 0x7fffffff

pub record TimerManager : Type 0 where
  pub tick : ℕ
  pub timers : List Timer

-- timers_.push, in the order of operator<.
unfoldable pub push : Timer → List Timer → List Timer
push t [] = t ∷ []
push t (x ∷ xs) = if ltb t.timeout x.timeout then t ∷ x ∷ xs else x ∷ push t xs

-- The constructor's sentinel, which no tick reaches.
abbrev pub sentinel : Timer
sentinel = record { timeout = 2 ^ 64 - 1; value = 0; task_id = 0 }

abbrev pub empty_manager : TimerManager
empty_manager = record { tick = 0; timers = sentinel ∷ [] }

unfoldable pub add_timer : TimerManager → Timer → TimerManager
add_timer tm t = record tm { timers = push t tm.timers }

-- The task timer, set again.
abbrev pub rearmed : ℕ → Timer
rearmed now = record {
  timeout = add64 now task_timer_period;
  value = task_timer_value;
  task_id = main_id;
}

-- SendMessage of a timer that is due; Tick ignores the error.
unfoldable pub notify : TaskManager → Timer → TaskManager
notify m t = (send_message m t.task_id (timer_timeout t.timeout t.value)).0

-- The loop of Tick. `none` is the top of an empty queue, or the end of the fuel.
pub expire : ℕ → ℕ → List Timer → TaskManager → Bool → Option (List Timer × TaskManager × Bool)
expire zero now ts m out = none
expire (suc n) now [] m out = none
expire (suc n) now (t ∷ ts) m out = elim (ltb now t.timeout) [
  | true ↦ some (t ∷ ts, m, out)
  | false ↦ elim (t.value == task_timer_value) [
    | true ↦ expire n now (push (rearmed now) ts) m true
    | false ↦ expire n now ts (notify m t) out
  ]
]

-- Tick, with `n` rounds of its loop at most.
pub tick : ℕ → TimerManager → TaskManager → Option (TimerManager × TaskManager × Bool)
tick n tm m = elim (expire n (add64 tm.tick 1) tm.timers m false) [
  | none ↦ none
  | some (ts, m', out) ↦ some (record { tick = add64 tm.tick 1; timers = ts }, m', out)
]

-- LAPICTimerOnInterrupt.
pub on_interrupt : ℕ → TimerManager → TaskManager → Option (TimerManager × TaskManager)
on_interrupt n tm m = elim (tick n tm m) [
  | none ↦ none
  | some (tm', m', out) ↦
      if out
      then elim (switch_task m') [ none ↦ none | some m'' ↦ some (tm', m'') ]
      else some (tm', m')
]
