-- ===== src/Task/Tests.antt =====
-- Runs of the scheduler at a small state, and the theorems at that state.
use min_os.Common.{ℕ, ◌≤◌, ◌<◌, ◌≡◌, inr, refl, true, false, none, some, [], ◌∷◌, count, arith}
use min_os.Error.{success}
use min_os.Message.{layer_finish}
use min_os.Task.{
  Task, TaskManager, max_level, put, wakeup_task, send_message, finish, wait_finish, finished,
  sleep, switch_task,
}
use min_os.Task.Invariant.{IsValid}
use min_os.Task.Running.{sleep-IsValid, wakeup_task-IsValid}
use min_os.Task.Stale.{wakeup-moves_queue_only, sleep_after_wakeup}
use min_os.Task.Turns.{switch_task-highest, turns, turns-round_robin}
use min_os.Task.Exit.{send_message-delivers, finish-wakes_waiter}

abbrev worker : Task
worker = record { msgs = []; level = 1; running = true }

abbrev idler : Task
idler = record { msgs = []; level = 0; running = true }

abbrev waiting : Task
waiting = record { msgs = []; level = 3; running = false }

-- Tasks 3 and 4 work at level 1, and the main task sleeps until task 3 finishes.
abbrev busy : TaskManager
busy = record {
  tasks =
      put 1 (some waiting)
        (put 2 (some idler) (put 3 (some worker) (put 4 (some worker) (λ i. none))));
  latest_id = 4;
  running = put 1 (3 ∷ 4 ∷ []) (put 0 (2 ∷ []) (λ lv. []));
  current_level = 1;
  level_changed = false;
  finish_tasks = λ i. none;
  finish_waiter = put 3 (some 1) (λ i. none);
}

busy-IsValid : IsValid busy
busy-IsValid = record {
  placed = λ id lv. ground arith;
  fresh = λ id h. ground arith;
  in_range = omega arith;
  occupied = refl;
  idle = omega arith;
  highest = λ c lv lo hi. ground arith;
}

switch_task-highest_example :
    (m' : TaskManager) × (switch_task busy ≡ some m')
    × IsValid m'
    × ((lv : ℕ) → m'.current_level < lv → lv ≤ max_level → m'.running lv ≡ [])
switch_task-highest_example = switch_task-highest busy busy-IsValid

turns-round_robin_example :
    (m' : TaskManager) × (turns 1 busy ≡ some m')
    × (m'.current_level ≡ 1)
    × (m'.running 1 ≡ 4 ∷ 3 ∷ [])
turns-round_robin_example = turns-round_robin (3 ∷ []) 4 [] busy refl refl

sleep-IsValid_example :
    (m' : TaskManager) × (sleep busy 4 ≡ some m')
    × IsValid m'
    × ((lv : ℕ) → count 4 (m'.running lv) ≡ 0)
sleep-IsValid_example = sleep-IsValid busy 4 worker busy-IsValid refl refl (omega arith)

wakeup_task-IsValid_example : IsValid (wakeup_task busy 3 worker (some 2))
wakeup_task-IsValid_example =
    wakeup_task-IsValid busy 3 worker (some 2) busy-IsValid refl (omega arith)
      (omega arith, inr (inr (refl, omega arith)))

send_message-delivers_example :
    let (m', code) = send_message busy 1 layer_finish in
    (code ≡ success)
    × IsValid m'
    × (m'.tasks 1 ≡ some (record { msgs = layer_finish ∷ []; level = 3; running = true }))
    × (count 1 (m'.running 3) ≡ 1)
send_message-delivers_example =
    send_message-delivers busy 1 waiting layer_finish busy-IsValid refl (omega arith)

finish-wakes_waiter_example :
    (m' : TaskManager) × (finish busy 7 ≡ some m')
    × IsValid m'
    × (m'.tasks 3 ≡ none)
    × (count 1 (m'.running 3) ≡ 1)
    × (m'.finish_waiter 3 ≡ none)
    × (m'' : TaskManager) × (wait_finish m' 3 ≡ some (finished 7 m''))
finish-wakes_waiter_example =
    finish-wakes_waiter busy 3 1 waiting (4 ∷ []) 7 busy-IsValid refl (omega arith) refl refl
      (omega arith) (omega arith)

other_wakeup :
    let m' = wakeup_task busy 4 worker (some 2) in
    (count 4 (m'.running 2) ≡ 1) × (m'.tasks 4 ≡ some worker) × ¬ IsValid m'
other_wakeup =
    wakeup-moves_queue_only busy 4 worker 2 3 (4 ∷ []) busy-IsValid refl refl (omega arith) refl
      (omega arith)

sleep_after_wakeup_example :
    (m' : TaskManager) × (sleep (wakeup_task busy 4 worker (some 2)) 4 ≡ some m')
    × (m'.tasks 4 ≡ some (record { msgs = []; level = 1; running = false }))
    × (count 4 (m'.running 2) ≡ 1)
sleep_after_wakeup_example =
    sleep_after_wakeup busy 4 worker 2 3 (4 ∷ []) busy-IsValid refl refl (omega arith) refl
      (omega arith)
