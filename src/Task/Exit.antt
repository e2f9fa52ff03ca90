-- ===== src/Task/Exit.antt =====
-- Messages, Finish and WaitFinish of kernel/task.cpp.
use min_os.Common.{
  ◌∙◌, inl, inr, ◌||◌, ℕ, ◌≤◌, ◌≡◌, ◌≢◌, refl, Bool, true, none, some, List, [], ◌∷◌, ◌++◌, count,
  arith, Bool-cases,
}
use min_os.Error.{success}
use min_os.Message.{Message}
use min_os.Task.{
  rotated, Task, TaskManager, max_level, put, is_empty, idle_id, set_task, enqueue,
  change_level_running, wakeup_task, send_message, rotate_from, record_exit, finish, wakeup,
  finished, wait_finish,
}
use min_os.Task.Invariant.{IsValid, IsTaken, rotate_from-IsValid}
use min_os.Task.Running.{rotate-front, wakeup_task-running, wakeup_task-asleep, wakeup_task-IsValid}

-- The state of the receiver after the message is in its queue.
abbrev pub told : Task → Message → Task
told task msg = record task { msgs = task.msgs ++ (msg ∷ []) }

told-IsValid :
    (m : TaskManager) (t : ℕ) (task : Task) (msg : Message)
    → IsValid m
    → m.tasks t ≡ some task
    → IsValid (set_task m t (told task msg))
unfolding set_task
told-IsValid m t task msg v e = record {
  placed = λ id lv. ground (arith, v.placed id lv);
  fresh = λ id h. ground (arith, v.fresh id h);
  in_range = v.in_range;
  occupied = v.occupied;
  idle = v.idle;
  highest = v.highest;
}

-- A task that is woken at its own level runs, and nothing else of it changes.
tasks-wakeup_task :
    (m : TaskManager) (t : ℕ) (task : Task)
    → m.tasks t ≡ some task
    → (wakeup_task m t task none).tasks t ≡ some (record task { running = true })
unfolding change_level_running enqueue
tasks-wakeup_task m t task e = elim (Bool-cases task.running) [
  | inl on ↦ rw (wakeup_task-running m t task none on) (ground (arith, e, on))
  | inr off ↦ rw (wakeup_task-asleep m t task none off) (ground arith)
]

pub send_message-found :
    (m : TaskManager) (t : ℕ) (task : Task) (msg : Message)
    → m.tasks t ≡ some task
    → send_message m t msg
      ≡ (wakeup_task (set_task m t (told task msg)) t (told task msg) none, success)
unfolding send_message
send_message-found m t task msg e = rw (e, send_message)

tasks-set_task : (m : TaskManager) (t : ℕ) (task : Task) → (set_task m t task).tasks t ≡ some task
unfolding set_task
tasks-set_task m t task = ground arith

-- SendMessage to a task that exists, of a valid scheduler and with a level in range: the call
-- succeeds, the message stands at the end of the task's queue, the task runs and waits once in
-- the queue of its own level, and the scheduler is valid.
pub send_message-delivers :
    (m : TaskManager) (t : ℕ) (task : Task) (msg : Message)
    → IsValid m
    → m.tasks t ≡ some task
    → task.level ≤ max_level
    → let (m', code) = send_message m t msg in
      (code ≡ success)
      × IsValid m'
      × (m'.tasks t ≡ some (record task { msgs = task.msgs ++ (msg ∷ []); running = true }))
      × (count t (m'.running task.level) ≡ 1)
send_message-delivers m t task msg v e h =
    let k = set_task m t (told task msg) in
    let w =
      wakeup_task-IsValid k t (told task msg) none (told-IsValid m t task msg v e)
        (tasks-set_task m t (told task msg)) h tt in
    let at = tasks-wakeup_task k t (told task msg) (tasks-set_task m t (told task msg)) in
    rw (send_message-found m t task msg e) (refl, w, at, ground (arith, w.placed t task.level, at))

-- The state after Finish of `t` before its waiter is looked for.
abbrev gone : TaskManager → ℕ → List ℕ → ℕ → TaskManager
gone m t rest exit_code = record (rotate_from m true t rest) {
  tasks = put t none m.tasks;
  finish_tasks = put t (some exit_code) m.finish_tasks;
}

abbrev removed : TaskManager → ℕ → ℕ → TaskManager
removed m t exit_code = record m {
  tasks = put t none m.tasks;
  finish_tasks = put t (some exit_code) m.finish_tasks;
}

gone-eq :
    (m : TaskManager) (t : ℕ) (rest : List ℕ) (exit_code : ℕ)
    → gone m t rest exit_code ≡ rotate_from (removed m t exit_code) true t rest
unfolding rotate_from
gone-eq m t rest exit_code =
    elim (Bool-cases (m.level_changed || is_empty (rotated m true t rest m.current_level))) [
      | inl e ↦ rw e
      | inr e ↦ rw e
    ]

finish-front :
    (m : TaskManager) (t : ℕ) (rest : List ℕ) (exit_code : ℕ)
    → m.running m.current_level ≡ t ∷ rest
    → finish m exit_code ≡ record_exit (rotate_from m true t rest) t exit_code
unfolding finish
finish-front m t rest exit_code e = rw (rotate-front m true t rest e, finish)

removed-IsTaken :
    (m : TaskManager) (t : ℕ) (rest : List ℕ) (exit_code : ℕ)
    → IsValid m
    → m.running m.current_level ≡ t ∷ rest
    → t ≢ idle_id
    → IsTaken (removed m t exit_code) t rest true
removed-IsTaken m t rest exit_code v f awake = record {
  front = f;
  placed = λ id lv. ground (arith, v.placed id lv, v.placed t m.current_level, f);
  fresh = λ id h. ground (arith, v.fresh id h);
  in_range = v.in_range;
  idle = v.idle;
  keeps_idle = λ c. awake;
  highest = v.highest;
}

pub rotate_from-keeps :
    (m : TaskManager) (sleeps : Bool) (t : ℕ) (rest : List ℕ)
    → ((rotate_from m sleeps t rest).tasks ≡ m.tasks)
      × ((rotate_from m sleeps t rest).finish_tasks ≡ m.finish_tasks)
      × ((rotate_from m sleeps t rest).finish_waiter ≡ m.finish_waiter)
unfolding rotate_from
rotate_from-keeps m sleeps t rest =
    elim (Bool-cases (m.level_changed || is_empty (rotated m sleeps t rest m.current_level))) [
      | inl e ↦ rw e (refl, refl, refl)
      | inr e ↦ rw e (refl, refl, refl)
    ]

-- Finish of the current task, where `w` waits for it.
record_exit-waited :
    (m : TaskManager) (t w : ℕ) (wt : Task) (rest : List ℕ) (exit_code : ℕ)
    → m.finish_waiter t ≡ some w
    → m.tasks w ≡ some wt
    → w ≢ t
    → record_exit (rotate_from m true t rest) t exit_code
      ≡ some (
          wakeup_task
            (record (gone m t rest exit_code) { finish_waiter = put t none m.finish_waiter })
            w
            wt
            none)
unfolding record_exit wakeup
record_exit-waited m t w wt rest exit_code e f ne =
    let k = rotate_from-keeps m true t rest in ground (arith, k, e, f, ne)

pub wakeup_task-keeps :
    (m : TaskManager) (w t : ℕ) (task : Task)
    → w ≢ t
    → let m' = wakeup_task m w task none in
      (m'.tasks t ≡ m.tasks t)
      × (m'.finish_tasks t ≡ m.finish_tasks t)
      × (m'.finish_waiter t ≡ m.finish_waiter t)
unfolding change_level_running enqueue
wakeup_task-keeps m w t task ne = elim (Bool-cases task.running) [
  | inl on ↦ rw (wakeup_task-running m w task none on) (refl, refl, refl)
  | inr off ↦ rw (wakeup_task-asleep m w task none off) (ground arith, refl, refl)
]

wait_finish-finished :
    (m : TaskManager) (t exit_code : ℕ)
    → m.finish_tasks t ≡ some exit_code
    → wait_finish m t
      ≡ some (finished exit_code (record m { finish_tasks = put t none m.finish_tasks }))
unfolding wait_finish
wait_finish-finished m t exit_code e = ground (arith, e)

-- The state after Finish, its waiter forgotten.
abbrev unwaited : TaskManager → ℕ → List ℕ → ℕ → TaskManager
unwaited m t rest exit_code = record (gone m t rest exit_code) {
  finish_waiter = put t none m.finish_waiter;
}

unwaited-IsValid :
    (m : TaskManager) (t : ℕ) (rest : List ℕ) (exit_code : ℕ)
    → IsValid m
    → m.running m.current_level ≡ t ∷ rest
    → t ≢ idle_id
    → IsValid (unwaited m t rest exit_code)
unwaited-IsValid m t rest exit_code v f awake = record {
  placed = g.placed;
  fresh = g.fresh;
  in_range = g.in_range;
  occupied = g.occupied;
  idle = g.idle;
  highest = g.highest;
}
  where
    g : IsValid (gone m t rest exit_code)
    g = rw (gone-eq m t rest exit_code) (
        rotate_from-IsValid (removed m t exit_code) true t rest
          (removed-IsTaken m t rest exit_code v f awake))

-- Finish of the current task of a valid scheduler, which is not the idle task, while another task
-- `w` that exists, with a level in range, waits for it: the task is gone, the waiter runs and is
-- recorded as a waiter no more, the next round of WaitFinish for the task returns its exit code,
-- and the scheduler is valid.
pub finish-wakes_waiter :
    (m : TaskManager) (t w : ℕ) (wt : Task) (rest : List ℕ) (exit_code : ℕ)
    → IsValid m
    → m.running m.current_level ≡ t ∷ rest
    → t ≢ idle_id
    → m.finish_waiter t ≡ some w
    → m.tasks w ≡ some wt
    → w ≢ t
    → wt.level ≤ max_level
    → (m' : TaskManager) × (finish m exit_code ≡ some m')
      × IsValid m'
      × (m'.tasks t ≡ none)
      × (count w (m'.running wt.level) ≡ 1)
      × (m'.finish_waiter t ≡ none)
      × (m'' : TaskManager) × (wait_finish m' t ≡ some (finished exit_code m''))
finish-wakes_waiter m t w wt rest exit_code v f awake e g ne h =
    let k : TaskManager = unwaited m t rest exit_code in
    let kv : IsValid k = unwaited-IsValid m t rest exit_code v f awake in
    let kw : k.tasks w ≡ some wt = ground (arith, g, ne) in
    let w' = wakeup_task-IsValid k w wt none kv kw h tt in
    let at = tasks-wakeup_task k w wt kw in
    let same = wakeup_task-keeps k w t wt ne in
    (
      wakeup_task k w wt none,
      finish-front m t rest exit_code f ∙ record_exit-waited m t w wt rest exit_code e g ne,
      w',
      ground (arith, same.0),
      ground (arith, w'.placed w wt.level, at),
      ground (arith, same.2),
      _,
      wait_finish-finished _ t exit_code (ground (arith, same.1)),
    )
