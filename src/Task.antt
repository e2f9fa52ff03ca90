-- ===== src/Task.antt =====
-- kernel/task.cpp and task.hpp: tasks, and the scheduler's four run queues.
-- A Task* is the task's id: `++latest_id_` gives each task its own. The vector `tasks_` is the
-- function from an id to its task, and a std::map is the function from a key to its value.
-- What the machine does with a register context (SwitchContext, RestoreContext, memcpy of a
-- TaskContext) is not modelled; a function returns the state in which it leaves the scheduler.
-- A result `none` is behaviour that C++ leaves undefined: the front of an empty deque, or a
-- pointer to a task that has gone.
pub mod Queues
pub mod Invariant
pub mod Running
pub mod Stale
pub mod Turns
pub mod Exit
pub mod Levels
mod Tests
use mathlib.Core.List.{head?}
use min_os.Common.{
  ℕ, zero, suc, ◌+◌, Bool, true, false, ◌&&◌, ◌||◌, not, Option, none, some, List, [], ◌∷◌, ◌++◌,
  ltb, ◌==◌, if◌then◌else◌,
}
pub use min_os.Common.{put}
use min_os.Error.{Code, success, no_such_task}
use min_os.Message.{Message}

-- Task::kDefaultLevel and TaskManager::kMaxLevel.
abbrev pub default_level : ℕ
default_level = 1

abbrev pub max_level : ℕ
max_level = 3

-- The members of Task that the scheduler uses.
pub record Task : Type 0 where
  pub msgs : List Message
  pub level : ℕ
  pub running : Bool

pub record TaskManager : Type 0 where
  pub tasks : ℕ → Option Task
  pub latest_id : ℕ
  pub running : ℕ → List ℕ
  pub current_level : ℕ
  pub level_changed : Bool
  pub finish_tasks : ℕ → Option ℕ
  pub finish_waiter : ℕ → Option ℕ

abbrev pub is_empty : List ℕ → Bool
is_empty [] = true
is_empty (x ∷ xs) = false

-- Whether `t` stands in front; the front of an empty deque is never a task.
abbrev pub is_front : ℕ → List ℕ → Bool
is_front t [] = false
is_front t (x ∷ xs) = x == t

-- Erase(c, value): std::remove, then erase.
pub erase : ℕ → List ℕ → List ℕ
erase t [] = []
erase t (x ∷ xs) = if x == t then erase t xs else x ∷ erase t xs

-- Task::Task.
abbrev pub fresh_task : Task
fresh_task = record { msgs = []; level = default_level; running = false }

-- NewTask: the new task's id is `latest_id` of the result.
pub new_task : TaskManager → TaskManager
new_task m = record m {
  latest_id = m.latest_id + 1;
  tasks = put (m.latest_id + 1) (some fresh_task) m.tasks;
}

abbrev pub main_id : ℕ
main_id = 1

abbrev pub idle_id : ℕ
idle_id = 2

-- The constructor: the main task at the highest level and the idle task at the lowest.
pub initial_manager : TaskManager
initial_manager = record {
  tasks =
      put main_id (some (record { msgs = []; level = max_level; running = true }))
        (put idle_id (some (record { msgs = []; level = 0; running = true })) (λ i. none));
  latest_id = 2;
  running = put max_level (main_id ∷ []) (put 0 (idle_id ∷ []) (λ lv. []));
  current_level = max_level;
  level_changed = false;
  finish_tasks = λ i. none;
  finish_waiter = λ i. none;
}

-- The search of RotateCurrentRunQueue for a level that has a task, from `lv` down.
pub highest_level : (ℕ → List ℕ) → ℕ → ℕ → ℕ
highest_level queues current zero = if is_empty (queues zero) then current else zero
highest_level queues current (suc lv) =
    if is_empty (queues (suc lv)) then highest_level queues current lv else suc lv

-- The queues of RotateCurrentRunQueue after the front `t` of the current queue `t ∷ rest` is taken
-- off, and put back unless it sleeps.
abbrev pub rotated : TaskManager → Bool → ℕ → List ℕ → ℕ → List ℕ
rotated m current_sleep t rest =
    put m.current_level (if current_sleep then rest else rest ++ (t ∷ [])) m.running

-- The rest of RotateCurrentRunQueue.
pub rotate_from : TaskManager → Bool → ℕ → List ℕ → TaskManager
rotate_from m current_sleep t rest =
    let queues = rotated m current_sleep t rest in
    if m.level_changed || is_empty (queues m.current_level)
    then record m {
      running = queues;
      level_changed = false;
      current_level = highest_level queues m.current_level max_level;
    }
    else record m { running = queues }

pub rotate : TaskManager → Bool → Option (ℕ × TaskManager)
rotate m current_sleep = elim (m.running m.current_level) [
  | [] ↦ none
  | t ∷ rest ↦ some (t, rotate_from m current_sleep t rest)
]

-- CurrentTask.
abbrev pub current_task : TaskManager → Option ℕ
current_task m = head? (m.running m.current_level)

-- SwitchTask: the timer interrupt's turn.
pub switch_task : TaskManager → Option TaskManager
switch_task m = elim (rotate m false) [ none ↦ none | some (t, m') ↦ some m' ]

pub set_task : TaskManager → ℕ → Task → TaskManager
set_task m t task = record m { tasks = put t (some task) m.tasks }

-- Sleep(Task*) of a task that runs: the current task gives the processor up, another leaves its
-- queue. The first argument is the manager with the task's `running_` cleared.
pub sleep_running : TaskManager → ℕ → ℕ → List ℕ → Option TaskManager
sleep_running m t level [] = none
sleep_running m t level (x ∷ rest) = some (
    if x == t
    then rotate_from m true x rest
    else record m { running = put level (erase t (m.running level)) m.running })

pub sleep : TaskManager → ℕ → Option TaskManager
sleep m t = elim (m.tasks t) [
  | none ↦ none
  | some task ↦
      if task.running
      then sleep_running (set_task m t (record task { running = false })) t task.level
          (m.running m.current_level)
      else some m
]

abbrev pub pop_front : List ℕ → List ℕ
pop_front [] = []
pop_front (x ∷ xs) = xs

-- ChangeLevelRunning of the current task: it goes to the front of its new queue.
pub move_current : TaskManager → ℕ → Task → ℕ → TaskManager
move_current m t task level =
    let taken = put m.current_level (pop_front (m.running m.current_level)) m.running in
    record m {
      running = put level (t ∷ taken level) taken;
      tasks = put t (some (record task { level = level })) m.tasks;
      current_level = level;
      level_changed = m.level_changed || ltb level m.current_level;
    }

-- ChangeLevelRunning of another task. The source leaves the task's `level_` as it was.
pub move_other : TaskManager → ℕ → Task → ℕ → TaskManager
move_other m t task level =
    let taken = put task.level (erase t (m.running task.level)) m.running in
    record m {
      running = put level (taken level ++ (t ∷ [])) taken;
      level_changed = m.level_changed || ltb m.current_level level;
    }

pub move_level : TaskManager → ℕ → Task → ℕ → TaskManager
move_level m t task level =
    if is_front t (m.running m.current_level)
    then move_current m t task level
    else move_other m t task level

-- ChangeLevelRunning; a negative level is `none`.
pub change_level_running : TaskManager → ℕ → Task → Option ℕ → TaskManager
change_level_running m t task none = m
change_level_running m t task (some level) =
    if level == task.level then m else move_level m t task level

-- Wakeup(Task*, level) of a task that does not run.
pub enqueue : TaskManager → ℕ → Task → ℕ → TaskManager
enqueue m t task level = record m {
  tasks = put t (some (record task { level = level; running = true })) m.tasks;
  running = put level (m.running level ++ (t ∷ [])) m.running;
  level_changed = m.level_changed || ltb m.current_level level;
}

abbrev pub level_or : Option ℕ → ℕ → ℕ
level_or none own = own
level_or (some level) own = level

pub wakeup_task : TaskManager → ℕ → Task → Option ℕ → TaskManager
wakeup_task m t task level =
    if task.running
    then change_level_running m t task level
    else enqueue m t task (level_or level task.level)

-- Wakeup(Task*, level).
pub wakeup : TaskManager → ℕ → Option ℕ → Option TaskManager
wakeup m t level = elim (m.tasks t) [ none ↦ none | some task ↦ some (wakeup_task m t task level) ]

-- Sleep(id) and Wakeup(id, level), which look the task up.
pub sleep_id : TaskManager → ℕ → Option (TaskManager × Code)
sleep_id m id = elim (m.tasks id) [
  | none ↦ some (m, no_such_task)
  | some task ↦ elim (sleep m id) [ none ↦ none | some m' ↦ some (m', success) ]
]

pub wakeup_id : TaskManager → ℕ → Option ℕ → TaskManager × Code
wakeup_id m id level = elim (m.tasks id) [
  | none ↦ (m, no_such_task)
  | some task ↦ (wakeup_task m id task level, success)
]

-- Task::SendMessage of the task that SendMessage(id, msg) finds.
pub send_message : TaskManager → ℕ → Message → TaskManager × Code
send_message m id msg = elim (m.tasks id) [
  | none ↦ (m, no_such_task)
  | some task ↦
      let told = record task { msgs = task.msgs ++ (msg ∷ []) } in
      (wakeup_task (set_task m id told) id told none, success)
]

-- Task::ReceiveMessage.
pub receive_message : TaskManager → ℕ → Option (TaskManager × Option Message)
receive_message m t = elim (m.tasks t) [
  | none ↦ none
  | some task ↦ elim task.msgs [
    | [] ↦ some (m, none)
    | msg ∷ rest ↦ some (set_task m t (record task { msgs = rest }), some msg)
  ]
]

-- Finish after the rotation: the task goes, its exit code stays, and its waiter is woken.
pub record_exit : TaskManager → ℕ → ℕ → Option TaskManager
record_exit m t exit_code =
    let left = record m {
      tasks = put t none m.tasks;
      finish_tasks = put t (some exit_code) m.finish_tasks;
    } in
    elim (m.finish_waiter t) [
      | none ↦ some left
      | some waiter ↦
          wakeup (record left { finish_waiter = put t none m.finish_waiter }) waiter none
    ]

pub finish : TaskManager → ℕ → Option TaskManager
finish m exit_code = elim (rotate m true) [
  | none ↦ none
  | some (t, m') ↦ record_exit m' t exit_code
]

-- One round of the loop of WaitFinish: the exit code if the task has finished, and otherwise the
-- state in which the current task has gone to sleep as its waiter.
pub data Wait : Type 0 where
  finished : ℕ → TaskManager → Wait
  asleep : TaskManager → Wait

pub wait_finish : TaskManager → ℕ → Option Wait
wait_finish m task_id = elim (m.finish_tasks task_id) [
  | some exit_code ↦
      some (finished exit_code (record m { finish_tasks = put task_id none m.finish_tasks }))
  | none ↦ elim (current_task m) [
    | none ↦ none
    | some t ↦ elim (sleep (record m { finish_waiter = put task_id (some t) m.finish_waiter }) t) [
      | none ↦ none
      | some m' ↦ some (asleep m')
    ]
  ]
]
