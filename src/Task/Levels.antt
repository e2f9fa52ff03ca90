-- ===== src/Task/Levels.antt =====
-- SendMessage of kernel/task.cpp to any task, existing or not, and the levels of the tasks.
use min_os.Common.{
  ℕ, ◌≤◌, ◌≡◌, ◌≢◌, inl, inr, refl, false, sym, ◌∙◌, none, some, arith, Option-cases, eq_cases,
}
use mathlib.Core.Option.{some-injective}
use min_os.Error.{no_such_task}
use min_os.Message.{Message}
use min_os.Task.{
  initial_manager, Task, TaskManager, max_level, send_message, set_task, rotate_from, switch_task,
}
use min_os.Task.Invariant.{IsValid}
use min_os.Task.Exit.{
  send_message-delivers, send_message-found, told, wakeup_task-keeps, rotate_from-keeps,
}
use min_os.Task.Running.{front_of, switch_task-front}

-- Every task's level is one of the scheduler's.
abbrev pub IsLevelled : TaskManager → Type 0
IsLevelled m = (id : ℕ) (task : Task) → m.tasks id ≡ some task → task.level ≤ max_level

pub initial_manager-IsLevelled : IsLevelled initial_manager
unfolding initial_manager
initial_manager-IsLevelled id task e = ground arith

send_message-missing :
    (m : TaskManager) (t : ℕ) (msg : Message)
    → m.tasks t ≡ none
    → send_message m t msg ≡ (m, no_such_task)
unfolding send_message
send_message-missing m t msg e = rw (send_message, e) refl

send_message-keeps :
    (m : TaskManager) (t id : ℕ) (task : Task) (msg : Message)
    → m.tasks t ≡ some task
    → t ≢ id
    → (send_message m t msg).0.tasks id ≡ m.tasks id
unfolding set_task
send_message-keeps m t id task msg e ne =
    rw (send_message-found m t task msg e)
      ((wakeup_task-keeps (set_task m t (told task msg)) t id (told task msg) ne).0 ∙ ground arith)

-- SendMessage keeps the scheduler valid and the levels in range, whether or not the task exists.
pub send_message-IsValid :
    (m : TaskManager) (t : ℕ) (msg : Message)
    → IsValid m
    → IsLevelled m
    → IsValid ((send_message m t msg).0) × IsLevelled ((send_message m t msg).0)
send_message-IsValid m t msg v l = elim (Option-cases (m.tasks t)) [
  | inl e ↦ rw (send_message-missing m t msg e) (v, l)
  | inr (task, e) ↦
      let sent = send_message-delivers m t task msg v e (l t task e) in
      (
        sent.1,
        λ id task' e'. elim (eq_cases t id) [
          | inl same ↦ ground (arith, sent.2, l t task e, same)
          | inr other ↦ l id task' (ground (arith, send_message-keeps m t id task msg e other))
        ],
      )
]

-- A turn keeps every task's level.
pub switch_task-tasks :
    (m m' : TaskManager) → IsValid m → switch_task m ≡ some m' → m'.tasks ≡ m.tasks
switch_task-tasks m m' v e =
    let (t, rest, f) = front_of m v in
    let same : rotate_from m false t rest ≡ m' =
      some-injective _ _ (sym (switch_task-front m t rest f) ∙ e) in
    rw (← same) (rotate_from-keeps m false t rest).0
