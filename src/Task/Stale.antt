-- ===== src/Task/Stale.antt =====
-- ChangeLevelRunning of kernel/task.cpp, called for a task that is not the current one.
use min_os.Common.{
  ℕ, ◌≡◌, ◌≢◌, refl, ap, true, false, Option, some, List, [], ◌∷◌, count, count-append, arith,
}
use min_os.Task.{
  Task, TaskManager, put, erase, set_task, sleep_running, sleep, move_other, move_level,
  change_level_running, wakeup_task,
}
use min_os.Task.Invariant.{IsValid}
use min_os.Task.Running.{wakeup_task-running}

module _ (m : TaskManager) (t : ℕ) (task : Task) (level x : ℕ) (rest : List ℕ) (v : IsValid m)
    (e : m.tasks t ≡ some task) (on : task.running ≡ true) (ne : level ≢ task.level)
    (f : m.running m.current_level ≡ x ∷ rest) (behind : x ≢ t) where
  wakes : wakeup_task m t task (some level) ≡ move_other m t task level
  wakes =
      rw (wakeup_task-running m t task (some level) on)
        (unfold change_level_running move_level in ground (arith, f))

  abbrev moved : TaskManager
  moved = move_other m t task level

  tasks-moved : moved.tasks ≡ m.tasks
  unfolding move_other
  tasks-moved = refl

  count-moved : count t (moved.running level) ≡ 1
  unfolding move_other
  count-moved = ground (arith, v.placed t level, e, count-append t (m.running level) (t ∷ []))

  not-IsValid-moved : ¬ IsValid moved
  not-IsValid-moved w =
      ground
        (arith, w.placed t level, count-moved, ap (λ (f : ℕ → Option Task). f t) tasks-moved, e)

  -- Wakeup of a running task of a valid scheduler, which is not the current one, with a level
  -- that is not its own moves it to the queue of that level and leaves the level in its record
  -- as it was: the scheduler is no longer valid.
  pub wakeup-moves_queue_only :
      let m' = wakeup_task m t task (some level) in
      (count t (m'.running level) ≡ 1) × (m'.tasks t ≡ some task) × ¬ IsValid m'
  wakeup-moves_queue_only =
      rw wakes (count-moved, ground (arith, tasks-moved, e), not-IsValid-moved)

  -- What Sleep leaves.
  abbrev left : TaskManager
  left = record (set_task moved t (record task { running = false })) {
    running = put task.level (erase t (moved.running task.level)) moved.running;
  }

  sleep-moved : sleep moved t ≡ some left
  unfolding sleep sleep_running set_task move_other erase
  sleep-moved = ground (arith, f, e, on)

  -- After a Wakeup that gave a running task, not the current one, of a valid scheduler a new
  -- level, Sleep looks for the task in the queue of the old level: it succeeds and clears the
  -- task's flag, but leaves the task in the queue of the new level, where it is scheduled
  -- again.
  pub sleep_after_wakeup :
      (m' : TaskManager) × (sleep (wakeup_task m t task (some level)) t ≡ some m')
      × (m'.tasks t ≡ some (record task { running = false }))
      × (count t (m'.running level) ≡ 1)
  unfolding set_task
  sleep_after_wakeup = rw wakes (left, sleep-moved, ground arith, ground (arith, count-moved))
