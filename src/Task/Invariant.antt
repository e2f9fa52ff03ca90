-- ===== src/Task/Invariant.antt =====
-- The invariant of the scheduler of kernel/task.cpp.
use min_os.Common.{
  ℕ, ◌+◌, ◌≤◌, ◌<◌, ◌≡◌, ◌≢◌, inl, inr, refl, Bool, true, false, ◌||◌, ◌&&◌, Option, none, some,
  List, [], ◌∷◌, ◌==◌, if◌then◌else◌, count, count-append, arith, Bool-cases,
}
use min_os.Task.{
  Task, TaskManager, max_level, is_empty, new_task, idle_id, initial_manager, highest_level,
  rotated, rotate_from, enqueue,
}
use min_os.Task.Queues.{is_empty_of_count, is_empty-append, highest_level_lem}

-- How often a task has to stand in the queue of level `lv`.
abbrev pub slot : Option Task → ℕ → ℕ
slot none lv = 0
slot (some task) lv = if task.running && (task.level == lv) then 1 else 0

-- A running task stands once in the queue of its own level, and any other task in none. The idle
-- task waits at level 0. Unless `level_changed` is up, no task waits above the current level.
pub record IsValid (m : TaskManager) : Type 0 where
  pub placed : (id lv : ℕ) → count id (m.running lv) ≡ slot (m.tasks id) lv
  pub fresh : (id : ℕ) → m.latest_id < id → m.tasks id ≡ none
  pub in_range : m.current_level ≤ max_level
  pub occupied : is_empty (m.running m.current_level) ≡ false
  pub idle : 0 < count idle_id (m.running 0)
  pub highest :
      m.level_changed ≡ false → (lv : ℕ) → m.current_level < lv → lv ≤ max_level → m.running lv ≡ []

pub initial_manager-IsValid : IsValid initial_manager
unfolding initial_manager
initial_manager-IsValid = record {
  placed = λ id lv. ground arith;
  fresh = λ id h. ground arith;
  in_range = omega arith;
  occupied = refl;
  idle = omega arith;
  highest = λ e lv lo hi. absurd (omega arith);
}

-- NewTask leaves the queues alone.
pub new_task-IsValid : (m : TaskManager) → IsValid m → IsValid (new_task m)
unfolding new_task
new_task-IsValid m v = record {
  placed = λ id lv. ground (arith, v.placed id lv, v.fresh (m.latest_id + 1));
  fresh = λ id h. ground (arith, v.fresh id);
  in_range = v.in_range;
  occupied = v.occupied;
  idle = v.idle;
  highest = v.highest;
}

-- A task that is woken stands once in the queue of its new level.
pub enqueue-IsValid :
    (m : TaskManager) (t : ℕ) (task : Task) (level : ℕ)
    → IsValid m
    → m.tasks t ≡ some task
    → task.running ≡ false
    → level ≤ max_level
    → IsValid (enqueue m t task level)
unfolding enqueue
enqueue-IsValid m t task level v e off h = record {
  placed = λ id lv.
      ground (arith, v.placed id lv, v.placed t level, count-append id (m.running level) (t ∷ []));
  fresh = λ id low. ground (arith, v.fresh id);
  in_range = v.in_range;
  occupied = ground (arith, v.occupied, is_empty-append (m.running level) t);
  idle = ground (arith, v.idle, count-append idle_id (m.running level) (t ∷ []));
  highest = λ c lv lo hi. ground (arith, v.highest _ lv lo hi);
}

-- RotateCurrentRunQueue: the state that it reads after the front task's record was changed.
pub record IsTaken (m : TaskManager) (t : ℕ) (rest : List ℕ) (stays : Bool) : Type 0 where
  pub front : m.running m.current_level ≡ t ∷ rest
  pub placed :
      (id lv : ℕ)
      → count id (m.running lv)
        ≡ slot (m.tasks id) lv + (if (id == t) && (lv == m.current_level) && stays then 1 else 0)
  pub fresh : (id : ℕ) → m.latest_id < id → m.tasks id ≡ none
  pub in_range : m.current_level ≤ max_level
  pub idle : 0 < count idle_id (m.running 0)
  pub keeps_idle : stays ≡ true → t ≢ idle_id
  pub highest :
      m.level_changed ≡ false → (lv : ℕ) → m.current_level < lv → lv ≤ max_level → m.running lv ≡ []

module _ (m : TaskManager) (sleeps : Bool) (t : ℕ) (rest : List ℕ)
    (v : IsTaken m t rest sleeps) where
  count-rotated : (id lv : ℕ) → count id (rotated m sleeps t rest lv) ≡ slot (m.tasks id) lv
  count-rotated id lv = elim (Bool-cases sleeps) [
    | inl e ↦ ground (arith, v.placed id lv, v.front)
    | inr e ↦ ground (arith, v.placed id lv, v.front, count-append id rest (t ∷ []))
  ]

  idle-rotated : 0 < count idle_id (rotated m sleeps t rest 0)
  idle-rotated = elim (Bool-cases sleeps) [
    | inl e ↦ ground (arith, count-rotated idle_id 0, v.placed idle_id 0, v.idle, v.keeps_idle e)
    | inr e ↦ ground (arith, count-rotated idle_id 0, v.placed idle_id 0, v.idle)
  ]

  searched :
      let queues = rotated m sleeps t rest in
      let found = highest_level queues m.current_level max_level in
      (is_empty (queues found) ≡ false)
      × (found ≤ max_level)
      × ((lv : ℕ) → found < lv → lv ≤ max_level → queues lv ≡ [])
  searched =
      highest_level_lem (rotated m sleeps t rest) m.current_level max_level
        (is_empty_of_count idle_id (rotated m sleeps t rest 0) idle-rotated)

  pub rotate_from-IsValid : IsValid (rotate_from m sleeps t rest)
  unfolding rotate_from
  rotate_from-IsValid =
      elim (Bool-cases (m.level_changed || is_empty (rotated m sleeps t rest m.current_level))) [
        | inl e ↦ rw e (record {
          placed = count-rotated;
          fresh = v.fresh;
          in_range = searched.1;
          occupied = searched.0;
          idle = idle-rotated;
          highest = λ c lv lo hi. searched.2 lv lo hi;
        })
        | inr e ↦ rw e (record {
          placed = count-rotated;
          fresh = v.fresh;
          in_range = v.in_range;
          occupied = ground arith;
          idle = idle-rotated;
          highest = λ c lv lo hi. ground (arith, v.highest c lv lo hi);
        })
      ]
