-- ===== src/Task/Running.antt =====
-- SwitchTask, Sleep and Wakeup of kernel/task.cpp keep the scheduler's invariant.
use min_os.Common.{
  ℕ, ◌≤◌, ◌≡◌, ◌≢◌, ◌⊎◌, inl, inr, refl, ap, Bool, true, false, ◌||◌, Option, none, some, List, [],
  ◌∷◌, ◌==◌, count, arith, ==_refl, Bool-cases, eq_cases,
}
use min_os.Task.{
  Task, TaskManager, max_level, put, is_empty, is_front, erase, idle_id, rotated, rotate_from,
  rotate, switch_task, set_task, sleep_running, sleep, move_current, move_level,
  change_level_running, enqueue, level_or, wakeup_task,
}
use min_os.Task.Queues.{count-erase, erase-nil, is_empty_of_count}
use min_os.Task.Invariant.{IsValid, IsTaken, rotate_from-IsValid, enqueue-IsValid}

-- The current queue has a front.
pub front_of :
    (m : TaskManager)
    → IsValid m
    → (t : ℕ) × (rest : List ℕ) × (m.running m.current_level ≡ t ∷ rest)
front_of m v = split (m.running m.current_level) refl
  where
    split :
        (q : List ℕ)
        → m.running m.current_level ≡ q
        → (t : ℕ) × (rest : List ℕ) × (m.running m.current_level ≡ t ∷ rest)
    split [] e = absurd (ground (arith, v.occupied))
    split (t ∷ rest) e = (t, rest, e)

pub staying-IsTaken :
    (m : TaskManager) (t : ℕ) (rest : List ℕ)
    → IsValid m
    → m.running m.current_level ≡ t ∷ rest
    → IsTaken m t rest false
staying-IsTaken m t rest v e = record {
  front = e;
  placed = λ id lv. ground (arith, v.placed id lv);
  fresh = v.fresh;
  in_range = v.in_range;
  idle = v.idle;
  keeps_idle = λ c. absurd (ground arith);
  highest = v.highest;
}

pub rotate-front :
    (m : TaskManager) (sleeps : Bool) (t : ℕ) (rest : List ℕ)
    → m.running m.current_level ≡ t ∷ rest
    → rotate m sleeps ≡ some (t, rotate_from m sleeps t rest)
unfolding rotate
rotate-front m sleeps t rest e = rw (e, rotate)

pub switch_task-front :
    (m : TaskManager) (t : ℕ) (rest : List ℕ)
    → m.running m.current_level ≡ t ∷ rest
    → switch_task m ≡ some (rotate_from m false t rest)
unfolding switch_task
switch_task-front m t rest e = rw (rotate-front m false t rest e, switch_task)

-- The task to be put to sleep, with its flag cleared.
abbrev stopped : TaskManager → ℕ → Task → TaskManager
stopped m t task = set_task m t (record task { running = false })

module _ (m : TaskManager) (t : ℕ) (task : Task) (v : IsValid m) (e : m.tasks t ≡ some task)
    (on : task.running ≡ true) (awake : t ≢ idle_id) where
  sleeping-IsTaken :
      (rest : List ℕ)
      → m.running m.current_level ≡ t ∷ rest
      → IsTaken (stopped m t task) t rest true
  unfolding set_task
  sleeping-IsTaken rest f = record {
    front = f;
    placed = λ id lv. ground (arith, v.placed id lv, v.placed t m.current_level);
    fresh = λ id h. ground (arith, v.fresh id h);
    in_range = v.in_range;
    idle = v.idle;
    keeps_idle = λ c. awake;
    highest = v.highest;
  }

  -- What Sleep leaves of the queues for a task that is not in front.
  abbrev without : TaskManager
  without = record (stopped m t task) {
    running = put task.level (erase t (m.running task.level)) m.running;
  }

  without-IsValid :
      (x : ℕ) (rest : List ℕ) → m.running m.current_level ≡ x ∷ rest → x ≢ t → IsValid without
  unfolding set_task
  without-IsValid x rest f ne = record {
    placed = λ id lv. ground (arith, v.placed id lv, count-erase t id (m.running task.level));
    fresh = λ id h. ground (arith, v.fresh id h);
    in_range = v.in_range;
    occupied = is_empty_of_count x _ (ground (arith, f, count-erase t x (m.running task.level)));
    idle = ground (arith, v.idle, count-erase t idle_id (m.running task.level));
    highest = λ c lv lo hi. ground (arith, v.highest c lv lo hi, erase-nil t);
  }

  sleep-front :
      (rest : List ℕ)
      → m.running m.current_level ≡ t ∷ rest
      → sleep m t ≡ some (rotate_from (stopped m t task) true t rest)
  unfolding sleep sleep_running set_task
  sleep-front rest f = ground (arith, e, on, f)

  sleep-other :
      (x : ℕ) (rest : List ℕ)
      → m.running m.current_level ≡ x ∷ rest
      → x ≢ t
      → sleep m t ≡ some without
  unfolding sleep sleep_running set_task
  sleep-other x rest f ne = ground (arith, e, on, f)

  tasks-rotate_from :
      (k : TaskManager) (rest : List ℕ) → (rotate_from k true t rest).tasks ≡ k.tasks
  unfolding rotate_from
  tasks-rotate_from k rest =
      elim (Bool-cases (k.level_changed || is_empty (rotated k true t rest k.current_level))) [
        | inl c ↦ rw c
        | inr c ↦ rw c
      ]

  asleep :
      (k : TaskManager)
      → IsValid k
      → k.tasks ≡ (stopped m t task).tasks
      → (lv : ℕ) → count t (k.running lv) ≡ 0
  unfolding set_task
  asleep k w same lv = ground (arith, w.placed t lv, ap (λ (f : ℕ → Option Task). f t) same)

  -- Sleep of a running task that is not the idle task succeeds, keeps the scheduler valid, and
  -- leaves the task in no queue.
  pub sleep-IsValid :
      (m' : TaskManager) × (sleep m t ≡ some m')
      × IsValid m'
      × ((lv : ℕ) → count t (m'.running lv) ≡ 0)
  sleep-IsValid =
      let (x, rest, f) = front_of m v in
      elim (eq_cases x t) [
        | inl same ↦
            let g : m.running m.current_level ≡ t ∷ rest = rw (← same) f in
            let w = rotate_from-IsValid (stopped m t task) true t rest (sleeping-IsTaken rest g) in
            (
              rotate_from (stopped m t task) true t rest,
              sleep-front rest g,
              w,
              asleep _ w (tasks-rotate_from (stopped m t task) rest),
            )
        | inr other ↦
            let w = without-IsValid x rest f other in
            (without, sleep-other x rest f other, w, asleep without w refl)
      ]

-- ChangeLevelRunning of the current task keeps the scheduler valid.
pub move_current-IsValid :
    (m : TaskManager) (t : ℕ) (task : Task) (level : ℕ) (rest : List ℕ)
    → IsValid m
    → m.tasks t ≡ some task
    → m.running m.current_level ≡ t ∷ rest
    → t ≢ idle_id
    → level ≤ max_level
    → IsValid (move_current m t task level)
unfolding move_current
move_current-IsValid m t task level rest v e f awake h = record {
  placed = λ id lv. ground (arith, v.placed id lv, v.placed t m.current_level, f);
  fresh = λ id k. ground (arith, v.fresh id k);
  in_range = h;
  occupied = ground arith;
  idle = ground (arith, v.idle, f);
  highest = λ c lv lo hi. ground (arith, v.highest _ lv _ hi);
}

-- The calls of Wakeup that leave every running task at the level of its queue: of a task that does
-- not run, without a level, at the task's own level, and of the current task.
abbrev pub Keeps : TaskManager → ℕ → Task → Option ℕ → Type 0
Keeps m t task none = Unit {0}
Keeps m t task (some level) =
    (level ≤ max_level)
    × ((task.running ≡ false)
        ⊎ ((level ≡ task.level)
            ⊎ ((is_front t (m.running m.current_level) ≡ true) × (t ≢ idle_id))))

-- The branches of Wakeup and of ChangeLevelRunning.
pub wakeup_task-running :
    (m : TaskManager) (t : ℕ) (task : Task) (level : Option ℕ)
    → task.running ≡ true
    → wakeup_task m t task level ≡ change_level_running m t task level
unfolding wakeup_task
wakeup_task-running m t task level on = ground arith

pub wakeup_task-asleep :
    (m : TaskManager) (t : ℕ) (task : Task) (level : Option ℕ)
    → task.running ≡ false
    → wakeup_task m t task level ≡ enqueue m t task (level_or level task.level)
unfolding wakeup_task
wakeup_task-asleep m t task level off = ground arith

is_front-eq : (t : ℕ) (q : List ℕ) → is_front t q ≡ true → (rest : List ℕ) × (q ≡ t ∷ rest)
is_front-eq t [] h = cc
is_front-eq t (x ∷ rest) h = let same : x ≡ t = ground arith in (rest, rw same)

change_level_running-IsValid :
    (m : TaskManager) (t : ℕ) (task : Task) (level : ℕ)
    → IsValid m
    → m.tasks t ≡ some task
    → level ≤ max_level
    → (level ≡ task.level) ⊎ ((is_front t (m.running m.current_level) ≡ true) × (t ≢ idle_id))
    → IsValid (change_level_running m t task (some level))
unfolding change_level_running
change_level_running-IsValid m t task level v e h (inl same) = rw (same, ==_refl task.level) v
change_level_running-IsValid m t task level v e h (inr (f, awake)) =
    elim (Bool-cases (level == task.level)) [
      | inl same ↦ rw same v
      | inr other ↦
          rw (other, moves)
            (let (rest, g) = is_front-eq t (m.running m.current_level) f in
              move_current-IsValid m t task level rest v e g awake h)
    ]
  where
    moves : move_level m t task level ≡ move_current m t task level
    moves = unfold move_level in ground (arith, f)

-- Wakeup of a task of a valid scheduler, with a level in range, keeps the scheduler valid when it
-- is a call without a level, or with a level in range for a task that does not run, that has that
-- level already, or that is the current one and not the idle task.
pub wakeup_task-IsValid :
    (m : TaskManager) (t : ℕ) (task : Task) (level : Option ℕ)
    → IsValid m
    → m.tasks t ≡ some task
    → task.level ≤ max_level
    → Keeps m t task level
    → IsValid (wakeup_task m t task level)
unfolding change_level_running
wakeup_task-IsValid m t task none v e h k = elim (Bool-cases task.running) [
  | inl on ↦ rw (wakeup_task-running m t task none on) v
  | inr off ↦
      rw (wakeup_task-asleep m t task none off) (enqueue-IsValid m t task task.level v e off h)
]
wakeup_task-IsValid m t task (some level) v e h k = elim (Bool-cases task.running) [
  | inl on ↦
      rw (wakeup_task-running m t task (some level) on)
        (change_level_running-IsValid m t task level v e k.0 (runs on k.1))
  | inr off ↦
      rw (wakeup_task-asleep m t task (some level) off) (enqueue-IsValid m t task level v e off k.0)
]
  where
    runs :
        task.running ≡ true
        → (task.running ≡ false)
          ⊎ ((level ≡ task.level)
              ⊎ ((is_front t (m.running m.current_level) ≡ true) × (t ≢ idle_id)))
        → (level ≡ task.level) ⊎ ((is_front t (m.running m.current_level) ≡ true) × (t ≢ idle_id))
    runs on (inl off) = cc
    runs on (inr c) = c
