-- ===== src/Task/Turns.antt =====
-- Which task RotateCurrentRunQueue of kernel/task.cpp runs next.
use mathlib.Core.List.{append-nil, append_assoc}
use min_os.Common.{
  inl, inr, ℕ, zero, suc, ◌≤◌, ◌<◌, ◌≡◌, refl, Bool, false, ◌||◌, Option, none, some, List, [], ◌∷◌,
  ◌++◌, arith, Bool-cases, length, sym, ◌∙◌,
}
use min_os.Task.{TaskManager, max_level, put, is_empty, rotated, rotate_from, switch_task}
use min_os.Task.Queues.{is_empty-append}
use min_os.Task.Invariant.{IsValid, rotate_from-IsValid}
use min_os.Task.Running.{front_of, switch_task-front, staying-IsTaken}

level_changed-rotate_from :
    (m : TaskManager) (sleeps : Bool) (t : ℕ) (rest : List ℕ)
    → (rotate_from m sleeps t rest).level_changed ≡ false
unfolding rotate_from
level_changed-rotate_from m sleeps t rest =
    elim (Bool-cases (m.level_changed || is_empty (rotated m sleeps t rest m.current_level))) [
      | inl e ↦ rw e
      | inr e ↦ rw e (ground arith)
    ]

-- A turn of a valid scheduler succeeds, keeps it valid, and leaves no task waiting at a level above
-- that of the task whose turn it is.
pub switch_task-highest :
    (m : TaskManager)
    → IsValid m
    → (m' : TaskManager) × (switch_task m ≡ some m')
      × IsValid m'
      × ((lv : ℕ) → m'.current_level < lv → lv ≤ max_level → m'.running lv ≡ [])
switch_task-highest m v =
    let (t, rest, e) = front_of m v in
    let w = rotate_from-IsValid m false t rest (staying-IsTaken m t rest v e) in
    (
      rotate_from m false t rest,
      switch_task-front m t rest e,
      w,
      w.highest (level_changed-rotate_from m false t rest),
    )

-- `n` turns in a row.
pub turns : ℕ → TaskManager → Option TaskManager
turns zero m = some m
turns (suc n) m = elim (switch_task m) [ none ↦ none | some m' ↦ turns n m' ]

-- A turn while no other level has called for one: the front goes to the end of its queue.
switch_task-same_level :
    (m : TaskManager) (t : ℕ) (rest : List ℕ)
    → m.level_changed ≡ false
    → m.running m.current_level ≡ t ∷ rest
    → switch_task m ≡ some (record m { running = put m.current_level (rest ++ (t ∷ [])) m.running })
unfolding rotate_from
switch_task-same_level m t rest c e =
    ground (arith, switch_task-front m t rest e, is_empty-append rest t)

-- Round robin: while no level has changed, as many turns as tasks stand before `t` in the current
-- queue succeed and leave the level as it is, with `t` in front of that queue and those tasks
-- behind the others in their order.
pub turns-round_robin :
    (before : List ℕ) (t : ℕ) (after : List ℕ) (m : TaskManager)
    → m.level_changed ≡ false
    → m.running m.current_level ≡ before ++ (t ∷ after)
    → (m' : TaskManager) × (turns (length before) m ≡ some m')
      × (m'.current_level ≡ m.current_level)
      × (m'.running m.current_level ≡ (t ∷ after) ++ before)
unfolding turns
turns-round_robin [] t after m c e = (m, refl, refl, e ∙ sym (append-nil (t ∷ after)))
turns-round_robin (x ∷ before) t after m c e =
    let next : TaskManager = record m {
      running = put m.current_level ((before ++ (t ∷ after)) ++ (x ∷ [])) m.running;
    } in
    let (m', run, lv, q) =
      turns-round_robin before t (after ++ (x ∷ [])) next c
        (ground (arith, append_assoc before (t ∷ after) (x ∷ []))) in
    (
      m',
      rw (switch_task-same_level m x (before ++ (t ∷ after)) c e, turns) run,
      lv,
      q ∙ append_assoc (t ∷ after) (x ∷ []) before,
    )
