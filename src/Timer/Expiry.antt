-- ===== src/Timer/Expiry.antt =====
-- What a tick of kernel/timer.cpp does with the timers that are due.
use min_os.Common.{
  ℕ, zero, suc, sym, ap, ◌+◌, ◌-◌, ◌≤◌, ◌<◌, ◌^◌, ◌≡◌, refl, inl, inr, ◌∙◌, Bool, true, false, ◌||◌,
  some, List, [], ◌∷◌, ltb, ◌==◌, add64, if◌then◌else◌, length, All, arith, Bool-cases, ltb→lt,
  lt→ltb,
}
use min_os.Message.{timer_timeout}
use min_os.Task.{TaskManager, send_message}
use min_os.Timer.{Timer, TimerManager, push, rearmed, notify, expire, tick, task_timer_value}
use min_os.Timer.Queue.{
  IsSorted, pending, push-All, All-weaken, push-IsSorted, pending-push, length-push, length-pending,
  some_left_nil, pending-due, pending-monotone, pending-All, pending-IsSorted, pending-twice,
  IsReady, push-IsReady,
}

-- The number of task timers that are due. The value of the task timer is the largest int.
unfoldable pub turns_due : ℕ → List Timer → ℕ
turns_due now [] = 0
turns_due now (t ∷ ts) =
    let rest = turns_due now ts in
    if ltb now t.timeout then rest else if t.value == 0x7fffffff then suc rest else rest

-- The other timers that are due: each sends its task a message with its time and value, in the
-- order of the queue.
unfoldable pub notify_due : ℕ → List Timer → TaskManager → TaskManager
notify_due now [] m = m
notify_due now (t ∷ ts) m =
    if ltb now t.timeout
    then notify_due now ts m
    else if t.value == 0x7fffffff
    then notify_due now ts m
    else notify_due now ts (send_message m t.task_id (timer_timeout t.timeout t.value)).0

-- The task timer of the main task set again `k` times, 20 ticks on.
pub rearm : ℕ → ℕ → List Timer → List Timer
rearm zero now ts = ts
rearm (suc k) now ts =
    rearm k now (push (record { timeout = now + 20; value = 0x7fffffff; task_id = 1 }) ts)

rearmed_lem :
    (now : ℕ)
    → now + 20 < 2 ^ 64
    → rearmed now ≡ record { timeout = now + 20; value = 0x7fffffff; task_id = 1 }
rearmed_lem now h = let wide : add64 now 20 ≡ now + 20 = omega arith in rw wide refl

notify_lem :
    (m : TaskManager) (t : Timer)
    → notify m t ≡ (send_message m t.task_id (timer_timeout t.timeout t.value)).0
unfolding notify
notify_lem m t = refl

turns_due-push :
    (now : ℕ) (t : Timer) (ts : List Timer)
    → now < t.timeout
    → turns_due now (push t ts) ≡ turns_due now ts
unfolding push turns_due
turns_due-push now t [] h = ground arith
turns_due-push now t (x ∷ xs) h = ground (arith, turns_due-push now t xs h)

notify_due-push :
    (now : ℕ) (t : Timer) (ts : List Timer) (m : TaskManager)
    → now < t.timeout
    → notify_due now (push t ts) m ≡ notify_due now ts m
unfolding push notify_due
notify_due-push now t [] m h = ground arith
notify_due-push now t (x ∷ xs) m h = ground (
  arith,
  notify_due-push now t xs m h,
  notify_due-push now t xs (send_message m x.task_id (timer_timeout x.timeout x.value)).0 h,
)

-- When no timer is due, there is nothing to do.
none_due :
    (now : ℕ) (ts : List Timer) (m : TaskManager)
    → All (λ y. suc now ≤ y.timeout) ts
    → (pending now ts ≡ ts) × (turns_due now ts ≡ 0) × (notify_due now ts m ≡ m)
unfolding pending turns_due notify_due
none_due now [] m all = (refl, refl, refl)
none_due now (x ∷ xs) m all =
    let ih = none_due now xs m all.1 in
    rw (lt→ltb now x.timeout (omega (arith, all.0))) (ground (arith, ih), ground (arith, ih), ih.2)

-- What the loop leaves behind.
abbrev outcome : ℕ → List Timer → TaskManager → Bool → List Timer × TaskManager × Bool
outcome now ts m out = (
  rearm (turns_due now ts) now (pending now ts),
  notify_due now ts m,
  out || ltb 0 (turns_due now ts),
)

outcome-none_due :
    (now : ℕ) (ts : List Timer) (m : TaskManager) (out : Bool)
    → All (λ y. suc now ≤ y.timeout) ts
    → outcome now ts m out ≡ (ts, m, out)
unfolding rearm
outcome-none_due now ts m out all =
    let ih = none_due now ts m all in rw (ih.1, ih.0, ih.2, rearm) (ground arith)

outcome-rearmed :
    (now : ℕ) (t : Timer) (ts : List Timer) (m : TaskManager) (out : Bool)
    → now + 20 < 2 ^ 64
    → ltb now t.timeout ≡ false
    → (t.value == task_timer_value) ≡ true
    → outcome now (push (rearmed now) ts) m true ≡ outcome now (t ∷ ts) m out
unfolding rearm pending turns_due notify_due
outcome-rearmed now t ts m out h late task =
    let later : now < (rearmed now).timeout = omega arith in
    rw
      (
        late,
        task,
        turns_due-push now (rearmed now) ts later,
        notify_due-push now (rearmed now) ts m later,
        pending-push now (rearmed now) ts later,
      )
      (rw (rearmed_lem now h) (ground arith))

outcome-notified :
    (now : ℕ) (t : Timer) (ts : List Timer) (m : TaskManager) (out : Bool)
    → ltb now t.timeout ≡ false
    → (t.value == task_timer_value) ≡ false
    → outcome now ts (notify m t) out ≡ outcome now (t ∷ ts) m out
unfolding rearm pending turns_due notify_due
outcome-notified now t ts m out late other = rw (late, other, notify_lem m t) refl

module _ (n now : ℕ) (t : Timer) (ts : List Timer) (m : TaskManager) (out : Bool) where
  expire-late : ltb now t.timeout ≡ true → expire (suc n) now (t ∷ ts) m out ≡ some (t ∷ ts, m, out)
  unfolding expire
  expire-late late = rw (late, expire) refl

  expire-task :
      ltb now t.timeout ≡ false
      → (t.value == task_timer_value) ≡ true
      → expire (suc n) now (t ∷ ts) m out ≡ expire n now (push (rearmed now) ts) m true
  unfolding expire
  expire-task due task = rw (due, task, expire) refl

  expire-other :
      ltb now t.timeout ≡ false
      → (t.value == task_timer_value) ≡ false
      → expire (suc n) now (t ∷ ts) m out ≡ expire n now ts (notify m t) out
  unfolding expire
  expire-other due other = rw (due, other, expire) refl

-- The loop, on any fuel that exceeds the number of timers that are due, does what `outcome` says.
pub expire-outcome :
    (n now : ℕ) (ts : List Timer) (m : TaskManager) (out : Bool)
    → IsSorted ts
    → now + 20 < 2 ^ 64
    → 0 < length (pending now ts)
    → length ts < n + length (pending now ts)
    → expire n now ts m out ≡ some (outcome now ts m out)
expire-outcome zero now ts m out s h some_left fuel = absurd (omega (arith, length-pending now ts))
expire-outcome (suc n) now [] m out s h some_left fuel = absurd (some_left_nil now some_left)
expire-outcome (suc n) now (t ∷ ts) m out s h some_left fuel =
    elim (Bool-cases (ltb now t.timeout)) [
      | inl late ↦
          let after = ltb→lt now t.timeout late in
          expire-late n now t ts m out late
          ∙ sym (
              ap some (
                outcome-none_due now (t ∷ ts) m out
                  (after, All-weaken (suc now) t.timeout ts after s.0)))
      | inr due ↦ elim (Bool-cases (t.value == task_timer_value)) [
        | inl task ↦
            let next : now < (rearmed now).timeout = omega arith in
            let len = pending-due now t ts due in
            expire-task n now t ts m out due task
            ∙ expire-outcome n now (push (rearmed now) ts) m true
                (push-IsSorted (rearmed now) ts s.1) h
                (rw
                  (
                    pending-push now (rearmed now) ts next,
                    length-push (rearmed now) (pending now ts),
                  )
                  (omega arith))
                (rw
                  (
                    pending-push now (rearmed now) ts next,
                    length-push (rearmed now) (pending now ts),
                    length-push (rearmed now) ts,
                  )
                  (omega (arith, ap length len)))
            ∙ ap some (outcome-rearmed now t ts m out h due task)
        | inr other ↦
            expire-other n now t ts m out due other
            ∙ expire-outcome n now ts (notify m t) out s.1 h
                (rw (← pending-due now t ts due) some_left)
                (rw (← pending-due now t ts due) (omega arith))
            ∙ ap some (outcome-notified now t ts m out due other)
      ]
    ]

rearm-IsReady :
    (k now : ℕ) (ts : List Timer)
    → now + 20 < 2 ^ 64
    → All (λ t. suc now ≤ t.timeout) ts
    → IsReady ts
    → All (λ t. suc now ≤ t.timeout) (rearm k now ts) × IsReady (rearm k now ts)
unfolding rearm
rearm-IsReady zero now ts h all r = (all, r)
rearm-IsReady (suc k) now ts h all r =
    let again : Timer = record { timeout = now + 20; value = 0x7fffffff; task_id = 1 } in
    rearm-IsReady k now (push again ts) h (push-All (suc now) again ts (omega arith) all)
      (push-IsReady again ts r)

-- A tick, given more rounds than there are timers, ends, when the queue is in order and ends in a
-- timer that no tick reaches and the clock is not about to wrap around. The timers that were due
-- are gone and the tasks they name are notified in the order of the queue, except that each task
-- timer that was due is set again, 20 ticks on, and that alone makes the tick report a turn. What
-- is left in the queue is in order, is not yet due, and still ends in a timer that no tick
-- reaches.
pub tick-expires :
    (n : ℕ) (tm : TimerManager) (m : TaskManager)
    → IsReady tm.timers
    → tm.tick + 1 + 20 < 2 ^ 64
    → length tm.timers < n
    → let now = tm.tick + 1 in
      let left = rearm (turns_due now tm.timers) now (pending now tm.timers) in
      (tick n tm m
        ≡ some (
          record { tick = now; timers = left },
          notify_due now tm.timers m,
          ltb 0 (turns_due now tm.timers),
        ))
      × All (λ t. now < t.timeout) left
      × IsReady left
unfolding tick
tick-expires n tm m r h fuel =
    let now = tm.tick + 1 in
    let wide : add64 tm.tick 1 ≡ now = omega arith in
    let ended = pending-monotone now (2 ^ 64 - 2) tm.timers (omega arith) in
    let run =
      expire-outcome n now tm.timers m false r.sorted h (omega (arith, ended, r.ended))
        (omega arith) in
    let (all, ready) =
      rearm-IsReady (turns_due now tm.timers) now (pending now tm.timers) h
        (pending-All now tm.timers)
        (record {
          sorted = pending-IsSorted now tm.timers r.sorted;
          ended = rw (pending-twice now (2 ^ 64 - 2) tm.timers (omega arith)) r.ended;
        }) in
    (rw (tick, wide, run, wide) refl, all, ready)
