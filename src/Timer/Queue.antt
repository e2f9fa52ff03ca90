-- ===== src/Timer/Queue.antt =====
-- The queue of timers of kernel/timer.cpp: its order, and the timers that are due.
use min_os.Common.{
  ℕ, suc, ◌-◌, ◌≤◌, ◌<◌, ◌^◌, ◌≡◌, refl, inl, inr, false, List, [], ◌∷◌, ltb, if◌then◌else◌, length,
  All, arith, Bool-cases, ltb→lt,
}
use min_os.Timer.{Timer, push}

-- The queue is in order.
abbrev pub IsSorted : List Timer → Type 0
IsSorted [] = Unit
IsSorted (x ∷ xs) = All (λ y. x.timeout ≤ y.timeout) xs × IsSorted xs

-- The timers that are not due at the tick `now`, in their order.
unfoldable pub pending : ℕ → List Timer → List Timer
pending now [] = []
pending now (t ∷ ts) = if ltb now t.timeout then t ∷ pending now ts else pending now ts

pub push-All :
    (a : ℕ) (t : Timer) (ts : List Timer)
    → a ≤ t.timeout
    → All (λ y. a ≤ y.timeout) ts
    → All (λ y. a ≤ y.timeout) (push t ts)
unfolding push
push-All a t [] h all = (h, tt)
push-All a t (x ∷ xs) h all = elim (Bool-cases (ltb t.timeout x.timeout)) [
  | inl e ↦ rw e (h, all)
  | inr e ↦ rw e (all.0, push-All a t xs h all.1)
]

pub All-weaken :
    (a b : ℕ) (ts : List Timer) → a ≤ b → All (λ y. b ≤ y.timeout) ts → All (λ y. a ≤ y.timeout) ts
All-weaken a b [] h all = tt
All-weaken a b (x ∷ xs) h all = (omega (arith, all.0), All-weaken a b xs h all.1)

pub push-IsSorted : (t : Timer) (ts : List Timer) → IsSorted ts → IsSorted (push t ts)
unfolding push
push-IsSorted t [] s = (tt, tt)
push-IsSorted t (x ∷ xs) s = elim (Bool-cases (ltb t.timeout x.timeout)) [
  | inl e ↦ rw e ((ground arith, All-weaken t.timeout x.timeout xs (ground arith) s.0), s)
  | inr e ↦ rw e (push-All x.timeout t xs (ground arith) s.0, push-IsSorted t xs s.1)
]

pub pending-push :
    (now : ℕ) (t : Timer) (ts : List Timer)
    → now < t.timeout
    → pending now (push t ts) ≡ push t (pending now ts)
unfolding push pending
pending-push now t [] h = ground arith
pending-push now t (x ∷ xs) h = ground (arith, pending-push now t xs h)

pub length-push : (t : Timer) (ts : List Timer) → length (push t ts) ≡ suc (length ts)
unfolding push
length-push t [] = refl
length-push t (x ∷ xs) = ground (arith, length-push t xs)

pub length-pending : (now : ℕ) (ts : List Timer) → length (pending now ts) ≤ length ts
unfolding pending
length-pending now [] = omega arith
length-pending now (t ∷ ts) = ground (arith, length-pending now ts)

pub some_left_nil : (now : ℕ) → 0 < length (pending now []) → ⊥
unfolding pending
some_left_nil now h = omega arith

pub pending-due :
    (now : ℕ) (t : Timer) (ts : List Timer)
    → ltb now t.timeout ≡ false
    → pending now (t ∷ ts) ≡ pending now ts
unfolding pending
pending-due now t ts due = rw due refl

pub pending-monotone :
    (a b : ℕ) (ts : List Timer) → a ≤ b → length (pending b ts) ≤ length (pending a ts)
unfolding pending
pending-monotone a b [] h = omega arith
pending-monotone a b (t ∷ ts) h = ground (arith, pending-monotone a b ts h)

pub pending-All : (now : ℕ) (ts : List Timer) → All (λ t. suc now ≤ t.timeout) (pending now ts)
unfolding pending
pending-All now [] = tt
pending-All now (t ∷ ts) = elim (Bool-cases (ltb now t.timeout)) [
  | inl e ↦ rw e (ltb→lt now t.timeout e, pending-All now ts)
  | inr e ↦ rw e (pending-All now ts)
]

pending-bounded :
    (a now : ℕ) (ts : List Timer)
    → All (λ t. a ≤ t.timeout) ts
    → All (λ t. a ≤ t.timeout) (pending now ts)
unfolding pending
pending-bounded a now [] all = tt
pending-bounded a now (t ∷ ts) all = elim (Bool-cases (ltb now t.timeout)) [
  | inl e ↦ rw e (all.0, pending-bounded a now ts all.1)
  | inr e ↦ rw e (pending-bounded a now ts all.1)
]

pub pending-IsSorted : (now : ℕ) (ts : List Timer) → IsSorted ts → IsSorted (pending now ts)
unfolding pending
pending-IsSorted now [] s = tt
pending-IsSorted now (t ∷ ts) s = elim (Bool-cases (ltb now t.timeout)) [
  | inl e ↦ rw e (pending-bounded t.timeout now ts s.0, pending-IsSorted now ts s.1)
  | inr e ↦ rw e (pending-IsSorted now ts s.1)
]

pub pending-twice :
    (now last : ℕ) (ts : List Timer) → now ≤ last → pending last (pending now ts) ≡ pending last ts
unfolding pending
pending-twice now last [] h = refl
pending-twice now last (t ∷ ts) h = ground (arith, pending-twice now last ts h)

-- The queue is in order, and a timer that no tick reaches stands in it.
pub record IsReady (ts : List Timer) : Type 0 where
  pub sorted : IsSorted ts
  pub ended : 0 < length (pending (2 ^ 64 - 2) ts)

push-ended :
    (last : ℕ) (t : Timer) (ts : List Timer)
    → length (pending last ts) ≤ length (pending last (push t ts))
unfolding push pending
push-ended last t [] = omega arith
push-ended last t (x ∷ xs) = ground (arith, push-ended last t xs)

pub push-IsReady : (t : Timer) (ts : List Timer) → IsReady ts → IsReady (push t ts)
push-IsReady t ts r = record {
  sorted = push-IsSorted t ts r.sorted;
  ended = omega (arith, push-ended (2 ^ 64 - 2) t ts, r.ended);
}
