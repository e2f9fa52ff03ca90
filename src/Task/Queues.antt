-- ===== src/Task/Queues.antt =====
-- The deques of kernel/task.cpp: how often a task stands in a queue, and the search for a level.
use min_os.Common.{
  ℕ, zero, suc, ◌≤◌, ◌<◌, ◌≡◌, ◌≢◌, ◌⊎◌, inl, inr, refl, true, false, List, [], ◌∷◌, ◌++◌, ◌==◌,
  if◌then◌else◌, count, arith, Bool-cases, eq_cases,
}
use min_os.Task.{erase, is_empty, highest_level}

-- Erase takes every entry of a task out of a queue, and no other.
pub count-erase : (t a : ℕ) (q : List ℕ) → count a (erase t q) ≡ (if t == a then 0 else count a q)
unfolding erase
count-erase t a [] = ground arith
count-erase t a (x ∷ q) = ground (arith, count-erase t a q)

pub is_empty_iff : (q : List ℕ) → is_empty q ≡ true → q ≡ []
is_empty_iff [] h = refl
is_empty_iff (x ∷ q) h = cc

pub is_empty_of_count : (a : ℕ) (q : List ℕ) → 0 < count a q → is_empty q ≡ false
is_empty_of_count a [] h = absurd (omega arith)
is_empty_of_count a (x ∷ q) h = refl

-- The search finds a level that has a task, when some level has one, and none above it has.
pub highest_level_lem :
    (queues : ℕ → List ℕ) (current n : ℕ)
    → is_empty (queues zero) ≡ false
    → (is_empty (queues (highest_level queues current n)) ≡ false)
      × (highest_level queues current n ≤ n)
      × ((lv : ℕ) → highest_level queues current n < lv → lv ≤ n → queues lv ≡ [])
unfolding highest_level
highest_level_lem queues current zero h = rw h (h, omega arith, λ lv a b. absurd (omega arith))
highest_level_lem queues current (suc n) h = elim (Bool-cases (is_empty (queues (suc n)))) [
  | inl e ↦
      let ih = highest_level_lem queues current n h in
      rw e (ih.0, omega (arith, ih.1), λ lv a b. above lv e (ih.2 lv a) (eq_cases lv (suc n)) b)
  | inr e ↦ rw e (e, omega arith, λ lv a b. absurd (omega arith))
]
  where
    above :
        (lv : ℕ)
        → is_empty (queues (suc n)) ≡ true
        → (lv ≤ n → queues lv ≡ [])
        → (lv ≡ suc n) ⊎ (lv ≢ suc n)
        → lv ≤ suc n
        → queues lv ≡ []
    above lv e rest (inl top) b = rw top (is_empty_iff (queues (suc n)) e)
    above lv e rest (inr other) b = rest (omega arith)

pub is_empty-append : (q : List ℕ) (t : ℕ) → is_empty (q ++ (t ∷ [])) ≡ false
is_empty-append [] t = refl
is_empty-append (x ∷ q) t = refl

pub erase-nil : (t : ℕ) → erase t [] ≡ []
unfolding erase
erase-nil t = refl
