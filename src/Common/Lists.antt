-- ===== src/Common/Lists.antt =====
-- Lists measured and indexed by native numbers, under the library's names.
use Prim.Native.Nat.{ℕ, zero, suc, ◌+◌, ◌-◌, ◌≤◌}
use mathlib.Core.Path.{◌≡◌, refl, ap, ◌∙◌}
use mathlib.Core.Logic.{◌≢◌}
use mathlib.Core.Bool.{true, false}
use mathlib.Core.List.{List, [], ◌∷◌, ◌++◌}
use mathlib.Core.Option.{Option, none, some}
use native.Mathlib.Nat.{zero-add, suc-add, add-zero}
use native.Mathlib.Omega.{arith}
use min_os.Common.Tests.{◌==◌, if◌then◌else◌}

module _ {ℓ} {A : Type ℓ} where
  abbrev pub length : List A → ℕ
  length [] = 0
  length (x ∷ xs) = suc (length xs)

  abbrev pub get_elem? : List A → ℕ → Option A
  get_elem? [] i = none
  get_elem? (x ∷ xs) zero = some x
  get_elem? (x ∷ xs) (suc i) = get_elem? xs i

  -- A write out of bounds changes nothing.
  abbrev pub set : List A → ℕ → A → List A
  set [] i v = []
  set (x ∷ xs) zero v = v ∷ xs
  set (x ∷ xs) (suc i) v = x ∷ set xs i v

  abbrev pub get_or : List A → ℕ → A → A
  get_or [] i d = d
  get_or (x ∷ xs) zero d = x
  get_or (x ∷ xs) (suc i) d = get_or xs i d

  abbrev pub take : ℕ → List A → List A
  take zero xs = []
  take (suc n) [] = []
  take (suc n) (x ∷ xs) = x ∷ take n xs

  abbrev pub drop : ℕ → List A → List A
  drop zero xs = xs
  drop (suc n) [] = []
  drop (suc n) (x ∷ xs) = drop n xs

  abbrev pub replicate : ℕ → A → List A
  replicate zero a = []
  replicate (suc n) a = a ∷ replicate n a

  pub length-append : (xs ys : List A) → length (xs ++ ys) ≡ length xs + length ys
  length-append [] ys = omega arith
  length-append (x ∷ xs) ys = omega (arith, length-append xs ys)

-- A predicate holds of every element.
abbrev pub All {ℓ κ} : {A : Type ℓ} → (A → Type κ) → List A → Type κ
All P [] = Unit
All P (x ∷ xs) = P x × All P xs

pub All-append {ℓ κ} :
    {A : Type ℓ} (P : A → Type κ) (xs ys : List A) → All P xs → All P ys → All P (xs ++ ys)
All-append P [] ys hx hy = hy
All-append P (x ∷ xs) ys hx hy = (hx.0, All-append P xs ys hx.1 hy)

-- How often a number stands in a list.
abbrev pub count : ℕ → List ℕ → ℕ
count a [] = 0
count a (x ∷ xs) = (if x == a then 1 else 0) + count a xs

pub count-append :
    (n : ℕ) (front back : List ℕ) → count n (front ++ back) ≡ count n front + count n back
count-append n (k ∷ front) back = omega (arith, count-append n front back)
count-append n [] back = omega arith

-- A write to one place of a table.
abbrev pub put {ℓ} : {A : Type ℓ} → ℕ → A → (ℕ → A) → ℕ → A
put k v f i = if i == k then v else f i

pub put_self {ℓ} : {A : Type ℓ} (k : ℕ) (v : A) (f : ℕ → A) → put k v f k ≡ v
put_self k v f = let e : (k == k) ≡ true = ground arith in rw e refl

pub put_other {ℓ} : {A : Type ℓ} (k i : ℕ) (v : A) (f : ℕ → A) → i ≢ k → put k v f i ≡ f i
put_other k i v f h = let e : (i == k) ≡ false = ground arith in rw e refl

-- The values of a table at `n` places from `start` on.
abbrev pub slice {ℓ} : {A : Type ℓ} → (ℕ → A) → (start n : ℕ) → List A
slice f start zero = []
slice f start (suc n) = f start ∷ slice f (suc start) n

module _ {ℓ} {A : Type ℓ} where
  pub length-slice : (f : ℕ → A) (start n : ℕ) → length (slice f start n) ≡ n
  length-slice f start zero = refl
  length-slice f start (suc n) = omega (arith, length-slice f (suc start) n)

  pub slice-add :
      (f : ℕ → A) (start n k : ℕ) → slice f start (n + k) ≡ slice f start n ++ slice f (start + n) k
  slice-add f start zero k = rw (zero-add k, add-zero start) refl
  slice-add f start (suc n) k = rw (suc-add n k) (
      ap (λ l. f start ∷ l)
        (slice-add f (suc start) n k ∙ ap (λ i. slice f (suc start) n ++ slice f i k) next))
    where
      next : suc start + n ≡ start + suc n
      next = omega arith

  pub take-append :
      (front back : List A) (n : ℕ) → take (length front + n) (front ++ back) ≡ front ++ take n back
  take-append [] back n = rw (zero-add n) refl
  take-append (x ∷ front) back n =
      rw (suc-add (length front) n) (ap (λ l. x ∷ l) (take-append front back n))

  pub drop-append :
      (front back : List A) (n : ℕ) → drop (length front + n) (front ++ back) ≡ drop n back
  drop-append [] back n = rw (zero-add n) refl
  drop-append (x ∷ front) back n = rw (suc-add (length front) n) (drop-append front back n)

  pub length-take : (n : ℕ) (xs : List A) → n ≤ length xs → length (take n xs) ≡ n
  length-take zero xs h = refl
  length-take (suc n) [] h = absurd (omega arith)
  length-take (suc n) (x ∷ xs) h = omega (arith, length-take n xs (omega arith))

  pub take-add : (n k : ℕ) (xs : List A) → take (n + k) xs ≡ take n xs ++ take k (drop n xs)
  take-add zero k xs = rw (zero-add k) refl
  take-add (suc n) k [] = rw (suc-add n k) (nil k)
    where
      nil : (k : ℕ) → ◌≡◌ {A = List A} [] (take k [])
      nil zero = refl
      nil (suc k) = refl
  take-add (suc n) k (x ∷ xs) = rw (suc-add n k) (ap (λ l. x ∷ l) (take-add n k xs))

  pub length-drop : (n : ℕ) (xs : List A) → n ≤ length xs → length (drop n xs) ≡ length xs - n
  length-drop zero xs h = omega arith
  length-drop (suc n) [] h = absurd (omega arith)
  length-drop (suc n) (x ∷ xs) h = omega (arith, length-drop n xs (omega arith))

  pub take-drop : (n : ℕ) (xs : List A) → take n xs ++ drop n xs ≡ xs
  take-drop zero xs = refl
  take-drop (suc n) [] = refl
  take-drop (suc n) (x ∷ xs) = ap (λ l. x ∷ l) (take-drop n xs)
