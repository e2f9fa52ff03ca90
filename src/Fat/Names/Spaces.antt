-- ===== src/Fat/Names/Spaces.antt =====
-- Texts filled up with spaces, and how ReadName of kernel/fat.cpp strips them.
use min_os.Common.{
  ℕ, zero, suc, ◌+◌, ◌≡◌, refl, ap, ◌∙◌, false, List, [], ◌∷◌, ◌++◌, ◌==◌, set, length, drop,
  replicate, All, arith,
}
use min_os.Fat.Names.{space, strip, c_text}

pub set-append :
    (front back : List ℕ) (x y : ℕ) → set (front ++ x ∷ back) (length front) y ≡ front ++ y ∷ back
set-append [] back x y = refl
set-append (c ∷ front) back x y = ap (λ l. c ∷ l) (set-append front back x y)

pub length-replicate : (n c : ℕ) → length (replicate n c) ≡ n
length-replicate zero c = refl
length-replicate (suc n) c = omega (arith, length-replicate n c)

pub drop-replicate : (k n c : ℕ) → drop k (replicate (k + n) c) ≡ replicate n c
drop-replicate zero n c = ap (λ m. replicate m c) (omega arith)
drop-replicate (suc k) n c = ap (λ m. drop (suc k) (replicate m c)) step ∙ drop-replicate k n c
  where
    step : suc k + n ≡ suc (k + n)
    step = omega arith

pub replicate-add : (k n c : ℕ) → replicate (k + n) c ≡ replicate k c ++ replicate n c
replicate-add zero n c = ap (λ m. replicate m c) (omega arith)
replicate-add (suc k) n c = ap (λ m. replicate m c) step ∙ ap (λ l. c ∷ l) (replicate-add k n c)
  where
    step : suc k + n ≡ suc (k + n)
    step = omega arith

-- A text that reads back: nothing in it is a space or the end of a text.
abbrev pub IsPrinted : List ℕ → Type 0
IsPrinted text = All (λ c. ((c == 0) ≡ false) × ((c == space) ≡ false)) text

strip-spaces : (n : ℕ) → strip (replicate n space) ≡ []
strip-spaces zero = refl
strip-spaces (suc n) = rw (strip-spaces n) refl

strip-last :
    (c : ℕ) (rest : List ℕ) → strip rest ≡ [] → (c == space) ≡ false → strip (c ∷ rest) ≡ c ∷ []
strip-last c rest e f = rw (e, f) refl

strip-IsPrinted :
    (text : List ℕ) (n : ℕ) → IsPrinted text → strip (text ++ replicate n space) ≡ text
strip-IsPrinted [] n h = strip-spaces n
strip-IsPrinted (c ∷ []) n h = strip-last c (replicate n space) (strip-spaces n) h.0.1
strip-IsPrinted (c ∷ (d ∷ text)) n h = rw (strip-IsPrinted (d ∷ text) n h.1) refl

c_text-IsPrinted : (text : List ℕ) → IsPrinted text → c_text text ≡ text
c_text-IsPrinted [] h = refl
c_text-IsPrinted (c ∷ text) h = rw (h.0.0, c_text-IsPrinted text h.1) refl

pub read_back :
    (text : List ℕ) (n : ℕ) → IsPrinted text → c_text (strip (text ++ replicate n space)) ≡ text
read_back text n h = ap c_text (strip-IsPrinted text n h) ∙ c_text-IsPrinted text h
