-- ===== src/Terminal/Buffer.antt =====
-- Texts in the argument buffer of kernel/terminal.cpp.
use min_os.Common.{ℕ, suc, ◌+◌, ◌≤◌, ◌<◌, ◌≡◌, ◌∙◌, List, [], ◌∷◌, ◌++◌, length, arith}
use min_os.Terminal.{strcpy}

strcpy-before :
    (text : List ℕ) (index : ℕ) (buf : ℕ → ℕ) (i : ℕ) → i < index → strcpy text index buf i ≡ buf i
unfolding strcpy
strcpy-before [] index buf i h = ground arith
strcpy-before (c ∷ text) index buf i h =
    ground (arith, strcpy-before text (suc index) buf i (omega arith))

-- The buffer has the text, and a zero behind it, from an index on.
abbrev pub HasText : (ℕ → ℕ) → (index : ℕ) → List ℕ → Type 0
HasText buf index [] = buf index ≡ 0
HasText buf index (c ∷ text) = (buf index ≡ c) × HasText buf (suc index) text

HasText-cong :
    (f g : ℕ → ℕ) (index : ℕ) (text : List ℕ)
    → ((i : ℕ) → index ≤ i → i ≤ index + length text → f i ≡ g i)
    → HasText g index text
    → HasText f index text
HasText-cong f g index [] same held = same index (omega arith) (omega arith) ∙ held
HasText-cong f g index (c ∷ text) same held = (
  same index (omega arith) (omega arith) ∙ held.0,
  HasText-cong f g (suc index) text (λ i lo hi. same i (omega arith) (omega arith)) held.1,
)

strcpy-HasText :
    (text : List ℕ) (index : ℕ) (buf : ℕ → ℕ) → HasText (strcpy text index buf) index text
unfolding strcpy
strcpy-HasText [] index buf = ground arith
strcpy-HasText (c ∷ text) index buf = (
  ground arith,
  HasText-cong _ (strcpy text (suc index) buf) (suc index) text (λ i lo hi. ground arith)
      (strcpy-HasText text (suc index) buf),
)

-- Every index has its word, below `limit`.
abbrev pub HasWords : (ℕ → ℕ) → (limit : ℕ) → List ℕ → List (List ℕ) → Type 0
HasWords buf limit [] [] = Unit
HasWords buf limit (a ∷ argv) (w ∷ ws) =
    (a + length w < limit) × HasText buf a w × HasWords buf limit argv ws
HasWords buf limit [] (w ∷ ws) = ⊥
HasWords buf limit (a ∷ argv) [] = ⊥

-- One more word behind the others.
pub HasWords-push :
    (buf : ℕ → ℕ) (limit : ℕ) (argv : List ℕ) (ws : List (List ℕ)) (w : List ℕ)
    → HasWords buf limit argv ws
    → HasWords (strcpy w limit buf) (limit + (length w + 1)) (argv ++ limit ∷ []) (ws ++ w ∷ [])
HasWords-push buf limit [] [] w held = (omega arith, strcpy-HasText w limit buf, tt)
HasWords-push buf limit (a ∷ argv) (x ∷ ws) w held = (
  omega (arith, held.0),
  HasText-cong (strcpy w limit buf) buf a x
      (λ i lo hi. strcpy-before w limit buf i (omega (arith, held.0))) held.1,
  HasWords-push buf limit argv ws w held.2,
)
HasWords-push buf limit [] (x ∷ ws) w held = absurd held
HasWords-push buf limit (a ∷ argv) [] w held = absurd held
