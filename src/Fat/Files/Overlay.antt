-- ===== src/Fat/Files/Overlay.antt =====
-- The bytes of a cluster after a memcpy of Write in kernel/fat.cpp.
use min_os.Common.{
  ℕ, zero, suc, ◌+◌, ◌≤◌, ◌<◌, ◌≡◌, refl, ◌∙◌, false, List, [], ◌∷◌, ◌==◌, length, slice, count,
  arith,
}
use min_os.Fat.Files.{overlay}
use min_os.Fat.Files.Position.{contents}

pub overlay-before :
    (buf : List ℕ) (off : ℕ) (f : ℕ → ℕ) (i : ℕ) → i < off → overlay buf off f i ≡ f i
unfolding overlay
overlay-before [] off f i h = refl
overlay-before (b ∷ bs) off f i h = ground (arith, overlay-before bs (suc off) f i (omega arith))

pub overlay-behind :
    (buf : List ℕ) (off : ℕ) (f : ℕ → ℕ) (i : ℕ) → off + length buf ≤ i → overlay buf off f i ≡ f i
unfolding overlay
overlay-behind [] off f i h = refl
overlay-behind (b ∷ bs) off f i h = ground (arith, overlay-behind bs (suc off) f i (omega arith))

∷-cong : {x y : ℕ} {xs ys : List ℕ} → x ≡ y → xs ≡ ys → x ∷ xs ≡ y ∷ ys
∷-cong e e' = rw (e, e') refl

pub slice-cong :
    (f g : ℕ → ℕ) (start n : ℕ)
    → ((i : ℕ) → start ≤ i → i < start + n → f i ≡ g i)
    → slice f start n ≡ slice g start n
slice-cong f g start zero h = refl
slice-cong f g start (suc n) h =
    ∷-cong (h start (omega arith) (omega arith))
      (slice-cong f g (suc start) n (λ i lo hi. h i (omega arith) (omega arith)))

pub slice-overlay :
    (buf : List ℕ) (off : ℕ) (f : ℕ → ℕ) → slice (overlay buf off f) off (length buf) ≡ buf
unfolding overlay
slice-overlay [] off f = refl
slice-overlay (b ∷ bs) off f = ∷-cong (ground arith) (
    slice-cong _ (overlay bs (suc off) f) (suc off) (length bs) (λ i lo hi. ground arith)
    ∙ slice-overlay bs (suc off) f)

-- Clusters that a change does not reach keep their bytes.
pub contents-cong :
    (bpc : ℕ) (bytes bytes' : ℕ → ℕ → ℕ) (c : ℕ) (cs : List ℕ)
    → ((d : ℕ) → (d == c) ≡ false → bytes d ≡ bytes' d)
    → count c cs ≡ 0
    → contents bpc bytes cs ≡ contents bpc bytes' cs
contents-cong bpc bytes bytes' c [] h out = refl
contents-cong bpc bytes bytes' c (d ∷ cs) h out =
    rw (h d (ground arith), contents-cong bpc bytes bytes' c cs h (ground arith)) refl
