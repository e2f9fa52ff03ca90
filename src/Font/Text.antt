-- ===== src/Font/Text.antt =====
-- The loop of WriteString in kernel/font.cpp.
use mathlib.Core.Path.{subst}
use min_os.Common.{
  ℕ, zero, suc, ◌+◌, ◌*◌, ◌<◌, ◌≡◌, refl, ap, ◌∙◌, false, none, some, List, [], ◌∷◌, ◌++◌, ◌==◌,
  if◌then◌else◌, length, All, arith,
}
use min_os.Font.{count_utf8_size, convert_size, convert_utf8_to_32, is_hankaku, Glyph, write_string}
use min_os.Font.Decoding.{encode, Holds, encode-Decodes, encode-goes_on}

-- What WriteString draws of a text: each character behind the one before it, with 8 pixels for a
-- character of ASCII and 16 for another one.
abbrev pub layout : (x : ℕ) → List ℕ → List Glyph
layout x [] = []
layout x (c ∷ text) =
    record { offset = 8 * x; character = c } ∷ layout (x + (if is_hankaku c then 1 else 2)) text

abbrev pub encode_text : List ℕ → List ℕ
encode_text [] = 0 ∷ []
encode_text (c ∷ text) = encode c ++ encode_text text

Holds-append :
    (mem : ℕ → ℕ) (s : ℕ) (front back : List ℕ)
    → Holds mem s (front ++ back)
    → Holds mem s front × Holds mem (s + length front) back
Holds-append mem s [] back held = (tt, subst (λ t. Holds mem t back) (omega arith) held)
Holds-append mem s (b ∷ front) back held =
    let (h, k) = Holds-append mem (s + 1) front back held.1 in
    ((held.0, h), subst (λ t. Holds mem t back) (omega arith) k)

write_string-step :
    (fuel : ℕ) (mem : ℕ → ℕ) (s x c n : ℕ) (glyphs : List Glyph)
    → (mem s == 0) ≡ false
    → convert_utf8_to_32 mem s ≡ (c, n)
    → write_string fuel mem (s + n) (x + (if is_hankaku c then 1 else 2)) ≡ some glyphs
    → write_string (suc fuel) mem s x ≡ some (record { offset = 8 * x; character = c } ∷ glyphs)
unfolding write_string
write_string-step fuel mem s x c n glyphs more e run = rw (more, e, run) refl

write_string-end :
    (fuel : ℕ) (mem : ℕ → ℕ) (s x : ℕ) → mem s ≡ 0 → write_string (suc fuel) mem s x ≡ some []
unfolding write_string
write_string-end fuel mem s x e = rw e refl

-- WriteString of a text in UTF-8, whose code points are not zero and below 0x110000, ends within a
-- round for each character and one more, and writes its characters, each behind the one before it.
pub write_string-encode_text :
    (fuel : ℕ) (mem : ℕ → ℕ) (s x : ℕ) (text : List ℕ)
    → All (λ c. (0 < c) × (c < 0x110000)) text
    → Holds mem s (encode_text text)
    → length text < fuel
    → write_string fuel mem s x ≡ some (layout x text)
write_string-encode_text zero mem s x text valid held h = absurd (omega arith)
write_string-encode_text (suc fuel) mem s x [] valid held h = write_string-end fuel mem s x held.0
write_string-encode_text (suc fuel) mem s x (c ∷ text) valid held h =
    let (here, behind) = Holds-append mem s (encode c) (encode_text text) held in
    write_string-step fuel mem s x c (length (encode c)) _ (encode-goes_on mem s c valid.0.0 here)
      (encode-Decodes mem s c valid.0.1 here)
      (write_string-encode_text fuel mem (s + length (encode c))
        (x + (if is_hankaku c then 1 else 2)) text valid.1 behind (omega arith))

write_string-stays :
    (fuel : ℕ) (mem : ℕ → ℕ) (s x : ℕ)
    → (mem s == 0) ≡ false
    → convert_utf8_to_32 mem s ≡ (0, 0)
    → write_string fuel mem (s + 0) (x + 1) ≡ none
    → write_string (suc fuel) mem s x ≡ none
unfolding write_string
write_string-stays fuel mem s x more e run = rw (more, e, run) refl

-- WriteString does not end at a byte that no character starts with.
write_string-stuck :
    (fuel : ℕ) (mem : ℕ → ℕ) (s x : ℕ)
    → (mem s == 0) ≡ false
    → count_utf8_size (mem s) ≡ 0
    → write_string fuel mem s x ≡ none
unfolding write_string convert_utf8_to_32
write_string-stuck zero mem s x more e = refl
write_string-stuck (suc fuel) mem s x more e =
    let here : s + 0 ≡ s = omega arith in
    write_string-stays fuel mem s x more (ap (λ k. convert_size k mem s) e) (
      ap (λ t. write_string fuel mem t (x + 1)) here ∙ write_string-stuck fuel mem s (x + 1) more e)
