-- ===== src/Font/Decoding.antt =====
-- WriteString of kernel/font.cpp on texts that are encoded in UTF-8.
use Prim.Native.Nat.{bit_and, bit_or}
use mathlib.Core.Path.{subst}
use min_os.Common.{
  ℕ, ◌+◌, ◌*◌, ◌/◌, ◌%◌, ◌^◌, ◌<◌, ◌≡◌, refl, sym, ap, ◌∙◌, true, false, List, [], ◌∷◌, ◌==◌, ltb,
  if◌then◌else◌, length, arith, inl, inr, Bool-cases,
}
use min_os.Common.Parts.{bit_and-rest, bit_or-over}
use min_os.Font.{count_utf8_size, convert_size, convert_utf8_to_32}

-- UTF-8.
abbrev pub encode : ℕ → List ℕ
encode c =
    if ltb c 0x80
    then c ∷ []
    else (if ltb c 0x800
        then (0xc0 + c / 64) ∷ (0x80 + c % 64) ∷ []
        else (if ltb c 0x10000
            then (0xe0 + c / 4096) ∷ (0x80 + c / 64 % 64) ∷ (0x80 + c % 64) ∷ []
            else (0xf0 + c / 262144)
              ∷ (0x80 + c / 4096 % 64)
              ∷ (0x80 + c / 64 % 64)
              ∷ (0x80 + c % 64)
              ∷ []))

-- The memory has the bytes at `s`.
abbrev pub Holds : (ℕ → ℕ) → ℕ → List ℕ → Type 0
Holds mem s [] = Unit
Holds mem s (b ∷ bs) = (mem s ≡ b) × Holds mem (s + 1) bs

mask5 : (w : ℕ) → bit_and w 31 ≡ w % 32
mask5 w = let (q, e, h) = bit_and-rest 5 w in omega (arith, e, h)

mask4 : (w : ℕ) → bit_and w 15 ≡ w % 16
mask4 w = let (q, e, h) = bit_and-rest 4 w in omega (arith, e, h)

mask3 : (w : ℕ) → bit_and w 7 ≡ w % 8
mask3 w = let (q, e, h) = bit_and-rest 3 w in omega (arith, e, h)

mask6 : (w : ℕ) → bit_and w 63 ≡ w % 64
mask6 w = let (q, e, h) = bit_and-rest 6 w in omega (arith, e, h)

-- The parts of a code point put together.
two_parts : (a b : ℕ) → b < 64 → bit_or (a * 2 ^ 6) b ≡ a * 64 + b
two_parts a b h = bit_or-over 6 b a h

three_parts :
    (a b c : ℕ)
    → b < 64
    → c < 64
    → bit_or (bit_or (a * 2 ^ 12) (b * 2 ^ 6)) c ≡ a * 4096 + b * 64 + c
three_parts a b c h k =
    let high : bit_or (a * 2 ^ 12) (b * 2 ^ 6) ≡ (a * 64 + b) * 2 ^ 6 =
      bit_or-over 12 (b * 2 ^ 6) a (omega arith) ∙ omega arith in
    rw high (two_parts (a * 64 + b) c k ∙ omega arith)

four_parts :
    (a b c d : ℕ)
    → b < 64
    → c < 64
    → d < 64
    → bit_or (bit_or (bit_or (a * 2 ^ 18) (b * 2 ^ 12)) (c * 2 ^ 6)) d
      ≡ a * 262144 + b * 4096 + c * 64 + d
four_parts a b c d h k l =
    let high : bit_or (a * 2 ^ 18) (b * 2 ^ 12) ≡ (a * 64 + b) * 2 ^ 12 =
      bit_or-over 18 (b * 2 ^ 12) a (omega arith) ∙ omega arith in
    rw high (three_parts (a * 64 + b) c d k l ∙ omega arith)

module _ (c : ℕ) where
  encode-one : ltb c 0x80 ≡ true → encode c ≡ c ∷ []
  encode-one h = rw h refl

  encode-two :
      ltb c 0x80 ≡ false → ltb c 0x800 ≡ true → encode c ≡ (0xc0 + c / 64) ∷ (0x80 + c % 64) ∷ []
  encode-two h k = rw (h, k) refl

  encode-three :
      ltb c 0x80 ≡ false
      → ltb c 0x800 ≡ false
      → ltb c 0x10000 ≡ true
      → encode c ≡ (0xe0 + c / 4096) ∷ (0x80 + c / 64 % 64) ∷ (0x80 + c % 64) ∷ []
  encode-three h k l = rw (h, k, l) refl

  encode-four :
      ltb c 0x80 ≡ false
      → ltb c 0x800 ≡ false
      → ltb c 0x10000 ≡ false
      → encode c
        ≡ (0xf0 + c / 262144) ∷ (0x80 + c / 4096 % 64) ∷ (0x80 + c / 64 % 64) ∷ (0x80 + c % 64) ∷ []
  encode-four h k l = rw (h, k, l) refl

module _ (mem : ℕ → ℕ) (s : ℕ) where
  -- A byte that goes on with a character.
  after : (i b : ℕ) → mem (s + i) ≡ 0x80 + b → b < 64 → bit_and (mem (s + i)) 63 ≡ b
  after i b e h = omega (arith, mask6 (mem (s + i)), e)

  convert-sized :
      (n : ℕ) → count_utf8_size (mem s) ≡ n → convert_utf8_to_32 mem s ≡ convert_size n mem s
  unfolding convert_utf8_to_32
  convert-sized n e = ap (λ k. convert_size k mem s) e

  convert-one : mem s < 0x80 → convert_utf8_to_32 mem s ≡ (mem s, 1)
  unfolding convert_size
  convert-one h = convert-sized 1 (ground arith)

  convert-two :
      (a b : ℕ)
      → mem s ≡ 0xc0 + a
      → mem (s + 1) ≡ 0x80 + b
      → a < 32
      → b < 64
      → convert_utf8_to_32 mem s ≡ (a * 64 + b, 2)
  unfolding convert_size
  convert-two a b e f h k =
      let lead : bit_and (mem s) 31 ≡ a = omega (arith, mask5 (mem s), e) in
      convert-sized 2 (ground (arith, e))
      ∙ rw (lead, after 1 b f k) (ap (λ u. (u, 2)) (two_parts a b k))

  convert-three :
      (a b c : ℕ)
      → mem s ≡ 0xe0 + a
      → mem (s + 1) ≡ 0x80 + b
      → mem (s + 2) ≡ 0x80 + c
      → a < 16
      → b < 64
      → c < 64
      → convert_utf8_to_32 mem s ≡ (a * 4096 + b * 64 + c, 3)
  unfolding convert_size
  convert-three a b c e f g h k l =
      let lead : bit_and (mem s) 15 ≡ a = omega (arith, mask4 (mem s), e) in
      convert-sized 3 (ground (arith, e))
      ∙ rw (lead, after 1 b f k, after 2 c g l) (ap (λ u. (u, 3)) (three_parts a b c k l))

  convert-four :
      (a b c d : ℕ)
      → mem s ≡ 0xf0 + a
      → mem (s + 1) ≡ 0x80 + b
      → mem (s + 2) ≡ 0x80 + c
      → mem (s + 3) ≡ 0x80 + d
      → a < 8
      → b < 64
      → c < 64
      → d < 64
      → convert_utf8_to_32 mem s ≡ (a * 262144 + b * 4096 + c * 64 + d, 4)
  unfolding convert_size
  convert-four a b c d e f g i h k l m =
      let lead : bit_and (mem s) 7 ≡ a = omega (arith, mask3 (mem s), e) in
      convert-sized 4 (ground (arith, e))
      ∙ rw (lead, after 1 b f k, after 2 c g l, after 3 d i m)
          (ap (λ u. (u, 4)) (four_parts a b c d k l m))

  shift2 : {b : ℕ} → mem (s + 1 + 1) ≡ b → mem (s + 2) ≡ b
  shift2 e = ap mem (omega arith) ∙ e

  shift3 : {b : ℕ} → mem (s + 1 + 1 + 1) ≡ b → mem (s + 3) ≡ b
  shift3 e = ap mem (omega arith) ∙ e

  -- ConvertUTF8To32 reads the code point that the bytes encode, and their number.
  abbrev pub Decodes : ℕ → List ℕ → Type 0
  Decodes c bytes = Holds mem s bytes → convert_utf8_to_32 mem s ≡ (c, length bytes)

  pub encode-Decodes : (c : ℕ) → c < 0x110000 → Decodes c (encode c)
  encode-Decodes c h = elim (Bool-cases (ltb c 0x80)) [
    | inl one ↦
        subst (Decodes c) (sym (encode-one c one))
          (λ held. convert-one (ground (arith, held.0)) ∙ ap (λ u. (u, 1)) held.0)
    | inr more ↦ elim (Bool-cases (ltb c 0x800)) [
      | inl two ↦ subst (Decodes c) (sym (encode-two c more two)) (λ held.
          convert-two (c / 64) (c % 64) held.0 held.1.0 (ground arith) (omega arith)
          ∙ ap (λ u. (u, 2)) (omega arith))
      | inr more' ↦ elim (Bool-cases (ltb c 0x10000)) [
        | inl three ↦ subst (Decodes c) (sym (encode-three c more more' three)) (λ held.
            convert-three (c / 4096) (c / 64 % 64) (c % 64) held.0 held.1.0 (shift2 held.1.1.0)
              (ground arith) (omega arith) (omega arith)
            ∙ ap (λ u. (u, 3)) (omega arith))
        | inr four ↦ subst (Decodes c) (sym (encode-four c more more' four)) (λ held.
            convert-four (c / 262144) (c / 4096 % 64) (c / 64 % 64) (c % 64) held.0 held.1.0
              (shift2 held.1.1.0) (shift3 held.1.1.1.0) (omega arith) (omega arith) (omega arith)
              (omega arith)
            ∙ ap (λ u. (u, 4)) (omega arith))
      ]
    ]
  ]

  -- The first byte of a character but zero is not zero.
  pub encode-goes_on : (c : ℕ) → 0 < c → Holds mem s (encode c) → (mem s == 0) ≡ false
  encode-goes_on c h held = elim (Bool-cases (ltb c 0x80)) [
    | inl one ↦ ground (arith, (subst (Holds mem s) (encode-one c one) held).0)
    | inr more ↦ elim (Bool-cases (ltb c 0x800)) [
      | inl two ↦ ground (arith, (subst (Holds mem s) (encode-two c more two) held).0)
      | inr more' ↦ elim (Bool-cases (ltb c 0x10000)) [
        | inl three ↦ ground (arith, (subst (Holds mem s) (encode-three c more more' three) held).0)
        | inr four ↦ ground (arith, (subst (Holds mem s) (encode-four c more more' four) held).0)
      ]
    ]
  ]
