-- ===== src/Font/Tests.antt =====
-- WriteString of kernel/font.cpp on a short text: the letter A, a Hangul syllable and an emoji.
use min_os.Common.{ℕ, ◌≡◌, refl, some, List, [], ◌∷◌, arith, get_or}
use min_os.Font.{write_string}
use min_os.Font.Text.{write_string-encode_text}

abbrev text_bytes : List ℕ
text_bytes = 0x41 ∷ 0xea ∷ 0xb0 ∷ 0x80 ∷ 0xf0 ∷ 0x9f ∷ 0x98 ∷ 0x80 ∷ 0 ∷ []

write_string-encode_text_example :
    write_string 4 (λ a. get_or text_bytes a 0) 0 0
    ≡ some (
        record { offset = 0; character = 0x41 }
        ∷ record { offset = 8; character = 0xac00 }
        ∷ record { offset = 24; character = 0x1f600 }
        ∷ [])
write_string-encode_text_example =
    write_string-encode_text 4 (λ a. get_or text_bytes a 0) 0 0 (0x41 ∷ 0xac00 ∷ 0x1f600 ∷ [])
      ((omega arith, omega arith), ((omega arith, omega arith), ((omega arith, omega arith), tt)))
      (refl, (refl, (refl, (refl, (refl, (refl, (refl, (refl, (refl, tt))))))))) (omega arith)
