-- ===== src/Font.antt =====
-- kernel/font.cpp: UTF-8 text. The memory is the function from an address to its byte; what is drawn
-- is the list of the characters that WriteString passes to WriteUnicode, with their offsets.
pub mod Decoding
pub mod Text
mod Tests
use Prim.Native.Nat.{bit_and, bit_or}
use min_os.Common.{
  ℕ, zero, suc, ◌+◌, ◌*◌, ◌^◌, Bool, true, false, Option, none, some, List, [], ◌∷◌, ◌==◌, ltb, leb,
  if◌then◌else◌, ◌&&◌,
}

-- CountUTF8Size.
abbrev pub count_utf8_size : ℕ → ℕ
count_utf8_size c =
    if ltb c 0x80
    then 1
    else (if leb 0xc0 c && ltb c 0xe0
        then 2
        else (if leb 0xe0 c && ltb c 0xf0 then 3 else (if leb 0xf0 c && ltb c 0xf8 then 4 else 0)))

-- A byte that goes on with a character: its part of the code point, without the shift.
abbrev pub low_bits : (mem : ℕ → ℕ) (s : ℕ) → ℕ
low_bits mem s = bit_and (mem s) 63

-- ConvertUTF8To32, for the size of the first byte: the code point and the bytes that it takes.
unfoldable pub convert_size : (size : ℕ) (mem : ℕ → ℕ) (s : ℕ) → ℕ × ℕ
convert_size (suc zero) mem s = (mem s, 1)
convert_size (suc (suc zero)) mem s =
    (bit_or (bit_and (mem s) 31 * 2 ^ 6) (low_bits mem (s + 1)), 2)
convert_size (suc (suc (suc zero))) mem s = (
  bit_or (bit_or (bit_and (mem s) 15 * 2 ^ 12) (low_bits mem (s + 1) * 2 ^ 6))
      (low_bits mem (s + 2)),
  3,
)
convert_size (suc (suc (suc (suc zero)))) mem s = (
  bit_or
      (bit_or (bit_or (bit_and (mem s) 7 * 2 ^ 18) (low_bits mem (s + 1) * 2 ^ 12))
        (low_bits mem (s + 2) * 2 ^ 6))
      (low_bits mem (s + 3)),
  4,
)
convert_size zero mem s = (0, 0)
convert_size (suc (suc (suc (suc (suc size))))) mem s = (0, 0)

-- ConvertUTF8To32.
unfoldable pub convert_utf8_to_32 : (mem : ℕ → ℕ) (s : ℕ) → ℕ × ℕ
unfolding convert_size
convert_utf8_to_32 mem s = convert_size (count_utf8_size (mem s)) mem s

-- IsHankaku.
abbrev pub is_hankaku : ℕ → Bool
is_hankaku c = leb c 0x7f

-- A call of WriteUnicode.
pub record Glyph : Type 0 where
  pub offset : ℕ
  pub character : ℕ

abbrev pub prepend : Glyph → Option (List Glyph) → Option (List Glyph)
prepend glyph none = none
prepend glyph (some glyphs) = some (glyph ∷ glyphs)

-- The loop of WriteString, `x` columns from the start; `none` is a loop that has not ended yet.
unfoldable pub write_string : (fuel : ℕ) (mem : ℕ → ℕ) (s x : ℕ) → Option (List Glyph)
unfolding convert_utf8_to_32
write_string zero mem s x = none
write_string (suc fuel) mem s x =
    let (u32, bytes) = convert_utf8_to_32 mem s in
    let rest = write_string fuel mem (s + bytes) (x + (if is_hankaku u32 then 1 else 2)) in
    if mem s == 0 then some [] else prepend (record { offset = 8 * x; character = u32 }) rest
