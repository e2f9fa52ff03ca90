-- ===== src/Fat/Names/Stored.antt =====
-- NameIsEqual of kernel/fat.cpp on the names that SetFileName stores.
use mathlib.Core.List.{append-nil}
use min_os.Common.{
  ℕ, zero, suc, ◌+◌, ◌≤◌, ◌≡◌, refl, sym, ap, ◌∙◌, true, false, Option, none, some, List, [], ◌∷◌,
  ◌++◌, ◌==◌, leb, set, length, All, arith, ==_refl,
}
use min_os.Fat.{DirectoryEntry}
use min_os.Fat.Names.{
  dot, strrchr, same_name, blank_name, fill_name, name_is_equal, copy_upper, set_file_name,
}

-- No character of the text is a dot.
abbrev pub IsPlain : List ℕ → Type 0
IsPlain text = All (λ c. (c == dot) ≡ false) text

pub same_name_refl : (name : List ℕ) → same_name name name ≡ true
same_name_refl [] = refl
same_name_refl (c ∷ name) = rw (==_refl c, same_name_refl name) refl

pub strrchr-IsPlain : (text : List ℕ) → IsPlain text → strrchr dot text ≡ none
unfolding strrchr
strrchr-IsPlain [] plain = refl
strrchr-IsPlain (c ∷ text) plain = rw (strrchr-IsPlain text plain.1, plain.0) refl

pub strrchr-ext :
    (base ext : List ℕ) → IsPlain ext → strrchr dot (base ++ dot ∷ ext) ≡ some (base, ext)
unfolding strrchr
strrchr-ext [] ext plain = rw (strrchr-IsPlain ext plain) refl
strrchr-ext (c ∷ base) ext plain = rw (strrchr-ext base ext plain) refl

-- The text of a base and an extension.
abbrev pub text_of : List ℕ → Option (List ℕ) → List ℕ
text_of base none = base
text_of base (some ext) = base ++ dot ∷ ext

-- A base of at most 8 characters and an extension of at most 3, without more dots.
abbrev pub IsShort : List ℕ → Option (List ℕ) → Type 0
IsShort base none = IsPlain base × (length base ≤ 8)
IsShort base (some ext) = IsPlain base × (length base ≤ 8) × IsPlain ext × (length ext ≤ 3)

module _ (toupper : ℕ → ℕ) where
  -- The two loops agree on a text without dots that has room.
  fill_name-copy_upper :
      (text rest : List ℕ) (limit at : ℕ) (name : List ℕ)
      → IsPlain text
      → length text ≤ limit
      → at + length text ≤ 11
      → fill_name toupper (text ++ rest) at name
        ≡ fill_name toupper rest (at + length text) (copy_upper toupper limit at text name)
  unfolding fill_name copy_upper
  fill_name-copy_upper [] rest zero at name plain h k =
      ap (λ i. fill_name toupper rest i name) (omega arith)
  fill_name-copy_upper [] rest (suc limit) at name plain h k =
      ap (λ i. fill_name toupper rest i name) (omega arith)
  fill_name-copy_upper (c ∷ text) rest zero at name plain h k = absurd (omega arith)
  fill_name-copy_upper (c ∷ text) rest (suc limit) at name plain h k =
      let inside : leb 11 at ≡ false = ground arith in
      rw (inside, plain.0)
        (fill_name-copy_upper text rest limit (at + 1) (set name at (toupper c)) plain.1
            (omega arith) (omega arith)
          ∙ ap
              (λ i.
                fill_name toupper rest i
                  (copy_upper toupper limit (at + 1) text (set name at (toupper c))))
              (omega arith))

  fill_name-end : (at : ℕ) (name : List ℕ) → fill_name toupper [] at name ≡ name
  unfolding fill_name
  fill_name-end at name = refl

  fill_name-dot :
      (rest : List ℕ) (at : ℕ) (name : List ℕ)
      → at ≤ 8
      → fill_name toupper (dot ∷ rest) at name ≡ fill_name toupper rest 8 name
  unfolding fill_name
  fill_name-dot rest at name h = let inside : leb 11 at ≡ false = ground arith in rw inside refl

  pub set_file_name-base :
      (base : List ℕ)
      → IsPlain base
      → set_file_name toupper base ≡ copy_upper toupper 8 0 base blank_name
  unfolding set_file_name
  set_file_name-base base plain = rw (set_file_name, strrchr-IsPlain base plain) refl

  pub set_file_name-ext :
      (base ext : List ℕ)
      → IsPlain ext
      → set_file_name toupper (base ++ dot ∷ ext)
        ≡ copy_upper toupper 3 8 ext (copy_upper toupper 8 0 base blank_name)
  unfolding set_file_name
  set_file_name-ext base ext plain = rw (set_file_name, strrchr-ext base ext plain) refl

  fill_name-set_file_name :
      (base : List ℕ) (ext : Option (List ℕ))
      → IsShort base ext
      → fill_name toupper (text_of base ext) 0 blank_name ≡ set_file_name toupper (text_of base ext)
  fill_name-set_file_name base none h =
      ap (λ t. fill_name toupper t 0 blank_name) (sym (append-nil base))
      ∙ fill_name-copy_upper base [] 8 0 blank_name h.0 h.1 (omega arith)
      ∙ fill_name-end (0 + length base) (copy_upper toupper 8 0 base blank_name)
      ∙ sym (set_file_name-base base h.0)
  fill_name-set_file_name base (some ext) h =
      let named = copy_upper toupper 8 0 base blank_name in
      fill_name-copy_upper base (dot ∷ ext) 8 0 blank_name h.0 h.1 (omega arith)
      ∙ fill_name-dot ext (0 + length base) named (omega (arith, h.1))
      ∙ ap (λ t. fill_name toupper t 8 named) (sym (append-nil ext))
      ∙ fill_name-copy_upper ext [] 3 8 named h.2 h.3 (omega arith)
      ∙ fill_name-end (8 + length ext) (copy_upper toupper 3 8 ext named)
      ∙ sym (set_file_name-ext base ext h.2)

  -- NameIsEqual recognises the name that SetFileName has stored for a text with a base of at most 8
  -- characters and an extension of at most 3 or none, without more dots.
  pub name_is_equal-set_file_name :
      (entry : DirectoryEntry) (base : List ℕ) (ext : Option (List ℕ))
      → IsShort base ext
      → name_is_equal toupper
          (record entry { name = set_file_name toupper (text_of base ext) })
          (text_of base ext)
        ≡ true
  unfolding name_is_equal
  name_is_equal-set_file_name entry base ext h =
      rw (name_is_equal, fill_name-set_file_name base ext h)
        (same_name_refl (set_file_name toupper (text_of base ext)))
