-- ===== src/Fat/Names/Read.antt =====
-- FormatName of kernel/fat.cpp on the names that SetFileName stores.
use mathlib.Core.List.{append-nil, append_assoc}
use mathlib.Core.Option
use min_os.Common.{
  ℕ, zero, suc, ◌+◌, ◌-◌, ◌≤◌, ◌<◌, ◌≡◌, refl, sym, ap, ◌∙◌, Option, none, some, List, [], ◌∷◌,
  ◌++◌, map, set, length, take, drop, replicate, length-append, take-append, drop-append, arith,
}
use min_os.Fat.{DirectoryEntry}
use min_os.Fat.Names.{
  dot, space, blank_name, copy_upper, set_file_name, strip, c_text, read_name, joined, format_name,
}
use min_os.Fat.Names.Stored.{text_of, IsShort, set_file_name-base, set_file_name-ext}
use min_os.Fat.Names.Spaces.{
  set-append, length-replicate, drop-replicate, replicate-add, IsPrinted, read_back,
}

module _ (toupper : ℕ → ℕ) where
  length-map : (text : List ℕ) → length (map toupper text) ≡ length text
  length-map [] = refl
  length-map (c ∷ text) = ap suc (length-map text)

  copy_upper-append :
      (text front back : List ℕ) (limit : ℕ)
      → length text ≤ limit
      → length text ≤ length back
      → copy_upper toupper limit (length front) text (front ++ back)
        ≡ front ++ (map toupper text ++ drop (length text) back)
  unfolding copy_upper
  copy_upper-append [] front back zero h k = refl
  copy_upper-append [] front back (suc limit) h k = refl
  copy_upper-append (c ∷ text) front back zero h k = absurd (omega arith)
  copy_upper-append (c ∷ text) front [] (suc limit) h k = absurd (omega arith)
  copy_upper-append (c ∷ text) front (x ∷ back) (suc limit) h k =
      let longer = front ++ toupper c ∷ [] in
      let size : length front + 1 ≡ length longer = sym (length-append front (toupper c ∷ [])) in
      let moved : set (front ++ x ∷ back) (length front) (toupper c) ≡ longer ++ back =
        set-append front back x (toupper c) ∙ sym (append_assoc front (toupper c ∷ []) back) in
      rw (size, moved)
        (copy_upper-append text longer back limit (omega arith) (omega arith)
          ∙ append_assoc front (toupper c ∷ []) _)

  -- The base, filled up with spaces to `8 + n` places.
  stored_base :
      (base : List ℕ)
      → length base ≤ 8
      → copy_upper toupper 8 0 base blank_name
        ≡ (map toupper base ++ replicate (8 - length base) space) ++ replicate 3 space
  stored_base base h =
      copy_upper-append base [] blank_name 8 h (omega arith)
      ∙ ap (λ l. map toupper base ++ l)
          (ap (λ n. drop (length base) (replicate n space)) (total h)
            ∙ drop-replicate (length base) (8 - length base + 3) space
            ∙ replicate-add (8 - length base) 3 space)
      ∙ sym (append_assoc (map toupper base) _ _)
    where
      total : length base ≤ 8 → 11 ≡ length base + (8 - length base + 3)
      total h = omega arith

  front_size :
      (base : List ℕ)
      → length base ≤ 8
      → 8 ≡ length (map toupper base ++ replicate (8 - length base) space)
  front_size base h = omega (
    arith,
    length-append (map toupper base) (replicate (8 - length base) space),
    length-map base,
    length-replicate (8 - length base) space,
  )

  stored_ext :
      (base ext : List ℕ)
      → length base ≤ 8
      → length ext ≤ 3
      → copy_upper toupper 3 8 ext (copy_upper toupper 8 0 base blank_name)
        ≡ (map toupper base ++ replicate (8 - length base) space)
          ++ (map toupper ext ++ replicate (3 - length ext) space)
  stored_ext base ext h k =
      let front = map toupper base ++ replicate (8 - length base) space in
      ap (λ n. copy_upper toupper 3 8 ext n) (stored_base base h)
      ∙ ap (λ n. copy_upper toupper 3 n ext (front ++ replicate 3 space)) (front_size base h)
      ∙ copy_upper-append ext front (replicate 3 space) 3 k k
      ∙ ap (λ l. front ++ (map toupper ext ++ l))
          (ap (λ n. drop (length ext) (replicate n space)) (total k)
            ∙ drop-replicate (length ext) (3 - length ext) space)
    where
      total : length ext ≤ 3 → 3 ≡ length ext + (3 - length ext)
      total k = omega arith

  front_parts :
      (base back name : List ℕ)
      → length base ≤ 8
      → name ≡ (map toupper base ++ replicate (8 - length base) space) ++ back
      → (take 8 name ≡ map toupper base ++ replicate (8 - length base) space) × (drop 8 name ≡ back)
  front_parts base back name h e =
      let front = map toupper base ++ replicate (8 - length base) space in
      let size : 8 ≡ length front + 0 = omega (arith, front_size base h) in
      (
        ap (take 8) e
            ∙ ap (λ n. take n (front ++ back)) size
            ∙ take-append front back 0
            ∙ append-nil front,
        ap (drop 8) e ∙ ap (λ n. drop n (front ++ back)) size ∙ drop-append front back 0,
      )

  take-whole : (n : ℕ) (l : List ℕ) → length l ≡ n → take n l ≡ l
  take-whole zero [] e = refl
  take-whole (suc n) (x ∷ l) e = ap (λ t. x ∷ t) (take-whole n l (omega arith))
  take-whole zero (x ∷ l) e = absurd (omega arith)
  take-whole (suc n) [] e = absurd (omega arith)

  read_name-stored :
      (entry : DirectoryEntry) (base ext name : List ℕ) (k : ℕ)
      → length base ≤ 8
      → IsPrinted (map toupper base)
      → IsPrinted (map toupper ext)
      → length ext + k ≡ 3
      → name
        ≡ (map toupper base ++ replicate (8 - length base) space)
          ++ (map toupper ext ++ replicate k space)
      → read_name (record entry { name = name }) ≡ (map toupper base, map toupper ext)
  unfolding read_name
  read_name-stored entry base ext name k h shown shown' e stored =
      let back = map toupper ext ++ replicate k space in
      let (first, last) = front_parts base back name h stored in
      let whole = take-whole 3 back (
        omega (
          arith,
          length-append (map toupper ext) (replicate k space),
          length-map ext,
          length-replicate k space,
        )) in
      ap (λ l. (c_text (strip l), c_text (strip (take 3 (drop 8 name))))) first
      ∙ ap
          (λ l. (
            c_text (strip (map toupper base ++ replicate (8 - length base) space)),
            c_text (strip (take 3 l)),
          ))
          last
      ∙ ap
          (λ l. (
            c_text (strip (map toupper base ++ replicate (8 - length base) space)),
            c_text (strip l),
          ))
          whole
      ∙ ap (λ l. (l, c_text (strip back))) (read_back (map toupper base) (8 - length base) shown)
      ∙ ap (λ l. (map toupper base, l)) (read_back (map toupper ext) k shown')

  format_name-step :
      (entry : DirectoryEntry) (base ext : List ℕ)
      → read_name entry ≡ (base, ext)
      → format_name entry ≡ joined (base, ext)
  unfolding format_name
  format_name-step entry base ext e = ap joined e

  -- The texts of a name that is read back as it was written, but for its case.
  abbrev pub Readable : List ℕ → Option (List ℕ) → Type 0
  Readable base none = IsPrinted (map toupper base)
  Readable base (some ext) =
      IsPrinted (map toupper base) × IsPrinted (map toupper ext) × (0 < length ext)

  -- FormatName gives back the name that SetFileName has stored, in upper case, for a text with a base
  -- of at most 8 characters and an extension of 1 to 3 characters or none, without more dots and
  -- without characters whose upper case is a space or zero.
  pub format_name-set_file_name :
      (entry : DirectoryEntry) (base : List ℕ) (ext : Option (List ℕ))
      → IsShort base ext
      → Readable base ext
      → format_name (record entry { name = set_file_name toupper (text_of base ext) })
        ≡ text_of (map toupper base) (Option.map (map toupper) ext)
  format_name-set_file_name entry base none short shown = format_name-step _ (map toupper base) [] (
      read_name-stored entry base [] (set_file_name toupper base) 3 short.1 shown tt refl
        (set_file_name-base toupper base short.0 ∙ stored_base base short.1))
  format_name-set_file_name entry base (some []) short shown = absurd (omega (arith, shown.2))
  format_name-set_file_name entry base (some (c ∷ ext)) short shown =
      format_name-step _ (map toupper base) (map toupper (c ∷ ext)) (
        read_name-stored entry base (c ∷ ext) (set_file_name toupper (base ++ dot ∷ c ∷ ext))
          (3 - length (c ∷ ext)) short.1 shown.0 shown.1 (omega (arith, short.3))
          (set_file_name-ext toupper base (c ∷ ext) short.2
            ∙ stored_ext base (c ∷ ext) short.1 short.3))
