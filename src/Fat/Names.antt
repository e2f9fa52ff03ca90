-- ===== src/Fat/Names.antt =====
-- File names and paths of kernel/fat.cpp. A text is the list of its bytes, without the zero at its
-- end; `toupper` is the C library's function and stands as a parameter.
pub mod Stored
pub mod Spaces
pub mod Read
use min_os.Common.{
  ℕ, zero, suc, ◌+◌, Bool, true, false, Option, none, some, List, [], ◌∷◌, ◌++◌, ◌==◌, leb,
  if◌then◌else◌, set, take, drop, replicate, ◌&&◌,
}
use min_os.Fat.{DirectoryEntry}

abbrev pub dot : ℕ
dot = 46

abbrev pub slash : ℕ
slash = 47

abbrev pub space : ℕ
space = 32

-- strchr: the text before the first `ch`, and the text behind it.
unfoldable pub strchr : (ch : ℕ) → List ℕ → Option (List ℕ × List ℕ)
strchr ch [] = none
strchr ch (c ∷ text) =
    let rest = strchr ch text in
    if c == ch
    then some ([], text)
    else elim rest [ none ↦ none | some (front, back) ↦ some (c ∷ front, back) ]

-- strrchr: the text before the last `ch`, and the text behind it.
unfoldable pub strrchr : (ch : ℕ) → List ℕ → Option (List ℕ × List ℕ)
strrchr ch [] = none
strrchr ch (c ∷ text) = elim (strrchr ch text) [
  | some (front, back) ↦ some (c ∷ front, back)
  | none ↦ if c == ch then some ([], text) else none
]

abbrev pub parted : List ℕ → Option (List ℕ × List ℕ) → List ℕ × Option (List ℕ)
parted path none = (path, none)
parted path (some (elem, next)) = (elem, some next)

-- NextPathElement: the element, and what follows a slash.
unfoldable pub next_path_element : (path : List ℕ) → List ℕ × Option (List ℕ)
unfolding strchr
next_path_element path = parted path (strchr slash path)

-- memcmp of two names gives 0.
abbrev pub same_name : List ℕ → List ℕ → Bool
same_name [] [] = true
same_name (x ∷ xs) (y ∷ ys) = (x == y) && same_name xs ys
same_name [] (y ∷ ys) = false
same_name (x ∷ xs) [] = false

-- Eleven spaces.
abbrev pub blank_name : List ℕ
blank_name = replicate 11 space

module _ (toupper : ℕ → ℕ) where
  -- The loop of NameIsEqual. A dot sets the place to 7, and the loop's own step to 8.
  unfoldable pub fill_name : (name : List ℕ) (i83 : ℕ) (name83 : List ℕ) → List ℕ
  fill_name [] i83 name83 = name83
  fill_name (c ∷ name) i83 name83 =
      if leb 11 i83
      then name83
      else (if c == dot
          then fill_name name (7 + 1) name83
          else fill_name name (i83 + 1) (set name83 i83 (toupper c)))

  -- NameIsEqual.
  unfoldable pub name_is_equal : DirectoryEntry → (name : List ℕ) → Bool
  unfolding fill_name
  name_is_equal entry name = same_name entry.name (fill_name name 0 blank_name)

  -- A loop of SetFileName: at most `limit` characters, to the places from `at` on.
  unfoldable pub copy_upper : (limit at : ℕ) → List ℕ → (name : List ℕ) → List ℕ
  copy_upper zero at text name = name
  copy_upper (suc limit) at [] name = name
  copy_upper (suc limit) at (c ∷ text) name =
      copy_upper limit (at + 1) text (set name at (toupper c))

  -- SetFileName: the name that it puts in the entry.
  unfoldable pub set_file_name : (name : List ℕ) → List ℕ
  unfolding copy_upper strrchr
  set_file_name name = elim (strrchr dot name) [
    | some (base, ext) ↦ copy_upper 3 8 ext (copy_upper 8 0 base blank_name)
    | none ↦ copy_upper 8 0 name blank_name
  ]

-- The loop of ReadName that turns spaces at the end into zeros.
abbrev pub strip : List ℕ → List ℕ
strip [] = []
strip (c ∷ text) = elim (strip text) [
  | [] ↦ if c == space then [] else c ∷ []
  | d ∷ ds ↦ c ∷ d ∷ ds
]

-- The text of an array of characters.
abbrev pub c_text : List ℕ → List ℕ
c_text [] = []
c_text (c ∷ text) = let rest = c_text text in if c == 0 then [] else c ∷ rest

-- ReadName: the base and the extension.
unfoldable pub read_name : DirectoryEntry → List ℕ × List ℕ
read_name entry = (c_text (strip (take 8 entry.name)), c_text (strip (take 3 (drop 8 entry.name))))

-- The dot of FormatName, which only an extension has.
abbrev pub joined : List ℕ × List ℕ → List ℕ
joined (base, []) = base
joined (base, c ∷ ext) = base ++ dot ∷ c ∷ ext

-- FormatName.
unfoldable pub format_name : DirectoryEntry → List ℕ
format_name entry = joined (read_name entry)
