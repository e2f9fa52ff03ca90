-- ===== src/Fat/Directories/Paths.antt =====
-- CreateFile and FindFile of kernel/fat.cpp on names in the root directory.
use min_os.Common.{
  ℕ, suc, ◌≤◌, ◌<◌, ◌≡◌, refl, ap, ◌∙◌, true, false, Option, none, some, List, [], ◌∷◌, ◌==◌, ltb,
  length, length-append, All, arith,
}
use min_os.Fat.{first_cluster}
use min_os.Fat.Chains.{Table, end_of_clusterchain}
use min_os.Fat.Chains.Extension.{Chain}
use min_os.Fat.Chains.Append.{Distinct}
use min_os.Fat.Names.{dot, slash, strchr, strrchr, parted, next_path_element, name_is_equal}
use min_os.Fat.Names.Stored.{text_of, IsShort, name_is_equal-set_file_name}
use min_os.Fat.Directories.{
  Directories, Slot, first_char, find_entry, start_of, find_file, created, allocate_entry, done,
  create_in, create_split, create_file, zero_entry,
}
use min_os.Fat.Directories.Lookup.{slots, lookup, find_entry-lookup}
use min_os.Fat.Directories.Allocation.{unused_in, allocate_entry-unused_in}
use min_os.Fat.Directories.Creation.{stored, with_entry, chain-finds}

-- A path of one element.
abbrev pub IsName : List ℕ → Type 0
IsName text = All (λ c. (c == slash) ≡ false) text

strchr-IsName : (text : List ℕ) → IsName text → strchr slash text ≡ none
unfolding strchr
strchr-IsName [] h = refl
strchr-IsName (c ∷ text) h = rw (h.0, strchr-IsName text h.1) refl

strrchr-IsName : (text : List ℕ) → IsName text → strrchr slash text ≡ none
unfolding strrchr
strrchr-IsName [] h = refl
strrchr-IsName (c ∷ text) h = rw (strrchr-IsName text h.1, h.0) refl

next_path_element-IsName : (text : List ℕ) → IsName text → next_path_element text ≡ (text, none)
unfolding next_path_element
next_path_element-IsName text h = ap (parted text) (strchr-IsName text h)

start_of-IsName : (root : ℕ) (text : List ℕ) → IsName text → start_of root text 0 ≡ (root, text)
start_of-IsName root [] h = refl
start_of-IsName root (c ∷ text) h = rw h.0 refl

length-text_of :
    (base : List ℕ) (ext : Option (List ℕ)) → IsShort base ext → length (text_of base ext) ≤ 12
length-text_of base none h = omega (arith, h.1)
length-text_of base (some ext) h = omega (arith, h.1, h.3, length-append base (dot ∷ ext))

module _ (toupper : ℕ → ℕ) (depth fuel root : ℕ) where
  find_file-last :
      (fat : Table) (dirs : Directories) (path rest elem : List ℕ) (directory : ℕ)
      (found : Option Slot)
      → start_of root path 0 ≡ (directory, rest)
      → next_path_element rest ≡ (elem, none)
      → ltb 12 (length elem) ≡ false
      → find_entry toupper fuel fat dirs elem directory ≡ some found
      → find_file toupper (suc depth) fuel root fat dirs path 0 ≡ some (found, false)
  unfolding find_file
  find_file-last fat dirs path rest elem directory found e f short run = rw (e, f, short, run) refl

  find_file-IsName :
      (fat : Table) (dirs : Directories) (text : List ℕ) (found : Option Slot)
      → IsName text
      → length text ≤ 12
      → find_entry toupper fuel fat dirs text root ≡ some found
      → find_file toupper (suc depth) fuel root fat dirs text 0 ≡ some (found, false)
  find_file-IsName fat dirs text found name short run =
      find_file-last fat dirs text text text root found (start_of-IsName root text name)
        (next_path_element-IsName text name) (ground arith) run

  create_file-IsName :
      (fat : Table) (dirs : Directories) (text : List ℕ)
      → IsName text
      → create_file toupper depth fuel root fat dirs text
        ≡ create_in toupper depth fuel root fat dirs text root
  unfolding create_file create_split
  create_file-IsName fat dirs text name =
      ap (create_split toupper depth fuel root fat dirs text) (strrchr-IsName text name)

  create_in-stored :
      (fat : Table) (dirs : Directories) (text : List ℕ) (parent : ℕ) (slot : Slot)
      → allocate_entry fuel fat dirs parent ≡ some (fat, dirs, slot)
      → create_in toupper depth fuel root fat dirs text parent
        ≡ some (
            done fat
              (stored dirs slot (created toupper text))
              (with_entry slot (created toupper text)))
  unfolding create_in
  create_in-stored fat dirs text parent slot run = rw (create_in, run) refl

  -- CreateFile of a name in the root directory that FindFile does not find there: when the name has a
  -- base of at most 8 characters and an extension of at most 3 or none, no more dots and no slash, and
  -- is not stored as an empty entry, and the directory, a chain of different clusters, has a deleted
  -- or empty entry, it stores an entry without clusters and bytes in the first such entry, and
  -- FindFile of the name then finds this entry, both within one round for each cluster and one more.
  pub create_file-find_file :
      (fat : Table) (dirs : Directories) (cs base : List ℕ) (ext : Option (List ℕ)) (slot : Slot)
      → Chain fat (root ∷ cs)
      → (root == end_of_clusterchain) ≡ false
      → Distinct (root ∷ cs)
      → length (root ∷ cs) < fuel
      → IsShort base ext
      → IsName (text_of base ext)
      → (first_char (created toupper (text_of base ext)) == 0) ≡ false
      → unused_in (slots dirs (root ∷ cs)) ≡ some slot
      → lookup toupper (text_of base ext) (slots dirs (root ∷ cs)) ≡ none
      → let text = text_of base ext in
        let entry = created toupper text in
        (dirs' : Directories) × (find_file toupper (suc depth) fuel root fat dirs text 0
          ≡ some (none, false))
        × (create_file toupper depth fuel root fat dirs text
            ≡ some (done fat dirs' (with_entry slot entry)))
        × (find_file toupper (suc depth) fuel root fat dirs' text 0
            ≡ some (some (with_entry slot entry), false))
        × (entry.file_size ≡ 0)
        × (first_cluster entry ≡ 0)
  unfolding first_cluster
  create_file-find_file fat dirs cs base ext slot chain inside distinct long short name named free
        missing =
      let text = text_of base ext in
      let entry = created toupper text in
      let dirs' = stored dirs slot entry in
      let same : name_is_equal toupper entry text ≡ true =
        name_is_equal-set_file_name toupper zero_entry base ext short in
      let (_, finds) =
        chain-finds toupper text entry named same dirs (root ∷ cs) slot distinct free missing in
      (
        dirs',
        find_file-IsName fat dirs text none name (length-text_of base ext short) (
            find_entry-lookup toupper text fuel fat dirs root cs chain inside long
            ∙ ap some missing),
        create_file-IsName fat dirs text name
            ∙ create_in-stored fat dirs text root slot
                (allocate_entry-unused_in fuel fat dirs root cs slot chain (omega arith) free),
        find_file-IsName fat dirs' text (some (with_entry slot entry)) name
            (length-text_of base ext short)
            (find_entry-lookup toupper text fuel fat dirs' root cs chain inside long
              ∙ ap some finds),
        refl,
        refl,
      )
