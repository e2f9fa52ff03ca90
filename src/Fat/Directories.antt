-- ===== src/Fat/Directories.antt =====
-- Directories of kernel/fat.cpp: a cluster of a directory is the list of its entries. `none` is a
-- walk that has left the chain or the FAT, or a write outside of an array.
pub mod Lookup
pub mod Allocation
pub mod Creation
pub mod Paths
use min_os.Common.{
  ℕ, zero, suc, ◌+◌, Bool, true, false, Option, none, some, List, [], ◌∷◌, ◌==◌, leb, ltb,
  if◌then◌else◌, ◌||◌, ◌&&◌, not, put, set, map, length,
}
use min_os.Error.{Code}
use min_os.Fat.{DirectoryEntry, first_cluster}
use min_os.Fat.Chains.{Table, next_cluster, end_of_clusterchain, extend_cluster}
use min_os.Fat.Names.{slash, strrchr, next_path_element, name_is_equal, set_file_name}

abbrev pub Directories : Type 0
Directories = ℕ → List DirectoryEntry

-- The address of an entry, and what is there.
pub record Slot : Type 0 where
  pub cluster : ℕ
  pub index : ℕ
  pub entry : DirectoryEntry

abbrev pub first_char : DirectoryEntry → ℕ
first_char entry = elim entry.name [ [] ↦ 0 | c ∷ cs ↦ c ]

-- What the loop over the entries of a cluster does: it ends the search, with an entry or without,
-- or goes on to the next cluster.
pub data Search : Type 0 where
  found : Slot → Search
  not_found : Search
  go_on : Search

-- The directory that FindFile starts in, and the rest of the path.
abbrev pub start_of : (root_cluster : ℕ) → (path : List ℕ) → (directory_cluster : ℕ) → ℕ × List ℕ
start_of root [] cluster = (if cluster == 0 then root else cluster, [])
start_of root (c ∷ path) cluster =
    if c == slash then (root, path) else (if cluster == 0 then root else cluster, c ∷ path)

-- Is there no more element of the path?
abbrev pub is_last : Option (List ℕ) → Bool
is_last none = true
is_last (some []) = true
is_last (some (c ∷ cs)) = false

-- What FindFile makes of the entry with the name; `go` is its call of itself with the entry and the
-- text behind the slash.
abbrev pub follow :
    (go : Slot → List ℕ → Option (Option Slot × Bool))
    → (next : Option (List ℕ)) → Option (Option Slot)
    → Option (Option Slot × Bool)
follow go next none = none
follow go none (some answer) = some (answer, false)
follow go (some text) (some none) = some (none, true)
follow go (some text) (some (some slot)) =
    if (slot.entry.attr == 0x10) && not (is_last (some text))
    then go slot text
    else some (some slot, true)

module _ (toupper : ℕ → ℕ) where
  -- The inner loop of FindFile.
  unfoldable pub search : (elem : List ℕ) → (cluster index : ℕ) → List DirectoryEntry → Search
  search elem cluster index [] = go_on
  search elem cluster index (entry ∷ entries) =
      let rest = search elem cluster (index + 1) entries in
      if first_char entry == 0
      then not_found
      else (if name_is_equal toupper entry elem
          then found (record { cluster = cluster; index = index; entry = entry })
          else rest)

  -- The outer loop of FindFile.
  unfoldable pub find_entry :
      (fuel : ℕ)
      → Table
      → Directories
      → (elem : List ℕ) → (directory_cluster : ℕ) → Option (Option Slot)
  unfolding search
  find_entry zero fat dirs elem cluster = none
  find_entry (suc fuel) fat dirs elem cluster =
      if cluster == end_of_clusterchain
      then some none
      else elim (search elem cluster 0 (dirs cluster)) [
        | found slot ↦ some (some slot)
        | not_found ↦ some none
        | go_on ↦ find_entry fuel fat dirs elem (next_cluster fat cluster)
      ]

  -- FindFile: the entry, and whether a slash follows its name. `depth` is for the calls that it makes
  -- of itself; path_elem has room for 12 characters.
  unfoldable pub find_file :
      (depth fuel : ℕ)
      → (root_cluster : ℕ) → Table
      → Directories
      → (path : List ℕ) → (directory_cluster : ℕ) → Option (Option Slot × Bool)
  unfolding find_entry next_path_element
  find_file zero fuel root fat dirs path cluster = none
  find_file (suc depth) fuel root fat dirs path cluster =
      let (directory, rest) = start_of root path cluster in
      let (elem, next) = next_path_element rest in
      if ltb 12 (length elem)
      then none
      else follow (λ slot text. find_file depth fuel root fat dirs text (first_cluster slot.entry))
          next (find_entry fuel fat dirs elem directory)

-- A deleted or an empty entry.
abbrev pub is_unused : DirectoryEntry → Bool
is_unused entry = (first_char entry == 0) || (first_char entry == 0xe5)

-- The loop of AllocateEntry over the entries of a cluster.
unfoldable pub first_unused : (cluster index : ℕ) → List DirectoryEntry → Option Slot
first_unused cluster index [] = none
first_unused cluster index (entry ∷ entries) =
    let rest = first_unused cluster (index + 1) entries in
    if is_unused entry
    then some (record { cluster = cluster; index = index; entry = entry })
    else rest

-- Where the loop of AllocateEntry over the clusters ends.
pub data Walk : Type 0 where
  unused : Slot → Walk
  full : (last : ℕ) → Walk

unfoldable pub walk : (fuel : ℕ) → Table → Directories → (dir_cluster : ℕ) → Option Walk
unfolding first_unused
walk zero fat dirs cluster = none
walk (suc fuel) fat dirs cluster = elim (first_unused cluster 0 (dirs cluster)) [
  | some slot ↦ some (unused slot)
  | none ↦
      if next_cluster fat cluster == end_of_clusterchain
      then some (full cluster)
      else walk fuel fat dirs (next_cluster fat cluster)
]

abbrev pub zero_entry : DirectoryEntry
zero_entry = record {
  name = 0 ∷ 0 ∷ 0 ∷ 0 ∷ 0 ∷ 0 ∷ 0 ∷ 0 ∷ 0 ∷ 0 ∷ 0 ∷ [];
  attr = 0;
  first_cluster_high = 0;
  first_cluster_low = 0;
  file_size = 0;
}

-- memset of a cluster of a directory.
abbrev pub clear : List DirectoryEntry → List DirectoryEntry
clear = map (λ entry. zero_entry)

-- AllocateEntry.
unfoldable pub allocate_entry :
    (fuel : ℕ) → Table → Directories → (dir_cluster : ℕ) → Option (Table × Directories × Slot)
unfolding walk
allocate_entry fuel fat dirs cluster = elim (walk fuel fat dirs cluster) [
  | none ↦ none
  | some (unused slot) ↦ some (fat, dirs, slot)
  | some (full last) ↦ elim (extend_cluster fuel fat last 1) [
    | none ↦ none
    | some (fat', new) ↦ some (
      fat',
      put new (clear (dirs new)) dirs,
      record { cluster = new; index = 0; entry = zero_entry },
    )
  ]
]

-- What CreateFile stores in the entry that it has been given.
abbrev pub created : (toupper : ℕ → ℕ) → (filename : List ℕ) → DirectoryEntry
created toupper filename = record zero_entry { name = set_file_name toupper filename }

-- What CreateFile returns, or the state that it leaves with the entry's address.
pub data CreateResult : Type 0 where
  error : Code → CreateResult
  done : Table → Directories → Slot → CreateResult

module _ (toupper : ℕ → ℕ) (depth fuel root_cluster : ℕ) where
  -- CreateFile, once the parent directory is known.
  unfoldable pub create_in :
      Table → Directories → (filename : List ℕ) → (parent_dir_cluster : ℕ) → Option CreateResult
  unfolding allocate_entry
  create_in fat dirs filename parent = elim (allocate_entry fuel fat dirs parent) [
    | none ↦ none
    | some (fat', dirs', slot) ↦
        let entry = created toupper filename in
        some (
          done fat' (put slot.cluster (set (dirs' slot.cluster) slot.index entry) dirs')
            (record slot { entry = entry }))
  ]

  -- CreateFile, given the texts before and behind the last slash.
  unfoldable pub create_split :
      Table → Directories → (path : List ℕ) → Option (List ℕ × List ℕ) → Option CreateResult
  unfolding create_in find_file
  create_split fat dirs path none = create_in fat dirs path root_cluster
  create_split fat dirs path (some (parent, [])) = some (error Code.is_directory)
  create_split fat dirs path (some ([], c ∷ cs)) = create_in fat dirs (c ∷ cs) root_cluster
  create_split fat dirs path (some (p ∷ ps, c ∷ cs)) =
      elim (find_file toupper depth fuel root_cluster fat dirs (p ∷ ps) 0) [
        | none ↦ none
        | some (none, post_slash) ↦ some (error Code.no_such_entry)
        | some (some slot, post_slash) ↦ create_in fat dirs (c ∷ cs) (first_cluster slot.entry)
      ]

  -- CreateFile.
  unfoldable pub create_file : Table → Directories → (path : List ℕ) → Option CreateResult
  unfolding create_split
  create_file fat dirs path = create_split fat dirs path (strrchr slash path)
