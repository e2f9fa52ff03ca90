-- ===== src/Fat/Tests.antt =====
-- A small volume of kernel/fat.cpp: clusters of four bytes, the root directory in cluster 2, a file in
-- clusters 3 and 4, and the rest free.
use min_os.Common.{
  ℕ, ◌+◌, ◌-◌, ◌*◌, ◌≡◌, refl, true, false, none, some, List, [], ◌∷◌, ◌++◌, leb, if◌then◌else◌,
  ◌&&◌, put, count, replicate, arith,
}
use min_os.Fat.{DirectoryEntry, first_cluster}
use min_os.Fat.Chains.{Table, end_of_clusterchain, extend_cluster}
use min_os.Fat.Chains.Extension.{Chain, free_clusters}
use min_os.Fat.Chains.Allocation.{extend_cluster-Chain}
use min_os.Fat.Files.{overlay, Volume, FileDescriptor, fresh, read, load_file, write}
use min_os.Fat.Files.Whole.{HasChain, load_file-contents, read-read}
use min_os.Fat.Files.Saved.{write-load_file}
use min_os.Fat.Files.Created.{write-new_file}
use min_os.Fat.Names.{space, name_is_equal, set_file_name, format_name}
use min_os.Fat.Names.Stored.{name_is_equal-set_file_name}
use min_os.Fat.Names.Read.{format_name-set_file_name}
use min_os.Fat.Directories.{
  Directories, zero_entry, find_entry, find_file, created, allocate_entry, done, create_file,
}
use min_os.Fat.Directories.Lookup.{lookup, find_entry-lookup}
use min_os.Fat.Directories.Allocation.{unused_in, allocate_entry-extends}
use min_os.Fat.Directories.Paths.{create_file-find_file}

abbrev pub upper : ℕ → ℕ
upper c = if leb 97 c && leb c 122 then c - 32 else c

abbrev pub small_fat : Table
small_fat = put 2 end_of_clusterchain (put 3 4 (put 4 end_of_clusterchain (λ c. 0)))

abbrev small_volume : Volume
small_volume = record { fat = small_fat; bytes = λ c i. 10 * c + i }

abbrev pub letter : DirectoryEntry
letter = record zero_entry {
  name = set_file_name upper (97 ∷ []);
  first_cluster_low = 3;
  file_size = 6;
}

-- a.txt
abbrev pub other_name : List ℕ
other_name = 97 ∷ 46 ∷ 116 ∷ 120 ∷ 116 ∷ []

abbrev pub root : Directories
root = put 2 (letter ∷ zero_entry ∷ []) (λ c. zero_entry ∷ zero_entry ∷ [])

abbrev full_root : Directories
full_root = λ c. letter ∷ letter ∷ []

extend_cluster-Chain_example :
    (fat' : Table) × (extend_cluster 8 small_fat 3 2 ≡ some (fat', 6))
    × Chain fat' (3 ∷ 4 ∷ 5 ∷ 6 ∷ [])
    × ((xs : List ℕ) → Chain small_fat xs → count 4 xs ≡ 0 → Chain fat' xs)
    × ((x : ℕ) → count x (4 ∷ 5 ∷ 6 ∷ []) ≡ 0 → fat' x ≡ small_fat x)
unfolding free_clusters
extend_cluster-Chain_example =
    extend_cluster-Chain 8 small_fat 3 (4 ∷ []) 2 (refl, refl, omega arith, refl) (omega arith)
      (omega arith) (omega arith)

letter-HasChain : HasChain 4 small_volume letter 3 (4 ∷ [])
unfolding first_cluster
letter-HasChain = record {
  starts = refl;
  named = omega arith;
  chain = (refl, refl, omega arith, refl);
  holds = omega arith;
  small = omega arith;
  positive = omega arith;
}

first_five : load_file 4 small_volume letter 5 ≡ some (30 ∷ 31 ∷ 32 ∷ 33 ∷ 40 ∷ [])
first_five = load_file-contents 4 small_volume letter 3 (4 ∷ []) letter-HasChain 5

eight_and_four :
    (fd : FileDescriptor) × (buf : List ℕ) × (fd' : FileDescriptor) × (buf' : List ℕ) × (read 4
        small_volume letter fresh 3
      ≡ some (fd, buf))
    × (read 4 small_volume letter fd 9 ≡ some (fd', buf'))
    × (load_file 4 small_volume letter 12 ≡ some (buf ++ buf'))
eight_and_four = read-read 4 small_volume letter 3 (4 ∷ []) letter-HasChain 3 9

-- Six bytes over the file.
write-load_file_example :
    (v' : Volume) × (fd : FileDescriptor) × (write 4 8 small_volume letter fresh
        (1 ∷ 2 ∷ 3 ∷ 4 ∷ 5 ∷ 6 ∷ [])
      ≡ some (v', record letter { file_size = 6 }, fd))
    × (load_file 4 v' (record letter { file_size = 6 }) 6 ≡ some (1 ∷ 2 ∷ 3 ∷ 4 ∷ 5 ∷ 6 ∷ []))
    × (v'.fat ≡ small_fat)
    × ((d : ℕ) → count d (3 ∷ 4 ∷ []) ≡ 0 → v'.bytes d ≡ small_volume.bytes d)
unfolding first_cluster
write-load_file_example =
    write-load_file 4 8 small_volume letter 3 (4 ∷ []) (1 ∷ 2 ∷ 3 ∷ 4 ∷ 5 ∷ 6 ∷ []) refl
      (omega arith) (refl, refl, omega arith, refl) (refl, (refl, tt)) (omega arith) (omega arith)
      (omega arith)

-- The same to an entry that has no cluster.
write-new_file_example :
    (v' : Volume) × (entry' : DirectoryEntry) × (fd : FileDescriptor) × (write 4 8 small_volume
        zero_entry fresh
        (1 ∷ 2 ∷ 3 ∷ 4 ∷ 5 ∷ 6 ∷ [])
      ≡ some (v', entry', fd))
    × (load_file 4 v' entry' 6 ≡ some (1 ∷ 2 ∷ 3 ∷ 4 ∷ 5 ∷ 6 ∷ []))
    × (first_cluster entry' ≡ 5)
    × (entry'.file_size ≡ 6)
    × ((d : ℕ)
        → count d (5 ∷ 6 ∷ []) ≡ 0
        → (v'.fat d ≡ small_fat d) × (v'.bytes d ≡ small_volume.bytes d))
unfolding first_cluster free_clusters
write-new_file_example =
    write-new_file 4 8 small_volume zero_entry 5 (6 ∷ 7 ∷ 8 ∷ 9 ∷ []) (1 ∷ 2 ∷ 3 ∷ 4 ∷ 5 ∷ 6 ∷ [])
      refl (omega arith) refl (omega arith) (omega arith) (omega arith)

name_is_equal-set_file_name_example :
    name_is_equal upper (record letter { name = set_file_name upper other_name }) other_name ≡ true
name_is_equal-set_file_name_example =
    name_is_equal-set_file_name upper letter (97 ∷ []) (some (116 ∷ 120 ∷ 116 ∷ []))
      ((refl, tt), omega arith, (refl, (refl, (refl, tt))), omega arith)

-- A.TXT
shown_name :
    format_name (record letter { name = set_file_name upper other_name })
    ≡ 65 ∷ 46 ∷ 84 ∷ 88 ∷ 84 ∷ []
shown_name =
    format_name-set_file_name upper letter (97 ∷ []) (some (116 ∷ 120 ∷ 116 ∷ []))
      ((refl, tt), omega arith, (refl, (refl, (refl, tt))), omega arith)
      (((refl, refl), tt), ((refl, refl), ((refl, refl), ((refl, refl), tt))), omega arith)

find_entry-lookup_example :
    find_entry upper 3 small_fat root (65 ∷ []) 2
    ≡ some (some (record { cluster = 2; index = 0; entry = letter }))
unfolding lookup name_is_equal set_file_name
find_entry-lookup_example =
    find_entry-lookup upper (65 ∷ []) 3 small_fat root 2 [] refl refl (omega arith)

full_directory_grows :
    (fat' : Table) × (allocate_entry 8 small_fat full_root 2
      ≡ some (
        fat',
        put 5 (zero_entry ∷ zero_entry ∷ []) full_root,
        record { cluster = 5; index = 0; entry = zero_entry },
      ))
    × Chain fat' (2 ∷ 5 ∷ [])
unfolding free_clusters unused_in set_file_name
full_directory_grows =
    allocate_entry-extends 8 small_fat full_root 2 5 [] (6 ∷ 7 ∷ 8 ∷ 9 ∷ []) refl (omega arith)
      (omega arith) refl refl

create_file-find_file_example :
    let entry = created upper other_name in
    (dirs' : Directories) × (find_file upper 1 8 2 small_fat root other_name 0 ≡ some (none, false))
    × (create_file upper 0 8 2 small_fat root other_name
        ≡ some (done small_fat dirs' (record { cluster = 2; index = 1; entry = entry })))
    × (find_file upper 1 8 2 small_fat dirs' other_name 0
        ≡ some (some (record { cluster = 2; index = 1; entry = entry }), false))
    × (entry.file_size ≡ 0)
    × (first_cluster entry ≡ 0)
unfolding lookup name_is_equal set_file_name unused_in
create_file-find_file_example =
    create_file-find_file upper 0 8 2 small_fat root [] (97 ∷ []) (some (116 ∷ 120 ∷ 116 ∷ []))
      (record { cluster = 2; index = 1; entry = zero_entry }) refl refl (refl, tt) (omega arith)
      ((refl, tt), omega arith, (refl, (refl, (refl, tt))), omega arith)
      (refl, (refl, (refl, (refl, (refl, tt))))) refl refl refl

-- Sixteen bytes over the file of two clusters: ExtendCluster appends 5 and 6, and Write goes on in 6,
-- so that the file reads back with what is in 5.
abbrev sixteen : List ℕ
sixteen = 1 ∷ 1 ∷ 1 ∷ 1 ∷ 2 ∷ 2 ∷ 2 ∷ 2 ∷ 3 ∷ 3 ∷ 3 ∷ 3 ∷ 4 ∷ 4 ∷ 4 ∷ 4 ∷ []

skipped_cluster :
    elim (write 4 8 small_volume letter fresh sixteen) [
      | none ↦ none
      | some (v, entry, fd) ↦ load_file 4 v entry 16
    ]
    ≡ some (1 ∷ 1 ∷ 1 ∷ 1 ∷ 2 ∷ 2 ∷ 2 ∷ 2 ∷ 50 ∷ 51 ∷ 52 ∷ 53 ∷ 3 ∷ 3 ∷ 3 ∷ 3 ∷ [])
unfolding write load_file first_cluster extend_cluster overlay
skipped_cluster = refl

-- A name of nine characters without a dot is stored without the last one, and not found again.
abbrev nine : List ℕ
nine = 97 ∷ 97 ∷ 97 ∷ 97 ∷ 97 ∷ 97 ∷ 97 ∷ 97 ∷ 97 ∷ []

lost_name : name_is_equal upper (record letter { name = set_file_name upper nine }) nine ≡ false
unfolding name_is_equal set_file_name
lost_name = refl

-- The name of the entry of the parent directory is not found.
parent_name :
    name_is_equal upper (record letter { name = 46 ∷ 46 ∷ replicate 9 space }) (46 ∷ 46 ∷ [])
    ≡ false
unfolding name_is_equal
parent_name = refl
