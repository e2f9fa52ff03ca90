-- ===== src/Fat/Directories/Lookup.antt =====
-- FindFile of kernel/fat.cpp as a search of the entries of a directory.
use min_os.Common.{
  ℕ, zero, suc, ◌+◌, ◌<◌, ◌≡◌, refl, sym, ap, ◌∙◌, inl, inr, false, Option, none, some, List, [],
  ◌∷◌, ◌++◌, ◌==◌, if◌then◌else◌, length, arith, Bool-cases,
}
use min_os.Fat.{DirectoryEntry}
use min_os.Fat.Chains.{Table, next_cluster, end_of_clusterchain}
use min_os.Fat.Chains.Extension.{Chain}
use min_os.Fat.Names.{name_is_equal}
use min_os.Fat.Directories.{
  Directories, Slot, first_char, Search, found, not_found, go_on, search, find_entry,
}

-- The entries of a cluster with their addresses, and those of a chain.
abbrev pub slots_from : (cluster index : ℕ) → List DirectoryEntry → List Slot
slots_from cluster index [] = []
slots_from cluster index (entry ∷ entries) =
    record { cluster = cluster; index = index; entry = entry }
    ∷ slots_from cluster (index + 1) entries

abbrev pub slots : Directories → (chain : List ℕ) → List Slot
slots dirs [] = []
slots dirs (c ∷ cs) = slots_from c 0 (dirs c) ++ slots dirs cs

module _ (toupper : ℕ → ℕ) (elem : List ℕ) where
  -- The first entry with the name, before the first empty one.
  unfoldable pub lookup : List Slot → Option Slot
  lookup [] = none
  lookup (slot ∷ rest) =
      if first_char slot.entry == 0
      then none
      else (if name_is_equal toupper slot.entry elem then some slot else lookup rest)

  -- The search goes on behind a cluster with `rest`.
  abbrev continue : Search → Option Slot → Option Slot
  continue (found slot) rest = some slot
  continue not_found rest = none
  continue go_on rest = rest

  search-lookup :
      (c index : ℕ) (entries : List DirectoryEntry) (rest : List Slot)
      → lookup (slots_from c index entries ++ rest)
        ≡ continue (search toupper elem c index entries) (lookup rest)
  unfolding lookup search
  search-lookup c index [] rest = refl
  search-lookup c index (entry ∷ entries) rest = elim (Bool-cases (first_char entry == 0)) [
    | inl ends ↦ rw ends refl
    | inr more ↦ elim (Bool-cases (name_is_equal toupper entry elem)) [
      | inl same ↦ rw (more, same) refl
      | inr other ↦ rw (more, other) (search-lookup c (index + 1) entries rest)
    ]
  ]

  find_entry-end :
      (fuel : ℕ) (fat : Table) (dirs : Directories)
      → find_entry toupper (suc fuel) fat dirs elem end_of_clusterchain ≡ some none
  unfolding find_entry
  find_entry-end fuel fat dirs = refl

  find_entry-step :
      (fuel : ℕ) (fat : Table) (dirs : Directories) (c : ℕ) (rest : Option Slot) (s : Search)
      → (c == end_of_clusterchain) ≡ false
      → search toupper elem c 0 (dirs c) ≡ s
      → find_entry toupper fuel fat dirs elem (next_cluster fat c) ≡ some rest
      → find_entry toupper (suc fuel) fat dirs elem c ≡ some (continue s rest)
  unfolding find_entry
  find_entry-step fuel fat dirs c rest (found slot) inside e next = rw (find_entry, inside, e) refl
  find_entry-step fuel fat dirs c rest not_found inside e next = rw (find_entry, inside, e) refl
  find_entry-step fuel fat dirs c rest go_on inside e next = rw (find_entry, inside, e) next

  cluster_step :
      (fuel : ℕ) (fat : Table) (dirs : Directories) (c : ℕ) (cs : List ℕ)
      → (c == end_of_clusterchain) ≡ false
      → find_entry toupper fuel fat dirs elem (next_cluster fat c) ≡ some (lookup (slots dirs cs))
      → find_entry toupper (suc fuel) fat dirs elem c ≡ some (lookup (slots dirs (c ∷ cs)))
  cluster_step fuel fat dirs c cs inside next =
      find_entry-step fuel fat dirs c (lookup (slots dirs cs)) _ inside refl next
      ∙ ap some (sym (search-lookup c 0 (dirs c) (slots dirs cs)))

  -- The search of FindFile in a directory, whose first cluster is not the end mark that FindFile tests
  -- for, is the search of the entries of its chain in order: the first
  -- entry with the name, unless an empty entry stands before it. It ends within one step for each
  -- cluster and one more.
  pub find_entry-lookup :
      (fuel : ℕ) (fat : Table) (dirs : Directories) (c : ℕ) (cs : List ℕ)
      → Chain fat (c ∷ cs)
      → (c == end_of_clusterchain) ≡ false
      → length (c ∷ cs) < fuel
      → find_entry toupper fuel fat dirs elem c ≡ some (lookup (slots dirs (c ∷ cs)))
  unfolding lookup
  find_entry-lookup zero fat dirs c cs chain inside h = absurd (omega arith)
  find_entry-lookup (suc zero) fat dirs c [] chain inside h = absurd (omega arith)
  find_entry-lookup (suc (suc fuel)) fat dirs c [] chain inside h =
      let ends : next_cluster fat c ≡ end_of_clusterchain = rw chain refl in
      cluster_step (suc fuel) fat dirs c [] inside
        (ap (find_entry toupper (suc fuel) fat dirs elem) ends ∙ find_entry-end fuel fat dirs)
  find_entry-lookup (suc fuel) fat dirs c (d ∷ ds) chain inside h =
      let next : next_cluster fat c ≡ d = rw chain.0 chain.1 in
      cluster_step fuel fat dirs c (d ∷ ds) inside (
        ap (find_entry toupper fuel fat dirs elem) next
        ∙ find_entry-lookup fuel fat dirs d ds chain.3 (ground (arith, chain.0, chain.1))
            (omega arith))
