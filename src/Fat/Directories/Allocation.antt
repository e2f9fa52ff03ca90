-- ===== src/Fat/Directories/Allocation.antt =====
-- AllocateEntry of kernel/fat.cpp as a search of the entries of a directory.
use mathlib.Core.Path.{subst}
use min_os.Common.{
  ℕ, zero, suc, ◌+◌, ◌<◌, ◌≡◌, refl, sym, ap, ◌∙◌, ◌⊎◌, inl, inr, false, Option, none, some, List,
  [], ◌∷◌, ◌++◌, ◌==◌, if◌then◌else◌, put, length, take, arith, Bool-cases,
}
use min_os.Fat.{DirectoryEntry}
use min_os.Fat.Chains.{Table, next_cluster, end_of_clusterchain, extend_cluster}
use min_os.Fat.Chains.Extension.{Chain, free_clusters, last_of, find_last-Chain}
use min_os.Fat.Chains.Append.{Chain-head}
use min_os.Fat.Chains.Allocation.{extend_cluster-Chain}
use min_os.Fat.Directories.{
  Directories, Slot, is_unused, first_unused, Walk, unused, full, walk, zero_entry, clear,
  allocate_entry,
}
use min_os.Fat.Directories.Lookup.{slots_from, slots}

-- The first deleted or empty entry.
unfoldable pub unused_in : List Slot → Option Slot
unused_in [] = none
unused_in (slot ∷ rest) = if is_unused slot.entry then some slot else unused_in rest

abbrev pub or_else : Option Slot → Option Slot → Option Slot
or_else (some slot) rest = some slot
or_else none rest = rest

pub Option-cases : (o : Option Slot) → ((s : Slot) × (o ≡ some s)) ⊎ (o ≡ none)
Option-cases none = inr refl
Option-cases (some s) = inl (s, refl)

pub unused_in-first_unused :
    (c index : ℕ) (entries : List DirectoryEntry) (rest : List Slot)
    → unused_in (slots_from c index entries ++ rest)
      ≡ or_else (first_unused c index entries) (unused_in rest)
unfolding unused_in first_unused
unused_in-first_unused c index [] rest = refl
unused_in-first_unused c index (entry ∷ entries) rest = elim (Bool-cases (is_unused entry)) [
  | inl free ↦ rw free refl
  | inr used ↦ rw used (unused_in-first_unused c (index + 1) entries rest)
]

-- Where the loop over the clusters ends.
abbrev ends : (last : ℕ) → Option Slot → Walk
ends last (some slot) = unused slot
ends last none = full last

walk-here :
    (fuel : ℕ) (fat : Table) (dirs : Directories) (c last : ℕ) (slot : Slot) (rest : Option Slot)
    → first_unused c 0 (dirs c) ≡ some slot
    → walk (suc fuel) fat dirs c ≡ some (ends last (or_else (first_unused c 0 (dirs c)) rest))
unfolding walk
walk-here fuel fat dirs c last slot rest e = rw (walk, e) refl

walk-last :
    (fuel : ℕ) (fat : Table) (dirs : Directories) (c : ℕ)
    → first_unused c 0 (dirs c) ≡ none
    → next_cluster fat c ≡ end_of_clusterchain
    → walk (suc fuel) fat dirs c ≡ some (full c)
unfolding walk
walk-last fuel fat dirs c e last = rw (walk, e, last) refl

walk-next :
    (fuel : ℕ) (fat : Table) (dirs : Directories) (c : ℕ)
    → first_unused c 0 (dirs c) ≡ none
    → (next_cluster fat c == end_of_clusterchain) ≡ false
    → walk (suc fuel) fat dirs c ≡ walk fuel fat dirs (next_cluster fat c)
unfolding walk
walk-next fuel fat dirs c e more = rw (walk, e, more) refl

walk-found :
    (fuel : ℕ) (fat : Table) (dirs : Directories) (c : ℕ) (cs : List ℕ) (s : Slot)
    → first_unused c 0 (dirs c) ≡ some s
    → walk (suc fuel) fat dirs c ≡ some (ends (last_of c cs) (unused_in (slots dirs (c ∷ cs))))
walk-found fuel fat dirs c cs s here =
    walk-here fuel fat dirs c (last_of c cs) s (unused_in (slots dirs cs)) here
    ∙ ap (λ o. some (ends (last_of c cs) o))
        (sym (unused_in-first_unused c 0 (dirs c) (slots dirs cs)))

pub unused_in-passed :
    (dirs : Directories) (c : ℕ) (cs : List ℕ)
    → first_unused c 0 (dirs c) ≡ none
    → unused_in (slots dirs (c ∷ cs)) ≡ unused_in (slots dirs cs)
unused_in-passed dirs c cs passed =
    unused_in-first_unused c 0 (dirs c) (slots dirs cs)
    ∙ ap (λ o. or_else o (unused_in (slots dirs cs))) passed

walk-unused_in :
    (fuel : ℕ) (fat : Table) (dirs : Directories) (c : ℕ) (cs : List ℕ)
    → Chain fat (c ∷ cs)
    → length cs < fuel
    → walk fuel fat dirs c ≡ some (ends (last_of c cs) (unused_in (slots dirs (c ∷ cs))))
unfolding unused_in
walk-unused_in zero fat dirs c cs chain h = absurd (omega arith)
walk-unused_in (suc fuel) fat dirs c [] chain h = elim (Option-cases (first_unused c 0 (dirs c))) [
  | inl (s, here) ↦ walk-found fuel fat dirs c [] s here
  | inr passed ↦
      walk-last fuel fat dirs c passed (rw chain refl)
      ∙ ap (λ o. some (ends c o)) (sym (unused_in-passed dirs c [] passed))
]
walk-unused_in (suc fuel) fat dirs c (d ∷ ds) chain h =
    elim (Option-cases (first_unused c 0 (dirs c))) [
      | inl (s, here) ↦ walk-found fuel fat dirs c (d ∷ ds) s here
      | inr passed ↦
          let next : next_cluster fat c ≡ d = rw chain.0 chain.1 in
          walk-next fuel fat dirs c passed (ground (arith, chain.0, chain.1))
          ∙ ap (walk fuel fat dirs) next
          ∙ walk-unused_in fuel fat dirs d ds chain.3 (omega arith)
          ∙ ap (λ o. some (ends (last_of d ds) o)) (sym (unused_in-passed dirs c (d ∷ ds) passed))
    ]

-- AllocateEntry in a directory with a deleted or empty entry returns the first one, and changes
-- nothing.
pub allocate_entry-unused_in :
    (fuel : ℕ) (fat : Table) (dirs : Directories) (c : ℕ) (cs : List ℕ) (slot : Slot)
    → Chain fat (c ∷ cs)
    → length cs < fuel
    → unused_in (slots dirs (c ∷ cs)) ≡ some slot
    → allocate_entry fuel fat dirs c ≡ some (fat, dirs, slot)
unfolding allocate_entry
allocate_entry-unused_in fuel fat dirs c cs slot chain h e =
    let run : walk fuel fat dirs c ≡ some (unused slot) =
      walk-unused_in fuel fat dirs c cs chain h ∙ ap (λ o. some (ends (last_of c cs) o)) e in
    rw (allocate_entry, run) refl

-- ExtendCluster takes the same step from every cluster of a chain.
extend_cluster-last :
    (fuel : ℕ) (fat : Table) (c n : ℕ) (cs : List ℕ)
    → Chain fat (c ∷ cs)
    → length cs < fuel
    → extend_cluster fuel fat (last_of c cs) n ≡ extend_cluster fuel fat c n
unfolding extend_cluster
extend_cluster-last fuel fat c n cs chain h =
    let at_last =
      find_last-Chain fuel fat (last_of c cs) [] (Chain-head fat c cs chain) (omega arith) in
    rw (extend_cluster, at_last, find_last-Chain fuel fat c cs chain h) refl

-- AllocateEntry in a directory without a deleted or empty entry, when a cluster is free among those
-- that ExtendCluster looks at, which are below the end marks and at least as many as the directory's
-- clusters, appends the first free one to the directory, makes its entries zero and returns the
-- first entry.
pub allocate_entry-extends :
    (fuel : ℕ) (fat : Table) (dirs : Directories) (c d : ℕ) (cs ds : List ℕ)
    → Chain fat (c ∷ cs)
    → length cs < fuel
    → fuel + 2 < 0x0ffffff8
    → unused_in (slots dirs (c ∷ cs)) ≡ none
    → free_clusters fuel 2 fat ≡ d ∷ ds
    → (fat' : Table) × (allocate_entry fuel fat dirs c
        ≡ some (
          fat',
          put d (clear (dirs d)) dirs,
          record { cluster = d; index = 0; entry = zero_entry },
        ))
      × Chain fat' ((c ∷ cs) ++ (d ∷ []))
unfolding allocate_entry
allocate_entry-extends fuel fat dirs c d cs ds chain long small none_unused list =
    let e = last_of c cs in
    let run : walk fuel fat dirs c ≡ some (full e) =
      walk-unused_in fuel fat dirs c cs chain long ∙ ap (λ o. some (ends e o)) none_unused in
    let first : take 1 (free_clusters fuel 2 fat) ≡ d ∷ [] = ap (take 1) list in
    let (fat', step, chain', _, _) =
      extend_cluster-Chain fuel fat c cs 1 chain long small (rw list (omega arith)) in
    let extended : extend_cluster fuel fat e 1 ≡ some (fat', d) =
      extend_cluster-last fuel fat c 1 cs chain long
      ∙ step
      ∙ ap (λ l. some (fat', last_of e l)) first in
    (
      fat',
      rw (allocate_entry, run, extended) refl,
      subst (λ l. Chain fat' ((c ∷ cs) ++ l)) first chain',
    )
