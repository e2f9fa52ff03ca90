-- ===== src/Fat/Directories/Creation.antt =====
-- CreateFile of kernel/fat.cpp, and FindFile of what it has created.
use min_os.Common.{
  ℕ, suc, ◌+◌, ◌<◌, ◌≡◌, refl, sym, ap, ◌∙◌, inl, inr, true, false, none, some, List, [], ◌∷◌, ◌++◌,
  ◌==◌, if◌then◌else◌, put, set, count, arith, Bool-cases, ==_refl, ==_ne,
}
use min_os.Fat.{DirectoryEntry}
use min_os.Fat.Chains.Append.{Distinct}
use min_os.Fat.Names.{name_is_equal}
use min_os.Fat.Directories.{Directories, Slot, first_char, is_unused, first_unused}
use min_os.Fat.Directories.Lookup.{slots_from, slots, lookup}
use min_os.Fat.Directories.Allocation.{
  unused_in, or_else, Option-cases, unused_in-first_unused, unused_in-passed,
}

-- The directories with one entry stored at an address.
abbrev pub stored : Directories → Slot → DirectoryEntry → Directories
stored dirs slot entry = put slot.cluster (set (dirs slot.cluster) slot.index entry) dirs

-- The slot with another entry in it.
abbrev pub with_entry : Slot → DirectoryEntry → Slot
with_entry slot entry = record { cluster = slot.cluster; index = slot.index; entry = entry }

stored-at :
    (dirs : Directories) (slot : Slot) (entry : DirectoryEntry) (c k : ℕ)
    → slot.cluster ≡ c
    → slot.index ≡ 0 + k
    → stored dirs slot entry c ≡ set (dirs c) k entry
stored-at dirs slot entry c k e f =
    let place : slot.index ≡ k = f ∙ omega arith in rw (e, place, ==_refl c) refl

stored-kept :
    (dirs : Directories) (slot : Slot) (entry : DirectoryEntry) (c : ℕ)
    → (c == slot.cluster) ≡ false
    → stored dirs slot entry c ≡ dirs c
stored-kept dirs slot entry c ne = rw ne refl

other_cluster : (d c : ℕ) (cs : List ℕ) → count c cs ≡ 0 → 0 < count d cs → (c == d) ≡ false
other_cluster d c cs out among = ==_ne c d (λ e. differs (ap (λ x. count x cs) e))
  where
    differs : count c cs ≡ count d cs → ⊥
    differs e = omega arith

not_none : (slot : Slot) → some slot ≡ none → ⊥
not_none slot e = ground arith

unwrap : (a b : Slot) → some a ≡ some b → a ≡ b
unwrap a b e = ap (λ o. elim o [ none ↦ a | some x ↦ x ]) e

first_unused-nil : (c index : ℕ) → first_unused c index [] ≡ none
unfolding first_unused
first_unused-nil c index = refl

module _ (c index : ℕ) (entry : DirectoryEntry) (entries : List DirectoryEntry) where
  first_unused-free :
      is_unused entry ≡ true
      → first_unused c index (entry ∷ entries)
        ≡ some (record { cluster = c; index = index; entry = entry })
  unfolding first_unused
  first_unused-free free = rw free refl

  first_unused-used :
      is_unused entry ≡ false
      → first_unused c index (entry ∷ entries) ≡ first_unused c (index + 1) entries
  unfolding first_unused
  first_unused-used used = rw used refl

module _ (toupper : ℕ → ℕ) (elem : List ℕ) where
  lookup-head :
      (slot : Slot) (rest : List Slot)
      → (first_char slot.entry == 0) ≡ false
      → lookup toupper elem (slot ∷ rest)
        ≡ (if name_is_equal toupper slot.entry elem then some slot else lookup toupper elem rest)
  unfolding lookup
  lookup-head slot rest named = rw named refl

  -- An entry in use that does not stop the search has another name.
  lookup-passes :
      (slot : Slot) (rest : List Slot)
      → is_unused slot.entry ≡ false
      → lookup toupper elem (slot ∷ rest) ≡ none
      → (other : List Slot) → lookup toupper elem (slot ∷ other) ≡ lookup toupper elem other
  lookup-passes slot rest used missing other =
      let named : (first_char slot.entry == 0) ≡ false = ground arith in
      elim (Bool-cases (name_is_equal toupper slot.entry elem)) [
        | inl same ↦
            absurd (not_none slot (sym (lookup-head slot rest named ∙ rw same refl) ∙ missing))
        | inr differs ↦ lookup-head slot other named ∙ rw differs refl
      ]

  -- The same for the entries of a cluster without a deleted or empty one.
  cluster-passes :
      (c index : ℕ) (entries : List DirectoryEntry) (rest : List Slot)
      → first_unused c index entries ≡ none
      → lookup toupper elem (slots_from c index entries ++ rest) ≡ none
      → (other : List Slot)
      → lookup toupper elem (slots_from c index entries ++ other) ≡ lookup toupper elem other
  cluster-passes c index [] rest used missing other = refl
  cluster-passes c index (entry ∷ entries) rest used missing other =
      elim (Bool-cases (is_unused entry)) [
        | inl free ↦ absurd (not_none _ (sym (first_unused-free c index entry entries free) ∙ used))
        | inr taken ↦
            let passes =
              lookup-passes (record { cluster = c; index = index; entry = entry })
                (slots_from c (index + 1) entries ++ rest) taken missing in
            passes (slots_from c (index + 1) entries ++ other)
            ∙ cluster-passes c (index + 1) entries rest
                (sym (first_unused-used c index entry entries taken) ∙ used)
                (sym (passes (slots_from c (index + 1) entries ++ rest)) ∙ missing) other
      ]

  module _ (entry : DirectoryEntry) (named : (first_char entry == 0) ≡ false)
      (same : name_is_equal toupper entry elem ≡ true) where
    -- The entry at the first free place of a cluster is found.
    cluster-finds :
        (c index : ℕ) (entries : List DirectoryEntry) (rest : List Slot) (slot : Slot)
        → first_unused c index entries ≡ some slot
        → lookup toupper elem (slots_from c index entries ++ rest) ≡ none
        → (other : List Slot)
        → (k : ℕ) × (slot.cluster ≡ c)
          × (slot.index ≡ index + k)
          × (lookup toupper elem (slots_from c index (set entries k entry) ++ other)
              ≡ some (with_entry slot entry))
    cluster-finds c index [] rest slot free missing other =
        absurd (not_none slot (sym free ∙ first_unused-nil c index))
    cluster-finds c index (old ∷ entries) rest slot free missing other =
        elim (Bool-cases (is_unused old)) [
          | inl unused ↦
              let here =
                unwrap _ slot (sym (first_unused-free c index old entries unused) ∙ free) in
              (
                0,
                sym (ap (λ s. s.cluster) here),
                sym (ap (λ s. s.index) here) ∙ omega arith,
                lookup-head (record { cluster = c; index = index; entry = entry })
                      (slots_from c (index + 1) entries ++ other) named
                    ∙ rw same refl
                    ∙ ap (λ s. some (with_entry s entry)) here,
              )
          | inr used ↦
              let at : Slot = record { cluster = c; index = index; entry = old } in
              let passes =
                lookup-passes at (slots_from c (index + 1) entries ++ rest) used missing in
              let (k, cluster, place, finds) =
                cluster-finds c (index + 1) entries rest slot
                  (sym (first_unused-used c index old entries used) ∙ free)
                  (sym (passes (slots_from c (index + 1) entries ++ rest)) ∙ missing) other in
              (
                suc k,
                cluster,
                place ∙ omega arith,
                passes (slots_from c (index + 1) (set entries k entry) ++ other) ∙ finds,
              )
        ]

    -- The same for the first free place of a chain.
    pub chain-finds :
        (dirs : Directories) (cs : List ℕ) (slot : Slot)
        → Distinct cs
        → unused_in (slots dirs cs) ≡ some slot
        → lookup toupper elem (slots dirs cs) ≡ none
        → (0 < count slot.cluster cs)
          × (lookup toupper elem (slots (stored dirs slot entry) cs) ≡ some (with_entry slot entry))
    unfolding unused_in
    chain-finds dirs [] slot distinct free missing = absurd (not_none slot (sym free))
    chain-finds dirs (c ∷ cs) slot distinct free missing =
        let split = sym (unused_in-first_unused c 0 (dirs c) (slots dirs cs)) ∙ free in
        elim (Option-cases (first_unused c 0 (dirs c))) [
          | inl (s, here) ↦
              let same_slot =
                unwrap s slot
                  (sym (ap (λ o. or_else o (unused_in (slots dirs cs))) here) ∙ split) in
              let (k, cluster, place, finds) =
                cluster-finds c 0 (dirs c) (slots dirs cs) slot (here ∙ ap some same_slot) missing
                  (slots (stored dirs slot entry) cs) in
              (
                ground (arith, cluster),
                ap
                      (λ l.
                        lookup toupper elem (slots_from c 0 l ++ slots (stored dirs slot entry) cs))
                      (stored-at dirs slot entry c k cluster place)
                    ∙ finds,
              )
          | inr passed ↦
              let later = sym (unused_in-passed dirs c cs passed) ∙ free in
              let passes = cluster-passes c 0 (dirs c) (slots dirs cs) passed missing in
              let (among, finds) =
                chain-finds dirs cs slot distinct.1 later
                  (sym (passes (slots dirs cs)) ∙ missing) in
              (
                ground (arith, among),
                ap
                      (λ l.
                        lookup toupper elem (slots_from c 0 l ++ slots (stored dirs slot entry) cs))
                      (stored-kept dirs slot entry c
                        (other_cluster slot.cluster c cs distinct.0 among))
                    ∙ passes (slots (stored dirs slot entry) cs)
                    ∙ finds,
              )
        ]
