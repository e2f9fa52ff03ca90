-- ===== src/Fat/Chains/Extension.antt =====
-- Chains as lists of clusters, and what ExtendCluster of kernel/fat.cpp does to them.
use min_os.Common.{
  ℕ, zero, suc, ◌+◌, ◌≤◌, ◌<◌, ◌≡◌, ◌⊎◌, inl, inr, refl, ap, ◌∙◌, true, false, some, List, [], ◌∷◌,
  ◌==◌, if◌then◌else◌, put, length, take, arith, Bool-cases,
}
use min_os.Fat.Chains.{Table, is_end_of_clusterchain, find_last, link_free}

-- The clusters of a chain, in order; the last has an end mark and none is free.
abbrev pub Chain : Table → List ℕ → Type 0
Chain fat [] = Unit
Chain fat (c ∷ []) = is_end_of_clusterchain (fat c) ≡ true
Chain fat (c ∷ (d ∷ ds)) =
    (is_end_of_clusterchain (fat c) ≡ false) × (fat c ≡ d) × (0 < d) × Chain fat (d ∷ ds)

-- The free clusters among the next `fuel` candidates.
unfoldable pub free_clusters : (fuel candidate : ℕ) → Table → List ℕ
free_clusters zero candidate fat = []
free_clusters (suc fuel) candidate fat =
    let rest = free_clusters fuel (candidate + 1) fat in
    if fat candidate == 0 then candidate ∷ rest else rest

-- The clusters `ds` linked behind `c`, without the last end mark, and the last of them.
unfoldable pub linked : Table → ℕ → List ℕ → Table
linked fat c [] = fat
linked fat c (d ∷ ds) = linked (put c d fat) d ds

abbrev pub last_of : ℕ → List ℕ → ℕ
last_of c [] = c
last_of c (d ∷ ds) = last_of d ds

-- A cluster that the search has passed, or that is not free.
abbrev IsBehind : Table → ℕ → ℕ → Type 0
IsBehind fat c candidate = (c < candidate) ⊎ (0 < fat c)

IsBehind-next :
    (fat : Table) (c candidate : ℕ) → IsBehind fat c candidate → IsBehind fat c (candidate + 1)
IsBehind-next fat c candidate (inl h) = inl (omega arith)
IsBehind-next fat c candidate (inr h) = inr h

pub free_clusters-put :
    (fuel candidate c d : ℕ) (fat : Table)
    → IsBehind fat c candidate
    → 0 < d
    → free_clusters fuel candidate (put c d fat) ≡ free_clusters fuel candidate fat
unfolding free_clusters
free_clusters-put zero candidate c d fat h k = refl
free_clusters-put (suc fuel) candidate c d fat h k =
    let rest = free_clusters-put fuel (candidate + 1) c d fat (IsBehind-next fat c candidate h) k in
    elim h [ inl before ↦ ground (arith, rest) | inr taken ↦ ground (arith, rest) ]

module _ (fuel candidate : ℕ) (fat : Table) where
  pub free_clusters-free :
      (fat candidate == 0) ≡ true
      → free_clusters (suc fuel) candidate fat ≡ candidate ∷ free_clusters fuel (candidate + 1) fat
  unfolding free_clusters
  free_clusters-free free = rw (free_clusters, free) refl

  pub free_clusters-taken :
      (fat candidate == 0) ≡ false
      → free_clusters (suc fuel) candidate fat ≡ free_clusters fuel (candidate + 1) fat
  unfolding free_clusters
  free_clusters-taken taken = rw (free_clusters, taken) refl

  link_free-free :
      (n current : ℕ)
      → (fat candidate == 0) ≡ true
      → link_free (suc fuel) (suc n) candidate current fat
        ≡ link_free fuel n (candidate + 1) candidate (put current candidate fat)
  unfolding link_free
  link_free-free n current free = rw (link_free, free) refl

  link_free-taken :
      (n current : ℕ)
      → (fat candidate == 0) ≡ false
      → link_free (suc fuel) (suc n) candidate current fat
        ≡ link_free fuel (suc n) (candidate + 1) current fat
  unfolding link_free
  link_free-taken n current taken = rw (link_free, taken) refl

-- The loop links the first free clusters behind the current one.
pub link_free-linked :
    (fuel n candidate current : ℕ) (fat : Table)
    → IsBehind fat current candidate
    → 0 < candidate
    → n ≤ length (free_clusters fuel candidate fat)
    → let ds = take n (free_clusters fuel candidate fat) in
      link_free fuel n candidate current fat ≡ some (linked fat current ds, last_of current ds)
unfolding linked
link_free-linked fuel zero candidate current fat h k room = unfold link_free in refl
link_free-linked zero (suc n) candidate current fat h k room =
    absurd (unfold free_clusters in omega arith)
link_free-linked (suc fuel) (suc n) candidate current fat h k room =
    elim (Bool-cases (fat candidate == 0)) [
      | inl free ↦
          let list = free_clusters-free fuel candidate fat free in
          let same =
            free_clusters-put fuel (candidate + 1) current candidate fat
              (IsBehind-next fat current candidate h) k in
          link_free-free fuel candidate fat n current free
          ∙ link_free-linked fuel n (candidate + 1) candidate (put current candidate fat)
              (inl (omega arith)) (omega arith) (rw same (omega (arith, room, ap length list)))
          ∙ rw (same, list, linked) refl
      | inr taken ↦
          let list = free_clusters-taken fuel candidate fat taken in
          link_free-taken fuel candidate fat n current taken
          ∙ link_free-linked fuel (suc n) (candidate + 1) current fat
              (IsBehind-next fat current candidate h) (omega arith)
              (omega (arith, room, ap length list))
          ∙ rw list refl
    ]

-- The walk reaches the end of a chain, whatever cluster of it it starts from.
pub find_last-Chain :
    (fuel : ℕ) (fat : Table) (c : ℕ) (cs : List ℕ)
    → Chain fat (c ∷ cs)
    → length cs < fuel
    → find_last fuel fat c ≡ some (last_of c cs)
unfolding find_last
find_last-Chain zero fat c cs chain h = absurd (omega arith)
find_last-Chain (suc fuel) fat c [] chain h = rw (find_last, chain) refl
find_last-Chain (suc fuel) fat c (d ∷ ds) chain h =
    rw (find_last, chain.0, chain.1) (find_last-Chain fuel fat d ds chain.3 (omega arith))
