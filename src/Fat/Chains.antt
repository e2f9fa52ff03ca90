-- ===== src/Fat/Chains.antt =====
-- The cluster chains of kernel/fat.cpp. The FAT is the function from a cluster to its entry. The
-- source never asks how many clusters the volume has, so the searches run on fuel: `none` is a
-- search that has left the FAT.
pub mod Extension
pub mod Append
pub mod Allocation
use min_os.Common.{
  ℕ, zero, suc, ◌+◌, ◌-◌, Bool, true, false, Option, none, some, ◌==◌, ltb, leb, if◌then◌else◌, put,
}

abbrev pub Table : Type 0
Table = ℕ → ℕ

abbrev pub end_of_clusterchain : ℕ
end_of_clusterchain = 0x0fffffff

abbrev pub is_end_of_clusterchain : ℕ → Bool
is_end_of_clusterchain cluster = leb 0x0ffffff8 cluster

abbrev pub next_cluster : Table → ℕ → ℕ
next_cluster fat cluster =
    if is_end_of_clusterchain (fat cluster) then end_of_clusterchain else fat cluster

-- The walk of ExtendCluster to the last cluster of the chain.
pub find_last : ℕ → Table → ℕ → Option ℕ
find_last zero fat cluster = none
find_last (suc fuel) fat cluster = elim (is_end_of_clusterchain (fat cluster)) [
  | true ↦ some cluster
  | false ↦ find_last fuel fat (fat cluster)
]

-- The loop of ExtendCluster over the candidates, with `n` clusters still to be found.
pub link_free : (fuel n candidate current : ℕ) → Table → Option (Table × ℕ)
link_free fuel zero candidate current fat = some (fat, current)
link_free zero (suc n) candidate current fat = none
link_free (suc fuel) (suc n) candidate current fat = elim (fat candidate == 0) [
  | false ↦ link_free fuel (suc n) (candidate + 1) current fat
  | true ↦ link_free fuel n (candidate + 1) candidate (put current candidate fat)
]

-- ExtendCluster.
unfoldable pub extend_cluster : (fuel : ℕ) → Table → (eoc_cluster n : ℕ) → Option (Table × ℕ)
unfolding find_last link_free
extend_cluster fuel fat eoc_cluster n = elim (find_last fuel fat eoc_cluster) [
  | none ↦ none
  | some last ↦ elim (link_free fuel n 2 last fat) [
    | none ↦ none
    | some (fat', current) ↦ some (put current end_of_clusterchain fat', current)
  ]
]

-- The search of AllocateClusterChain for the first free cluster.
pub first_free : (fuel candidate : ℕ) → Table → Option ℕ
first_free zero candidate fat = none
first_free (suc fuel) candidate fat = elim (fat candidate == 0) [
  | true ↦ some candidate
  | false ↦ first_free fuel (candidate + 1) fat
]

-- AllocateClusterChain.
pub allocate_cluster_chain : (fuel : ℕ) → Table → (n : ℕ) → Option (Table × ℕ)
unfolding first_free extend_cluster
allocate_cluster_chain fuel fat n = elim (first_free fuel 2 fat) [
  | none ↦ none
  | some first_cluster ↦
      let marked = put first_cluster end_of_clusterchain fat in
      if ltb 1 n
      then elim (extend_cluster fuel marked first_cluster (n - 1)) [
        | none ↦ none
        | some (fat', last) ↦ some (fat', first_cluster)
      ]
      else some (marked, first_cluster)
]
