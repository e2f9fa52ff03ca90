-- ===== src/Fat/Chains/Allocation.antt =====
-- What ExtendCluster and AllocateClusterChain of kernel/fat.cpp return.
use mathlib.Core.Path.{subst}
use min_os.Common.{
  get_or, drop, ℕ, zero, suc, ◌+◌, ◌-◌, ◌≤◌, ◌<◌, ◌≡◌, refl, sym, ap, ◌∙◌, inl, inr, true, false,
  some, List, [], ◌∷◌, ◌++◌, ◌==◌, ltb, put, length, take, count, arith, Bool-cases,
}
use min_os.Fat.Chains.{
  Table, end_of_clusterchain, extend_cluster, first_free, allocate_cluster_chain,
}
use min_os.Fat.Chains.Extension.{
  Chain, free_clusters, last_of, free_clusters-put, free_clusters-free, free_clusters-taken,
  link_free-linked, find_last-Chain,
}
use min_os.Fat.Chains.Append.{
  closed, closed-others, Chain-closed, Chain-others, Chain-head, free_clusters-IsFree,
}

module _ (fuel : ℕ) (fat : Table) (c : ℕ) (cs : List ℕ) (n : ℕ) (chain : Chain fat (c ∷ cs))
    (long : length cs < fuel) (small : fuel + 2 < 0x0ffffff8)
    (room : n ≤ length (free_clusters fuel 2 fat)) where
  extend_cluster-closed :
      let ds = take n (free_clusters fuel 2 fat) in
      let e = last_of c cs in extend_cluster fuel fat c n ≡ some (closed fat e ds, last_of e ds)
  unfolding extend_cluster
  extend_cluster-closed =
      rw
        (
          extend_cluster,
          find_last-Chain fuel fat c cs chain long,
          link_free-linked fuel n 2 (last_of c cs) fat
              (inr (ground (arith, Chain-head fat c cs chain))) (omega arith) room,
        )
        refl

  -- ExtendCluster from a cluster of a chain, when `n` clusters are free among those that it looks at,
  -- which are below the end marks and at least as many as the chain has from there on, appends
  -- the first `n` free clusters to the chain, in ascending order, and returns the last cluster. A chain
  -- that does not have the old last cluster stays as it is, and so does every other entry.
  pub extend_cluster-Chain :
      let ds = take n (free_clusters fuel 2 fat) in
      let e = last_of c cs in
      (fat' : Table) × (extend_cluster fuel fat c n ≡ some (fat', last_of e ds))
      × Chain fat' ((c ∷ cs) ++ ds)
      × ((xs : List ℕ) → Chain fat xs → count e xs ≡ 0 → Chain fat' xs)
      × ((x : ℕ) → count x (e ∷ ds) ≡ 0 → fat' x ≡ fat x)
  extend_cluster-Chain =
      let ds = take n (free_clusters fuel 2 fat) in
      let e = last_of c cs in
      let (free, distinct, _) = free_clusters-IsFree fuel 2 n fat (omega arith) (omega arith) in
      (
        closed fat e ds,
        extend_cluster-closed,
        Chain-closed fat c cs ds chain free distinct,
        λ xs other out. Chain-others fat e ds xs free out other,
        closed-others fat e ds,
      )

first_free-found :
    (fuel candidate d : ℕ) (fat : Table) (ds : List ℕ)
    → free_clusters fuel candidate fat ≡ d ∷ ds
    → (first_free fuel candidate fat ≡ some d)
      × (fat d ≡ 0)
      × (free_clusters fuel candidate (put d end_of_clusterchain fat) ≡ ds)
unfolding first_free free_clusters
first_free-found zero candidate d fat ds e = absurd (ground arith)
first_free-found (suc fuel) candidate d fat ds e = elim (Bool-cases (fat candidate == 0)) [
  | inl free ↦
      let list = sym (free_clusters-free fuel candidate fat free) ∙ e in
      let head : candidate ≡ d = ap (λ l. get_or l 0 0) list in
      let rest : free_clusters fuel (candidate + 1) fat ≡ ds = ap (drop 1) list in
      let marked : (put d end_of_clusterchain fat candidate == 0) ≡ false = ground (arith, head) in
      (
        rw (first_free, free) (ap some head),
        rw (← head) (ground arith),
        free_clusters-taken fuel candidate (put d end_of_clusterchain fat) marked
            ∙ free_clusters-put fuel (candidate + 1) d end_of_clusterchain fat
                (inl (omega (arith, head))) (omega arith)
            ∙ rest,
      )
  | inr taken ↦
      let (found, zero_at, rest) =
        first_free-found fuel (candidate + 1) d fat ds
          (sym (free_clusters-taken fuel candidate fat taken) ∙ e) in
      let used : (put d end_of_clusterchain fat candidate == 0) ≡ false = ground (arith, zero_at) in
      (
        rw (first_free, taken) found,
        zero_at,
        free_clusters-taken fuel candidate (put d end_of_clusterchain fat) used ∙ rest,
      )
]

some_fuel :
    (fuel candidate d : ℕ) (fat : Table) (ds : List ℕ)
    → free_clusters fuel candidate fat ≡ d ∷ ds
    → 0 < fuel
unfolding free_clusters
some_fuel zero candidate d fat ds e = absurd (ground arith)
some_fuel (suc fuel) candidate d fat ds e = omega arith

module _ (fuel : ℕ) (fat : Table) (n d : ℕ) (found : first_free fuel 2 fat ≡ some d) where
  allocate-more :
      (fat' : Table) (last : ℕ)
      → ltb 1 n ≡ true
      → extend_cluster fuel (put d end_of_clusterchain fat) d (n - 1) ≡ some (fat', last)
      → allocate_cluster_chain fuel fat n ≡ some (fat', d)
  unfolding allocate_cluster_chain
  allocate-more fat' last more run = rw (allocate_cluster_chain, found, more, run) refl

  allocate-one :
      ltb 1 n ≡ false → allocate_cluster_chain fuel fat n ≡ some (put d end_of_clusterchain fat, d)
  unfolding allocate_cluster_chain
  allocate-one one = rw (allocate_cluster_chain, found, one) refl

-- AllocateClusterChain, when a cluster and at least `n` are free among those that it looks at, makes a
-- chain of the first `n` free clusters, or of the first one when `n` is 0, and returns its first
-- cluster. Every other entry stays as it is.
pub allocate_cluster_chain-Chain :
    (fuel : ℕ) (fat : Table) (n d : ℕ) (ds : List ℕ)
    → fuel + 2 < 0x0ffffff8
    → free_clusters fuel 2 fat ≡ d ∷ ds
    → n ≤ length (d ∷ ds)
    → (fat' : Table) × (allocate_cluster_chain fuel fat n ≡ some (fat', d))
      × Chain fat' (d ∷ take (n - 1) ds)
      × ((x : ℕ) → count x (d ∷ take (n - 1) ds) ≡ 0 → fat' x ≡ fat x)
allocate_cluster_chain-Chain fuel fat n d ds small list room =
    let (found, _, rest) = first_free-found fuel 2 d fat ds list in
    let marked : Table = put d end_of_clusterchain fat in
    elim (Bool-cases (ltb 1 n)) [
      | inl more ↦
          let (fat', run, chain, _, others) =
            extend_cluster-Chain fuel marked d [] (n - 1) (ground arith)
              (some_fuel fuel 2 d fat ds list) small (rw rest (omega (arith, room))) in
          (
            fat',
            allocate-more fuel fat n d found fat' _ more run,
            subst (λ l. Chain fat' (d ∷ take (n - 1) l)) rest chain,
            λ x out.
                others x (subst (λ l. count x (d ∷ take (n - 1) l) ≡ 0) (sym rest) out)
                ∙ ground arith,
          )
      | inr one ↦
          let none_more : take (n - 1) ds ≡ [] = rw (none_below one) refl in
          (
            marked,
            allocate-one fuel fat n d found one,
            rw none_more (ground arith),
            λ x out. ground arith,
          )
    ]
  where
    none_below : ltb 1 n ≡ false → n - 1 ≡ 0
    none_below one = ground arith
