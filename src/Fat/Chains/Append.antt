-- ===== src/Fat/Chains/Append.antt =====
-- ExtendCluster and AllocateClusterChain of kernel/fat.cpp append free clusters to a chain.
use min_os.Common.{
  inl, inr, ℕ, zero, suc, ◌+◌, ◌<◌, ◌≡◌, refl, ◌∙◌, true, List, [], ◌∷◌, ◌++◌, ◌==◌, put, take,
  count, All, arith, Bool-cases,
}
use min_os.Fat.Chains.{Table, end_of_clusterchain, is_end_of_clusterchain}
use min_os.Fat.Chains.Extension.{
  Chain, free_clusters, linked, last_of, free_clusters-free, free_clusters-taken,
}

-- The table in which `ds` is linked behind `c` and its last cluster has the end mark.
abbrev pub closed : Table → ℕ → List ℕ → Table
closed fat c ds = put (last_of c ds) end_of_clusterchain (linked fat c ds)

-- A cluster that is free, and that a chain can name.
abbrev pub IsFree : Table → ℕ → Type 0
IsFree fat d = (fat d ≡ 0) × (0 < d) × (d < 0x0ffffff8)

abbrev pub Distinct : List ℕ → Type 0
Distinct [] = Unit
Distinct (d ∷ ds) = (count d ds ≡ 0) × Distinct ds

pub closed-others :
    (fat : Table) (c : ℕ) (ds : List ℕ) (x : ℕ) → count x (c ∷ ds) ≡ 0 → closed fat c ds x ≡ fat x
unfolding linked
closed-others fat c [] x h = ground arith
closed-others fat c (d ∷ ds) x h = closed-others (put c d fat) d ds x (ground arith) ∙ ground arith

closed-Chain :
    (fat : Table) (c : ℕ) (ds : List ℕ)
    → All (λ d. (0 < d) × (d < 0x0ffffff8)) ds
    → Distinct (c ∷ ds)
    → Chain (closed fat c ds) (c ∷ ds)
unfolding linked
closed-Chain fat c [] all distinct = ground arith
closed-Chain fat c (d ∷ ds) all distinct =
    let at : closed (put c d fat) d ds c ≡ d =
      closed-others (put c d fat) d ds c distinct.0 ∙ ground arith in
    (ground (arith, all.0), at, all.0.0, closed-Chain (put c d fat) d ds all.1 distinct.1)

absent : (fat : Table) (x : ℕ) (ds : List ℕ) → 0 < fat x → All (IsFree fat) ds → count x ds ≡ 0
absent fat x [] used all = refl
absent fat x (d ∷ ds) used all = ground (arith, absent fat x ds used all.1, all.0.0)

IsFree-bounds :
    (fat : Table) (ds : List ℕ) → All (IsFree fat) ds → All (λ d. (0 < d) × (d < 0x0ffffff8)) ds
IsFree-bounds fat [] all = tt
IsFree-bounds fat (d ∷ ds) all = ((all.0.1, all.0.2), IsFree-bounds fat ds all.1)

-- Every cluster of a chain has an entry that is not free, and only the last has an end mark.
pub Chain-head :
    (fat : Table) (c : ℕ) (cs : List ℕ)
    → Chain fat (c ∷ cs)
    → is_end_of_clusterchain (fat (last_of c cs)) ≡ true
Chain-head fat c [] chain = chain
Chain-head fat c (d ∷ ds) chain = Chain-head fat d ds chain.3

-- A chain grows by free clusters at its end.
pub Chain-closed :
    (fat : Table) (c : ℕ) (cs ds : List ℕ)
    → Chain fat (c ∷ cs)
    → All (IsFree fat) ds
    → Distinct ds
    → Chain (closed fat (last_of c cs) ds) ((c ∷ cs) ++ ds)
Chain-closed fat c [] ds chain all distinct =
    closed-Chain fat c ds (IsFree-bounds fat ds all) (absent fat c ds (ground arith) all, distinct)
Chain-closed fat c (d ∷ cs) ds chain all distinct =
    let end = Chain-head fat d cs chain.3 in
    let at : closed fat (last_of d cs) ds c ≡ fat c =
      closed-others fat (last_of d cs) ds c
        (ground (arith, absent fat c ds (omega (arith, chain.1, chain.2)) all, end, chain.0)) in
    (rw at chain.0, at ∙ chain.1, chain.2, Chain-closed fat d cs ds chain.3 all distinct)

-- A chain that the last cluster is not in stays as it is.
pub Chain-others :
    (fat : Table) (e : ℕ) (ds xs : List ℕ)
    → All (IsFree fat) ds
    → count e xs ≡ 0
    → Chain fat xs
    → Chain (closed fat e ds) xs
Chain-others fat e ds [] all out chain = tt
Chain-others fat e ds (x ∷ []) all out chain =
    rw (closed-others fat e ds x (ground (arith, absent fat x ds (ground arith) all))) chain
Chain-others fat e ds (x ∷ (y ∷ ys)) all out chain =
    let at : closed fat e ds x ≡ fat x =
      closed-others fat e ds x
        (ground (arith, absent fat x ds (omega (arith, chain.1, chain.2)) all)) in
    (
      rw at chain.0,
      at ∙ chain.1,
      chain.2,
      Chain-others fat e ds (y ∷ ys) all (ground arith) chain.3,
    )

-- What the search finds is free, in ascending order.
pub free_clusters-IsFree :
    (fuel candidate n : ℕ) (fat : Table)
    → 0 < candidate
    → candidate + fuel < 0x0ffffff8
    → let ds = take n (free_clusters fuel candidate fat) in
      All (IsFree fat) ds × Distinct ds × ((x : ℕ) → x < candidate → count x ds ≡ 0)
free_clusters-IsFree fuel candidate zero fat h k = (tt, tt, λ x l. refl)
free_clusters-IsFree zero candidate (suc n) fat h k = unfold free_clusters in (tt, tt, λ x l. refl)
free_clusters-IsFree (suc fuel) candidate (suc n) fat h k = elim (Bool-cases (fat candidate == 0)) [
  | inl free ↦
      let (all, distinct, below) =
        free_clusters-IsFree fuel (candidate + 1) n fat (omega arith) (omega arith) in
      rw (free_clusters-free fuel candidate fat free) (
        ((ground arith, h, omega arith), all),
        (below candidate (omega arith), distinct),
        λ x l. ground (arith, below x),
      )
  | inr taken ↦
      let (all, distinct, below) =
        free_clusters-IsFree fuel (candidate + 1) (suc n) fat (omega arith) (omega arith) in
      rw (free_clusters-taken fuel candidate fat taken)
        (all, distinct, λ x l. below x (omega arith))
]
