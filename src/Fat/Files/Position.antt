-- ===== src/Fat/Files/Position.antt =====
-- Where a FileDescriptor of kernel/fat.cpp stands in a chain, and what is left to read from there.
use mathlib.Core.List.{append_assoc}
use native.Mathlib.Nat.{sub-zero}
use min_os.Common.{
  ℕ, ◌+◌, ◌-◌, ◌≤◌, ◌<◌, ◌≡◌, refl, inl, inr, List, [], ◌∷◌, ◌++◌, ◌==◌, slice, slice-add, arith,
  Bool-cases,
}
use min_os.Fat.Chains.{Table, end_of_clusterchain, next_cluster}
use min_os.Fat.Chains.Extension.{Chain}
use min_os.Fat.Files.{Volume, Place, advance}

module _ (bytes_per_cluster : ℕ) where
  -- The bytes of a chain.
  abbrev pub contents : (ℕ → ℕ → ℕ) → List ℕ → List ℕ
  contents bytes [] = []
  contents bytes (c ∷ cs) = slice (bytes c) 0 bytes_per_cluster ++ contents bytes cs

  -- The place stands at byte `k` of the first of the clusters, or behind the last cluster.
  abbrev pub StandsAt : Table → List ℕ → ℕ → Place → Type 0
  StandsAt fat [] k place = (k ≡ 0) × (place ≡ record { cluster = end_of_clusterchain; off = 0 })
  StandsAt fat (c ∷ cs) k place =
      (k < bytes_per_cluster)
      × (place ≡ record { cluster = c; off = k })
      × Chain fat (c ∷ cs)
      × (0 < c)

  -- The bytes from there on.
  abbrev pub remaining : (ℕ → ℕ → ℕ) → List ℕ → ℕ → List ℕ
  remaining bytes [] k = []
  remaining bytes (c ∷ cs) k = slice (bytes c) k (bytes_per_cluster - k) ++ contents bytes cs

  pub remaining-contents :
      (bytes : ℕ → ℕ → ℕ) (cs : List ℕ) → remaining bytes cs 0 ≡ contents bytes cs
  remaining-contents bytes [] = refl
  remaining-contents bytes (c ∷ cs) = rw (sub-zero bytes_per_cluster) refl

  -- Behind a cluster stands the next one.
  pub next-StandsAt :
      (fat : Table) (c : ℕ) (cs : List ℕ)
      → 0 < bytes_per_cluster
      → Chain fat (c ∷ cs)
      → StandsAt fat cs 0 (record { cluster = next_cluster fat c; off = 0 })
  next-StandsAt fat c [] h chain = rw chain (refl, refl)
  next-StandsAt fat c (d ∷ ds) h chain = rw (chain.0, chain.1) (h, refl, chain.3, chain.2)

  -- A step of `n` bytes in a cluster.
  pub advance-StandsAt :
      (v : Volume) (c : ℕ) (cs : List ℕ) (k n : ℕ)
      → Chain v.fat (c ∷ cs)
      → k < bytes_per_cluster
      → n ≤ bytes_per_cluster - k
      → 0 < c
      → (ds : List ℕ) × (k' : ℕ) × StandsAt v.fat ds k' (advance bytes_per_cluster v.fat c (k + n))
        × (remaining v.bytes (c ∷ cs) k ≡ slice (v.bytes c) k n ++ remaining v.bytes ds k')
  advance-StandsAt v c cs k n chain h room named = elim (Bool-cases (k + n == bytes_per_cluster)) [
    | inl full ↦
        rw full (cs, 0, next-StandsAt v.fat c cs (omega arith) chain, to_end (ground arith))
    | inr more ↦ rw more (
      c ∷ cs,
      k + n,
      (ground arith, refl, chain, named),
      rw (split (ground arith), slice-add (v.bytes c) k n (bytes_per_cluster - (k + n)))
          (append_assoc (slice (v.bytes c) k n) _ _),
    )
  ]
    where
      to_end :
          k + n ≡ bytes_per_cluster
          → remaining v.bytes (c ∷ cs) k ≡ slice (v.bytes c) k n ++ remaining v.bytes cs 0
      to_end full = rw (remaining-contents v.bytes cs, left full) refl
        where
          left : k + n ≡ bytes_per_cluster → bytes_per_cluster - k ≡ n
          left full = omega arith

      split : k + n < bytes_per_cluster → bytes_per_cluster - k ≡ n + (bytes_per_cluster - (k + n))
      split more = omega arith
