-- ===== src/Fat/Files/Created.antt =====
-- Write of kernel/fat.cpp to a file that has no cluster yet.
use Prim.Native.Nat.{bit_and}
use mathlib.Core.Path.{subst}
use native.Mathlib.Nat.{mul-suc, div-add-mod, mod-lt, mul-le-mul_left}
use min_os.Common.{
  ℕ, suc, ◌+◌, ◌-◌, ◌*◌, ◌/◌, ◌^◌, ◌≤◌, ◌<◌, ◌≡◌, refl, ap, ◌∙◌, some, List, [], ◌∷◌, length, take,
  count, length-take, All, arith,
}
use min_os.Common.Parts.{bit_or-halves}
use min_os.Fat.{DirectoryEntry, first_cluster}
use min_os.Fat.Chains.{Table, allocate_cluster_chain}
use min_os.Fat.Chains.Extension.{free_clusters}
use min_os.Fat.Chains.Append.{IsFree, Distinct, free_clusters-IsFree}
use min_os.Fat.Chains.Allocation.{allocate_cluster_chain-Chain}
use min_os.Fat.Files.{Volume, FileDescriptor, fresh, num_cluster, first_room, write, load_file}
use min_os.Fat.Files.Saved.{capacity, Chain-Saved}

-- The entry of `entry` with its first cluster set.
abbrev pub with_first : DirectoryEntry → ℕ → DirectoryEntry
with_first entry first = record entry {
  first_cluster_low = bit_and first 0xffff;
  first_cluster_high = bit_and (first / 2 ^ 16) 0xffff;
}

first_cluster-with_first :
    (entry : DirectoryEntry) (c : ℕ) → c < 2 ^ 32 → first_cluster (with_first entry c) ≡ c
unfolding first_cluster
first_cluster-with_first entry c h = bit_or-halves c h

module _ (bpc fuel : ℕ) where
  capacity-mul : (cs : List ℕ) → capacity bpc fuel cs ≡ bpc * length cs
  capacity-mul [] = omega arith
  capacity-mul (c ∷ cs) = omega (arith, capacity-mul cs, mul-suc bpc (length cs))

  enough :
      (len : ℕ) (c : ℕ) (cs : List ℕ)
      → 0 < bpc
      → num_cluster bpc len ≤ length (c ∷ cs)
      → len ≤ capacity bpc fuel (c ∷ cs)
  enough len c cs h room = omega (
    arith,
    capacity-mul (c ∷ cs),
    div-add-mod (len + bpc - 1) bpc,
    mod-lt (len + bpc - 1) h,
    mul-le-mul_left bpc room,
  )

  first_room-new :
      (v : Volume) (entry : DirectoryEntry) (len c : ℕ) (fat : Table)
      → first_cluster entry ≡ 0
      → allocate_cluster_chain fuel v.fat (num_cluster bpc len) ≡ some (fat, c)
      → first_room bpc fuel v entry fresh len ≡ some (record v { fat = fat }, with_first entry c, c)
  unfolding first_room
  first_room-new v entry len c fat empty run = rw (first_room, empty, run) refl

  -- Write of less than 4 GiB to a file without a cluster, when at least one cluster and as many as the
  -- buffer takes are free among those that AllocateClusterChain looks at, which are below the end
  -- marks, and clusters are not empty: it returns, the entry has the first free cluster and the
  -- buffer's length, LoadFile gives the buffer back, and all clusters but the first free ones keep
  -- their FAT entries and bytes.
  pub write-new_file :
      (v : Volume) (entry : DirectoryEntry) (c : ℕ) (ds buf : List ℕ)
      → first_cluster entry ≡ 0
      → fuel + 2 < 0x0ffffff8
      → free_clusters fuel 2 v.fat ≡ c ∷ ds
      → num_cluster bpc (length buf) ≤ length (c ∷ ds)
      → 0 < bpc
      → length buf < 2 ^ 32
      → (v' : Volume) × (entry' : DirectoryEntry) × (fd : FileDescriptor) × (write bpc fuel v entry
            fresh buf
          ≡ some (v', entry', fd))
        × (load_file bpc v' entry' (length buf) ≡ some buf)
        × (first_cluster entry' ≡ c)
        × (entry'.file_size ≡ length buf)
        × ((d : ℕ)
            → count d (c ∷ take (num_cluster bpc (length buf) - 1) ds) ≡ 0
            → (v'.fat d ≡ v.fat d) × (v'.bytes d ≡ v.bytes d))
  unfolding first_cluster
  write-new_file v entry c ds buf empty small list room h short =
      let n = num_cluster bpc (length buf) in
      let (fat, run, chain, others) =
        allocate_cluster_chain-Chain fuel v.fat n c ds small list room in
      let (free, distinct, _) =
        free_clusters-IsFree fuel 2 (suc (n - 1)) v.fat (omega arith) (omega arith) in
      let first : IsFree v.fat c =
        (subst (λ l. All (IsFree v.fat) (take (suc (n - 1)) l)) list free).0 in
      let different : Distinct (c ∷ take (n - 1) ds) =
        subst (λ l. Distinct (take (suc (n - 1)) l)) list distinct in
      let taken = length-take (n - 1) ds (omega (arith, room)) in
      let (v', fd, wrote, loaded, same, kept) =
        Chain-Saved bpc fuel v (record v { fat = fat }) entry (with_first entry c) c
          (take (n - 1) ds) buf (first_room-new v entry (length buf) c fat empty run)
          (first_cluster-with_first entry c (omega (arith, first.2))) first.1 chain different h
          (enough (length buf) c (take (n - 1) ds) h (omega (arith, taken))) short in
      (
        v',
        _,
        fd,
        wrote,
        loaded,
        first_cluster-with_first entry c (omega (arith, first.2)),
        refl,
        λ d out. (ap (λ f. f d) same ∙ others d out, kept d out),
      )
