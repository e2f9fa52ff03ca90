-- ===== src/Fat.antt =====
-- kernel/fat.cpp and fat.hpp: the FAT32 volume. The children model the cluster chains, the files
-- and the names and directories.
pub mod Chains
pub mod Files
pub mod Names
pub mod Directories
pub mod Tests
use Prim.Native.Nat.{bit_or}
use min_os.Common.{List, ℕ, ◌+◌, ◌-◌, ◌*◌, ◌%◌, ◌^◌}

-- The members of BPB that the kernel uses.
pub record Bpb : Type 0 where
  pub bytes_per_sector : ℕ
  pub sectors_per_cluster : ℕ
  pub reserved_sector_count : ℕ
  pub num_fats : ℕ
  pub fat_size_32 : ℕ
  pub root_cluster : ℕ

-- Initialize's bytes_per_cluster.
pub bytes_per_cluster : Bpb → ℕ
bytes_per_cluster bpb = bpb.bytes_per_sector * bpb.sectors_per_cluster

-- GetClusterAddr, for a volume at `boot_volume_image`.
pub get_cluster_addr : Bpb → (boot_volume_image cluster : ℕ) → ℕ
get_cluster_addr bpb boot_volume_image cluster =
    let sector_num =
      ((bpb.reserved_sector_count + bpb.num_fats * bpb.fat_size_32) % 2 ^ 32
        + (cluster + (2 ^ 64 - 2)) * bpb.sectors_per_cluster)
      % 2 ^ 64 in
    (boot_volume_image + sector_num * bpb.bytes_per_sector) % 2 ^ 64

-- GetFAT.
pub get_fat : Bpb → (boot_volume_image : ℕ) → ℕ
get_fat bpb boot_volume_image =
    (boot_volume_image + bpb.reserved_sector_count * bpb.bytes_per_sector) % 2 ^ 64

-- The members of DirectoryEntry that the kernel uses; the name has eleven characters.
pub record DirectoryEntry : Type 0 where
  pub name : List ℕ
  pub attr : ℕ
  pub first_cluster_high : ℕ
  pub first_cluster_low : ℕ
  pub file_size : ℕ

-- FirstCluster.
unfoldable pub first_cluster : DirectoryEntry → ℕ
first_cluster e = bit_or e.first_cluster_low (e.first_cluster_high * 2 ^ 16 % 2 ^ 32)
