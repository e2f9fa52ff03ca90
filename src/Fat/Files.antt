-- ===== src/Fat/Files.antt =====
-- FileDescriptor of kernel/fat.cpp. A volume is its FAT and the bytes of its clusters; a cluster is
-- seen here as bytes, and in Fat.Directories as directory entries. The entry that a descriptor
-- refers to is an argument and a result. `none` is a loop that has left the chain or the FAT.
pub mod Position
pub mod Reading
pub mod Overlay
pub mod Writing
pub mod Saved
pub mod Created
pub mod Whole
use Prim.Native.Nat.{min, bit_and}
use min_os.Common.{
  ℕ, zero, suc, ◌+◌, ◌-◌, ◌*◌, ◌/◌, ◌%◌, ◌^◌, Bool, true, false, Option, none, some, List, [], ◌∷◌,
  ◌++◌, ◌==◌, ltb, leb, if◌then◌else◌, put, length, take, drop, slice,
}
use min_os.Fat.{DirectoryEntry, first_cluster}
use min_os.Fat.Chains.{
  Table, next_cluster, end_of_clusterchain, extend_cluster, allocate_cluster_chain,
}

pub record Volume : Type 0 where
  pub fat : Table
  pub bytes : ℕ → ℕ → ℕ

pub record FileDescriptor : Type 0 where
  pub rd_off : ℕ
  pub rd_cluster : ℕ
  pub rd_cluster_off : ℕ
  pub wr_off : ℕ
  pub wr_cluster : ℕ
  pub wr_cluster_off : ℕ

-- A byte of a cluster.
pub record Place : Type 0 where
  pub cluster : ℕ
  pub off : ℕ

abbrev pub fresh : FileDescriptor
fresh = record {
  rd_off = 0;
  rd_cluster = 0;
  rd_cluster_off = 0;
  wr_off = 0;
  wr_cluster = 0;
  wr_cluster_off = 0;
}

-- memcpy of bytes to a cluster, from `off` on.
unfoldable pub overlay : List ℕ → ℕ → (ℕ → ℕ) → ℕ → ℕ
overlay [] off cluster = cluster
overlay (b ∷ bs) off cluster = put off b (overlay bs (suc off) cluster)

module _ (bytes_per_cluster : ℕ) where
  -- The place after `n` bytes of a cluster have been read.
  abbrev pub advance : Table → (cluster off : ℕ) → Place
  advance fat cluster off =
      if off == bytes_per_cluster
      then record { cluster = next_cluster fat cluster; off = 0 }
      else record { cluster = cluster; off = off }

  -- The loop of Read: what it has put in the buffer, and the place where it stands.
  unfoldable pub read_loop :
      (fuel : ℕ) → Volume → (len total : ℕ) → Place → List ℕ → Option (List ℕ × Place)
  read_loop zero v len total place buf = none
  read_loop (suc fuel) v len total place buf = elim (ltb total len) [
    | false ↦ some (buf, place)
    | true ↦
        let n = min (len - total) (bytes_per_cluster - place.off) in
        read_loop fuel v len (total + n) (advance v.fat place.cluster (place.off + n))
          (buf ++ slice (v.bytes place.cluster) place.off n)
  ]

  -- Read: the bytes that it puts in the buffer, which are as many as it returns.
  unfoldable pub read :
      Volume → DirectoryEntry → FileDescriptor → (len : ℕ) → Option (FileDescriptor × List ℕ)
  unfolding read_loop
  read v entry fd len =
      let start = if fd.rd_cluster == 0 then first_cluster entry else fd.rd_cluster in
      let n = min len ((entry.file_size + (2 ^ 64 - fd.rd_off)) % 2 ^ 64) in
      elim (read_loop (n + 1) v n 0 (record { cluster = start; off = fd.rd_cluster_off }) []) [
        | none ↦ none
        | some (buf, place) ↦ some (
          record fd {
            rd_cluster = place.cluster;
            rd_cluster_off = place.off;
            rd_off = fd.rd_off + length buf;
          },
          buf,
        )
      ]

  -- LoadFile.
  unfoldable pub load_file : Volume → DirectoryEntry → (len : ℕ) → Option (List ℕ)
  unfolding read
  load_file v entry len = elim (read v entry fresh len) [
    | none ↦ none
    | some (fd, bytes) ↦ some bytes
  ]

  -- The search of Load for the cluster of an offset.
  pub seek : (fuel : ℕ) → Table → (offset cluster : ℕ) → Option Place
  seek zero fat offset cluster = none
  seek (suc fuel) fat offset cluster = elim (leb bytes_per_cluster offset) [
    | false ↦ some (record { cluster = cluster; off = offset })
    | true ↦ seek fuel fat (offset - bytes_per_cluster) (next_cluster fat cluster)
  ]

  -- Load.
  pub load : Volume → DirectoryEntry → (len offset : ℕ) → Option (List ℕ)
  unfolding read seek
  load v entry len offset = elim (seek (offset + 1) v.fat offset (first_cluster entry)) [
    | none ↦ none
    | some place ↦
        elim (read v entry
          (record fresh { rd_off = offset; rd_cluster = place.cluster; rd_cluster_off = place.off })
          len) [ none ↦ none | some (fd, bytes) ↦ some bytes ]
  ]

  abbrev pub num_cluster : ℕ → ℕ
  num_cluster bytes = (bytes + bytes_per_cluster - 1) / bytes_per_cluster

  -- The cluster that Write goes on in when the last one is full. ExtendCluster returns the last
  -- cluster that it has appended.
  unfoldable pub following : (fuel : ℕ) → Volume → (wr_cluster left : ℕ) → Option (Volume × ℕ)
  following fuel v wr_cluster left =
      let next = next_cluster v.fat wr_cluster in
      elim (next == end_of_clusterchain) [
        | false ↦ some (v, next)
        | true ↦ elim (extend_cluster fuel v.fat wr_cluster (num_cluster left)) [
          | none ↦ none
          | some (fat, last) ↦ some (record v { fat = fat }, last)
        ]
      ]

  -- The start of a round of the loop of Write.
  unfoldable pub room :
      (fuel : ℕ) → Volume → (wr_cluster wr_cluster_off left : ℕ) → Option (Volume × ℕ × ℕ)
  unfolding following
  room fuel v wr_cluster wr_cluster_off left = elim (wr_cluster_off == bytes_per_cluster) [
    | false ↦ some (v, wr_cluster, wr_cluster_off)
    | true ↦ elim (following fuel v wr_cluster left) [
      | none ↦ none
      | some (v', cluster) ↦ some (v', cluster, 0)
    ]
  ]

  -- The loop of Write over the bytes that are left of the buffer; `fuel` is for the FAT.
  unfoldable pub write_loop :
      (rounds fuel : ℕ)
      → Volume
      → (wr_cluster wr_cluster_off : ℕ) → List ℕ
      → Option (Volume × ℕ × ℕ)
  unfolding room
  write_loop zero fuel v cluster off buf = none
  write_loop (suc rounds) fuel v cluster off [] = some (v, cluster, off)
  write_loop (suc rounds) fuel v cluster off (b ∷ bs) =
      elim (room fuel v cluster off (length (b ∷ bs))) [
        | none ↦ none
        | some (v', cluster', off') ↦
            let n = min (length (b ∷ bs)) (bytes_per_cluster - off') in
            let filled = overlay (take n (b ∷ bs)) off' (v'.bytes cluster') in
            write_loop rounds fuel (record v' { bytes = put cluster' filled v'.bytes }) cluster'
              (off' + n) (drop n (b ∷ bs))
      ]

  -- The start of Write: the cluster to write to, allocated for a file that has none.
  unfoldable pub first_room :
      (fuel : ℕ)
      → Volume
      → DirectoryEntry
      → FileDescriptor
      → (len : ℕ) → Option (Volume × DirectoryEntry × ℕ)
  first_room fuel v entry fd len =
      if fd.wr_cluster == 0
      then (if first_cluster entry == 0
          then elim (allocate_cluster_chain fuel v.fat (num_cluster len)) [
            | none ↦ none
            | some (fat, first) ↦ some (
              record v { fat = fat },
              record entry {
                first_cluster_low = bit_and first 0xffff;
                first_cluster_high = bit_and (first / 2 ^ 16) 0xffff;
              },
              first,
            )
          ]
          else some (v, entry, first_cluster entry))
      else some (v, entry, fd.wr_cluster)

  -- Write; it returns the length of the buffer.
  unfoldable pub write :
      (fuel : ℕ)
      → Volume
      → DirectoryEntry
      → FileDescriptor
      → List ℕ
      → Option (Volume × DirectoryEntry × FileDescriptor)
  unfolding first_room write_loop
  write fuel v entry fd buf = elim (first_room fuel v entry fd (length buf)) [
    | none ↦ none
    | some (v0, entry', start) ↦
        elim (write_loop (length buf + 1) fuel v0 start fd.wr_cluster_off buf) [
          | none ↦ none
          | some (v', cluster, off) ↦
              let wr_off = fd.wr_off + length buf in
              some (
                v',
                record entry' { file_size = wr_off % 2 ^ 32 },
                record fd { wr_cluster = cluster; wr_cluster_off = off; wr_off = wr_off },
              )
        ]
  ]
