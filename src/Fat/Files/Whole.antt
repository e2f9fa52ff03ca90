-- ===== src/Fat/Files/Whole.antt =====
-- Reading a file of kernel/fat.cpp whole, in pieces, and from an offset.
use Prim.Native.Nat.{min}
use mathlib.Core.Path.{subst}
use min_os.Common.{
  ℕ, ◌+◌, ◌-◌, ◌^◌, ◌≤◌, ◌<◌, ◌≡◌, refl, ap, ◌∙◌, some, List, [], ◌∷◌, ◌++◌, ◌==◌, if◌then◌else◌,
  length, take, drop, length-drop, take-add, arith,
}
use min_os.Fat.{DirectoryEntry, first_cluster}
use min_os.Fat.Chains.Extension.{Chain}
use min_os.Fat.Files.{Volume, FileDescriptor, fresh, read, load_file}
use min_os.Fat.Files.Position.{contents, StandsAt, remaining, remaining-contents}
use min_os.Fat.Files.Reading.{read-remaining}

-- The entry's chain is `c ∷ cs`, and holds the whole file.
pub record HasChain (bpc : ℕ) (v : Volume) (entry : DirectoryEntry) (c : ℕ) (cs : List ℕ)
    : Type 0 where
  pub starts : first_cluster entry ≡ c
  pub named : 0 < c
  pub chain : Chain v.fat (c ∷ cs)
  pub holds : entry.file_size ≤ length (contents bpc v.bytes (c ∷ cs))
  pub small : entry.file_size < 2 ^ 32
  pub positive : 0 < bpc

module _ (bpc : ℕ) (v : Volume) (entry : DirectoryEntry) (c : ℕ) (cs : List ℕ)
    (h : HasChain bpc v entry c cs) where
  load_file-run :
      (len : ℕ) (fd : FileDescriptor) (buf : List ℕ)
      → read bpc v entry fresh len ≡ some (fd, buf)
      → load_file bpc v entry len ≡ some buf
  unfolding load_file
  load_file-run len fd buf run = rw (load_file, run) refl

  -- Read gives `n` bytes of `rest`, and stands behind them.
  abbrev Reads : FileDescriptor → (len n : ℕ) → (rest : List ℕ) → Type 0
  Reads fd len n rest =
      (fd' : FileDescriptor) × (ds : List ℕ) × (k : ℕ) × (read bpc v entry fd len
        ≡ some (fd', take n rest))
      × (fd'.rd_off ≡ fd.rd_off + n)
      × StandsAt bpc v.fat ds k (record { cluster = fd'.rd_cluster; off = fd'.rd_cluster_off })
      × (remaining bpc v.bytes ds k ≡ drop n rest)

  read-Reads :
      (fd : FileDescriptor) (len start n k : ℕ) (ds rest : List ℕ)
      → (if fd.rd_cluster == 0 then first_cluster entry else fd.rd_cluster) ≡ start
      → StandsAt bpc v.fat ds k (record { cluster = start; off = fd.rd_cluster_off })
      → fd.rd_off ≤ entry.file_size
      → min len (entry.file_size - fd.rd_off) ≡ n
      → remaining bpc v.bytes ds k ≡ rest
      → entry.file_size - fd.rd_off ≤ length rest
      → Reads fd len n rest
  read-Reads fd len start n k ds rest used at behind e f room = subst (Reads fd len n) f (
      subst (λ m. Reads fd len m (remaining bpc v.bytes ds k)) e
        (read-remaining bpc v entry fd len start ds k used at behind h.small
          (omega (arith, room, ap length f))))

  first-Reads :
      (len n : ℕ) → min len entry.file_size ≡ n → Reads fresh len n (contents bpc v.bytes (c ∷ cs))
  first-Reads len n e =
      read-Reads fresh len c n 0 (c ∷ cs) (contents bpc v.bytes (c ∷ cs)) h.starts
        (h.positive, refl, h.chain, h.named) (omega arith) (omega arith)
        (remaining-contents bpc v.bytes (c ∷ cs)) (omega (arith, h.holds))

  -- LoadFile of a file whose chain holds it always returns: the first bytes of the chain, as many as
  -- the buffer takes and the file has.
  pub load_file-contents :
      (len : ℕ)
      → load_file bpc v entry len
        ≡ some (take (min len entry.file_size) (contents bpc v.bytes (c ∷ cs)))
  load_file-contents len =
      let (fd, _, _, run, _, _, _) = first-Reads len (min len entry.file_size) refl in
      load_file-run len fd _ run

  -- A descriptor that stands in a chain uses its own cluster.
  used :
      (fd : FileDescriptor) (ds : List ℕ) (k : ℕ)
      → StandsAt bpc v.fat ds k (record { cluster = fd.rd_cluster; off = fd.rd_cluster_off })
      → (if fd.rd_cluster == 0 then first_cluster entry else fd.rd_cluster) ≡ fd.rd_cluster
  used fd [] k at = rw (ap (λ p. p.cluster) at.1) refl
  used fd (d ∷ ds) k at = ground (arith, ap (λ p. p.cluster) at.1, at.3)

  -- Read of `a` bytes from the start of a file of less than 4 GiB, whose chain holds it in clusters that
  -- are not empty and a first one that is not 0, then of `b` bytes: both always return, and together
  -- give what one Read of `a + b` bytes gives.
  pub read-read :
      (a b : ℕ)
      → (fd : FileDescriptor) × (buf : List ℕ) × (fd' : FileDescriptor) × (buf' : List ℕ) × (read
            bpc v entry fresh a
          ≡ some (fd, buf))
        × (read bpc v entry fd b ≡ some (fd', buf'))
        × (load_file bpc v entry (a + b) ≡ some (buf ++ buf'))
  read-read a b =
      let all = contents bpc v.bytes (c ∷ cs) in
      let n = min a entry.file_size in
      let m = min b (entry.file_size - n) in
      let size = length-drop n all (omega (arith, h.holds)) in
      let (fd, ds, k, run, off, at, left) = first-Reads a n refl in
      let (fd', _, _, run', _, _, _) =
        read-Reads fd b fd.rd_cluster m k ds (drop n all) (used fd ds k at) at (omega (arith, off))
          (omega (arith, off)) left (omega (arith, off, h.holds, size)) in
      let split : min (a + b) entry.file_size ≡ n + m = omega arith in
      (
        fd,
        take n all,
        fd',
        take m (drop n all),
        run,
        run',
        load_file-contents (a + b) ∙ ap (λ t. some (take t all)) split ∙ ap some (take-add n m all),
      )
