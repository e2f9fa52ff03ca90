-- ===== src/Fat/Files/Saved.antt =====
-- Write of kernel/fat.cpp over a chain that has room, and what LoadFile then returns.
use Prim.Native.Nat.{min}
use mathlib.Core.Path.{subst}
use mathlib.Core.List.{append-nil}
use min_os.Common.{
  ℕ, zero, suc, ◌+◌, ◌-◌, ◌%◌, ◌^◌, ◌≤◌, ◌<◌, ◌≡◌, refl, sym, ap, ◌∙◌, inl, inr, true, false, some,
  List, [], ◌∷◌, ◌++◌, ◌==◌, length, take, drop, slice, count, length-append, length-slice,
  length-drop, take-append, arith, Bool-cases, ==_ne,
}
use min_os.Fat.{DirectoryEntry, first_cluster}
use min_os.Fat.Chains.Extension.{Chain}
use min_os.Fat.Chains.Append.{Distinct}
use min_os.Fat.Files.{Volume, FileDescriptor, fresh, write_loop, first_room, write, load_file}
use min_os.Fat.Files.Position.{contents, remaining, remaining-contents}
use min_os.Fat.Files.Writing.{Written, Written-end, Written-next, Written-inside}
use min_os.Fat.Files.Whole.{HasChain, load_file-contents}

module _ (bpc fuel : ℕ) where
  -- The bytes that clusters take.
  abbrev pub capacity : List ℕ → ℕ
  capacity [] = 0
  capacity (c ∷ cs) = bpc + capacity cs

  length-contents : (bytes : ℕ → ℕ → ℕ) (cs : List ℕ) → length (contents bpc bytes cs) ≡ capacity cs
  length-contents bytes [] = refl
  length-contents bytes (c ∷ cs) = omega (
    arith,
    length-append (slice (bytes c) 0 bpc) (contents bpc bytes cs),
    length-slice (bytes c) 0 bpc,
    length-contents bytes cs,
  )

  -- The place is in the cluster or at its end, and the buffer fits in the chain from there on.
  record Fits (v : Volume) (c : ℕ) (cs : List ℕ) (off : ℕ) (buf : List ℕ) : Type 0 where
    chain : Chain v.fat (c ∷ cs)
    distinct : Distinct (c ∷ cs)
    inside : off ≤ bpc
    positive : 0 < bpc
    roomy : length buf ≤ (bpc - off) + capacity cs

  -- A round that writes, given what the rounds after it do.
  Fits-inside :
      (rounds : ℕ)
      → ((v : Volume) (c : ℕ) (cs : List ℕ) (off : ℕ) (buf : List ℕ)
          → Fits v c cs off buf
          → length buf < rounds
          → Written bpc fuel rounds v c cs off buf)
      → (v : Volume) (c : ℕ) (cs : List ℕ) (off b : ℕ) (bs : List ℕ) → Fits v c cs off (b ∷ bs)
      → (off == bpc) ≡ false
      → length (b ∷ bs) < suc rounds
      → Written bpc fuel (suc rounds) v c cs off (b ∷ bs)
  Fits-inside rounds ih v c cs off b bs fits ne h =
      let n = min (length (b ∷ bs)) (bpc - off) in
      let left = length-drop n (b ∷ bs) (omega arith) in
      let some_room : 0 < n = ground (arith, fits.inside) in
      Written-inside bpc fuel rounds v c cs off n b bs ne fits.inside fits.distinct.0 refl (
        ih _ c cs (off + n) (drop n (b ∷ bs))
          (record {
            chain = fits.chain;
            distinct = fits.distinct;
            inside = omega (arith, fits.inside);
            positive = fits.positive;
            roomy = omega (arith, left, fits.roomy, fits.inside);
          })
          (omega (arith, left, some_room, h)))

  Fits-next :
      (v : Volume) (c d : ℕ) (ds : List ℕ) (off : ℕ) (buf : List ℕ)
      → Fits v c (d ∷ ds) off buf
      → (off == bpc) ≡ true
      → Fits v d ds 0 buf
  Fits-next v c d ds off buf fits full = record {
    chain = fits.chain.3;
    distinct = fits.distinct.1;
    inside = omega arith;
    positive = fits.positive;
    roomy = ground (arith, fits.roomy);
  }

  Fits-Written :
      (rounds : ℕ) (v : Volume) (c : ℕ) (cs : List ℕ) (off : ℕ) (buf : List ℕ)
      → Fits v c cs off buf
      → length buf < rounds
      → Written bpc fuel rounds v c cs off buf
  Fits-Written zero v c cs off buf fits h = absurd (omega arith)
  Fits-Written (suc rounds) v c cs off [] fits h = Written-end bpc fuel rounds v c cs off
  Fits-Written (suc rounds) v c [] off (b ∷ bs) fits h =
      Fits-inside rounds (Fits-Written rounds) v c [] off b bs fits (ground (arith, fits.roomy)) h
  Fits-Written (suc rounds) v c (d ∷ ds) off (b ∷ bs) fits h = elim (Bool-cases (off == bpc)) [
    | inr ne ↦ Fits-inside rounds (Fits-Written rounds) v c (d ∷ ds) off b bs fits ne h
    | inl full ↦
        let next =
          Fits-inside rounds (Fits-Written rounds) v d ds 0 b bs
            (Fits-next v c d ds off (b ∷ bs) fits full) (ground (arith, fits.positive)) h in
        let at_end : bpc ≡ off = ground arith in
        subst (λ o. Written bpc fuel (suc rounds) v c (d ∷ ds) o (b ∷ bs)) at_end
          (Written-next bpc fuel rounds v c d ds b bs fits.positive fits.chain fits.distinct next)
  ]

  write-run :
      (v v0 v' : Volume) (entry entry' : DirectoryEntry) (fd : FileDescriptor) (buf : List ℕ)
      (start cluster off : ℕ)
      → first_room bpc fuel v entry fd (length buf) ≡ some (v0, entry', start)
      → write_loop bpc (length buf + 1) fuel v0 start fd.wr_cluster_off buf
        ≡ some (v', cluster, off)
      → write bpc fuel v entry fd buf
        ≡ some (
          v',
          record entry' { file_size = (fd.wr_off + length buf) % 2 ^ 32 },
          record fd { wr_cluster = cluster; wr_cluster_off = off; wr_off = fd.wr_off + length buf },
        )
  unfolding write
  write-run v v0 v' entry entry' fd buf start cluster off room run = rw (write, room, run) refl

  first_room-chain :
      (v : Volume) (entry : DirectoryEntry) (len c : ℕ)
      → first_cluster entry ≡ c
      → 0 < c
      → first_room bpc fuel v entry fresh len ≡ some (v, entry, c)
  unfolding first_room
  first_room-chain v entry len c starts named =
      rw (first_room, starts, ==_ne c 0 (omega arith)) refl

  -- What Write and LoadFile do once the first cluster is known.
  abbrev pub Saved :
      Volume → DirectoryEntry → Volume → DirectoryEntry → (c : ℕ) (cs buf : List ℕ) → Type 0
  Saved v entry v0 entry0 c cs buf =
      (v' : Volume) × (fd : FileDescriptor) × (write bpc fuel v entry fresh buf
        ≡ some (v', record entry0 { file_size = length buf }, fd))
      × (load_file bpc v' (record entry0 { file_size = length buf }) (length buf) ≡ some buf)
      × (v'.fat ≡ v0.fat)
      × ((d : ℕ) → count d (c ∷ cs) ≡ 0 → v'.bytes d ≡ v0.bytes d)

  pub Chain-Saved :
      (v v0 : Volume) (entry entry0 : DirectoryEntry) (c : ℕ) (cs buf : List ℕ)
      → first_room bpc fuel v entry fresh (length buf) ≡ some (v0, entry0, c)
      → first_cluster entry0 ≡ c
      → 0 < c
      → Chain v0.fat (c ∷ cs)
      → Distinct (c ∷ cs)
      → 0 < bpc
      → length buf ≤ capacity (c ∷ cs)
      → length buf < 2 ^ 32
      → Saved v entry v0 entry0 c cs buf
  unfolding first_cluster
  Chain-Saved v v0 entry entry0 c cs buf first starts named chain distinct h room small =
      let w =
        Fits-Written (length buf + 1) v0 c cs 0 buf
          (record {
            chain = chain;
            distinct = distinct;
            inside = omega arith;
            positive = h;
            roomy = omega (arith, room);
          })
          (omega arith) in
      let v' : Volume = record v0 { bytes = w.bytes' } in
      let fd : FileDescriptor = record fresh {
        wr_cluster = w.c';
        wr_cluster_off = w.off';
        wr_off = 0 + length buf;
      } in
      let old = remaining bpc v0.bytes (c ∷ cs) 0 in
      let all : contents bpc w.bytes' (c ∷ cs) ≡ buf ++ drop (length buf) old =
        sym (remaining-contents bpc w.bytes' (c ∷ cs)) ∙ w.over in
      let whole : take (length buf + 0) (contents bpc w.bytes' (c ∷ cs)) ≡ buf =
        rw all (take-append buf (drop (length buf) old) 0 ∙ append-nil buf) in
      let holder : HasChain bpc v' (record entry0 { file_size = length buf }) c cs = record {
        starts = starts;
        named = named;
        chain = chain;
        holds = omega (arith, length-contents w.bytes' (c ∷ cs), room);
        small = small;
        positive = h;
      } in
      let exact : min (length buf) (length buf) ≡ length buf + 0 = omega arith in
      let plain : (0 + length buf) % 2 ^ 32 ≡ length buf = omega arith in
      (
        v',
        fd,
        subst
            (λ s. write bpc fuel v entry fresh buf ≡ some (v', record entry0 { file_size = s }, fd))
            plain (write-run v v0 v' entry entry0 fresh buf c w.c' w.off' first w.runs),
        load_file-contents bpc _ _ c cs holder (length buf)
            ∙ ap (λ n. some (take n (contents bpc w.bytes' (c ∷ cs)))) exact
            ∙ ap some whole,
        refl,
        w.others,
      )

  -- Write of less than 4 GiB from the start of a file whose chain, of different clusters that are not
  -- empty and a first one that is not 0, has room for the buffer: it returns and leaves the FAT and
  -- all other clusters as they are; the file has the buffer's length, and LoadFile gives the buffer
  -- back.
  pub write-load_file :
      (v : Volume) (entry : DirectoryEntry) (c : ℕ) (cs buf : List ℕ)
      → first_cluster entry ≡ c
      → 0 < c
      → Chain v.fat (c ∷ cs)
      → Distinct (c ∷ cs)
      → 0 < bpc
      → length buf ≤ length (contents bpc v.bytes (c ∷ cs))
      → length buf < 2 ^ 32
      → let entry' = record entry { file_size = length buf } in
        (v' : Volume) × (fd : FileDescriptor) × (write bpc fuel v entry fresh buf
          ≡ some (v', entry', fd))
        × (load_file bpc v' entry' (length buf) ≡ some buf)
        × (v'.fat ≡ v.fat)
        × ((d : ℕ) → count d (c ∷ cs) ≡ 0 → v'.bytes d ≡ v.bytes d)
  write-load_file v entry c cs buf starts named chain distinct h room small =
      Chain-Saved v v entry entry c cs buf (first_room-chain v entry (length buf) c starts named)
        starts named chain distinct h (omega (arith, room, length-contents v.bytes (c ∷ cs))) small
