-- ===== src/Fat/Files/Reading.antt =====
-- What Read, LoadFile and Load of kernel/fat.cpp return.
use Prim.Native.Nat.{min}
use mathlib.Core.List.{append-nil, append_assoc}
use min_os.Common.{
  length-take, ℕ, zero, suc, ◌+◌, ◌-◌, ◌%◌, ◌^◌, ◌≤◌, ◌<◌, ◌≡◌, refl, sym, ap, ◌∙◌, inl, inr, true,
  false, some, List, [], ◌∷◌, ◌++◌, ◌==◌, ltb, if◌then◌else◌, length, take, drop, slice,
  length-append, length-slice, take-append, drop-append, arith, Bool-cases,
}
use min_os.Fat.{DirectoryEntry, first_cluster}
use min_os.Fat.Files.{Volume, Place, FileDescriptor, advance, read_loop, read}
use min_os.Fat.Files.Position.{StandsAt, remaining, advance-StandsAt}

taken :
    (front back xs : List ℕ) (n k : ℕ)
    → k ≡ length front + n
    → xs ≡ front ++ back
    → front ++ take n back ≡ take k xs
taken front back xs n k e f = rw (e, f) (sym (take-append front back n))

dropped :
    (front back xs : List ℕ) (n k : ℕ)
    → k ≡ length front + n
    → xs ≡ front ++ back
    → drop n back ≡ drop k xs
dropped front back xs n k e f = rw (e, f) (sym (drop-append front back n))

module _ (bpc : ℕ) where
  read_loop-end :
      (fuel : ℕ) (v : Volume) (len total : ℕ) (place : Place) (buf : List ℕ)
      → ltb total len ≡ false
      → read_loop bpc (suc fuel) v len total place buf ≡ some (buf, place)
  unfolding read_loop
  read_loop-end fuel v len total place buf done = rw (read_loop, done) refl

  read_loop-more :
      (fuel : ℕ) (v : Volume) (len total c k : ℕ) (buf : List ℕ)
      → ltb total len ≡ true
      → let n = min (len - total) (bpc - k) in
        read_loop bpc (suc fuel) v len total (record { cluster = c; off = k }) buf
        ≡ read_loop bpc fuel v len
            (total + n)
            (advance bpc v.fat c (k + n))
            (buf ++ slice (v.bytes c) k n)
  unfolding read_loop
  read_loop-more fuel v len total c k buf more = rw (read_loop, more) refl

  -- What a round that has more to read does: a chunk goes to the buffer, and the place moves on.
  record Round (fuel : ℕ) (v : Volume) (len total : ℕ) (place : Place) (buf rest : List ℕ)
      : Type 0 where
    clusters : List ℕ
    k' : ℕ
    place' : Place
    chunk : List ℕ
    positive : 0 < length chunk
    bounded : total + length chunk ≤ len
    runs :
        read_loop bpc (suc fuel) v len total place buf
        ≡ read_loop bpc fuel v len (total + length chunk) place' (buf ++ chunk)
    stands : StandsAt bpc v.fat clusters k' place'
    splits : rest ≡ chunk ++ remaining bpc v.bytes clusters k'

  read_loop-Round :
      (fuel : ℕ) (v : Volume) (len total : ℕ) (cs : List ℕ) (k : ℕ) (place : Place) (buf : List ℕ)
      → StandsAt bpc v.fat cs k place
      → len - total ≤ length (remaining bpc v.bytes cs k)
      → ltb total len ≡ true
      → Round fuel v len total place buf (remaining bpc v.bytes cs k)
  read_loop-Round fuel v len total [] k place buf at room more = absurd (ground arith)
  read_loop-Round fuel v len total (c ∷ cs) k place buf at room more =
      let n = min (len - total) (bpc - k) in
      let (ds, k', at', split) = advance-StandsAt bpc v c cs k n at.2 at.0 (omega arith) at.3 in
      let size = length-slice (v.bytes c) k n in
      record {
        clusters = ds;
        k' = k';
        place' = advance bpc v.fat c (k + n);
        chunk = slice (v.bytes c) k n;
        positive = ground (arith, size, at.0);
        bounded = ground (arith, size);
        runs =
            ap (λ p. read_loop bpc (suc fuel) v len total p buf) at.1
            ∙ read_loop-more fuel v len total c k buf more
            ∙ ap
                (λ t.
                  read_loop bpc fuel v len (total + t) (advance bpc v.fat c (k + n))
                    (buf ++ slice (v.bytes c) k n))
                (sym size);
        stands = at';
        splits = split;
      }

  -- What the loop leaves when `left` bytes are wanted from a place in a chain.
  abbrev Outcome : (fuel : ℕ) → Volume → (len total left : ℕ) → Place → List ℕ → List ℕ → Type 0
  Outcome fuel v len total w place buf rest =
      (ds : List ℕ) × (k' : ℕ) × (place' : Place) × (read_loop bpc fuel v len total place buf
        ≡ some (buf ++ take w rest, place'))
      × StandsAt bpc v.fat ds k' place'
      × (remaining bpc v.bytes ds k' ≡ drop w rest)

  Round-Outcome :
      (fuel : ℕ) (v : Volume) (len total w : ℕ) (place : Place) (buf rest : List ℕ)
      (o : Round fuel v len total place buf rest)
      → length o.chunk ≤ w
      → Outcome fuel v len
          (total + length o.chunk)
          (w - length o.chunk)
          o.place'
          (buf ++ o.chunk)
          (remaining bpc v.bytes o.clusters o.k')
      → Outcome (suc fuel) v len total w place buf rest
  Round-Outcome fuel v len total w place buf rest o h (es, k'', place', run, at, left) =
      let back = remaining bpc v.bytes o.clusters o.k' in
      let n = w - length o.chunk in
      let wanted : w ≡ length o.chunk + n = omega arith in
      let whole : (buf ++ o.chunk) ++ take n back ≡ buf ++ take w rest =
        append_assoc buf o.chunk (take n back)
        ∙ ap (λ l. buf ++ l) (taken o.chunk back rest n w wanted o.splits) in
      (
        es,
        k'',
        place',
        o.runs ∙ run ∙ ap (λ l. some (l, place')) whole,
        at,
        left ∙ dropped o.chunk back rest n w wanted o.splits,
      )

  read_loop-reads :
      (fuel : ℕ) (v : Volume) (len total w : ℕ) (cs : List ℕ) (k : ℕ) (place : Place) (buf : List ℕ)
      → StandsAt bpc v.fat cs k place
      → len ≡ total + w
      → w < fuel
      → w ≤ length (remaining bpc v.bytes cs k)
      → Outcome fuel v len total w place buf (remaining bpc v.bytes cs k)
  read_loop-reads zero v len total w cs k place buf at e h room = absurd (omega arith)
  read_loop-reads (suc fuel) v len total w cs k place buf at e h room =
      elim (Bool-cases (ltb total len)) [
        | inr done ↦
            let none_left : w ≡ 0 = ground arith in
            rw none_left (
              cs,
              k,
              place,
              read_loop-end fuel v len total place buf done
                  ∙ ap (λ l. some (l, place)) (sym (append-nil buf)),
              at,
              refl,
            )
        | inl more ↦
            let o = read_loop-Round fuel v len total cs k place buf at (omega arith) more in
            let whole = length-append o.chunk (remaining bpc v.bytes o.clusters o.k') in
            Round-Outcome fuel v len total w place buf (remaining bpc v.bytes cs k) o
              (omega (arith, o.bounded))
              (read_loop-reads fuel v len (total + length o.chunk) (w - length o.chunk) o.clusters
                o.k' o.place' (buf ++ o.chunk) o.stands (omega (arith, o.bounded))
                (omega (arith, o.positive)) (omega (arith, ap length o.splits, whole)))
      ]

  -- Read, given what its loop does.
  read-run :
      (v : Volume) (entry : DirectoryEntry) (fd : FileDescriptor) (len n start : ℕ) (buf : List ℕ)
      (place : Place)
      → (if fd.rd_cluster == 0 then first_cluster entry else fd.rd_cluster) ≡ start
      → min len ((entry.file_size + (2 ^ 64 - fd.rd_off)) % 2 ^ 64) ≡ n
      → read_loop bpc (n + 1) v n 0 (record { cluster = start; off = fd.rd_cluster_off }) []
        ≡ some (buf, place)
      → read bpc v entry fd len
        ≡ some (
          record fd {
            rd_cluster = place.cluster;
            rd_cluster_off = place.off;
            rd_off = fd.rd_off + length buf;
          },
          buf,
        )
  unfolding read
  read-run v entry fd len n start buf place e f run = rw (read, e, f, run) refl

  -- Read at a place in a chain, when what is left of the file lies in the chain: it always returns,
  -- with the next bytes of the chain, as many as are wanted or as the file has left, and stands
  -- behind them.
  pub read-remaining :
      (v : Volume) (entry : DirectoryEntry) (fd : FileDescriptor) (len start : ℕ) (cs : List ℕ)
      (k : ℕ)
      → (if fd.rd_cluster == 0 then first_cluster entry else fd.rd_cluster) ≡ start
      → StandsAt bpc v.fat cs k (record { cluster = start; off = fd.rd_cluster_off })
      → fd.rd_off ≤ entry.file_size
      → entry.file_size < 2 ^ 32
      → entry.file_size - fd.rd_off ≤ length (remaining bpc v.bytes cs k)
      → let n = min len (entry.file_size - fd.rd_off) in
        let rest = remaining bpc v.bytes cs k in
        (fd' : FileDescriptor) × (ds : List ℕ) × (k' : ℕ) × (read bpc v entry fd len
          ≡ some (fd', take n rest))
        × (fd'.rd_off ≡ fd.rd_off + n)
        × StandsAt bpc v.fat ds k' (record { cluster = fd'.rd_cluster; off = fd'.rd_cluster_off })
        × (remaining bpc v.bytes ds k' ≡ drop n rest)
  read-remaining v entry fd len start cs k used at behind small room =
      let n = min len (entry.file_size - fd.rd_off) in
      let rest = remaining bpc v.bytes cs k in
      let wanted : min len ((entry.file_size + (2 ^ 64 - fd.rd_off)) % 2 ^ 64) ≡ n = omega arith in
      let (ds, k', place', run, at', rest') =
        read_loop-reads (n + 1) v n 0 n cs k (record { cluster = start; off = fd.rd_cluster_off })
          [] at (omega arith) (omega arith) (omega arith) in
      (
        _,
        ds,
        k',
        read-run v entry fd len n start (take n rest) place' used wanted run,
        ap (λ l. fd.rd_off + l) (length-take n rest (omega arith)),
        at',
        rest',
      )
