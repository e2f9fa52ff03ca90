-- ===== src/Fat/Files/Writing.antt =====
-- What Write of kernel/fat.cpp leaves in a chain that has room.
use Prim.Native.Nat.{min}
use mathlib.Core.List.{append_assoc}
use mathlib.Core.Path.{subst}
use min_os.Common.{
  ℕ, suc, ◌+◌, ◌-◌, ◌≤◌, ◌<◌, ◌≡◌, refl, sym, ap, ◌∙◌, false, some, List, [], ◌∷◌, ◌++◌, ◌==◌, put,
  length, take, drop, slice, count, length-slice, slice-add, length-take, length-drop, take-drop,
  drop-append, arith, ==_refl, ==_ne,
}
use min_os.Fat.Chains.{end_of_clusterchain, next_cluster}
use min_os.Fat.Chains.Extension.{Chain}
use min_os.Fat.Chains.Append.{Distinct}
use min_os.Fat.Files.{Volume, overlay, following, room, write_loop}
use min_os.Fat.Files.Position.{contents, remaining, remaining-contents}
use min_os.Fat.Files.Overlay.{
  overlay-before, overlay-behind, slice-cong, slice-overlay, contents-cong,
}

module _ (bpc fuel : ℕ) where
  write_loop-end :
      (rounds : ℕ) (v : Volume) (c off : ℕ)
      → write_loop bpc (suc rounds) fuel v c off [] ≡ some (v, c, off)
  unfolding write_loop
  write_loop-end rounds v c off = refl

  write_loop-inside :
      (rounds : ℕ) (v : Volume) (c off b : ℕ) (bs : List ℕ)
      → (off == bpc) ≡ false
      → let n = min (length (b ∷ bs)) (bpc - off) in
        write_loop bpc (suc rounds) fuel v c off (b ∷ bs)
        ≡ write_loop bpc rounds fuel
            (record v { bytes = put c (overlay (take n (b ∷ bs)) off (v.bytes c)) v.bytes })
            c
            (off + n)
            (drop n (b ∷ bs))
  unfolding write_loop room
  write_loop-inside rounds v c off b bs inside = rw (write_loop, room, inside) refl

  room-next :
      (v : Volume) (c d left : ℕ)
      → (next_cluster v.fat c == end_of_clusterchain) ≡ false
      → next_cluster v.fat c ≡ d
      → 0 < bpc
      → room bpc fuel v c bpc left ≡ room bpc fuel v d 0 left
  unfolding room following
  room-next v c d left more next h =
      rw (room, following, ==_refl bpc, more, next, ==_ne 0 bpc (omega arith)) refl

  write_loop-next :
      (rounds : ℕ) (v : Volume) (c d b : ℕ) (bs : List ℕ)
      → (next_cluster v.fat c == end_of_clusterchain) ≡ false
      → next_cluster v.fat c ≡ d
      → 0 < bpc
      → write_loop bpc (suc rounds) fuel v c bpc (b ∷ bs)
        ≡ write_loop bpc (suc rounds) fuel v d 0 (b ∷ bs)
  unfolding write_loop
  write_loop-next rounds v c d b bs more next h =
      rw (write_loop, room-next v c d (length (b ∷ bs)) more next h) refl

  remaining-full :
      (bytes : ℕ → ℕ → ℕ) (c : ℕ) (cs : List ℕ)
      → remaining bpc bytes (c ∷ cs) bpc ≡ contents bpc bytes cs
  remaining-full bytes c cs = rw none_left refl
    where
      none_left : bpc - bpc ≡ 0
      none_left = omega arith

  remaining-split :
      (bytes : ℕ → ℕ → ℕ) (c : ℕ) (cs : List ℕ) (off n : ℕ)
      → off + n ≤ bpc
      → remaining bpc bytes (c ∷ cs) off
        ≡ slice (bytes c) off n ++ remaining bpc bytes (c ∷ cs) (off + n)
  remaining-split bytes c cs off n h =
      rw (split, slice-add (bytes c) off n (bpc - (off + n)))
        (append_assoc (slice (bytes c) off n) _ _)
    where
      split : bpc - off ≡ n + (bpc - (off + n))
      split = omega arith

  -- The loop puts the buffer over the bytes that stand there, and changes nothing else.
  pub record Written (rounds : ℕ) (v : Volume) (c : ℕ) (cs : List ℕ) (off : ℕ) (buf : List ℕ)
      : Type 0 where
    pub bytes' : ℕ → ℕ → ℕ
    pub c' : ℕ
    pub off' : ℕ
    pub runs : write_loop bpc rounds fuel v c off buf ≡ some (record v { bytes = bytes' }, c', off')
    pub over :
        remaining bpc bytes' (c ∷ cs) off
        ≡ buf ++ drop (length buf) (remaining bpc v.bytes (c ∷ cs) off)
    pub others : (d : ℕ) → count d (c ∷ cs) ≡ 0 → bytes' d ≡ v.bytes d
    pub before : (i : ℕ) → i < off → bytes' c i ≡ v.bytes c i

  pub Written-end :
      (rounds : ℕ) (v : Volume) (c : ℕ) (cs : List ℕ) (off : ℕ) → Written (suc rounds) v c cs off []
  Written-end rounds v c cs off = record {
    bytes' = v.bytes;
    c' = c;
    off' = off;
    runs = write_loop-end rounds v c off;
    over = refl;
    others = λ d out. refl;
    before = λ i h. refl;
  }

  pub Written-next :
      (rounds : ℕ) (v : Volume) (c d : ℕ) (cs : List ℕ) (b : ℕ) (bs : List ℕ)
      → 0 < bpc
      → Chain v.fat (c ∷ (d ∷ cs))
      → Distinct (c ∷ (d ∷ cs))
      → Written (suc rounds) v d cs 0 (b ∷ bs)
      → Written (suc rounds) v c (d ∷ cs) bpc (b ∷ bs)
  Written-next rounds v c d cs b bs h chain distinct w = record {
    bytes' = w.bytes';
    c' = w.c';
    off' = w.off';
    runs =
        write_loop-next rounds v c d b bs (ground (arith, chain.0))
          (ground (arith, chain.0, chain.1)) h
        ∙ w.runs;
    over =
        remaining-full w.bytes' c (d ∷ cs)
        ∙ sym (remaining-contents bpc w.bytes' (d ∷ cs))
        ∙ w.over
        ∙ ap (λ l. (b ∷ bs) ++ drop (length (b ∷ bs)) l)
            (remaining-contents bpc v.bytes (d ∷ cs) ∙ sym (remaining-full v.bytes c (d ∷ cs)));
    others = λ x out. w.others x (ground arith);
    before = λ i l. ap (λ f. f i) (w.others c distinct.0);
  }

  module _ (v : Volume) (c : ℕ) (cs : List ℕ) (off n : ℕ) (buf : List ℕ) where
    -- The bytes of the volume after the memcpy of `n` bytes.
    abbrev pub filled : ℕ → ℕ → ℕ
    filled = put c (overlay (take n buf) off (v.bytes c)) v.bytes

    filled-others : (d : ℕ) → (d == c) ≡ false → filled d ≡ v.bytes d
    filled-others d ne = rw ne refl

    filled-behind :
        n ≤ length buf
        → count c cs ≡ 0
        → remaining bpc filled (c ∷ cs) (off + n) ≡ remaining bpc v.bytes (c ∷ cs) (off + n)
    filled-behind some_left out =
        ap (λ l. l ++ contents bpc filled cs)
          (slice-cong (filled c) (v.bytes c) (off + n) (bpc - (off + n)) (λ i lo hi.
            rw (==_refl c) (overlay-behind (take n buf) off (v.bytes c) i (omega (arith, size)))))
        ∙ ap (λ l. slice (v.bytes c) (off + n) (bpc - (off + n)) ++ l)
            (contents-cong bpc filled v.bytes c cs filled-others out)
      where
        size : length (take n buf) ≡ n
        size = length-take n buf some_left

    filled-slice : n ≤ length buf → slice (filled c) off n ≡ take n buf
    filled-slice some_left = rw (==_refl c) (
        subst (λ m. slice (overlay (take n buf) off (v.bytes c)) off m ≡ take n buf)
          (length-take n buf some_left) (slice-overlay (take n buf) off (v.bytes c)))

    over-inside :
        (bytes' : ℕ → ℕ → ℕ)
        → n ≤ length buf
        → off + n ≤ bpc
        → count c cs ≡ 0
        → ((i : ℕ) → i < off + n → bytes' c i ≡ filled c i)
        → remaining bpc bytes' (c ∷ cs) (off + n)
          ≡ drop n buf ++ drop (length (drop n buf)) (remaining bpc filled (c ∷ cs) (off + n))
        → remaining bpc bytes' (c ∷ cs) off
          ≡ buf ++ drop (length buf) (remaining bpc v.bytes (c ∷ cs) off)
    over-inside bytes' some_left inside out before over =
        remaining-split bytes' c cs off n inside
        ∙ ap (λ l. l ++ remaining bpc bytes' (c ∷ cs) (off + n))
            (slice-cong (bytes' c) (filled c) off n (λ i lo hi. before i hi)
              ∙ filled-slice some_left)
        ∙ ap (λ l. take n buf ++ l)
            (over
              ∙ ap (λ l. drop n buf ++ drop (length (drop n buf)) l) (filled-behind some_left out))
        ∙ sym (append_assoc (take n buf) (drop n buf) _)
        ∙ ap (λ l. l ++ drop (length (drop n buf)) (remaining bpc v.bytes (c ∷ cs) (off + n)))
            (take-drop n buf)
        ∙ ap (λ l. buf ++ l) (sym behind)
      where
        size : length (slice (v.bytes c) off n) ≡ n
        size = length-slice (v.bytes c) off n

        total : length buf ≡ length (slice (v.bytes c) off n) + length (drop n buf)
        total = omega (arith, size, length-drop n buf some_left)

        behind :
            drop (length buf) (remaining bpc v.bytes (c ∷ cs) off)
            ≡ drop (length (drop n buf)) (remaining bpc v.bytes (c ∷ cs) (off + n))
        behind =
            rw (remaining-split v.bytes c cs off n inside, total)
              (drop-append (slice (v.bytes c) off n) (remaining bpc v.bytes (c ∷ cs) (off + n))
                (length (drop n buf)))

  pub Written-inside :
      (rounds : ℕ) (v : Volume) (c : ℕ) (cs : List ℕ) (off n b : ℕ) (bs : List ℕ)
      → (off == bpc) ≡ false
      → off ≤ bpc
      → count c cs ≡ 0
      → min (length (b ∷ bs)) (bpc - off) ≡ n
      → Written rounds
          (record v { bytes = filled v c cs off n (b ∷ bs) })
          c
          cs
          (off + n)
          (drop n (b ∷ bs))
      → Written (suc rounds) v c cs off (b ∷ bs)
  Written-inside rounds v c cs off n b bs ne h out e w =
      let some_left : n ≤ length (b ∷ bs) = omega arith in
      let inside : off + n ≤ bpc = omega arith in
      record {
        bytes' = w.bytes';
        c' = w.c';
        off' = w.off';
        runs =
            subst
              (λ m.
                write_loop bpc (suc rounds) fuel v c off (b ∷ bs)
                ≡ write_loop bpc rounds fuel (record v { bytes = filled v c cs off m (b ∷ bs) }) c
                    (off + m) (drop m (b ∷ bs)))
              e (write_loop-inside rounds v c off b bs ne)
            ∙ w.runs;
        over = over-inside v c cs off n (b ∷ bs) w.bytes' some_left inside out w.before w.over;
        others =
            λ d none_at. w.others d none_at ∙ filled-others v c cs off n (b ∷ bs) d (ground arith);
        before = λ i l.
            w.before i (omega arith)
            ∙ rw (==_refl c) (overlay-before (take n (b ∷ bs)) off (v.bytes c) i l);
      }
