-- ===== src/Boot/Volume/Reading.antt =====
-- What ReadBlocksChunked of bootloader/MinLoaderPkg/Main.c leaves in memory.
use native.Mathlib.Nat.{add-mul, mul_comm, zero-mul, div-eq_of_eq-mul_right}
use min_os.Common.{
  ap, eq_cases, ℕ, zero, suc, ◌+◌, ◌-◌, ◌*◌, ◌/◌, ◌%◌, ◌^◌, ◌≤◌, ◌<◌, ◌≡◌, ◌⊎◌, ◌∙◌, sym, ap, inl,
  inr, refl, true, false, some, ltb, if◌then◌else◌, add64, arith, Bool-cases,
}
use min_os.Boot.{Bytes, inside}
use min_os.Boot.Volume.{
  Status, efi_success, is_error, ReadBlocks, chunk_size, read_size, read_chunks,
  read_blocks_chunked, volume_limit, volume_bytes, volume_pages,
}

-- What UEFI documents of ReadBlocks, for a device whose bytes are `disk`: a read that does not fail
-- puts the blocks from `lba` on at the buffer, and no other byte of memory changes.
pub record Reads (device : ReadBlocks) (block_size : ℕ) (disk : Bytes) : Type 0 where
  pub reads :
      (lba size buffer : ℕ) (mem : Bytes) (a : ℕ)
      → is_error ((device lba size buffer mem).0) ≡ false
      → (device lba size buffer mem).1 a
        ≡ (if inside buffer size a then disk (lba * block_size + (a - buffer)) else mem a)

module _ (device : ReadBlocks) (block_size : ℕ) (disk : Bytes) (r : Reads device block_size disk)
    (blocks : ℕ) (divides : block_size * blocks ≡ chunk_size) (total buffer : ℕ)
    (fits : buffer + total + chunk_size < 2 ^ 64) where
  read_chunks-end :
      (n offset lba : ℕ) (mem : Bytes)
      → ltb offset total ≡ false
      → read_chunks device block_size (suc n) total buffer offset lba mem ≡ some (efi_success, mem)
  unfolding read_chunks
  read_chunks-end n offset lba mem e = rw (read_chunks, e) refl

  read_chunks-fails :
      (n offset lba : ℕ) (mem : Bytes)
      → ltb offset total ≡ true
      → let out = device lba (read_size total offset) (add64 buffer offset) mem in
        is_error out.0 ≡ true
        → read_chunks device block_size (suc n) total buffer offset lba mem ≡ some out
  unfolding read_chunks
  read_chunks-fails n offset lba mem e bad = rw (read_chunks, e, bad) refl

  read_chunks-next :
      (n offset lba : ℕ) (mem : Bytes)
      → ltb offset total ≡ true
      → let out = device lba (read_size total offset) (add64 buffer offset) mem in
        is_error out.0 ≡ false
        → read_chunks device block_size (suc n) total buffer offset lba mem
          ≡ read_chunks device block_size n total buffer
              (add64 offset chunk_size)
              (lba + read_size total offset / block_size)
              out.1
  unfolding read_chunks
  read_chunks-next n offset lba mem e ok = rw (read_chunks, e, ok) refl

  -- The bytes from `offset` on are the device's, and the others are as they were.
  abbrev Filled : ℕ → Bytes → Bytes → Type 0
  Filled offset mem mem' =
      (a : ℕ)
      → mem' a ≡ (if inside (buffer + offset) (total - offset) a then disk (a - buffer) else mem a)

  -- The loop returns: an error of the device, or success with the rest of the volume read.
  abbrev Outcome : ℕ → Bytes → Status × Bytes → Type 0
  Outcome offset mem out =
      (is_error out.0 ≡ true) ⊎ ((out.0 ≡ efi_success) × Filled offset mem out.1)

  whole_chunk :
      (lba : ℕ) → (lba + chunk_size / block_size) * block_size ≡ lba * block_size + chunk_size
  whole_chunk lba =
      let positive : 0 < block_size = elim (eq_cases block_size 0) [
        | inl e ↦ absurd (omega (arith, zero-mul blocks, divides_zero e))
        | inr ne ↦ omega arith
      ] in
      let quotient : chunk_size / block_size ≡ blocks =
        div-eq_of_eq-mul_right positive (sym divides) in
      rw quotient (
        add-mul lba blocks block_size
        ∙ ap (λ x. lba * block_size + x) (mul_comm blocks block_size ∙ divides))
    where
      divides_zero : block_size ≡ 0 → 0 * blocks ≡ chunk_size
      divides_zero e = rw (← e) divides

  -- One chunk more.
  Filled-next :
      (offset lba : ℕ) (mem mem' : Bytes)
      → (offset < total → lba * block_size ≡ offset)
      → ltb offset total ≡ true
      → let out = device lba (read_size total offset) (add64 buffer offset) mem in
        is_error out.0 ≡ false → Filled (offset + chunk_size) out.1 mem' → Filled offset mem mem'
  Filled-next offset lba mem mem' place more ok rest a =
      let at : add64 buffer offset ≡ buffer + offset = ground arith in
      ground (
        arith,
        at,
        place (ground arith),
        rest a,
        r.reads lba (read_size total offset) (add64 buffer offset) mem a ok,
      )

  read_chunks-Outcome :
      (n offset lba : ℕ) (mem : Bytes)
      → (offset < total → lba * block_size ≡ offset)
      → total + chunk_size ≤ offset + n * chunk_size
      → offset < total + chunk_size
      → (out : Status × Bytes) × (read_chunks device block_size n total buffer offset lba mem
          ≡ some out)
        × Outcome offset mem out
  read_chunks-Outcome zero offset lba mem place fuel bound = absurd (omega arith)
  read_chunks-Outcome (suc n) offset lba mem place fuel bound =
      elim (Bool-cases (ltb offset total)) [
        | inr done ↦ (
          (efi_success, mem),
          read_chunks-end n offset lba mem done,
          inr (refl, λ a. ground arith),
        )
        | inl more ↦
            let out = device lba (read_size total offset) (add64 buffer offset) mem in
            elim (Bool-cases (is_error out.0)) [
              | inl bad ↦ (out, read_chunks-fails n offset lba mem more bad, inl bad)
              | inr ok ↦
                  let on : add64 offset chunk_size ≡ offset + chunk_size = ground arith in
                  let lba' = lba + read_size total offset / block_size in
                  let (out', run, end) =
                    read_chunks-Outcome n (offset + chunk_size) lba' out.1
                      (next_place offset lba place more) (omega arith) (ground arith) in
                  (
                    out',
                    read_chunks-next n offset lba mem more ok
                        ∙ ap (λ o. read_chunks device block_size n total buffer o lba' out.1) on
                        ∙ run,
                    elim end [
                      | inl bad ↦ inl bad
                      | inr (good, rest) ↦
                          inr (good, Filled-next offset lba mem out'.1 place more ok rest)
                    ],
                  )
            ]
      ]
    where
      next_place :
          (offset lba : ℕ)
          → (offset < total → lba * block_size ≡ offset)
          → ltb offset total ≡ true
          → offset + chunk_size < total
          → (lba + read_size total offset / block_size) * block_size ≡ offset + chunk_size
      next_place offset lba place more inside_total =
          let full : read_size total offset ≡ chunk_size = ground arith in
          rw full (whole_chunk lba ∙ omega (arith, place (ground arith)))

  -- ReadBlocksChunked always returns, for a device whose block size divides the chunk size and a
  -- volume that fits in memory: an error that the device reported, or EFI_SUCCESS with the
  -- first `total` bytes of the device at the buffer and no other byte of memory changed.
  pub read_blocks_chunked-reads :
      (mem : Bytes)
      → (out : Status × Bytes) × (read_blocks_chunked device block_size total buffer mem ≡ some out)
        × ((is_error out.0 ≡ true)
            ⊎ ((out.0 ≡ efi_success)
                × ((a : ℕ)
                    → out.1 a ≡ (if inside buffer total a then disk (a - buffer) else mem a))))
  unfolding read_blocks_chunked
  read_blocks_chunked-reads mem =
      let (out, run, end) =
        read_chunks-Outcome (suc (total / chunk_size + 1)) 0 0 mem (λ h. zero-mul block_size)
          (omega arith) (omega arith) in
      (
        out,
        run,
        elim end [
          | inl bad ↦ inl bad
          | inr (good, filled) ↦ inr (good, λ a. ground (arith, filled a))
        ],
      )

-- For a device whose size fits in 64 bits, the volume that UefiMain reads never exceeds 128 MiB,
-- its pages hold it with less than a page to spare, and it is the whole device when the device is
-- no larger.
pub volume_bytes-fits :
    (block_size last_block : ℕ)
    → block_size * (last_block + 1) < 2 ^ 64
    → last_block + 1 < 2 ^ 64
    → let bytes = volume_bytes block_size last_block in
      (bytes ≤ volume_limit)
      × (bytes ≤ volume_pages bytes * 0x1000)
      × (volume_pages bytes * 0x1000 < bytes + 0x1000)
      × (block_size * (last_block + 1) ≤ volume_limit → bytes ≡ block_size * (last_block + 1))
unfolding volume_bytes volume_pages
volume_bytes-fits block_size last_block h k =
    let wide : (last_block + 1) % 2 ^ 64 ≡ last_block + 1 = omega arith in
    rw wide (ground arith, ground arith, ground arith, λ small. ground arith)
