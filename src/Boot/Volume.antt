-- ===== src/Boot/Volume.antt =====
-- ReadBlocksChunked of bootloader/MinLoaderPkg/Main.c, and the part of UefiMain that sizes the
-- volume it reads. The device's ReadBlocks is the firmware's: an argument of the model.
pub mod Reading
use min_os.Common.{
  ℕ, zero, suc, ◌+◌, ◌-◌, ◌*◌, ◌/◌, ◌%◌, ◌^◌, Bool, true, false, Option, none, some, ltb, leb,
  if◌then◌else◌, add64,
}
use min_os.Boot.{Bytes}

-- An EFI_STATUS: 0 is EFI_SUCCESS, and an error has the highest bit (EFI_ERROR).
abbrev pub Status : Type 0
Status = ℕ

abbrev pub efi_success : Status
efi_success = 0

abbrev pub is_error : Status → Bool
is_error status = leb (2 ^ 63) status

-- block_io->ReadBlocks, by lba, size and address, for one device and medium.
abbrev pub ReadBlocks : Type 0
ReadBlocks = (lba size buffer : ℕ) → Bytes → Status × Bytes

abbrev pub chunk_size : ℕ
chunk_size = 64 * 1024

-- read_size of the round at `offset`.
abbrev pub read_size : (total offset : ℕ) → ℕ
read_size total offset = if ltb total (add64 offset chunk_size) then total - offset else chunk_size

module _ (device : ReadBlocks) (block_size : ℕ) where
  -- The loop of ReadBlocksChunked, from `offset` and `lba`, for `n` rounds at most; `none` is the
  -- end of the fuel.
  pub read_chunks : ℕ → (total buffer offset lba : ℕ) → Bytes → Option (Status × Bytes)
  read_chunks zero total buffer offset lba mem = none
  read_chunks (suc n) total buffer offset lba mem = elim (ltb offset total) [
    | false ↦ some (efi_success, mem)
    | true ↦
        let size = read_size total offset in
        let (status, mem') = device lba size (add64 buffer offset) mem in
        elim (is_error status) [
          | true ↦ some (status, mem')
          | false ↦
              read_chunks n total buffer (add64 offset chunk_size) (lba + size / block_size) mem'
        ]
  ]

  -- ReadBlocksChunked: a round for each chunk, and one to leave the loop.
  pub read_blocks_chunked : (total buffer : ℕ) → Bytes → Option (Status × Bytes)
  unfolding read_chunks
  read_blocks_chunked total buffer mem =
      read_chunks (suc (total / chunk_size + 1)) total buffer 0 0 mem

abbrev pub volume_limit : ℕ
volume_limit = 128 * 1024 * 1024

-- volume_bytes of UefiMain, from BlockSize and LastBlock.
pub volume_bytes : (block_size last_block : ℕ) → ℕ
volume_bytes block_size last_block =
    let whole = block_size * ((last_block + 1) % 2 ^ 64) % 2 ^ 64 in
    if ltb volume_limit whole then volume_limit else whole

-- num_pages of UefiMain, for the volume.
pub volume_pages : ℕ → ℕ
volume_pages bytes = add64 bytes 0xfff / 0x1000
