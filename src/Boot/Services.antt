-- ===== src/Boot/Services.antt =====
-- GetMemoryMap of bootloader/MinLoaderPkg/Main.c, and the part of UefiMain that leaves the boot
-- services. The firmware is an argument: a state of its own, and the services that are called.
pub mod Leaving
use min_os.Common.{
  ℕ, ◌+◌, ◌*◌, ◌%◌, ◌^◌, Bool, true, false, Option, none, some, ◌==◌, if◌then◌else◌, add64,
}
use min_os.Boot.Volume.{Status, is_error}

-- struct MemoryMap; a buffer of 0 is NULL.
pub record MemoryMap : Type 0 where
  pub buffer_size : ℕ
  pub buffer : ℕ
  pub map_size : ℕ
  pub map_key : ℕ
  pub descriptor_size : ℕ
  pub descriptor_version : ℕ

-- What the service GetMemoryMap writes through its pointers.
pub record MapReply : Type 0 where
  pub status : Status
  pub map_size : ℕ
  pub map_key : ℕ
  pub descriptor_size : ℕ
  pub descriptor_version : ℕ

-- The services of gBS that the loader calls here.
pub record BootServices (S : Type 0) : Type 0 where
  pub free_pool : (buffer : ℕ) → S → S
  pub read_map : (map_size buffer : ℕ) → S → MapReply × S
  pub allocate_pool : (size : ℕ) → S → Status × ℕ × S
  pub exit_boot_services : (map_key : ℕ) → S → Status × S

abbrev pub record_reply : MemoryMap → MapReply → MemoryMap
record_reply map r = record map {
  map_size = r.map_size;
  map_key = r.map_key;
  descriptor_size = r.descriptor_size;
  descriptor_version = r.descriptor_version;
}

module _ {S : Type 0} (gbs : BootServices S) where
  -- The buffer of an earlier call is given back.
  abbrev pub drop_buffer : MemoryMap → S → MemoryMap × S
  drop_buffer map s =
      if map.buffer == 0 then (map, s) else (record map { buffer = 0 }, gbs.free_pool map.buffer s)

  -- The first request, for the size, and the size of the buffer with room to spare.
  abbrev pub ask_size : MemoryMap → S → MemoryMap × S
  ask_size map s =
      let (r, s') = gbs.read_map 0 0 s in
      let size = add64 r.map_size (r.descriptor_size * 2 % 2 ^ 64) in
      (record (record_reply map r) { map_size = size; buffer_size = size }, s')

  -- GetMemoryMap from the allocation on.
  unfoldable pub fill_buffer : MemoryMap → S → Status × MemoryMap × S
  fill_buffer map s =
      let (status, buffer, s') = gbs.allocate_pool map.map_size s in
      elim (is_error status) [
        | true ↦ (status, record map { buffer = buffer }, s')
        | false ↦
            let (r, s'') = gbs.read_map map.map_size buffer s' in
            (r.status, record_reply (record map { buffer = buffer }) r, s'')
      ]

  -- GetMemoryMap.
  unfoldable pub get_memory_map : MemoryMap → S → Status × MemoryMap × S
  unfolding fill_buffer
  get_memory_map map s =
      let (dropped, s0) = drop_buffer map s in
      let (asked, s1) = ask_size dropped s0 in fill_buffer asked s1

  -- The end of UefiMain's use of the boot services; `none` is _IfErrorHalt.
  pub leave_boot_services : MemoryMap → S → Option (MemoryMap × S)
  leave_boot_services map s =
      let (status, s1) = gbs.exit_boot_services map.map_key s in
      if is_error status
      then (let (status', map', s2) = get_memory_map map s1 in
          if is_error status'
          then none
          else (let (status'', s3) = gbs.exit_boot_services map'.map_key s2 in
              if is_error status'' then none else some (map', s3)))
      else some (map, s1)
