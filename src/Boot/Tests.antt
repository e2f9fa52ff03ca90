-- ===== src/Boot/Tests.antt =====
-- Runs of the loader at a small kernel and a small disk.
use min_os.Common.{
  ◌==◌, ==_refl, false, ℕ, ◌+◌, ◌-◌, ◌*◌, ◌%◌, ◌^◌, ◌≤◌, ◌<◌, ◌≡◌, ◌⊎◌, inr, refl, true, some, [],
  ◌∷◌, if◌then◌else◌, All, arith,
}
use min_os.Boot.{Bytes, BaseMemory, inside}
use min_os.Boot.Elf.{
  ProgramHeader, Range, calc_load_address_range, kernel_pages, copy_load_segments, widen,
}
use min_os.Boot.Elf.Bounds.{
  Covers, StartsAt, EndsAt, calc_load_address_range-Covers, kernel_pages-hold,
}
use min_os.Boot.Elf.Loading.{IsLoadable, copy_load_segments-loads, copy_load_segments-outside}
use min_os.Boot.Services.{MemoryMap, BootServices, fill_buffer, get_memory_map, leave_boot_services}
use min_os.Boot.Services.Leaving.{KeepsKey, leave_boot_services-leaves}
use min_os.Boot.Volume.{
  Status, is_error, efi_success, ReadBlocks, read_blocks_chunked, volume_limit, volume_bytes,
  volume_pages,
}
use min_os.Boot.Volume.Reading.{read_blocks_chunked-reads, volume_bytes-fits}

-- A memory library and a device that do what is documented.
abbrev plain : BaseMemory
plain = record {
  copy_mem = λ destination source n mem a.
      if inside destination n a then mem (source + (a - destination)) else mem a;
  set_mem = λ buffer n value mem a. if inside buffer n a then value else mem a;
  copy_mem_lem = λ destination source n mem a. refl;
  set_mem_lem = λ buffer n value mem a. refl;
}

abbrev disk : Bytes
disk a = a % 256

abbrev device : ReadBlocks
device lba size buffer mem =
    (efi_success, λ a. if inside buffer size a then disk (lba * 512 + (a - buffer)) else mem a)

-- A note, and the code and the data of a kernel.
abbrev note : ProgramHeader
note = record { type = 4; offset = 0; vaddr = 0; filesz = 32; memsz = 32 }

abbrev code : ProgramHeader
code = record { type = 1; offset = 0x1000; vaddr = 0x100000; filesz = 0x800; memsz = 0x800 }

abbrev data_segment : ProgramHeader
data_segment = record { type = 1; offset = 0x1800; vaddr = 0x102000; filesz = 0x100; memsz = 0x400 }

kernel_range :
    calc_load_address_range (note ∷ code ∷ data_segment ∷ [])
    ≡ record { first = 0x100000; last = 0x102400 }
unfolding calc_load_address_range widen
kernel_range = refl

segments-Covers :
    let r = calc_load_address_range (note ∷ code ∷ data_segment ∷ []) in
    All (Covers r) (note ∷ code ∷ data_segment ∷ [])
    × ((r.first ≡ 2 ^ 64 - 1) ⊎ StartsAt r.first (note ∷ code ∷ data_segment ∷ []))
    × ((r.last ≡ 0) ⊎ EndsAt r.last (note ∷ code ∷ data_segment ∷ []))
segments-Covers =
    calc_load_address_range-Covers (note ∷ code ∷ data_segment ∷ [])
      ((λ e. omega arith), ((λ e. omega arith), ((λ e. omega arith), tt)))

segments_fit :
    let r : Range = record { first = 0x100000; last = 0x102400 } in
    (0x102400 ≤ 0x100000 + kernel_pages r * 0x1000)
    × (0x100000 + kernel_pages r * 0x1000 < 0x102400 + 0x1000)
segments_fit =
    kernel_pages-hold (record { first = 0x100000; last = 0x102400 }) (omega arith) (omega arith)

code-IsLoadable : IsLoadable 0x4000 0x2000 code
code-IsLoadable = record {
  within_memory = omega arith;
  no_wrap = omega arith;
  within_file = omega arith;
  apart = inr (omega arith);
}

data_segment-IsLoadable : IsLoadable 0x4000 0x2000 data_segment
data_segment-IsLoadable = record {
  within_memory = omega arith;
  no_wrap = omega arith;
  within_file = omega arith;
  apart = inr (omega arith);
}

copy_load_segments-loads_example :
    copy_load_segments plain 0x4000 (code ∷ data_segment ∷ []) disk 0x102010 ≡ 0x10
copy_load_segments-loads_example =
    copy_load_segments-loads plain 0x4000 0x2000 (omega arith) (code ∷ []) data_segment [] disk
      0x102010 (code-IsLoadable, (data_segment-IsLoadable, tt)) refl tt

copy_load_segments-outside_example :
    copy_load_segments plain 0x4000 (code ∷ data_segment ∷ []) disk 0x102400 ≡ disk 0x102400
unfolding calc_load_address_range widen
copy_load_segments-outside_example =
    copy_load_segments-outside plain 0x4000 0x2000 (omega arith) (code ∷ data_segment ∷ []) disk
      0x102400 (code-IsLoadable, (data_segment-IsLoadable, tt)) (inr (omega arith))

read_blocks_chunked-reads_example :
    (out : Status × Bytes) × (read_blocks_chunked device 512 70144 0x100000 disk ≡ some out)
    × ((is_error out.0 ≡ true)
        ⊎ ((out.0 ≡ efi_success)
            × ((a : ℕ)
                → out.1 a ≡ (if inside 0x100000 70144 a then disk (a - 0x100000) else disk a))))
read_blocks_chunked-reads_example =
    read_blocks_chunked-reads device 512 disk (record { reads = λ lba size buffer mem a ok. refl })
      128 refl 70144 0x100000 (omega arith) disk

big_device_fits :
    let bytes = volume_bytes 512 2047 in
    (bytes ≤ volume_limit)
    × (bytes ≤ volume_pages bytes * 0x1000)
    × (volume_pages bytes * 0x1000 < bytes + 0x1000)
    × (512 * 2048 ≤ volume_limit → bytes ≡ 512 * 2048)
big_device_fits = volume_bytes-fits 512 2047 (omega arith) (omega arith)

-- A firmware whose state is its key; each allocation changes the key.
abbrev firmware : BootServices ℕ
firmware = record {
  free_pool = λ buffer key. key + 1;
  read_map = λ size buffer key. (
    record {
      status = efi_success;
      map_size = 480;
      map_key = key;
      descriptor_size = 48;
      descriptor_version = 1;
    },
    key,
  );
  allocate_pool = λ size key. (efi_success, 0x2000, key + 1);
  exit_boot_services = λ given key. (if given == key then efi_success else 2 ^ 63 + 2, key);
}

firmware-KeepsKey : KeepsKey firmware (λ key. key)
firmware-KeepsKey = record {
  reports = λ size buffer key ok. refl;
  exits = λ size buffer key ok. rw (==_refl key) refl;
}

abbrev stale_map : MemoryMap
stale_map = record {
  buffer_size = 576;
  buffer = 0x1000;
  map_size = 480;
  map_key = 4;
  descriptor_size = 48;
  descriptor_version = 1;
}

leave_boot_services-leaves_example :
    (map' : MemoryMap) × (before : ℕ) × (is_error
        ((firmware.exit_boot_services map'.map_key before).0)
      ≡ false)
    × (leave_boot_services firmware stale_map 9
        ≡ some (map', (firmware.exit_boot_services map'.map_key before).1))
unfolding get_memory_map fill_buffer
leave_boot_services-leaves_example =
    leave_boot_services-leaves firmware (λ key. key) firmware-KeepsKey stale_map 9 (λ failed. refl)
