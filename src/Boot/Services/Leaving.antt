-- ===== src/Boot/Services/Leaving.antt =====
-- When UefiMain of bootloader/MinLoaderPkg/Main.c leaves the boot services.
use min_os.Common.{ℕ, ◌≡◌, inl, inr, refl, true, false, some, arith, Bool-cases}
use min_os.Boot.Volume.{Status, is_error}
use min_os.Boot.Services.{
  MemoryMap, BootServices, drop_buffer, ask_size, record_reply, fill_buffer, get_memory_map,
  leave_boot_services,
}

-- What UEFI documents of the map key: a call of GetMemoryMap that does not fail reports the key of
-- the memory map as it stands, and ExitBootServices does not fail when it is given that key right
-- after such a call, while the boot services are still there.
pub record KeepsKey {S : Type 0} (gbs : BootServices S) (current_key : S → ℕ) : Type 0 where
  pub reports :
      (map_size buffer : ℕ) (s : S)
      → let (r, s') = gbs.read_map map_size buffer s in
        is_error r.status ≡ false → r.map_key ≡ current_key s'
  pub exits :
      (map_size buffer : ℕ) (s : S)
      → let (r, s') = gbs.read_map map_size buffer s in
        is_error r.status ≡ false
        → is_error ((gbs.exit_boot_services (current_key s') s').0) ≡ false

module _ {S : Type 0} (gbs : BootServices S) (current_key : S → ℕ)
    (k : KeepsKey gbs current_key) where
  fill_buffer-fails :
      (map : MemoryMap) (s : S)
      → let (status, buffer, s') = gbs.allocate_pool map.map_size s in
        is_error status ≡ true
        → fill_buffer gbs map s ≡ (status, record map { buffer = buffer }, s')
  unfolding fill_buffer
  fill_buffer-fails map s bad = rw (fill_buffer, bad) refl

  fill_buffer-reads :
      (map : MemoryMap) (s : S)
      → let (status, buffer, s') = gbs.allocate_pool map.map_size s in
        let (r, s'') = gbs.read_map map.map_size buffer s' in
        is_error status ≡ false
        → fill_buffer gbs map s ≡ (r.status, record_reply (record map { buffer = buffer }) r, s'')
  unfolding fill_buffer
  fill_buffer-reads map s good = rw (fill_buffer, good) refl

  -- After a GetMemoryMap that does not fail, the key in the map is one that ExitBootServices takes.
  abbrev HasKey : Status × MemoryMap × S → Type 0
  HasKey (status, map, s) =
      is_error status ≡ false → is_error ((gbs.exit_boot_services map.map_key s).0) ≡ false

  fill_buffer-HasKey : (map : MemoryMap) (s : S) → HasKey (fill_buffer gbs map s)
  fill_buffer-HasKey map s =
      let pool = gbs.allocate_pool map.map_size s in
      elim (Bool-cases (is_error pool.0)) [
        | inl bad ↦ rw (fill_buffer-fails map s bad) (λ ok. absurd (ground arith))
        | inr good ↦ rw (fill_buffer-reads map s good) (λ ok.
            rw (k.reports map.map_size pool.1 pool.2 ok) (k.exits map.map_size pool.1 pool.2 ok))
      ]

  get_memory_map-HasKey : (map : MemoryMap) (s : S) → HasKey (get_memory_map gbs map s)
  unfolding get_memory_map
  get_memory_map-HasKey map s =
      let (dropped, s0) = drop_buffer gbs map s in
      let (asked, s1) = ask_size gbs dropped s0 in fill_buffer-HasKey asked s1

  module _ (map : MemoryMap) (s : S) where
    leave-at_once :
        let (status, s1) = gbs.exit_boot_services map.map_key s in
        is_error status ≡ false → leave_boot_services gbs map s ≡ some (map, s1)
    unfolding leave_boot_services
    leave-at_once ok = rw (leave_boot_services, ok) refl

    leave-again :
        let (status, s1) = gbs.exit_boot_services map.map_key s in
        let (status', map', s2) = get_memory_map gbs map s1 in
        let (status'', s3) = gbs.exit_boot_services map'.map_key s2 in
        is_error status ≡ true
        → is_error status' ≡ false
        → is_error status'' ≡ false
        → leave_boot_services gbs map s ≡ some (map', s3)
    unfolding leave_boot_services
    leave-again bad ok ok' = rw (leave_boot_services, bad, ok, ok') refl

    -- UefiMain leaves the boot services, with a firmware whose GetMemoryMap reports the current
    -- key, when the first ExitBootServices succeeds, or when it fails and the memory map can be
    -- read again: the loader does not halt, and it hands over the state in which
    -- ExitBootServices succeeded for the key of the map that it keeps.
    pub leave_boot_services-leaves :
        (is_error ((gbs.exit_boot_services map.map_key s).0) ≡ true
          → is_error ((get_memory_map gbs map (gbs.exit_boot_services map.map_key s).1).0) ≡ false)
        → (map' : MemoryMap) × (before : S) × (is_error
              ((gbs.exit_boot_services map'.map_key before).0)
            ≡ false)
          × (leave_boot_services gbs map s
              ≡ some (map', (gbs.exit_boot_services map'.map_key before).1))
    leave_boot_services-leaves read_again =
        let s1 = (gbs.exit_boot_services map.map_key s).1 in
        let (_, map', s2) = get_memory_map gbs map s1 in
        elim (Bool-cases (is_error ((gbs.exit_boot_services map.map_key s).0))) [
          | inl bad ↦
              let ok = read_again bad in
              let free = get_memory_map-HasKey map s1 ok in
              (map', s2, free, leave-again bad ok free)
          | inr at_once ↦ (map, s, at_once, leave-at_once at_once)
        ]
