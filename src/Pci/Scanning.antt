-- ===== src/Pci/Scanning.antt =====
-- ScanAllBus of kernel/pci.cpp ends, whatever the configuration space says.
use mathlib.Core.Path.{subst}
use min_os.Common.{
  ℕ, zero, suc, ◌+◌, ◌≤◌, ◌<◌, ◌≡◌, ◌⊎◌, refl, sym, ◌∙◌, inl, inr, Bool, true, false, Option, some,
  List, [], ◌∷◌, ◌++◌, ◌==◌, if◌then◌else◌, length, length-append, arith, Bool-cases,
}
use min_os.Error.{Code}
use min_os.Pci.{
  Device, max_devices, add_device, is_bridge, is_single_function_device, read_vendor_id,
  read_header_type, read_class_code, and_then, scan_behind, scan_function, scan_functions,
  scan_device, scan_devices, scan_bus, scan_hosts, scan_all_bus,
}

-- A scan has ended, with `n` devices at least, and with an error only if the table is full.
abbrev pub Ends : ℕ → Option (Code × List Device) → Type 0
Ends n result =
    (err : Code) × (found : List Device) × (result ≡ some (err, found))
    × (n ≤ length found)
    × (length found ≤ max_devices)
    × ((err ≡ Code.success) ⊎ ((err ≡ Code.full) × (length found ≡ max_devices)))

Ends-le : (n m : ℕ) (result : Option (Code × List Device)) → n ≤ m → Ends m result → Ends n result
Ends-le n m result h (err, found, run, lo, hi, why) = (err, found, run, omega arith, hi, why)

Ends-same :
    (n : ℕ) (devices : List Device)
    → n ≤ length devices
    → length devices ≤ max_devices
    → Ends n (some (Code.success, devices))
Ends-same n devices lo hi = (Code.success, devices, refl, lo, hi, inl refl)

and_then-Ends :
    (n : ℕ) (result : Option (Code × List Device))
    (next : List Device → Option (Code × List Device))
    → Ends n result
    → ((found : List Device) → n ≤ length found → length found ≤ max_devices → Ends n (next found))
    → Ends n (and_then result next)
and_then-Ends n result next (err, found, run, lo, hi, inl fine) more =
    let step : and_then result next ≡ next found = rw (run, fine) refl in
    let (err', found', run', lo', hi', why) = more found lo hi in
    (err', found', step ∙ run', lo', hi', why)
and_then-Ends n result next (err, found, run, lo, hi, inr (full, size)) more =
    let step : and_then result next ≡ some (Code.full, found) = rw (run, full) refl in
    (Code.full, found, step, lo, hi, inr (refl, size))

if_Ends :
    (n : ℕ) (b : Bool) (first last : Option (Code × List Device))
    → Ends n first
    → Ends n last
    → Ends n (if b then first else last)
if_Ends n true first last h k = h
if_Ends n false first last h k = k

-- A ScanBus that ends when `n` devices have been found.
abbrev Total : (ℕ → List Device → Option (Code × List Device)) → ℕ → Type 0
Total go n =
    (bus : ℕ) (devices : List Device)
    → n ≤ length devices
    → length devices ≤ max_devices
    → Ends n (go bus devices)

-- Either the table is full, or the device is behind the others.
add_device-cases :
    (dev : Device) (devices : List Device)
    → length devices ≤ max_devices
    → ((length devices ≡ max_devices) × (add_device dev devices ≡ (Code.full, devices)))
      ⊎ ((length devices < max_devices)
          × (add_device dev devices ≡ (Code.success, devices ++ dev ∷ [])))
add_device-cases dev devices h = elim (Bool-cases (length devices == max_devices)) [
  | inl full ↦ inl (ground arith, rw full refl)
  | inr room ↦ inr (ground arith, rw room refl)
]

-- What follows AddDevice, when it ends with one device more.
add_device-Ends :
    (n : ℕ) (dev : Device) (devices : List Device)
    (next : List Device → Option (Code × List Device))
    → n ≤ length devices
    → length devices ≤ max_devices
    → ((found : List Device)
        → suc n ≤ length found
        → length found ≤ max_devices
        → Ends n (next found))
    → Ends n (and_then (some (add_device dev devices)) next)
add_device-Ends n dev devices next lo hi more = elim (add_device-cases dev devices hi) [
  | inl (size, full) ↦
      subst (λ a. Ends n (and_then (some a) next)) (sym full)
        (Code.full, devices, refl, lo, hi, inr (refl, size))
  | inr (room, added) ↦
      let size = length-append devices (dev ∷ []) in
      subst (λ a. Ends n (and_then (some a) next)) (sym added)
        (more (devices ++ dev ∷ []) (omega (arith, size)) (omega (arith, size)))
]

module _ (config : ℕ → ℕ) where
  module _ (go : ℕ → List Device → Option (Code × List Device)) (n : ℕ)
      (total : Total go (suc n)) where
    scan_behind-Ends :
        (bus device function : ℕ) (devices : List Device)
        → suc n ≤ length devices
        → length devices ≤ max_devices
        → Ends n (scan_behind config go bus device function devices)
    unfolding scan_behind
    scan_behind-Ends bus device function devices lo hi =
        if_Ends n (is_bridge (read_class_code config bus device function)) _ _
          (Ends-le n (suc n) _ (omega arith) (total _ devices lo hi))
          (Ends-same n devices (omega arith) hi)

    scan_function-Ends :
        (bus device function : ℕ) (devices : List Device)
        → n ≤ length devices
        → length devices ≤ max_devices
        → Ends n (scan_function config go bus device function devices)
    unfolding scan_function
    scan_function-Ends bus device function devices lo hi =
        add_device-Ends n _ devices (scan_behind config go bus device function) lo hi
          (scan_behind-Ends bus device function)

    scan_functions-Ends :
        (k bus device function : ℕ) (devices : List Device)
        → n ≤ length devices
        → length devices ≤ max_devices
        → Ends n (scan_functions config go k bus device function devices)
    unfolding scan_functions
    scan_functions-Ends zero bus device function devices lo hi = Ends-same n devices lo hi
    scan_functions-Ends (suc k) bus device function devices lo hi =
        and_then-Ends n _ _
          (if_Ends n (read_vendor_id config bus device function == 0xffff) _ _
            (Ends-same n devices lo hi) (scan_function-Ends bus device function devices lo hi))
          (λ found lo' hi'. scan_functions-Ends k bus device (function + 1) found lo' hi')

    scan_device-Ends :
        (bus device : ℕ) (devices : List Device)
        → n ≤ length devices
        → length devices ≤ max_devices
        → Ends n (scan_device config go bus device devices)
    unfolding scan_device
    scan_device-Ends bus device devices lo hi =
        and_then-Ends n _ _ (scan_function-Ends bus device 0 devices lo hi) (λ found lo' hi'.
          if_Ends n (is_single_function_device (read_header_type config bus device 0)) _ _
            (Ends-same n found lo' hi') (scan_functions-Ends 7 bus device 1 found lo' hi'))

    scan_devices-Ends :
        (k bus device : ℕ) (devices : List Device)
        → n ≤ length devices
        → length devices ≤ max_devices
        → Ends n (scan_devices config go k bus device devices)
    unfolding scan_devices
    scan_devices-Ends zero bus device devices lo hi = Ends-same n devices lo hi
    scan_devices-Ends (suc k) bus device devices lo hi =
        and_then-Ends n _ _
          (if_Ends n (read_vendor_id config bus device 0 == 0xffff) _ _ (Ends-same n devices lo hi)
            (scan_device-Ends bus device devices lo hi))
          (λ found lo' hi'. scan_devices-Ends k bus (device + 1) found lo' hi')

  -- A bridge that is scanned takes a place of the table, so the buses nest no deeper than it has room.
  scan_bus-Ends :
      (fuel n bus : ℕ) (devices : List Device)
      → max_devices < fuel + n
      → n ≤ length devices
      → length devices ≤ max_devices
      → Ends n (scan_bus config fuel bus devices)
  unfolding scan_bus
  scan_bus-Ends zero n bus devices h lo hi = absurd (omega arith)
  scan_bus-Ends (suc fuel) n bus devices h lo hi =
      scan_devices-Ends (scan_bus config fuel) n
        (λ bus' devices' lo' hi'. scan_bus-Ends fuel (suc n) bus' devices' (omega arith) lo' hi') 32
        bus 0 devices lo hi

  scan_hosts-Ends :
      (fuel k function : ℕ) (devices : List Device)
      → max_devices < fuel
      → length devices ≤ max_devices
      → Ends 0 (scan_hosts config fuel k function devices)
  unfolding scan_hosts
  scan_hosts-Ends fuel zero function devices h hi = Ends-same 0 devices (omega arith) hi
  scan_hosts-Ends fuel (suc k) function devices h hi =
      and_then-Ends 0 _ _
        (if_Ends 0 (read_vendor_id config 0 0 function == 0xffff) _ _
          (Ends-same 0 devices (omega arith) hi)
          (scan_bus-Ends fuel 0 function devices (omega arith) (omega arith) hi))
        (λ found lo' hi'. scan_hosts-Ends fuel k (function + 1) found h hi')

  -- ScanAllBus ends for every configuration space, also one in which a bridge leads back to its own
  -- bus, with no more than 256 buses inside each other: the devices fit in the table, and the only
  -- error is a table that is full.
  pub scan_all_bus-ends :
      (err : Code) × (found : List Device) × (scan_all_bus config 257 ≡ some (err, found))
      × (length found ≤ 256)
      × ((err ≡ Code.success) ⊎ ((err ≡ Code.full) × (length found ≡ 256)))
  unfolding scan_all_bus
  scan_all_bus-ends =
      let (err, found, run, _, hi, why) =
        scan_hosts-Ends 257
          (if is_single_function_device (read_header_type config 0 0 0) then 1 else 8) 0 []
          (omega arith) (omega arith) in
      (err, found, run, hi, why)
