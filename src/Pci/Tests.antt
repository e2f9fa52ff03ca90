-- ===== src/Pci/Tests.antt =====
-- kernel/pci.cpp on a bus on which every device is a bridge that leads back to the same bus.
use Prim.Native.Nat.{bit_and}
use min_os.Common.{ℕ, ◌≤◌, ◌≡◌, ◌⊎◌, refl, some, List, ◌==◌, if◌then◌else◌, length}
use min_os.Error.{Code}
use min_os.Pci.{Device, make_address, scan_all_bus}
use min_os.Pci.Scanning.{scan_all_bus-ends}

abbrev bridges : ℕ → ℕ
bridges address = if bit_and address 0xff == 0x08 then 0x06040000 else 0

scan_all_bus-ends_example :
    (err : Code) × (found : List Device) × (scan_all_bus bridges 257 ≡ some (err, found))
    × (length found ≤ 256)
    × ((err ≡ Code.success) ⊎ ((err ≡ Code.full) × (length found ≡ 256)))
scan_all_bus-ends_example = scan_all_bus-ends bridges

-- Bus 1, device 2, function 3, register 4.
address_of_register : make_address 1 2 3 4 ≡ 0x80011304
unfolding make_address
address_of_register = refl
