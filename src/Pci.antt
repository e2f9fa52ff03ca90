-- ===== src/Pci.antt =====
-- kernel/pci.cpp: the scan of the buses. The configuration space is the function from an address, as
-- MakeAddress makes it, to the 32 bits that are read there; nothing is written to it in a scan.
pub mod Scanning
mod Tests
use Prim.Native.Nat.{bit_and, bit_or}
use min_os.Common.{
  ℕ, zero, suc, ◌+◌, ◌*◌, ◌/◌, ◌%◌, ◌^◌, Bool, true, false, Option, none, some, List, [], ◌∷◌, ◌++◌,
  ◌==◌, if◌then◌else◌, ◌&&◌, length,
}
use min_os.Error.{Code, fails}

-- MakeAddress.
unfoldable pub make_address : (bus device function reg_addr : ℕ) → ℕ
make_address bus device function reg_addr =
    bit_or
      (bit_or (bit_or (bit_or (1 * 2 ^ 31) (bus * 2 ^ 16)) (device * 2 ^ 11)) (function * 2 ^ 8))
      (bit_and reg_addr 0xfc)

pub record ClassCode : Type 0 where
  pub base : ℕ
  pub sub : ℕ
  pub interface : ℕ

pub record Device : Type 0 where
  pub bus : ℕ
  pub device : ℕ
  pub function : ℕ
  pub header_type : ℕ
  pub class_code : ClassCode

-- The size of `devices`.
abbrev pub max_devices : ℕ
max_devices = 256

-- AddDevice; `num_device` is the length of the list.
abbrev pub add_device : Device → List Device → Code × List Device
add_device dev devices =
    if length devices == max_devices
    then (Code.full, devices)
    else (Code.success, devices ++ dev ∷ [])

-- Does Match find a bridge to another PCI bus?
abbrev pub is_bridge : ClassCode → Bool
is_bridge code = (0x06 == code.base) && (0x04 == code.sub)

-- IsSingleFunctionDevice.
abbrev pub is_single_function_device : (header_type : ℕ) → Bool
is_single_function_device header_type = bit_and header_type 0x80 == 0

-- A loop goes on with the devices that have been found so far, unless there was an error.
abbrev pub and_then :
    Option (Code × List Device)
    → (List Device → Option (Code × List Device))
    → Option (Code × List Device)
and_then none next = none
and_then (some (err, devices)) next = if fails err then some (err, devices) else next devices

module _ (config : ℕ → ℕ) where
  pub read_vendor_id : (bus device function : ℕ) → ℕ
  read_vendor_id bus device function =
      bit_and (config (make_address bus device function 0x00)) 0xffff

  pub read_header_type : (bus device function : ℕ) → ℕ
  read_header_type bus device function =
      bit_and (config (make_address bus device function 0x0c) / 2 ^ 16) 0xff

  pub read_class_code : (bus device function : ℕ) → ClassCode
  read_class_code bus device function =
      let reg = config (make_address bus device function 0x08) in
      record {
        base = bit_and (reg / 2 ^ 24) 0xff;
        sub = bit_and (reg / 2 ^ 16) 0xff;
        interface = bit_and (reg / 2 ^ 8) 0xff;
      }

  pub read_bus_numbers : (bus device function : ℕ) → ℕ
  read_bus_numbers bus device function = config (make_address bus device function 0x18)

  -- The functions of a scan; `go` is ScanBus.
  module _ (go : (bus : ℕ) → List Device → Option (Code × List Device)) where
    -- ScanFunction, when the device has been added: the bus behind a bridge.
    unfoldable pub scan_behind :
        (bus device function : ℕ) → List Device → Option (Code × List Device)
    scan_behind bus device function devices =
        if is_bridge (read_class_code bus device function)
        then go (bit_and (read_bus_numbers bus device function / 2 ^ 8) 0xff) devices
        else some (Code.success, devices)

    -- ScanFunction.
    unfoldable pub scan_function :
        (bus device function : ℕ) → List Device → Option (Code × List Device)
    unfolding scan_behind
    scan_function bus device function devices =
        let dev : Device = record {
          bus = bus;
          device = device;
          function = function;
          header_type = read_header_type bus device function;
          class_code = read_class_code bus device function;
        } in
        and_then (some (add_device dev devices)) (scan_behind bus device function)

    -- The loop of ScanDevice: `n` functions from `function` on.
    unfoldable pub scan_functions :
        (n : ℕ) (bus device function : ℕ) → List Device → Option (Code × List Device)
    unfolding scan_function
    scan_functions zero bus device function devices = some (Code.success, devices)
    scan_functions (suc n) bus device function devices =
        and_then
          (if read_vendor_id bus device function == 0xffff
            then some (Code.success, devices)
            else scan_function bus device function devices)
          (λ devices'. scan_functions n bus device (function + 1) devices')

    -- ScanDevice.
    unfoldable pub scan_device : (bus device : ℕ) → List Device → Option (Code × List Device)
    unfolding scan_functions
    scan_device bus device devices = and_then (scan_function bus device 0 devices) (λ devices'.
        if is_single_function_device (read_header_type bus device 0)
        then some (Code.success, devices')
        else scan_functions 7 bus device 1 devices')

    -- The loop of ScanBus: `n` devices from `device` on.
    unfoldable pub scan_devices :
        (n : ℕ) (bus device : ℕ) → List Device → Option (Code × List Device)
    unfolding scan_device
    scan_devices zero bus device devices = some (Code.success, devices)
    scan_devices (suc n) bus device devices =
        and_then
          (if read_vendor_id bus device 0 == 0xffff
            then some (Code.success, devices)
            else scan_device bus device devices)
          (λ devices'. scan_devices n bus (device + 1) devices')

  -- ScanBus; `fuel` is for the buses behind bridges.
  unfoldable pub scan_bus : (fuel : ℕ) → (bus : ℕ) → List Device → Option (Code × List Device)
  unfolding scan_devices
  scan_bus zero bus devices = none
  scan_bus (suc fuel) bus devices = scan_devices (scan_bus fuel) 32 bus 0 devices

  -- The loop of ScanAllBus: `n` functions from `function` on.
  unfoldable pub scan_hosts : (fuel n function : ℕ) → List Device → Option (Code × List Device)
  unfolding scan_bus
  scan_hosts fuel zero function devices = some (Code.success, devices)
  scan_hosts fuel (suc n) function devices =
      and_then
        (if read_vendor_id 0 0 function == 0xffff
          then some (Code.success, devices)
          else scan_bus fuel function devices)
        (λ devices'. scan_hosts fuel n (function + 1) devices')

  -- ScanAllBus.
  unfoldable pub scan_all_bus : (fuel : ℕ) → Option (Code × List Device)
  unfolding scan_hosts
  scan_all_bus fuel =
      scan_hosts fuel (if is_single_function_device (read_header_type 0 0 0) then 1 else 8) 0 []
