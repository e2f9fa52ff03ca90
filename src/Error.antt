-- ===== src/Error.antt =====
-- kernel/error.hpp: the error codes, and a value beside an error.
use min_os.Common.{Bool, true, false}

-- enum Error::Code, without kLastOfCode, which no function returns.
pub data Code : Type 0 where
  success full empty no_enough_memory index_out_of_range : Code
  host_controller_not_halted invalid_slot_id port_not_connected : Code
  invalid_endpoint_number transfer_ring_not_set already_allocated : Code
  not_implemented invalid_descriptor buffer_too_small unknown_device : Code
  no_corresponding_setup_stage transfer_failed invalid_phase : Code
  unknown_xhci_speed_id no_waiter no_pci_msi unknown_pixel_format : Code
  no_such_task invalid_format frame_too_small invalid_file : Code
  is_directory no_such_entry free_type_error : Code

-- operator bool: whether the error is an error.
abbrev pub fails : Code → Bool
fails success = false
fails _ = true

-- WithError<T>; the file and line that MAKE_ERROR records are left out.
pub record WithError {ℓ} (A : Type ℓ) : Type ℓ where
  pub value : A
  pub error : Code
