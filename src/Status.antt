-- ===== src/Status.antt =====
-- The error codes of kernel/include/zelda_posix.h. A function of the kernel returns OK or one of
-- the codes negated.
use mathlib.Core.Bool.{Bool, true, false}

pub data Status : Type 0 where
  ok err_generic err_out_of_memory err_out_of_resource err_invalid_arg err_device_fault : Status
  err_partial err_not_present err_not_found err_not_supported err_busy err_exist : Status
  err_in_use err_interrupted err_processed : Status

abbrev pub is_ok : Status → Bool
is_ok ok = true
is_ok e = false
