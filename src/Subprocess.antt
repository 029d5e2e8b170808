-- ===== src/Subprocess.antt =====
-- What Python's `subprocess.check_output` does, as the scripts see it: it returns the output, raises
-- CalledProcessError with a return code and the output, or raises something else.
use ccp.Prelude.{String}
use ccp.Prelude.Int.{ℤ}
use ccp.Prelude.Raise.{Exception}

pub data Called : Type 0 where
  returned : String → Called
  called_process_error : ℤ → String → Called
  other_exception : Exception → Called
