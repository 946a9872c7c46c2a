-- ===== src/Logging.antt =====
-- The logger of PRISM/include/prism.hpp: the line that a message becomes on the error stream.
use Prim.Native.String.{◌++◌}
use prism_dev.Common.{String}
pub mod Unbuilt
pub mod Lines

pub data Severity : Type 0 where
  info warn error : Severity

-- The first argument that `info`, `warn` and `error` give to `log`.
unfoldable pub level_of : Severity → String
level_of info = "INFO"
level_of warn = "WARN"
level_of error = "ERROR"

-- `log`, where `now` is the time as it is put. The line is written under the lock.
unfoldable pub log : String → Severity → String → String
unfolding level_of
log now severity msg = "[" ++ now ++ "] " ++ level_of severity ++ ": " ++ msg ++ "\n"
