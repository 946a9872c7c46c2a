-- ===== src/Logging/Unbuilt.antt =====
-- PRISM/src/utils/logger.cpp, which the build leaves out: a second logger, whose `info`, `warn` and
-- `error` each write the line by themselves.
use Prim.Native.String.{◌++◌}
use prism_dev.Common.{◌≡◌, refl, String}
use prism_dev.Logging.{Severity, log, level_of}
use prism_dev.Logging

-- The body that the three functions have alike, from the time as it is put on.
abbrev body : String → String → String → String
body level now msg = "[" ++ now ++ "] " ++ level ++ ": " ++ msg ++ "\n"

unfoldable pub info : String → String → String
info now msg = body "INFO" now msg

unfoldable pub warn : String → String → String
warn now msg = body "WARN" now msg

unfoldable pub error : String → String → String
error now msg = body "ERROR" now msg

-- At one time both loggers write the same line.
same_line :
    (now msg : String)
    → (info now msg ≡ log now Logging.info msg)
      × (warn now msg ≡ log now Logging.warn msg)
      × (error now msg ≡ log now Logging.error msg)
unfolding info warn error log level_of
same_line now msg = (refl, refl, refl)
