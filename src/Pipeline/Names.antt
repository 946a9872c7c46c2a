-- ===== src/Pipeline/Names.antt =====
-- The names that PRISM/src/main.cpp gives to function codes, `fcName`.
use Prim.Native.String.{◌++◌}
use prism_dev.Common.{ℕ, String, Bool, ◌==◌, str_eq, if◌then◌else◌}
pub mod Writes

unfoldable pub modbus_name : ℕ → String
modbus_name fc =
    if fc == 1
    then "Read Coils"
    else if fc == 2
    then "Read Discrete Inputs"
    else if fc == 3
    then "Read Holding Registers"
    else if fc == 4
    then "Read Input Registers"
    else if fc == 5
    then "Write Single Coil"
    else if fc == 6
    then "Write Single Register"
    else if fc == 8
    then "Diagnostics"
    else if fc == 15
    then "Write Multiple Coils"
    else if fc == 16
    then "Write Multiple Registers"
    else "Unknown"

-- `to_string` is `std::to_string` on a byte.
module _ (to_string : ℕ → String) where
  unfoldable pub dnp3_name : ℕ → String
  dnp3_name fc =
      if fc == 1
      then "Read"
      else if fc == 2
      then "Write"
      else if fc == 3
      then "Select"
      else if fc == 4
      then "Operate"
      else if fc == 130
      then "Unsolicited Response"
      else "FC " ++ to_string fc

  unfoldable pub iec104_name : ℕ → String
  iec104_name fc =
      if fc == 1
      then "Single Point Info"
      else if fc == 13
      then "Measured Float"
      else if fc == 30
      then "Single Point w/ Timestamp"
      else if fc == 45
      then "Single Command"
      else if fc == 46
      then "Double Command"
      else if fc == 100
      then "Interrogation"
      else "Type " ++ to_string fc

  unfoldable pub fc_name : String → ℕ → String
  unfolding modbus_name dnp3_name iec104_name
  fc_name proto fc =
      if str_eq proto "Modbus"
      then modbus_name fc
      else if str_eq proto "DNP3"
      then dnp3_name fc
      else if str_eq proto "IEC104"
      then iec104_name fc
      else "Unknown"
