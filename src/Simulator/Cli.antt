-- ===== src/Simulator/Cli.antt =====
-- PRISM_simulator/core/cli.cpp: the command line of the simulator.
use prism_dev.Common.{
  ℕ, String, Bool, true, false, ◌||◌, List, [], ◌∷◌, Option, none, some, length, get_or, ltb,
  str_eq, if◌then◌else◌,
}
use prism_dev.Common.Int.{ℤ, to_u8, to_u16}
pub mod Laws

pub data Mode : Type 0 where
  start_server request invalid : Mode

pub data Protocol : Type 0 where
  modbus dnp3 iec104 unknown : Protocol

unfoldable pub parse_mode : String → Mode
parse_mode s =
    if str_eq s "start-server"
    then start_server
    else if str_eq s "request"
    then request
    else invalid

unfoldable pub parse_protocol : String → Protocol
parse_protocol s =
    if str_eq s "modbus"
    then modbus
    else if str_eq s "dnp3"
    then dnp3
    else if str_eq s "iec104"
    then iec104
    else unknown

-- What `run_cli` ends in: the usage text with status 1, an exception of `std::stoi` that nothing
-- catches, or the call of a server or client, whose status it returns.
pub data Action : Type 0 where
  usage uncaught : Action
  serve : Protocol → ℤ → Action
  send_modbus : ℤ → ℕ → ℕ → ℕ → Action
  send_dnp3 : ℤ → ℕ → Action
  send_iec104 : ℤ → ℕ → Action

-- `std::stoi`, which throws where the text is no number or out of range.
abbrev pub Stoi : Type 0
Stoi = String → Option ℤ

abbrev pub reading : Option ℤ → (ℤ → Action) → Action
reading none k = uncaught
reading (some n) k = k n

module _ (stoi : Stoi) where
  start : Protocol → ℤ → Action
  start unknown port = usage
  start proto port = serve proto port

  ask_modbus : List String → ℤ → ℕ → Action
  ask_modbus argv port fn =
      if ltb (length argv) 7
      then usage
      else reading (stoi (get_or argv 5 "")) λ addr.
        reading (stoi (get_or argv 6 "")) λ val. send_modbus port fn (to_u16 addr) (to_u16 val)

  ask_iec104 : List String → ℤ → Action
  ask_iec104 argv port = reading (stoi (get_or argv 4 "")) λ type. send_iec104 port (to_u8 type)

  ask : Protocol → List String → ℤ → ℕ → Action
  unfolding ask_modbus ask_iec104
  ask modbus argv port fn = ask_modbus argv port fn
  ask dnp3 argv port fn = send_dnp3 port fn
  ask iec104 argv port fn = ask_iec104 argv port
  ask unknown argv port fn = usage

  request_of : Protocol → List String → ℤ → Action
  unfolding ask
  request_of proto argv port =
      if ltb (length argv) 5
      then usage
      else reading (stoi (get_or argv 4 "")) λ fn. ask proto argv port (to_u8 fn)

  act : Mode → Protocol → List String → ℤ → Action
  unfolding start request_of
  act invalid proto argv port = usage
  act _ unknown argv port = usage
  act start_server proto argv port = start proto port
  act request proto argv port = request_of proto argv port

  -- `argv` has `argc` elements, the program's name first. The port is read before the mode and the
  -- protocol are tested.
  unfoldable pub run_cli : List String → Action
  unfolding act parse_mode parse_protocol
  run_cli argv =
      if ltb (length argv) 4
      then usage
      else reading (stoi (get_or argv 3 ""))
          λ port. act (parse_mode (get_or argv 1 "")) (parse_protocol (get_or argv 2 "")) argv port
