-- ===== src/Legacy/Cli.antt =====
-- PRISM/src/simulator/core/cli.cpp: the older copy of the command line. The kinds of modes, protocols
-- and calls are those of the newer one.
use prism_dev.Common.{ℕ, String, List, length, get_or, ltb, str_eq, if◌then◌else◌}
use prism_dev.Common.Int.{ℤ, to_u8, to_u16}
use prism_dev.Simulator.Cli.{
  Mode, start_server, request, invalid, Protocol, modbus, dnp3, iec104, unknown, Action, usage,
  serve, send_modbus, send_dnp3, send_iec104, Stoi, reading,
}

unfoldable pub parse_mode : String → Mode
parse_mode s =
    if str_eq s "start-server"
    then start_server
    else if str_eq s "request"
    then request
    else invalid

unfoldable pub parse_protocol : String → Protocol
parse_protocol s =
    if str_eq s "modbus"
    then modbus
    else if str_eq s "dnp3"
    then dnp3
    else if str_eq s "iec104"
    then iec104
    else unknown

module _ (stoi : Stoi) where
  start : Protocol → ℤ → Action
  start unknown port = usage
  start proto port = serve proto port

  ask_modbus : List String → ℤ → ℕ → Action
  ask_modbus argv port fn =
      if ltb (length argv) 7
      then usage
      else reading (stoi (get_or argv 5 "")) λ addr.
        reading (stoi (get_or argv 6 "")) λ val. send_modbus port fn (to_u16 addr) (to_u16 val)

  ask_iec104 : List String → ℤ → Action
  ask_iec104 argv port = reading (stoi (get_or argv 4 "")) λ type. send_iec104 port (to_u8 type)

  ask : Protocol → List String → ℤ → ℕ → Action
  unfolding ask_modbus ask_iec104
  ask modbus argv port fn = ask_modbus argv port fn
  ask dnp3 argv port fn = send_dnp3 port fn
  ask iec104 argv port fn = ask_iec104 argv port
  ask unknown argv port fn = usage

  request_of : Protocol → List String → ℤ → Action
  unfolding ask
  request_of proto argv port =
      if ltb (length argv) 5
      then usage
      else reading (stoi (get_or argv 4 "")) λ fn. ask proto argv port (to_u8 fn)

  act : Mode → Protocol → List String → ℤ → Action
  unfolding start request_of
  act invalid proto argv port = usage
  act _ unknown argv port = usage
  act start_server proto argv port = start proto port
  act request proto argv port = request_of proto argv port

  unfoldable pub run_cli : List String → Action
  unfolding act parse_mode parse_protocol
  run_cli argv =
      if ltb (length argv) 4
      then usage
      else reading (stoi (get_or argv 3 ""))
          λ port. act (parse_mode (get_or argv 1 "")) (parse_protocol (get_or argv 2 "")) argv port
