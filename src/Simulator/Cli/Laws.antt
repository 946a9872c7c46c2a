-- ===== src/Simulator/Cli/Laws.antt =====
-- What PRISM_simulator/core/cli.cpp calls, and with which arguments.
use mathlib.Core.Option
use prism_dev.Common.{ℕ, String, ◌≡◌, ◌≤◌, arith, List, some, length, get_or, eq_iff}
use prism_dev.Common.Bits.{IsByte, IsWord}
use prism_dev.Common.Int.{ℤ, to_u8, to_u16}
use prism_dev.Simulator.Cli.{
  Action, usage, uncaught, serve, send_modbus, send_dnp3, send_iec104, Stoi, run_cli,
}

-- The arguments of a call fit the types of the callee.
abbrev pub IsInRange : Action → Type 0
IsInRange usage = Unit
IsInRange uncaught = Unit
IsInRange (serve proto port) = Unit
IsInRange (send_modbus port fn addr val) = IsByte fn × IsWord addr × IsWord val
IsInRange (send_dnp3 port fn) = IsByte fn
IsInRange (send_iec104 port type) = IsByte type

-- Whatever the arguments are, each call that the command line makes has a function byte, an
-- address and a value within the ranges of their types.
pub run_cli-IsInRange : (stoi : Stoi) (argv : List String) → IsInRange (run_cli stoi argv)
unfolding run_cli
run_cli-IsInRange stoi argv = ground arith

-- A Modbus request is sent only for `request modbus` with at least six arguments that follow the
-- program's name, all four numbers of which parse, and it carries the port as given and the other
-- three numbers reduced to their types.
pub run_cli-send_modbus :
    (stoi : Stoi) (argv : List String) (port : ℤ) (fn addr val : ℕ)
    → run_cli stoi argv ≡ send_modbus port fn addr val
    → (7 ≤ length argv)
      × (get_or argv 1 "" ≡ "request")
      × (get_or argv 2 "" ≡ "modbus")
      × (stoi (get_or argv 3 "") ≡ some port)
      × (Option.map to_u8 (stoi (get_or argv 4 "")) ≡ some fn)
      × (Option.map to_u16 (stoi (get_or argv 5 "")) ≡ some addr)
      × (Option.map to_u16 (stoi (get_or argv 6 "")) ≡ some val)
unfolding run_cli
run_cli-send_modbus stoi argv port fn addr val h = ground (
  arith,
  eq_iff (get_or argv 1 "") "request",
  eq_iff (get_or argv 1 "") "start-server",
  eq_iff (get_or argv 2 "") "modbus",
)
