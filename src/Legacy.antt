-- ===== src/Legacy.antt =====
-- PRISM/src/simulator: the older copy of the simulator, whose clients always connect to 127.0.0.1 and
-- look no name up, and whose PLC has no lock.
use prism_dev.Common.{ℕ, String, Bool, true, false, List, [], Option, none, some}
use prism_dev.Socket.{ServerNet}
use prism_dev.Simulator.Cli.{Action, Protocol, modbus, dnp3, iec104, unknown, Stoi}
use prism_dev.Simulator.Modbus.Server.{Connection}
use prism_dev.Simulator.Iec104.{Read}
use prism_dev.Simulator.Program.{Outcome, returned}
use prism_dev.Legacy.Local.{LocalNet}
use prism_dev.Legacy.Cli
use prism_dev.Legacy.Modbus
use prism_dev.Legacy.Dnp3
use prism_dev.Legacy.Iec104
pub mod Local
pub mod Cli
pub mod Codec
pub mod Modbus
pub mod Dnp3
pub mod Iec104
pub mod Same

pub record World : Type 0 where
  pub client : LocalNet
  pub server : ServerNet
  pub modbus_peers : List Connection
  pub dnp3_peers : List (Option (List ℕ))
  pub iec104_peers : List (Option Read)

unfoldable pub serve_as : World → Protocol → Outcome
serve_as w modbus =
    let (status, effects, answers) =
      Modbus.start_server w.server.made w.server.bound w.modbus_peers in
    record { status = status; threw = false; effects = effects }
serve_as w dnp3 =
    let (status, effects, answers) = Dnp3.start_server w.server w.dnp3_peers in
    record { status = status; threw = false; effects = effects }
serve_as w iec104 =
    let (status, effects, answers) = Iec104.start_server w.server w.iec104_peers in
    record { status = status; threw = false; effects = effects }
serve_as w unknown = returned 1 []

unfoldable pub execute : World → Action → Outcome
execute w Action.usage = returned 1 []
execute w Action.uncaught = record { status = none; threw = true; effects = [] }
execute w (Action.serve proto port) = serve_as w proto
execute w (Action.send_modbus port fn addr val) =
    let (fd, status, effects) = Modbus.run_client w.client false fn addr val in
    returned status effects
execute w (Action.send_dnp3 port fn) =
    let (status, effects) = Dnp3.run_client w.client fn in returned status effects
execute w (Action.send_iec104 port type) =
    let (status, effects) = Iec104.run_client w.client type in returned status effects

-- core/cli.cpp.
unfoldable pub main : Stoi → World → List String → Outcome
main stoi w argv = execute w (Cli.run_cli stoi argv)
