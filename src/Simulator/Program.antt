-- ===== src/Simulator/Program.antt =====
-- The simulator from its command line to what it does: `main` of PRISM_simulator/core/cli.cpp with the
-- clients and servers that it calls.
use prism_dev.Common.{ℕ, String, Bool, true, false, List, [], Option, none, some}
use prism_dev.Socket.{ClientNet, ServerNet, Effect}
use prism_dev.Simulator.Cli
use prism_dev.Simulator.Cli.{Action, Protocol, Stoi, run_cli}
use prism_dev.Simulator.Modbus.Server
use prism_dev.Simulator.Modbus.Client
use prism_dev.Simulator.Dnp3
use prism_dev.Simulator.Iec104
pub mod Requests

-- What the network and the peers do: the calls of a client, those of a server, and what a server of
-- each protocol is sent.
pub record World : Type 0 where
  pub client : ClientNet
  pub server : ServerNet
  pub modbus_peers : List Server.Connection
  pub dnp3_peers : List (Option (List ℕ))
  pub iec104_peers : List (Option Iec104.Read)

-- How the program ends, not yet, with an exit status, or by an exception that nothing catches, and
-- the calls that a client or a listening socket made.
pub record Outcome : Type 0 where
  pub status : Option ℕ
  pub threw : Bool
  pub effects : List Effect

abbrev pub returned : ℕ → List Effect → Outcome
returned n effects = record { status = some n; threw = false; effects = effects }

unfoldable pub serve_as : World → Protocol → Outcome
serve_as w Cli.modbus =
    let (status, effects, lock, answers) =
      Server.start_server w.server.made w.server.bound w.modbus_peers in
    record { status = status; threw = false; effects = effects }
serve_as w Cli.dnp3 =
    let (status, effects, answers) = Dnp3.start_server w.server w.dnp3_peers in
    record { status = status; threw = false; effects = effects }
serve_as w Cli.iec104 =
    let (status, effects, answers) = Iec104.start_server w.server w.iec104_peers in
    record { status = status; threw = false; effects = effects }
serve_as w Cli.unknown = returned 1 []

-- The call that the command line has chosen; the static descriptor of the Modbus client is not open
-- yet.
unfoldable pub execute : World → Action → Outcome
execute w Action.usage = returned 1 []
execute w Action.uncaught = record { status = none; threw = true; effects = [] }
execute w (Action.serve proto port) = serve_as w proto
execute w (Action.send_modbus port fn addr val) =
    let (fd, status, effects) = Client.run_client w.client false fn addr val in
    returned status effects
execute w (Action.send_dnp3 port fn) =
    let (status, effects) = Dnp3.run_client w.client fn in returned status effects
execute w (Action.send_iec104 port type) =
    let (status, effects) = Iec104.run_client w.client type in returned status effects

unfoldable pub main : Stoi → World → List String → Outcome
main stoi w argv = execute w (run_cli stoi argv)
