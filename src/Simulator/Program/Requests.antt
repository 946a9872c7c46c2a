-- ===== src/Simulator/Program/Requests.antt =====
-- What a request on the command line of PRISM_simulator/core/cli.cpp makes of the PLC.
use prism_dev.Common.{false, ℕ, ◌≡◌, String, List, [], ◌∷◌, some}
use prism_dev.Common.Int.{ℤ}
use prism_dev.Socket.{sends}
use prism_dev.Simulator.Cli.{send_modbus, Stoi, run_cli}
use prism_dev.Simulator.Cli.Laws.{IsInRange, run_cli-IsInRange}
use prism_dev.Simulator.Modbus.{Pdu, decode_mbap_pdu}
use prism_dev.Simulator.Modbus.Codec.{IsPdu}
use prism_dev.Simulator.Modbus.Client.{
  run_client, request, encode_mbap_pdu, run_client_lem, decode_mbap_pdu-request,
}
use prism_dev.Simulator.Program.{World, execute, main}

-- A Modbus request that ends with status 0 has sent one frame, and the PLC decodes it to the function,
-- the address and the value that the command line was read as.
pub main-decode_mbap_pdu :
    (stoi : Stoi) (w : World) (argv : List String) (port : ℤ) (fn addr val : ℕ)
    → run_cli stoi argv ≡ send_modbus port fn addr val
    → (main stoi w argv).status ≡ some 0
    → (v : List ℕ) × (sends (main stoi w argv).effects ≡ v ∷ [])
      × (decode_mbap_pdu v ≡ record { function = fn; address = addr; value = val })
unfolding main execute
main-decode_mbap_pdu stoi w argv port fn addr val chosen done =
    let fits : IsInRange (send_modbus port fn addr val) =
      rw chosen at (run_cli-IsInRange stoi argv) in
    let pdu : Pdu = record { function = fn; address = addr; value = val } in
    let ranges : IsPdu pdu = record {
      function_byte = fits.0;
      address_word = fits.1;
      value_word = fits.2;
    } in
    let ended : (execute w (send_modbus port fn addr val)).status ≡ some 0 = rw chosen at done in
    let ran : (run_client w.client false fn addr val).1 ≡ 0 = cc ended in
    let sent = (run_client_lem w.client false fn addr val).2 ran in
    (encode_mbap_pdu (request fn addr val), rw chosen sent, decode_mbap_pdu-request pdu ranges)
