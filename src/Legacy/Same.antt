-- ===== src/Legacy/Same.antt =====
-- The older simulator of PRISM/src/simulator against PRISM_simulator.
use prism_dev.Common.{ℕ, ◌≡◌, refl, arith, true, false, List, [], ◌∷◌, none, All, take}
use prism_dev.Socket.{ClientNet}
use prism_dev.Simulator.Cli as NewCli
use prism_dev.Simulator.Cli.{Mode, request, invalid}
use prism_dev.Common.Bits.{IsByte}
use prism_dev.Simulator.Program
use prism_dev.Simulator.Modbus as NewCodec
use prism_dev.Simulator.Modbus.Server
use prism_dev.Simulator.Modbus.Server.{
  handle, coil_lock, Connection, accept_failed, read_failed, received,
}
use prism_dev.Simulator.Modbus.Lock.{command, frame, AreBytes, handle-command}
use prism_dev.Simulator.Modbus.Client
use prism_dev.Simulator.Dnp3 as NewDnp3
use prism_dev.Simulator.Iec104 as NewIec104
use prism_dev.Legacy
use prism_dev.Legacy.{World}
use prism_dev.Legacy.Local.{LocalNet}
use prism_dev.Legacy.Cli
use prism_dev.Legacy.Codec
use prism_dev.Legacy.Modbus
use prism_dev.Legacy.Dnp3
use prism_dev.Legacy.Iec104

-- The same surroundings for the newer simulator, in which the name of the host is found.
abbrev pub resolving : LocalNet → ClientNet
resolving net = record {
  made = net.made;
  resolved = true;
  connected = net.connected;
  delivered = net.delivered;
}

abbrev pub renewed : World → Program.World
renewed w = record {
  client = resolving w.client;
  server = w.server;
  modbus_peers = w.modbus_peers;
  dnp3_peers = w.dnp3_peers;
  iec104_peers = w.iec104_peers;
}

-- With the lock open and no command to the coil, the newer server answers bytes as the older one,
-- which has no lock, and stays open.
handle-handle_unlocked :
    (v : List ℕ)
    → All IsByte v
    → command v ≡ none
    → handle false v ≡ (false, Modbus.handle_unlocked v)
unfolding handle coil_lock Modbus.handle_unlocked Codec.encode_mbap_pdu NewCodec.encode_mbap_pdu
    Codec.decode_mbap_pdu NewCodec.decode_mbap_pdu
handle-handle_unlocked v h e = ground (arith, handle-command false v h)

serve_one-unlocked :
    (c : Connection)
    → AreBytes c
    → command (frame c) ≡ none
    → Server.serve_one false c ≡ (false, Modbus.serve_one c)
unfolding Server.serve_one Modbus.serve_one
serve_one-unlocked accept_failed h n = refl
serve_one-unlocked read_failed h n = refl
serve_one-unlocked (received b bs) h n = rw (handle-handle_unlocked (take 256 (b ∷ bs)) h n) refl

-- While no command to the safety coil comes, the older PLC gives the answers that the newer one gives
-- with its lock open; and the newer one ends with its lock open.
pub serve-unlocked :
    (cs : List Connection)
    → All AreBytes cs
    → All (λ c. command (frame c) ≡ none) cs
    → Server.serve false cs ≡ (false, Modbus.serve cs)
unfolding Server.serve Modbus.serve
serve-unlocked [] h n = refl
serve-unlocked (c ∷ cs) h n = rw (serve_one-unlocked c h.0 n.0, serve-unlocked cs h.1 n.1) refl
