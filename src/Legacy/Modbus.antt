-- ===== src/Legacy/Modbus.antt =====
-- PRISM/src/simulator/proto/modbus: the older client, and the older PLC, which has no lock.
use prism_dev.Common.{
  ℕ, Bool, true, false, List, [], ◌∷◌, ◌++◌, Option, none, some, take, bit_and, if◌then◌else◌,
}
use prism_dev.Common.Bits.{shr}
use prism_dev.Socket.{Effect, opened, closed, sent}
use prism_dev.Simulator.Modbus.Client.{Run}
use prism_dev.Simulator.Modbus.Server.{Connection, accept_failed, read_failed, received}
use prism_dev.Legacy.Codec
use prism_dev.Legacy.Local.{LocalNet}

pub record Pdu : Type 0 where
  pub transaction : ℕ
  pub protocol : ℕ
  pub length : ℕ
  pub unit : ℕ
  pub fn : ℕ
  pub addr : ℕ
  pub value : ℕ

-- `PDU p{}` with the three fields that `run_client` sets.
abbrev pub request : ℕ → ℕ → ℕ → Pdu
request fn addr val = record {
  transaction = 1;
  protocol = 0;
  length = 6;
  unit = 1;
  fn = fn;
  addr = addr;
  value = val;
}

-- The high byte of a `uint16_t` field fits its byte without a mask.
unfoldable pub encode_mbap_pdu : Pdu → List ℕ
encode_mbap_pdu p =
    shr p.transaction 8
    ∷ bit_and p.transaction 0xff
    ∷ shr p.protocol 8
    ∷ bit_and p.protocol 0xff
    ∷ shr p.length 8
    ∷ bit_and p.length 0xff
    ∷ p.unit
    ∷ p.fn
    ∷ shr p.addr 8
    ∷ bit_and p.addr 0xff
    ∷ shr p.value 8
    ∷ bit_and p.value 0xff
    ∷ []

-- The part from `PDU p{}` on, with an open descriptor.
unfoldable pub transmit : LocalNet → Pdu → List Effect → Run
transmit net p before =
    if net.delivered
    then (true, 0, before ++ sent (encode_mbap_pdu p) ∷ [])
    else (false, 1, before ++ sent (encode_mbap_pdu p) ∷ closed ∷ [])

unfoldable pub run_client : LocalNet → Bool → ℕ → ℕ → ℕ → Run
unfolding transmit
run_client net true fn addr val = transmit net (request fn addr val) []
run_client net false fn addr val =
    if net.made
    then (if net.connected
        then transmit net (request fn addr val) (opened ∷ [])
        else (false, 1, opened ∷ closed ∷ []))
    else (false, 1, [])

-- Every request is echoed.
unfoldable pub handle_unlocked : List ℕ → List ℕ
handle_unlocked v = Codec.encode_mbap_pdu (Codec.decode_mbap_pdu v)

-- A round of the accept loop, the loop, and the server.
unfoldable pub serve_one : Connection → Option (List ℕ)
serve_one accept_failed = none
serve_one read_failed = none
serve_one (received b bs) = some (handle_unlocked (take 256 (b ∷ bs)))

unfoldable pub serve : List Connection → List (Option (List ℕ))
serve [] = []
serve (c ∷ cs) = serve_one c ∷ serve cs

unfoldable pub start_server :
    Bool → Bool → List Connection → Option ℕ × List Effect × List (Option (List ℕ))
start_server made bound cs =
    if made
    then (if bound then (none, opened ∷ [], serve cs) else (some 1, opened ∷ closed ∷ [], []))
    else (some 1, [], [])
