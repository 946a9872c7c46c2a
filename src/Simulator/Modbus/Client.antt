-- ===== src/Simulator/Modbus/Client.antt =====
-- PRISM_simulator/proto/modbus/client.cpp.
use prism_dev.Common.{
  ℕ, ◌+◌, ◌≡◌, ◌↔◌, ap, ◌∙◌, arith, Bool, true, false, List, [], ◌∷◌, ◌++◌, bit_and, if◌then◌else◌,
}
use prism_dev.Common.Bits.{IsWord, shr, and_byte}
use prism_dev.Simulator.Modbus
use prism_dev.Simulator.Modbus.Codec.{IsPdu, decode_mbap_pdu-encode_mbap_pdu}
use prism_dev.Socket.{ClientNet, Effect, opened, closed, sent, opens, closes, sends}

pub record Pdu : Type 0 where
  pub transaction : ℕ
  pub protocol : ℕ
  pub length : ℕ
  pub unit : ℕ
  pub fn : ℕ
  pub addr : ℕ
  pub value : ℕ

-- `PDU p{}` with the three fields that `run_client` sets.
abbrev pub request : ℕ → ℕ → ℕ → Pdu
request fn addr val = record {
  transaction = 1;
  protocol = 0;
  length = 6;
  unit = 1;
  fn = fn;
  addr = addr;
  value = val;
}

-- The high byte of a `uint16_t` field fits its byte without a mask.
unfoldable pub encode_mbap_pdu : Pdu → List ℕ
encode_mbap_pdu p =
    shr p.transaction 8
    ∷ bit_and p.transaction 0xff
    ∷ shr p.protocol 8
    ∷ bit_and p.protocol 0xff
    ∷ shr p.length 8
    ∷ bit_and p.length 0xff
    ∷ p.unit
    ∷ p.fn
    ∷ shr p.addr 8
    ∷ bit_and p.addr 0xff
    ∷ shr p.value 8
    ∷ bit_and p.value 0xff
    ∷ []

-- The descriptor is static: a later call of the same process uses it again. `true` is an open one,
-- and `false` is -1. The result is the descriptor, the exit status, and the calls made.
abbrev pub Run : Type 0
Run = Bool × ℕ × List Effect

-- The part from `PDU p{}` on, with an open descriptor; what `recv` returns is not used.
transmit : ClientNet → Pdu → List Effect → Run
unfolding encode_mbap_pdu
transmit net p before =
    if net.delivered
    then (true, 0, before ++ sent (encode_mbap_pdu p) ∷ [])
    else (false, 1, before ++ sent (encode_mbap_pdu p) ∷ closed ∷ [])

unfoldable pub run_client : ClientNet → Bool → ℕ → ℕ → ℕ → Run
unfolding transmit
run_client net true fn addr val = transmit net (request fn addr val) []
run_client net false fn addr val =
    if net.made
    then (if net.resolved
        then (if net.connected
            then transmit net (request fn addr val) (opened ∷ [])
            else (false, 1, opened ∷ closed ∷ []))
        else (false, 1, opened ∷ closed ∷ []))
    else (false, 1, [])

fits : (w : ℕ) → IsWord w → bit_and (shr w 8) 0xff ≡ shr w 8
fits w h = rw (and_byte (shr w 8)) (omega arith)

-- The client's encoder and the server's write the same bytes for the same fields.
encode-request :
    (p : Modbus.Pdu)
    → IsPdu p
    → encode_mbap_pdu (request p.function p.address p.value) ≡ Modbus.encode_mbap_pdu p
unfolding encode_mbap_pdu Modbus.encode_mbap_pdu
encode-request p h = ground (arith, fits p.address h.address_word, fits p.value h.value_word)

-- The server decodes exactly the function byte, the 16-bit address and the 16-bit value that the
-- client was asked to send.
pub decode_mbap_pdu-request :
    (p : Modbus.Pdu)
    → IsPdu p
    → Modbus.decode_mbap_pdu (encode_mbap_pdu (request p.function p.address p.value)) ≡ p
decode_mbap_pdu-request p h =
    ap Modbus.decode_mbap_pdu (encode-request p h) ∙ decode_mbap_pdu-encode_mbap_pdu p h

-- A call returns 0 exactly when it leaves the descriptor open, and then it has handed one frame to
-- `send`, the encoded request. On every path no descriptor is lost: those opened before and during
-- the call are those closed by it and the one that is kept.
pub run_client_lem :
    (net : ClientNet) (fd : Bool) (fn addr val : ℕ)
    → let (fd', status, effects) = run_client net fd fn addr val in
      ((status ≡ 0) ↔ (fd' ≡ true))
      × ((if fd then 1 else 0) + opens effects ≡ (if fd' then 1 else 0) + closes effects)
      × (status ≡ 0 → sends effects ≡ encode_mbap_pdu (request fn addr val) ∷ [])
unfolding run_client
run_client_lem net true fn addr val = ground arith
run_client_lem net false fn addr val = ground arith
