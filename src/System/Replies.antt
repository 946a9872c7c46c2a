-- ===== src/System/Replies.antt =====
-- What the Modbus parser of PRISM/src/parser makes of the replies of the PLC of
-- PRISM_simulator/proto/modbus/server.cpp.
use prism_dev.Common.{ℕ, ◌≡◌, refl, arith, Bool, true, List, All}
use prism_dev.Common.Bits.{IsByte}
use prism_dev.Packet.{RawPacket, modbus}
use prism_dev.Parser.Classifier.{classify_protocol}
use prism_dev.Parser.Modbus
use prism_dev.Double.{Double}
use prism_dev.Features.{Iteration}
use prism_dev.Enforcement.{Net}
use prism_dev.Pipeline.{Monitor, process, handle_as, parse_as, is_dropped, dropped}
use prism_dev.Simulator.Modbus.{encode_mbap_pdu, encode_exception, decode_mbap_pdu}
use prism_dev.Simulator.Modbus.Codec.{decode_mbap_pdu-IsPdu, decode_mbap_pdu-encode_mbap_pdu}
use prism_dev.Simulator.Modbus.Server.{handle, is_write_fc}
use prism_dev.Simulator.Modbus.Lock.{IsPlantWrite, handle_refuses}
use prism_dev.System.Wire.{parse-decode_mbap_pdu, unknown-is_dropped}

abbrev carrying : RawPacket → List ℕ → RawPacket
carrying p bytes = record p { payload = bytes }

exception-is_dropped :
    (p : RawPacket) (fc code : ℕ)
    → is_dropped (Modbus.parse (carrying p (encode_exception fc code))) ≡ true
unfolding Modbus.parse encode_exception
exception-is_dropped p fc code = unknown-is_dropped _ refl

-- The echo of a request reads as the request.
echo-parse :
    (p : RawPacket) (v : List ℕ)
    → All IsByte v
    → let r = Modbus.parse (carrying p (encode_mbap_pdu (decode_mbap_pdu v))) in
      let pdu = decode_mbap_pdu v in
      (r.protocol ≡ "Modbus")
      × (r.function_code ≡ pdu.function)
      × (r.address ≡ pdu.address)
      × (r.is_write ≡ is_write_fc pdu.function)
unfolding encode_mbap_pdu
echo-parse p v bytes =
    let reply = carrying p (encode_mbap_pdu (decode_mbap_pdu v)) in
    let read = parse-decode_mbap_pdu reply (omega arith) in
    let same =
      decode_mbap_pdu-encode_mbap_pdu (decode_mbap_pdu v) (decode_mbap_pdu-IsPdu v bytes) in
    rw same at read

module _ {ℓ} {W : Type ℓ} ⦃d : Double W⦄ (it : Iteration) where
  -- Of a reply of the PLC to a frame of bytes, in a packet that is classified as Modbus: if the PLC
  -- has refused a write, the monitor drops the reply and keeps its state; otherwise it reads the
  -- reply as a Modbus record with the function and the address that the PLC decoded, and counts it
  -- as a write if the lock takes that function for one.
  pub process-handle :
      (m : Monitor) (p : RawPacket) (net : Net) (locked : Bool) (v : List ℕ)
      → All IsByte v
      → classify_protocol p ≡ modbus
      → let reply = carrying p (handle locked v).1 in
        let r = Modbus.parse reply in
        let pdu = decode_mbap_pdu v in
        let refused = (locked ≡ true) × IsPlantWrite v in
        (refused → process {W = W} it m reply net ≡ (m, dropped))
        × ((¬ refused)
            → (r.protocol ≡ "Modbus")
              × (r.function_code ≡ pdu.function)
              × (r.address ≡ pdu.address)
              × (r.is_write ≡ is_write_fc pdu.function))
  unfolding process handle_as parse_as classify_protocol
  process-handle m p net locked v bytes e =
      let (refuses, echoes, nine) = handle_refuses locked v in
      (
        (λ h. rw (refuses h, e, exception-is_dropped p (decode_mbap_pdu v).function 1) refl),
        λ h. rw (echoes h) (echo-parse p v bytes),
      )
