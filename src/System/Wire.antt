-- ===== src/System/Wire.antt =====
-- What the parsers of PRISM/src/parser make of the frames that the clients of PRISM_simulator/proto
-- send.
use prism_dev.Common.{◌+◌, ◌*◌, ◌%◌, ◌<◌, ℕ, ◌≡◌, ◌≤◌, refl, arith, true, ◌↔◌, length}
use prism_dev.Common.Bits.{u16, shl, shr, and_byte, or_low, or_one}
use prism_dev.Common.{bit_and, bit_or, ◌<◌}
use prism_dev.Packet.{RawPacket, ParsedRecord, dnp3}
use prism_dev.Parser.Classifier.{Touches, classify_protocol_iff, classify_protocol}
use prism_dev.Parser.Modbus
use prism_dev.Parser.Dnp3
use prism_dev.Parser.Iec104
use prism_dev.Pipeline.{parse_as, is_dropped, Monitor, process, handle_as, dropped}
use prism_dev.Features.{Iteration}
use prism_dev.Enforcement.{Net}
use prism_dev.Double.{Double}
use prism_dev.Simulator.Modbus.{decode_mbap_pdu}
use prism_dev.Simulator.Modbus.Server.{is_write_fc}
use prism_dev.Simulator.Dnp3 as Station
use prism_dev.Simulator.Iec104 as Outstation

-- The monitor reads a Modbus packet of at least twelve bytes as the PLC does: it records the
-- function and the address that the PLC decodes, and counts as a write what the PLC's lock takes for
-- one.
pub parse-decode_mbap_pdu :
    (p : RawPacket)
    → 12 ≤ length p.payload
    → let r = Modbus.parse p in
      let pdu = decode_mbap_pdu p.payload in
      (r.protocol ≡ "Modbus")
      × (r.function_code ≡ pdu.function)
      × (r.address ≡ pdu.address)
      × (r.is_write ≡ is_write_fc pdu.function)
unfolding Modbus.parse Modbus.is_write_code decode_mbap_pdu is_write_fc
parse-decode_mbap_pdu p h = ground arith

pub unknown-is_dropped : (r : ParsedRecord) → r.protocol ≡ "Unknown" → is_dropped r ≡ true
unfolding is_dropped
unknown-is_dropped r e = rw e refl

short-parse :
    (p : RawPacket) (func : ℕ)
    → Touches p 20000
    → (Dnp3.parse (record p { payload = Station.build_frame func })).protocol ≡ "Unknown"
unfolding Dnp3.parse Station.build_frame
short-parse p func t = ground arith

-- The monitor drops every packet that is classified as DNP3 and carries a frame of the DNP3 client,
-- whatever the function code, and keeps its state.
pub process-build_frame_dnp3 {ℓ} :
    {W : Type ℓ} ⦃d : Double W⦄ (it : Iteration) (m : Monitor) (p : RawPacket) (func : ℕ)
    (net : Net)
    → classify_protocol p ≡ dnp3
    → process {W = W} it m (record p { payload = Station.build_frame func }) net ≡ (m, dropped)
unfolding process handle_as parse_as classify_protocol
process-build_frame_dnp3 it m p func net e =
    let touches : Touches p 20000 = ((classify_protocol_iff p).1.0 e).0 in
    rw
      (
        e,
        unknown-is_dropped (Dnp3.parse (record p { payload = Station.build_frame func }))
            (short-parse p func touches),
      )
      refl

-- The address that the parser makes of the bytes 1, `lo` and `hi`.
address_lem : (lo hi : ℕ) → lo < 256 → u16 (bit_or (bit_or 1 (shl lo 8)) (shl hi 16)) ≡ lo * 256 + 1
address_lem lo hi h = rw (or_low 16 (bit_or 1 (lo * 256)) hi, or_one lo) (omega arith)

-- Of a frame of the IEC 104 client with a type from 1, in a packet with port 2404, the parser
-- records the type, marks the types 45 to 50 as writes, and marks the frame as a request. The
-- address that it records is not that of the frame: it is one more than 256 times the low byte of
-- the frame's address.
pub parse-build_frame_iec104 :
    (p : RawPacket) (type_id ioa : ℕ)
    → Touches p 2404
    → 1 ≤ type_id
    → let r = Iec104.parse (record p { payload = Outstation.build_frame type_id ioa }) in
      (r.protocol ≡ "IEC104")
      × (r.function_code ≡ type_id)
      × (r.is_request ≡ true)
      × ((r.is_write ≡ true) ↔ ((45 ≤ type_id) × (type_id ≤ 50)))
      × (r.address ≡ ioa % 256 * 256 + 1)
unfolding Iec104.parse Iec104.is_write_type Outstation.build_frame
parse-build_frame_iec104 p type_id ioa t low =
    let low_byte : bit_and ioa 0xff < 256 = rw (and_byte ioa) (omega arith) in
    ground (arith, address_lem (bit_and ioa 0xff) (bit_and (shr ioa 8) 0xff) low_byte, and_byte ioa)
