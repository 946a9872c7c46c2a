-- ===== src/Parser/Reads.antt =====
-- PRISM/src/parser with the reads of the payload written out: `none` is a read outside it.
use prism_dev.Common.{
  ℕ, ◌<◌, ◌≤◌, ◌≡◌, refl, arith, not, ◌&&◌, Option, some, get_elem?, get_or, get_or-get_elem?,
  bit_and, bit_or, length, ltb, ◌==◌, if◌then◌else◌, Bool-cases, inl, inr,
}
use prism_dev.Common.Bits.{u16, shl}
use prism_dev.Common.Partial.{◌>>=◌}
use prism_dev.Packet.{RawPacket, ParsedRecord, default_record}
use prism_dev.Parser.Modbus
use prism_dev.Parser.Dnp3
use prism_dev.Parser.Iec104

unfoldable pub parse_modbus : RawPacket → Option ParsedRecord
parse_modbus packet =
    if ltb (length packet.payload) 12
    then some (record default_record { timestamp = packet.timestamp; protocol = "Unknown" })
    else (do
      fc ← get_elem? packet.payload 7
      hi ← get_elem? packet.payload 8
      lo ← get_elem? packet.payload 9
      some (record {
        timestamp = packet.timestamp;
        protocol = "Modbus";
        is_request = packet.dst_port == 502;
        function_code = fc;
        address = u16 (bit_or (shl hi 8) lo);
        is_write = Modbus.is_write_code fc;
      }))

unfoldable pub parse_dnp3 : RawPacket → Option ParsedRecord
parse_dnp3 packet =
    if not (packet.src_port == 20000) && not (packet.dst_port == 20000)
    then some rec
    else if ltb (length packet.payload) 13
    then some (record rec { protocol = "Unknown" })
    else (do
      ctrl ← get_elem? packet.payload 2
      fc ← get_elem? packet.payload 12
      some (record rec {
        is_request = not (bit_and ctrl 0x40 == 0);
        function_code = fc;
        is_write = Dnp3.is_write_code fc;
        address = 0;
      }))
  where
    rec : ParsedRecord
    rec = record default_record { timestamp = packet.timestamp; protocol = "DNP3" }

-- `b[0]` is read behind the test of the size, as `||` has it.
unfoldable pub parse_iec104 : RawPacket → Option ParsedRecord
parse_iec104 packet =
    if not (packet.src_port == 2404) && not (packet.dst_port == 2404)
    then some default_record
    else if ltb (length packet.payload) 12
    then some default_record
    else (do
      first ← get_elem? packet.payload 0
      if not (first == 0x68) then some default_record else (do
        type_id ← get_elem? packet.payload 6
        cot ← get_elem? packet.payload 8
        if type_id == 0 then some default_record else (do
          a0 ← get_elem? packet.payload 9
          a1 ← get_elem? packet.payload 10
          a2 ← get_elem? packet.payload 11
          some (record {
            timestamp = packet.timestamp;
            protocol = "IEC104";
            function_code = type_id;
            is_request = cot == 6;
            is_write = Iec104.is_write_type type_id;
            address = u16 (bit_or (bit_or a0 (shl a1 8)) (shl a2 16));
          }))))

module _ (p : RawPacket) where
  read_at : (i : ℕ) → i < length p.payload → get_elem? p.payload i ≡ some (get_or p.payload i 0)
  read_at i h = get_or-get_elem? p.payload i 0 h

  modbus_safe : parse_modbus p ≡ some (Modbus.parse p)
  unfolding parse_modbus Modbus.parse
  modbus_safe = elim (Bool-cases (ltb (length p.payload) 12)) [
    | inl short ↦ rw short refl
    | inr long ↦
        (let n : 12 ≤ length p.payload = ground arith in
          rw (long, read_at 7 (omega arith), read_at 8 (omega arith), read_at 9 (omega arith)) refl)
  ]

  dnp3_safe : parse_dnp3 p ≡ some (Dnp3.parse p)
  unfolding parse_dnp3 Dnp3.parse
  dnp3_safe = elim (Bool-cases (not (p.src_port == 20000) && not (p.dst_port == 20000))) [
    | inl other ↦ rw other refl
    | inr ours ↦ elim (Bool-cases (ltb (length p.payload) 13)) [
      | inl short ↦ rw (ours, short) refl
      | inr long ↦
          (let n : 13 ≤ length p.payload = ground arith in
            rw (ours, long, read_at 2 (omega arith), read_at 12 (omega arith)) refl)
    ]
  ]

  iec104_safe : parse_iec104 p ≡ some (Iec104.parse p)
  unfolding parse_iec104 Iec104.parse
  iec104_safe = elim (Bool-cases (not (p.src_port == 2404) && not (p.dst_port == 2404))) [
    | inl other ↦ rw other refl
    | inr ours ↦ elim (Bool-cases (ltb (length p.payload) 12)) [
      | inl short ↦ rw (ours, short) refl
      | inr long ↦
          (let n : 12 ≤ length p.payload = ground arith in
            rw
              (
                ours,
                long,
                read_at 0 (omega arith),
                read_at 6 (omega arith),
                read_at 8 (omega arith),
                read_at 9 (omega arith),
                read_at 10 (omega arith),
                read_at 11 (omega arith),
              )
              (ground arith))
    ]
  ]

  -- No parser reads outside the payload, whatever the packet is: with each read checked, the three
  -- parsers return, and return what they do where a read is taken for granted.
  pub parse-reads :
      (parse_modbus p ≡ some (Modbus.parse p))
      × (parse_dnp3 p ≡ some (Dnp3.parse p))
      × (parse_iec104 p ≡ some (Iec104.parse p))
  parse-reads = (modbus_safe, dnp3_safe, iec104_safe)
