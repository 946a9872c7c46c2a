-- ===== src/Parser/Iec104.antt =====
-- PRISM/src/parser/iec104_parser.cpp.
use prism_dev.Common.{
  ℕ, Bool, not, ◌&&◌, ◌||◌, List, bit_or, get_or, length, ltb, leb, ◌==◌, if◌then◌else◌,
}
use prism_dev.Common.Bits.{u16, shl}
use prism_dev.Packet.{RawPacket, ParsedRecord, default_record}

-- A command type: 45 to 50.
unfoldable pub is_write_type : ℕ → Bool
is_write_type type_id = leb 45 type_id && leb type_id 50

-- The three bytes of the object address, little endian, as the 32-bit value that the code builds
-- before it is stored in the 16-bit field.
unfoldable pub object_address : List ℕ → ℕ
object_address b = bit_or (bit_or (get_or b 9 0) (shl (get_or b 10 0) 8)) (shl (get_or b 11 0) 16)

unfoldable pub parse : RawPacket → ParsedRecord
unfolding is_write_type object_address
parse packet =
    if not (packet.src_port == 2404) && not (packet.dst_port == 2404)
    then default_record
    else if ltb n 12 || not (get_or b 0 0 == 0x68)
    then default_record
    else if type_id == 0
    then default_record
    else record {
      timestamp = packet.timestamp;
      protocol = "IEC104";
      function_code = type_id;
      is_request = cot == 6;
      is_write = is_write_type type_id;
      address = u16 (object_address b);
    }
  where
    b : List ℕ
    b = packet.payload

    n : ℕ
    n = length b

    type_id : ℕ
    type_id = get_or b 6 0

    cot : ℕ
    cot = get_or b 8 0
