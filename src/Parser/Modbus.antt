-- ===== src/Parser/Modbus.antt =====
-- PRISM/src/parser/modbus_parser.cpp.
use prism_dev.Common.{ℕ, ◌+◌, Bool, ◌||◌, List, bit_or, get_or, length, ltb, ◌==◌, if◌then◌else◌}
use prism_dev.Common.Bits.{u16, shl}
use prism_dev.Packet.{RawPacket, ParsedRecord, default_record}

-- A write function code: 5, 6, 15 or 16.
unfoldable pub is_write_code : ℕ → Bool
is_write_code fc = fc == 5 || fc == 6 || fc == 15 || fc == 16

-- The MBAP header ends at byte 7. A read of `b` stands behind the test `n < 12`, so its default
-- value is never read.
unfoldable pub parse : RawPacket → ParsedRecord
unfolding is_write_code
parse packet =
    if ltb n 12
    then record default_record { timestamp = packet.timestamp; protocol = "Unknown" }
    else record {
      timestamp = packet.timestamp;
      protocol = "Modbus";
      is_request = packet.dst_port == 502;
      function_code = fc;
      address = u16 (bit_or (shl (get_or b (pdu + 1) 0) 8) (get_or b (pdu + 2) 0));
      is_write = is_write_code fc;
    }
  where
    b : List ℕ
    b = packet.payload

    n : ℕ
    n = length b

    pdu : ℕ
    pdu = 7

    fc : ℕ
    fc = get_or b pdu 0
