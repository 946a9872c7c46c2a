-- ===== src/Parser/Dnp3.antt =====
-- PRISM/src/parser/dnp3_parser.cpp.
use prism_dev.Common.{
  ℕ, Bool, not, ◌&&◌, ◌||◌, List, bit_and, get_or, length, ltb, ◌==◌, if◌then◌else◌,
}
use prism_dev.Packet.{RawPacket, ParsedRecord, default_record}

unfoldable pub is_write_code : ℕ → Bool
is_write_code fc = fc == 0x02 || fc == 0x05 || fc == 0x06 || fc == 0x82

unfoldable pub parse : RawPacket → ParsedRecord
unfolding is_write_code
parse packet =
    if not (packet.src_port == 20000) && not (packet.dst_port == 20000)
    then rec
    else if ltb n 13
    then record rec { protocol = "Unknown" }
    else record rec {
      is_request = not (bit_and ctrl 0x40 == 0);
      function_code = fc;
      is_write = is_write_code fc;
      address = 0;
    }
  where
    rec : ParsedRecord
    rec = record default_record { timestamp = packet.timestamp; protocol = "DNP3" }

    b : List ℕ
    b = packet.payload

    n : ℕ
    n = length b

    ctrl : ℕ
    ctrl = get_or b 2 0

    fc : ℕ
    fc = get_or b 12 0
