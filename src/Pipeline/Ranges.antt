-- ===== src/Pipeline/Ranges.antt =====
-- The ranges of what PRISM/src/main.cpp has parsed.
use prism_dev.Common.{◌≡◌, ◌⊎◌, arith, All-get_or}
use prism_dev.Common.Bits.{IsByte, IsWord}
use prism_dev.Packet.{
  RawPacket, IsPacket, ParsedRecord, default_record, Proto, unknown, modbus, dnp3, iec104,
}
use prism_dev.Parser.Modbus
use prism_dev.Parser.Dnp3
use prism_dev.Parser.Iec104
use prism_dev.Pipeline.{parse_as}

-- The ranges that the C++ types of a record give.
abbrev pub IsRecord : ParsedRecord → Type 0
IsRecord r = IsByte r.function_code × IsWord r.address

-- Whatever protocol a packet is parsed as, the record's function code fits a byte and its address a
-- 16-bit word, and the record has the time of the packet or is the default one.
pub parse_as-IsRecord :
    (proto : Proto) (p : RawPacket)
    → IsPacket p
    → let r = parse_as proto p in IsRecord r × ((r.timestamp ≡ p.timestamp) ⊎ (r ≡ default_record))
unfolding parse_as Modbus.parse Dnp3.parse Iec104.parse
parse_as-IsRecord unknown p h = ground arith
parse_as-IsRecord modbus p h = ground (arith, All-get_or IsByte p.payload 7 0 (omega arith) h.bytes)
parse_as-IsRecord dnp3 p h = ground (arith, All-get_or IsByte p.payload 12 0 (omega arith) h.bytes)
parse_as-IsRecord iec104 p h = ground (arith, All-get_or IsByte p.payload 6 0 (omega arith) h.bytes)
