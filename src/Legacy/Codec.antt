-- ===== src/Legacy/Codec.antt =====
-- PRISM/src/simulator/proto/modbus/common.hpp: the older copy of the Modbus frames, which has no
-- exception response.
use prism_dev.Common.{ℕ, List, [], ◌∷◌, bit_and, bit_or, get_or, length, ltb, if◌then◌else◌}
use prism_dev.Common.Bits.{u16, shl, shr}
use prism_dev.Simulator.Modbus.{Pdu, default_pdu}

-- Transaction 1, protocol 0, length 6 and unit 1, then the fields, big endian.
unfoldable pub encode_mbap_pdu : Pdu → List ℕ
encode_mbap_pdu p =
    0x00
    ∷ 0x01
    ∷ 0x00
    ∷ 0x00
    ∷ 0x00
    ∷ 0x06
    ∷ 0x01
    ∷ p.function
    ∷ bit_and (shr p.address 8) 0xff
    ∷ bit_and p.address 0xff
    ∷ bit_and (shr p.value 8) 0xff
    ∷ bit_and p.value 0xff
    ∷ []

unfoldable pub decode_mbap_pdu : List ℕ → Pdu
decode_mbap_pdu b = if ltb (length b) 12 then default_pdu else record {
  function = get_or b 7 0;
  address = u16 (bit_or (shl (get_or b 8 0) 8) (get_or b 9 0));
  value = u16 (bit_or (shl (get_or b 10 0) 8) (get_or b 11 0));
}
