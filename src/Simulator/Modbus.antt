-- ===== src/Simulator/Modbus.antt =====
-- PRISM_simulator/proto/modbus/common.hpp: the frames of a Modbus TCP request and response.
pub mod Codec
pub mod Server
pub mod Client
pub mod Lock
pub mod Answers
use prism_dev.Common.{ℕ, List, [], ◌∷◌, bit_and, bit_or, get_or, length, ltb, if◌then◌else◌}
use prism_dev.Common.Bits.{u8, u16, shl, shr}

pub record Pdu : Type 0 where
  pub function : ℕ
  pub address : ℕ
  pub value : ℕ

-- `PDU{}`.
abbrev pub default_pdu : Pdu
default_pdu = record { function = 0; address = 0; value = 0 }

-- Transaction 1, protocol 0, length 6 and unit 1, then the fields, big endian.
unfoldable pub encode_mbap_pdu : Pdu → List ℕ
encode_mbap_pdu p =
    0x00
    ∷ 0x01
    ∷ 0x00
    ∷ 0x00
    ∷ 0x00
    ∷ 0x06
    ∷ 0x01
    ∷ p.function
    ∷ bit_and (shr p.address 8) 0xff
    ∷ bit_and p.address 0xff
    ∷ bit_and (shr p.value 8) 0xff
    ∷ bit_and p.value 0xff
    ∷ []

-- The exception response: length 3, the function code with its top bit set, and the code.
unfoldable pub encode_exception : ℕ → ℕ → List ℕ
encode_exception fc exception_code =
    0x00 ∷ 0x01 ∷ 0x00 ∷ 0x00 ∷ 0x00 ∷ 0x03 ∷ 0x01 ∷ u8 (bit_or fc 0x80) ∷ exception_code ∷ []

unfoldable pub decode_mbap_pdu : List ℕ → Pdu
decode_mbap_pdu b = if ltb (length b) 12 then default_pdu else record {
  function = get_or b 7 0;
  address = u16 (bit_or (shl (get_or b 8 0) 8) (get_or b 9 0));
  value = u16 (bit_or (shl (get_or b 10 0) 8) (get_or b 11 0));
}
