-- ===== src/Simulator/Modbus/Codec.antt =====
-- Laws of the encoder and the decoder of PRISM_simulator/proto/modbus/common.hpp.
use prism_dev.Common.{
  ℕ, take, drop, ◌++◌, ◌+◌, ◌*◌, ◌/◌, ◌%◌, ◌≤◌, ◌≡◌, arith, List, [], ◌∷◌, All, length, All-get_or,
  bit_and, bit_or,
}
use prism_dev.Common.Bits.{IsByte, IsWord, u16, shl, shr, or_byte, and_byte}
use prism_dev.Simulator.Modbus.{Pdu, encode_mbap_pdu, decode_mbap_pdu}

-- The ranges that the C++ types of the fields give.
pub record IsPdu (p : Pdu) : Type 0 where
  pub function_byte : IsByte p.function
  pub address_word : IsWord p.address
  pub value_word : IsWord p.value

-- Two bytes, high first, that the encoder writes and the decoder reads back.
pub word_of_bytes :
    (w : ℕ) → IsWord w → u16 (bit_or (shl (bit_and (shr w 8) 0xff) 8) (bit_and w 0xff)) ≡ w
word_of_bytes w h =
    rw (and_byte (w / 256), and_byte w, or_byte (w / 256 % 256) (w % 256) (omega arith))
      (omega arith)

-- Decoding what was encoded gives the request back, for every function byte and all 16-bit
-- addresses and values.
pub decode_mbap_pdu-encode_mbap_pdu : (p : Pdu) → IsPdu p → decode_mbap_pdu (encode_mbap_pdu p) ≡ p
unfolding decode_mbap_pdu encode_mbap_pdu
decode_mbap_pdu-encode_mbap_pdu p h =
    ground (arith, word_of_bytes p.address h.address_word, word_of_bytes p.value h.value_word)

-- The word that the decoder makes of two bytes.
pub word_lem : (hi lo : ℕ) → IsByte hi → IsByte lo → u16 (bit_or (shl hi 8) lo) ≡ hi * 256 + lo
word_lem hi lo h l = rw (or_byte hi lo l) (omega arith)

-- Two bytes that the decoder joins and the encoder takes apart again.
pub bytes_of_word :
    (hi lo : ℕ)
    → IsByte hi
    → IsByte lo
    → (bit_and (shr (u16 (bit_or (shl hi 8) lo)) 8) 0xff ≡ hi)
      × (bit_and (u16 (bit_or (shl hi 8) lo)) 0xff ≡ lo)
bytes_of_word hi lo h l =
    rw (or_byte hi lo l, and_byte (shr (u16 (hi * 256 + lo)) 8), and_byte (u16 (hi * 256 + lo)))
      (omega arith)

-- Every byte string decodes to fields within the ranges of their types.
pub decode_mbap_pdu-IsPdu : (b : List ℕ) → All IsByte b → IsPdu (decode_mbap_pdu b)
unfolding decode_mbap_pdu
decode_mbap_pdu-IsPdu b h = ground (arith, All-get_or IsByte b 7 0 (omega arith) h)

-- The echo of a request of at least twelve bytes: whatever the header of the request, the response
-- has the standard one, and then the bytes 7 to 11 of the request; what follows byte 11 is dropped.
encode_mbap_pdu-decode_mbap_pdu :
    (b : List ℕ)
    → All IsByte b
    → 12 ≤ length b
    → encode_mbap_pdu (decode_mbap_pdu b) ≡ (0 ∷ 1 ∷ 0 ∷ 0 ∷ 0 ∷ 6 ∷ 1 ∷ []) ++ take 5 (drop 7 b)
unfolding decode_mbap_pdu encode_mbap_pdu
encode_mbap_pdu-decode_mbap_pdu (x0 ∷ x1 ∷ x2 ∷ x3 ∷ x4 ∷ x5 ∷ x6 ∷ f ∷ a ∷ b ∷ c ∷ d ∷ r) h n =
    let (ha, hb, hc, hd) = fields h in
    ground (arith, bytes_of_word a b ha hb, bytes_of_word c d hc hd)
  where
    fields :
        All IsByte (x0 ∷ x1 ∷ x2 ∷ x3 ∷ x4 ∷ x5 ∷ x6 ∷ f ∷ a ∷ b ∷ c ∷ d ∷ r)
        → IsByte a × IsByte b × IsByte c × IsByte d
    fields = λ all. omega arith
encode_mbap_pdu-decode_mbap_pdu _ h n = absurd (omega arith)
