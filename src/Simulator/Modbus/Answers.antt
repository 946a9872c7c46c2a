-- ===== src/Simulator/Modbus/Answers.antt =====
-- What the PLC of PRISM_simulator/proto/modbus/server.cpp answers, byte for byte.
use prism_dev.Common.{
  ℕ, ◌+◌, ◌≡◌, arith, Bool, true, ◌&&◌, ◌||◌, not, List, [], ◌∷◌, length, leb, get_or, All,
  All-get_or, if◌then◌else◌, ◌==◌,
}
use mathlib.Core.Path.{ap₂}
use prism_dev.Common.Latch.{obeying}
use prism_dev.Common.Bits.{IsByte}
use prism_dev.Simulator.Modbus.{encode_mbap_pdu, encode_exception, decode_mbap_pdu}
use prism_dev.Simulator.Modbus.Codec.{bytes_of_word, word_lem}
use prism_dev.Simulator.Modbus.Server.{is_write_fc, is_safety_coil, handle}
use prism_dev.Simulator.Modbus.Lock.{command, handle-command}

-- A write to something other than the safety coil, by the bytes of the frame: at least twelve of
-- them, a function code that writes, and not that of a single coil with the address FF FF.
unfoldable pub is_barred : List ℕ → Bool
is_barred v =
    leb 12 (length v)
    && (get_or v 7 0 == 5 || get_or v 7 0 == 6 || get_or v 7 0 == 15 || get_or v 7 0 == 16)
    && not (get_or v 7 0 == 5 && get_or v 8 0 == 0xff && get_or v 9 0 == 0xff)

-- The exception response to a function code: the code with its top bit set, and then 1 for an illegal
-- function.
abbrev pub refusal : ℕ → List ℕ
refusal code = 0 ∷ 1 ∷ 0 ∷ 0 ∷ 0 ∷ 3 ∷ 1 ∷ (code + 128) ∷ 1 ∷ []

-- What a request that is not refused gets: its function code, address and value behind a header of
-- the server's own, or zeros where the request is shorter than twelve bytes.
abbrev pub acknowledgement : List ℕ → List ℕ
acknowledgement v =
    0
    ∷ 1
    ∷ 0
    ∷ 0
    ∷ 0
    ∷ 6
    ∷ 1
    ∷ (if leb 12 (length v)
        then get_or v 7 0 ∷ get_or v 8 0 ∷ get_or v 9 0 ∷ get_or v 10 0 ∷ get_or v 11 0 ∷ []
        else 0 ∷ 0 ∷ 0 ∷ 0 ∷ 0 ∷ [])

exception-refusal : (c : ℕ) → is_write_fc c ≡ true → encode_exception c 1 ≡ refusal c
unfolding is_write_fc encode_exception
exception-refusal c h = ground arith

decoded-acknowledgement :
    (v : List ℕ) → All IsByte v → encode_mbap_pdu (decode_mbap_pdu v) ≡ acknowledgement v
unfolding encode_mbap_pdu decode_mbap_pdu
decoded-acknowledgement v h = ground (
  arith,
  bytes_of_word (get_or v 8 0) (get_or v 9 0) (byte_at 8) (byte_at 9),
  bytes_of_word (get_or v 10 0) (get_or v 11 0) (byte_at 10) (byte_at 11),
)
  where
    byte_at : (i : ℕ) → IsByte (get_or v i 0)
    byte_at i = All-get_or IsByte v i 0 (omega arith) h

-- The server's tests on the decoded request are those on its bytes.
decoded_barred :
    (v : List ℕ)
    → All IsByte v
    → (is_write_fc (decode_mbap_pdu v).function && not (is_safety_coil (decode_mbap_pdu v)))
        ≡ is_barred v
      × (is_barred v ≡ true → (decode_mbap_pdu v).function ≡ get_or v 7 0)
unfolding is_write_fc is_safety_coil is_barred decode_mbap_pdu
decoded_barred v h =
    ground
      (arith, word_lem (get_or v 8 0) (get_or v 9 0) (byte_at 8) (byte_at 9), byte_at 8, byte_at 9)
  where
    byte_at : (i : ℕ) → IsByte (get_or v i 0)
    byte_at i = All-get_or IsByte v i 0 (omega arith) h

answer-bytes :
    (locked : Bool) (v : List ℕ)
    → All IsByte v
    → (handle locked v).1
      ≡ (if locked && is_barred v then refusal (get_or v 7 0) else acknowledgement v)
unfolding handle
answer-bytes locked v h =
    let (tests, code) = decoded_barred v h in
    ground (
      arith,
      tests,
      code,
      decoded-acknowledgement v h,
      exception-refusal (decode_mbap_pdu v).function,
    )

-- A frame of bytes that the PLC reads is answered by these bytes: with the lock engaged, a write to
-- something other than the safety coil gets the nine bytes of the exception response, which carries
-- its function code with the top bit set; every other frame, and every frame while the lock is open,
-- gets its function code, address and value back behind the server's own header, or zeros if it is
-- shorter than twelve bytes. The lock becomes what the frame's command asks for, and stays without
-- one.
pub handle_lem :
    (locked : Bool) (v : List ℕ)
    → All IsByte v
    → handle locked v ≡ (
      obeying (command v) locked,
      if locked && is_barred v then refusal (get_or v 7 0) else acknowledgement v,
    )
handle_lem locked v h =
    ap₂ (λ (l : Bool) (r : List ℕ). (l, r)) (handle-command locked v h) (answer-bytes locked v h)
