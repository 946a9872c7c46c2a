-- ===== src/Simulator/Modbus/Lock.antt =====
-- The write lock of PRISM_simulator/proto/modbus/server.cpp: when it changes, and what it refuses.
use prism_dev.Common.{
  ℕ, ◌≡◌, ◌≢◌, ◌↔◌, refl, ap, ◌∙◌, arith, Bool, true, false, ◌&&◌, List, [], ◌∷◌, Option, none,
  some, length, take, leb, get_or, All, All-get_or, bit_or, ◌+◌, ◌*◌, if◌then◌else◌, ◌==◌,
}
use prism_dev.Common.Latch.{obeying, last_signal, obeying-last_signal}
use prism_dev.Common.Bits.{IsByte, u16, shl}
use prism_dev.Simulator.Modbus.Codec.{word_lem}
use prism_dev.Simulator.Modbus.{encode_mbap_pdu, encode_exception, decode_mbap_pdu}
use prism_dev.Simulator.Modbus.Server.{
  is_write_fc, is_safety_coil, handle, Connection, accept_failed, read_failed, received, serve_one,
  serve,
}

-- A frame that asks for a write to something other than the safety coil.
abbrev pub IsPlantWrite : List ℕ → Type 0
IsPlantWrite v =
    (is_write_fc (decode_mbap_pdu v).function ≡ true) × (is_safety_coil (decode_mbap_pdu v) ≡ false)

-- A request is refused, with the exception response that carries its function code and code 1,
-- exactly when the lock is engaged and it is a write to something other than the safety coil; a
-- refused request leaves the lock as it was, and every other request gets the twelve-byte echo.
pub handle_refuses :
    (locked : Bool) (v : List ℕ)
    → ((locked ≡ true) × IsPlantWrite v
        → handle locked v ≡ (true, encode_exception (decode_mbap_pdu v).function 1))
      × ((¬ ((locked ≡ true) × IsPlantWrite v))
          → (handle locked v).1 ≡ encode_mbap_pdu (decode_mbap_pdu v))
      × ((length (handle locked v).1 ≡ 9) ↔ ((locked ≡ true) × IsPlantWrite v))
unfolding handle encode_exception encode_mbap_pdu
handle_refuses locked v = ground arith

-- The command that a frame carries, by its bytes: function 5, coil FF FF, and the value FF 00 to
-- engage or 00 00 to release.
unfoldable pub command : List ℕ → Option Bool
command v =
    if leb 12 (length v) && get_or v 7 0 == 5 && get_or v 8 0 == 0xff && get_or v 9 0 == 0xff
    then (if get_or v 10 0 == 0xff && get_or v 11 0 == 0x00
        then some true
        else if get_or v 10 0 == 0x00 && get_or v 11 0 == 0x00
        then some false
        else none)
    else none

-- The lock after a request is the one that its command asks for, and without a command it stays.
pub handle-command :
    (locked : Bool) (v : List ℕ) → All IsByte v → (handle locked v).0 ≡ obeying (command v) locked
unfolding handle command decode_mbap_pdu
handle-command locked v h =
    ground (arith, word_at 8, word_at 10, byte_at 8, byte_at 9, byte_at 10, byte_at 11)
  where
    byte_at : (i : ℕ) → IsByte (get_or v i 0)
    byte_at i = All-get_or IsByte v i 0 (omega arith) h

    word_at :
        (i : ℕ)
        → u16 (bit_or (shl (get_or v i 0) 8) (get_or v (i + 1) 0))
          ≡ get_or v i 0 * 256 + get_or v (i + 1) 0
    word_at i = word_lem (get_or v i 0) (get_or v (i + 1) 0) (byte_at i) (byte_at (i + 1))

-- The frame that a connection brings into the buffer.
abbrev pub frame : Connection → List ℕ
frame accept_failed = []
frame read_failed = []
frame (received b bs) = take 256 (b ∷ bs)

abbrev pub AreBytes : Connection → Type 0
AreBytes c = All IsByte (frame c)

-- The last command among the connections.
abbrev pub last_command : List Connection → Option Bool
last_command = last_signal (λ c. command (frame c))

serve_one-command :
    (locked : Bool) (c : Connection)
    → AreBytes c
    → (serve_one locked c).0 ≡ obeying (command (frame c)) locked
unfolding serve_one command
serve_one-command locked accept_failed h = refl
serve_one-command locked read_failed h = refl
serve_one-command locked (received b bs) h = handle-command locked (take 256 (b ∷ bs)) h

-- Over any run of connections that bring bytes, the lock ends as the last command to the safety
-- coil left it, and as it began if there was none.
pub serve-last_command :
    (locked : Bool) (cs : List Connection)
    → All AreBytes cs
    → (serve locked cs).0 ≡ obeying (last_command cs) locked
unfolding serve
serve-last_command locked [] h = refl
serve-last_command locked (c ∷ cs) h =
    serve-last_command (serve_one locked c).0 cs h.1
    ∙ ap (obeying (last_command cs)) (serve_one-command locked c h.0)
    ∙ obeying-last_signal (λ k. command (frame k)) c cs locked

-- A write that reaches the buffer is answered by the exception response.
abbrev pub IsRefused : Connection → Option (List ℕ) → Type 0
IsRefused (received b bs) r =
    IsPlantWrite (take 256 (b ∷ bs))
    → r ≡ some (encode_exception (decode_mbap_pdu (take 256 (b ∷ bs))).function 1)
IsRefused _ r = Unit

abbrev pub Answers :
    (Connection → Option (List ℕ) → Type 0) → List Connection → List (Option (List ℕ)) → Type 0
Answers R [] [] = Unit {0}
Answers R [] (r ∷ rs) = ⊥
Answers R (c ∷ cs) [] = ⊥
Answers R (c ∷ cs) (r ∷ rs) = R c r × Answers R cs rs

locked-IsRefused : (c : Connection) → IsRefused c (serve_one true c).1
unfolding serve_one
locked-IsRefused accept_failed = tt
locked-IsRefused read_failed = tt
locked-IsRefused (received b bs) = λ w.
    ap (λ (r : Bool × List ℕ). some (r.1)) ((handle_refuses true (take 256 (b ∷ bs))).0 (refl, w))

obeying_held : (o : Option Bool) → o ≢ some false → obeying o true ≡ true
obeying_held none h = refl
obeying_held (some true) h = refl
obeying_held (some false) h = absurd (h refl)

-- An engaged lock holds while nobody releases it: over any run of connections without a release
-- command the server stays locked, and it refuses every write to something other than the coil.
pub serve_locked :
    (cs : List Connection)
    → All AreBytes cs
    → All (λ c. command (frame c) ≢ some false) cs
    → ((serve true cs).0 ≡ true) × Answers IsRefused cs (serve true cs).1
unfolding serve
serve_locked [] h n = (refl, tt)
serve_locked (c ∷ cs) h n =
    let still : (serve_one true c).0 ≡ true =
      serve_one-command true c h.0 ∙ obeying_held (command (frame c)) n.0 in
    let rest = serve_locked cs h.1 n.1 in rw still (rest.0, (locked-IsRefused c, rest.1))
