-- ===== src/System/LockOut.antt =====
-- The lock request of PRISM/src/enforcement/enforcer.cpp at the PLC of PRISM_simulator/proto/modbus.
use prism_dev.Common.{ℕ, ◌≡◌, ◌≢◌, refl, arith, Bool, true, false, List, ◌∷◌, some, All, drop}
use prism_dev.Common.Bits.{shr, and_byte}
use prism_dev.Enforcement.{coil_request}
use prism_dev.Simulator.Modbus.{encode_mbap_pdu, decode_mbap_pdu}
use prism_dev.Simulator.Modbus.Server.{Connection, received, serve, serve_one, handle}
use prism_dev.Simulator.Modbus.Lock.{command, frame, AreBytes, Answers, IsRefused, serve_locked}

-- The enforcer's request for a value is, byte for byte, what the simulator encodes for function 5,
-- coil 0xFFFF and that value; with 0xFF00 it engages the lock of the PLC, with 0 it releases it,
-- whatever the lock was, and either is answered by an echo of the request.
pub handle-coil_request :
    (locked : Bool) (value : ℕ)
    → (coil_request value
        ≡ encode_mbap_pdu (record { function = 5; address = 0xffff; value = value }))
      × (handle locked (coil_request 0xff00) ≡ (true, coil_request 0xff00))
      × (handle locked (coil_request 0) ≡ (false, coil_request 0))
unfolding handle coil_request encode_mbap_pdu decode_mbap_pdu
handle-coil_request locked value =
    (ground (arith, and_byte value, and_byte (shr value 8)), refl, refl)

-- The connection on which the enforcer's request arrives.
abbrev pub lock_request : Connection
lock_request = received 0 (drop 1 (coil_request 0xff00))

-- Once the PLC has taken the lock request, whatever the lock was before, then over any later
-- connections that bring bytes, none of them the release command, it stays locked and refuses every
-- write to something other than the safety coil.
pub serve-lock_request :
    (locked : Bool) (cs : List Connection)
    → All AreBytes cs
    → All (λ c. command (frame c) ≢ some false) cs
    → ((serve locked (lock_request ∷ cs)).0 ≡ true)
      × Answers IsRefused (lock_request ∷ cs) (serve locked (lock_request ∷ cs)).1
unfolding serve serve_one handle coil_request decode_mbap_pdu
serve-lock_request locked cs bytes held =
    let later = serve_locked cs bytes held in (later.0, ((λ w. ground arith), later.1))
